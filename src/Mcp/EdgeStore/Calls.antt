-- ===== src/Mcp/EdgeStore/Calls.antt =====
-- The bounds of src/mcp/EdgeStore.{h,cpp} when a backend may be set at any time: what
-- `setPersistence` loads is not checked as an entry that a client stores is.
use edge_llm.Base.{
  ◌∙◌, subst, ◌≡◌, refl, ◌⊎◌, inl, inr, Option, none, some, List, [], ◌∷◌, Bytes, arith, length,
  ltb, Bool-cases, ℕ,
}
use edge_llm.Base.Map.Sorted.{length-insert}
use edge_llm.Core.{Result}
use edge_llm.Hal.Secrets.{SecretStore}
use edge_llm.Mcp.EdgeStore.{
  EdgeStore, manifest_key, split_lines, load_value, load, load_manifest, set_persistence,
}
use edge_llm.Mcp.EdgeStore.Shape.{HasShape, IsShapedBy, insert-HasShape, nothing-HasShape}
use edge_llm.Mcp.EdgeStore.Caps.{
  caps, set-caps, set_with_ttl-caps, get-caps, remove-caps, set_persistence-caps,
}
use edge_llm.Mcp.EdgeStore.Bounds.{Operation, apply, apply-IsShaped}

-- The calls of a client and of the owner of the store.
pub data Call (S : Type 0) : Type 0 where
  operate : Operation → Call S
  attach : Option S → Call S

module _ {S : Type 0} (o : SecretStore S) where
  abbrev pub call : Call S → EdgeStore S → EdgeStore S
  call (Call.operate op) s = apply o op s
  call (Call.attach b) s = set_persistence o b s

  -- One call after another.
  abbrev pub call_all : List (Call S) → EdgeStore S → EdgeStore S
  call_all [] s = s
  call_all (c ∷ cs) s = call_all cs (call c s)

  -- The backend answers a read of the key with the value.
  abbrev HeldBy : S → Bytes × Bytes → Type 0
  HeldBy b e = o.get e.0 b ≡ Result.ok e.1

  -- A backend that one of the calls sets answers so.
  abbrev pub Gives : List (Call S) → Bytes × Bytes → Type 0
  Gives [] e = ⊥
  Gives (Call.operate op ∷ cs) e = Gives cs e
  Gives (Call.attach none ∷ cs) e = Gives cs e
  Gives (Call.attach (some b) ∷ cs) e = HeldBy b e ⊎ Gives cs e

  module _ {L : Bytes × Bytes → Type 0} where
    load_value-IsShaped :
        (k : Bytes) (r : Result Bytes) (s : EdgeStore S)
        → ((v : Bytes) → r ≡ Result.ok v → L (k, v))
        → IsShapedBy L s
        → IsShapedBy L (load_value k r s)
    unfolding load_value
    load_value-IsShaped k (Result.fail e) s f h = h
    load_value-IsShaped k (Result.ok v) s f h =
        elim (Bool-cases (ltb (length s.values) s.max_keys)) [
          | inl y ↦ rw y (
              insert-HasShape s.max_keys s.max_value_len s.max_key_len k v s.values s.expiry
                (inr (f v refl)) (ground (arith, y, length-insert s.values k v h.ordered)) h)
          | inr n ↦ rw n h
        ]

    load-IsShaped :
        (lines : List Bytes) (b : S) (s : EdgeStore S)
        → ((e : Bytes × Bytes) → HeldBy b e → L e)
        → IsShapedBy L s
        → IsShapedBy L (load o lines b s)
    unfolding load
    load-IsShaped [] b s f h = h
    load-IsShaped (k ∷ lines) b s f h =
        load-IsShaped lines b (load_value k (o.get k b) s) f
          (load_value-IsShaped k (o.get k b) s (λ v e. f (k, v) e) h)

    load_manifest-IsShaped :
        (r : Result Bytes) (b : S) (s : EdgeStore S)
        → ((e : Bytes × Bytes) → HeldBy b e → L e)
        → IsShapedBy L s
        → IsShapedBy L (load_manifest o r b s)
    unfolding load_manifest
    load_manifest-IsShaped (Result.fail e) b s f h = h
    load_manifest-IsShaped (Result.ok m) b s f h = load-IsShaped (split_lines m) b s f h

    call-IsShaped :
        (c : Call S) (cs : List (Call S)) (s : EdgeStore S)
        → ((e : Bytes × Bytes) → Gives (c ∷ cs) e → L e)
        → IsShapedBy L s
        → IsShapedBy L (call c s)
    unfolding set_persistence
    call-IsShaped (Call.operate op) cs s f h = apply-IsShaped o op s h
    call-IsShaped (Call.attach none) cs s f h = h
    call-IsShaped (Call.attach (some b)) cs s f h =
        load_manifest-IsShaped (o.get manifest_key b) b (record s { backend = some b })
          (λ e g. f e (inl g)) h

    Gives-rest :
        (c : Call S) (cs : List (Call S))
        → ((e : Bytes × Bytes) → Gives (c ∷ cs) e → L e)
        → (e : Bytes × Bytes) → Gives cs e
        → L e
    Gives-rest (Call.operate op) cs f e g = f e g
    Gives-rest (Call.attach none) cs f e g = f e g
    Gives-rest (Call.attach (some b)) cs f e g = f e (inr g)

    call_all-IsShaped :
        (cs : List (Call S)) (s : EdgeStore S)
        → ((e : Bytes × Bytes) → Gives cs e → L e)
        → IsShapedBy L s
        → IsShapedBy L (call_all cs s)
    call_all-IsShaped [] s f h = h
    call_all-IsShaped (c ∷ cs) s f h =
        call_all-IsShaped cs (call c s) (Gives-rest c cs f) (call-IsShaped c cs s f h)

  call-caps : (c : Call S) (s : EdgeStore S) → caps (call c s) ≡ caps s
  call-caps (Call.operate (Operation.put k v)) s = set-caps o k v s
  call-caps (Call.operate (Operation.put_with_ttl k v ttl)) s = set_with_ttl-caps o k v ttl s
  call-caps (Call.operate (Operation.read k)) s = get-caps k s
  call-caps (Call.operate (Operation.delete k)) s = remove-caps o k s
  call-caps (Call.attach b) s = set_persistence-caps o b s

  call_all-caps : (cs : List (Call S)) (s : EdgeStore S) → caps (call_all cs s) ≡ caps s
  call_all-caps [] s = refl
  call_all-caps (c ∷ cs) s = call_all-caps cs (call c s) ∙ call-caps c s

  -- From a store without entries, by any sequence of `set`, `setWithTtl`, `get`, `remove` and
  -- `setPersistence`, whatever the backends answer and the clock reads: there are at most as many
  -- entries as the cap that the store was made with, both maps are in order, only stored keys have a
  -- deadline, and each entry keeps the caps on keys and values that the store was made with, with a
  -- key of one line that is not empty or reserved, unless a backend set by one of the calls answers a
  -- read of its key with its value.
  pub call_all-HasShape :
      (cs : List (Call S)) (s : EdgeStore S)
      → s.values ≡ []
      → s.expiry ≡ []
      → HasShape
          (Gives cs)
          s.max_keys
          s.max_value_len
          s.max_key_len
          (call_all cs s).values
          (call_all cs s).expiry
  call_all-HasShape cs s no_values no_expiry =
      let empty : IsShapedBy (Gives cs) s =
        rw (no_values, no_expiry) (nothing-HasShape s.max_keys s.max_value_len s.max_key_len) in
      subst
        (λ (c : ℕ × (ℕ × ℕ)).
          HasShape (Gives cs) c.0 c.1.0 c.1.1 (call_all cs s).values (call_all cs s).expiry)
        (call_all-caps cs s) (call_all-IsShaped cs s (λ e g. g) empty)
