-- ===== src/Mcp/EdgeStore/Bounds.antt =====
-- The bounds of src/mcp/EdgeStore.cpp hold after every call.
use edge_llm.Base.{
  ℕ, suc, ◌+◌, ◌≡◌, refl, Bool, true, false, Option, none, some, List, [], ◌∷◌, Bytes, beq,
  beq_refl, ◌^◌, ◌%◌, Bool-cases, Option-cases, inl, inr, not, ◌&&◌, ◌||◌,
}
use edge_llm.Base.Map.{insert, erase, has}
use edge_llm.Core.{Status}
use edge_llm.Hal.Secrets.{SecretStore}
use edge_llm.Mcp.EdgeStore.{
  EdgeStore, manifest_key, notify, evict_expired, persist_manifest, update_manifest, set_kept,
  set_stored, drop_persisted, ttl_stored, set_durable, forget, set, set_with_ttl, remove, get,
}
use edge_llm.Mcp.EdgeStore.Shape.{
  IsShaped, IsShapedBy, has-insert, validate_and_store_cases, evict_expired-IsShaped, get-IsShaped,
  timed-HasShape, untimed-HasShape, insert-HasShape, erase-HasShape,
}

-- The calls of a client.
pub data Operation : Type 0 where
  put : Bytes → Bytes → Operation
  put_with_ttl : Bytes → Bytes → ℕ → Operation
  read : Bytes → Operation
  delete : Bytes → Operation

module _ {S : Type 0} (o : SecretStore S) where
  abbrev pub apply : Operation → EdgeStore S → EdgeStore S
  apply (Operation.put k v) s = (set o k v s).0
  apply (Operation.put_with_ttl k v ttl) s = (set_with_ttl o k v ttl s).0
  apply (Operation.read k) s = (get k s).0
  apply (Operation.delete k) s = (remove o k s).0

  -- One call after another.
  abbrev pub apply_all : List Operation → EdgeStore S → EdgeStore S
  apply_all [] s = s
  apply_all (op ∷ ops) s = apply_all ops (apply op s)

  module _ {L : Bytes × Bytes → Type 0} where
    set_kept-IsShaped :
        (k : Bytes) (c : Bool) (s : EdgeStore S) (st : Status)
        → IsShapedBy L s
        → IsShapedBy L (set_kept o k c s st).0
    unfolding set_kept notify update_manifest persist_manifest
    set_kept-IsShaped k c s (Status.fail e) h = h
    set_kept-IsShaped k true s Status.ok h = h
    set_kept-IsShaped k false s Status.ok h = h

    set_durable-IsShaped :
        (k v : Bytes) (c : Bool) (s : EdgeStore S) (b : Option S)
        → IsShapedBy L s
        → IsShapedBy L (set_durable o k v c s b).0
    unfolding set_durable notify
    set_durable-IsShaped k v c s none h = h
    set_durable-IsShaped k v c s (some b) h =
        set_kept-IsShaped k c (record s { backend = some (o.set k v b).0 }) (o.set k v b).1 h

    set-IsShaped : (k v : Bytes) (s : EdgeStore S) → IsShapedBy L s → IsShapedBy L (set o k v s).0
    unfolding set set_stored
    set-IsShaped k v s h =
        let t = evict_expired s in
        let i : IsShapedBy L t = evict_expired-IsShaped s h in
        let changed = not (has k t.values) || has k t.expiry in
        elim (validate_and_store_cases k v t i) [
          | inl a ↦
              rw (a.stored, set)
                (set_durable-IsShaped k v changed
                  (record t { values = insert k v t.values; expiry = erase k t.expiry }) t.backend
                  (untimed-HasShape t.max_keys t.max_value_len t.max_key_len k (insert k v t.values)
                    t.expiry
                    (insert-HasShape t.max_keys t.max_value_len t.max_key_len k v t.values t.expiry
                      (inl a.storable) a.room i)))
          | inr (e, f) ↦ rw (f, set) i
        ]

    drop_persisted-IsShaped :
        (b : Bool) (k : Bytes) (s : EdgeStore S)
        → IsShapedBy L s
        → IsShapedBy L (drop_persisted o b k s)
    unfolding drop_persisted forget persist_manifest
    drop_persisted-IsShaped true k s h = h
    drop_persisted-IsShaped false k s h = h

    ttl_stored-IsShaped :
        (k : Bytes) (ttl : ℕ) (clock : ℕ → ℕ) (b : Bool) (s : EdgeStore S) (st : Status)
        → has k s.values ≡ true
        → IsShapedBy L s
        → IsShapedBy L (ttl_stored o k ttl clock b (s, st)).0
    unfolding ttl_stored notify
    ttl_stored-IsShaped k ttl clock b s (Status.fail e) i h = h
    ttl_stored-IsShaped k ttl clock b s Status.ok i h =
        let deadline = (clock s.reads + ttl) % 2 ^ 32 in
        let timed : EdgeStore S = record s {
          expiry = insert k deadline s.expiry;
          reads = suc s.reads;
        } in
        drop_persisted-IsShaped b k timed
          (timed-HasShape s.max_keys s.max_value_len s.max_key_len k deadline s.values s.expiry i h)

    set_with_ttl-IsShaped :
        (k v : Bytes) (ttl : ℕ) (s : EdgeStore S)
        → IsShapedBy L s
        → IsShapedBy L (set_with_ttl o k v ttl s).0
    unfolding set_with_ttl ttl_stored
    set_with_ttl-IsShaped k v ttl s h =
        let t = evict_expired s in
        let i : IsShapedBy L t = evict_expired-IsShaped s h in
        let b = has k t.values && not (has k t.expiry) in
        elim (Option-cases s.clock) [
          | inl n ↦ rw (n, set_with_ttl) h
          | inr (clock, e) ↦ elim (validate_and_store_cases k v t i) [
            | inl a ↦
                rw (e, set_with_ttl, a.stored)
                  (ttl_stored-IsShaped k ttl clock b (record t { values = insert k v t.values })
                    Status.ok (rw (has-insert t.values k k v, beq_refl k) refl)
                    (insert-HasShape t.max_keys t.max_value_len t.max_key_len k v t.values t.expiry
                      (inl a.storable) a.room i))
            | inr (f, r) ↦ rw (e, set_with_ttl, r) i
          ]
        ]

    remove-IsShaped : (k : Bytes) (s : EdgeStore S) → IsShapedBy L s → IsShapedBy L (remove o k s).0
    unfolding remove forget notify persist_manifest
    remove-IsShaped k s h =
        let t = evict_expired s in
        let i : IsShapedBy L t = evict_expired-IsShaped s h in
        let j = erase-HasShape t.max_keys t.max_value_len t.max_key_len k t.values t.expiry i in
        elim (Bool-cases (beq k manifest_key)) [
          | inl y ↦ rw (y, remove) h
          | inr n ↦ elim (Bool-cases (has k t.values)) [
            | inl y ↦ rw (n, y, remove) j
            | inr m ↦ rw (n, m, remove) i
          ]
        ]

    pub apply-IsShaped :
        (op : Operation) (s : EdgeStore S) → IsShapedBy L s → IsShapedBy L (apply op s)
    apply-IsShaped (Operation.put k v) s h = set-IsShaped k v s h
    apply-IsShaped (Operation.put_with_ttl k v ttl) s h = set_with_ttl-IsShaped k v ttl s h
    apply-IsShaped (Operation.read k) s h = get-IsShaped k s h
    apply-IsShaped (Operation.delete k) s h = remove-IsShaped k s h

  -- From a store in shape, the bounds, the order of the maps and the keys of the deadlines are kept
  -- by any sequence of calls, whatever the backend answers and the clock reads.
  pub apply_all-IsShaped :
      (ops : List Operation) (s : EdgeStore S) → IsShaped s → IsShaped (apply_all ops s)
  apply_all-IsShaped [] s h = h
  apply_all-IsShaped (op ∷ ops) s h = apply_all-IsShaped ops (apply op s) (apply-IsShaped op s h)
