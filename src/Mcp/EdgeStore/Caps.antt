-- ===== src/Mcp/EdgeStore/Caps.antt =====
-- No call of src/mcp/EdgeStore.cpp changes the bounds that the constructor sets.
use edge_llm.Base.{
  inl, inr, ℕ, ◌≡◌, refl, ◌∙◌, Bool, true, false, Option, none, some, List, [], ◌∷◌, Bytes, arith,
  Option-cases,
}
use edge_llm.Base.Map.{erase}
use edge_llm.Core.{Result, Status}
use edge_llm.Hal.Secrets.{SecretStore}
use edge_llm.Mcp.EdgeStore.{
  EdgeStore, manifest_key, split_lines, load_value, load, load_manifest, set_persistence, notify,
  evict_keys, evict_expired, due_keys, validate_and_store, persist_manifest, update_manifest,
  set_kept, set_durable, set_stored, set, forget, drop_persisted, ttl_stored, set_with_ttl, remove,
  get,
}

-- The bounds of a store.
abbrev pub caps : {S : Type 0} → EdgeStore S → ℕ × (ℕ × ℕ)
caps s = (s.max_keys, (s.max_value_len, s.max_key_len))

module _ {S : Type 0} where
  evict_keys-caps : (dead : List Bytes) (s : EdgeStore S) → caps (evict_keys dead s) ≡ caps s
  unfolding evict_keys notify
  evict_keys-caps [] s = refl
  evict_keys-caps (k ∷ dead) s =
      evict_keys-caps dead
        (notify k true (record s { values = erase k s.values; expiry = erase k s.expiry }))

  evict_expired-caps : (s : EdgeStore S) → caps (evict_expired s) ≡ caps s
  unfolding evict_expired
  evict_expired-caps s = evict_keys-caps (due_keys s) (record s { reads = _ })

  pub get-caps : (k : Bytes) (s : EdgeStore S) → caps (get k s).0 ≡ caps s
  unfolding get
  get-caps k s = ground (arith, evict_expired-caps s)

  validate_and_store-caps :
      (k v : Bytes) (s : EdgeStore S) → caps (validate_and_store k v s).0 ≡ caps s
  unfolding validate_and_store
  validate_and_store-caps k v s = ground arith

  load_value-caps :
      (k : Bytes) (r : Result Bytes) (s : EdgeStore S) → caps (load_value k r s) ≡ caps s
  unfolding load_value
  load_value-caps k (Result.fail e) s = refl
  load_value-caps k (Result.ok v) s = ground arith

  module _ (o : SecretStore S) where
    set_stored-caps :
        (k v : Bytes) (c : Bool) (p : EdgeStore S × Status)
        → caps (set_stored o k v c p).0 ≡ caps p.0
    unfolding set_stored set_durable set_kept update_manifest persist_manifest notify
    set_stored-caps k v c (s, Status.fail e) = refl
    set_stored-caps k v c (s, Status.ok) = ground arith

    pub set-caps : (k v : Bytes) (s : EdgeStore S) → caps (set o k v s).0 ≡ caps s
    unfolding set
    set-caps k v s =
        set_stored-caps k v _ (validate_and_store k v (evict_expired s))
        ∙ validate_and_store-caps k v (evict_expired s)
        ∙ evict_expired-caps s

    ttl_stored-caps :
        (k : Bytes) (ttl : ℕ) (clock : ℕ → ℕ) (b : Bool) (p : EdgeStore S × Status)
        → caps (ttl_stored o k ttl clock b p).0 ≡ caps p.0
    unfolding ttl_stored drop_persisted forget persist_manifest notify
    ttl_stored-caps k ttl clock b (s, Status.fail e) = refl
    ttl_stored-caps k ttl clock true (s, Status.ok) = refl
    ttl_stored-caps k ttl clock false (s, Status.ok) = refl

    pub set_with_ttl-caps :
        (k v : Bytes) (ttl : ℕ) (s : EdgeStore S) → caps (set_with_ttl o k v ttl s).0 ≡ caps s
    unfolding set_with_ttl
    set_with_ttl-caps k v ttl s = elim (Option-cases s.clock) [
      | inl n ↦ rw (n, set_with_ttl) refl
      | inr (clock, e) ↦
          rw (e, set_with_ttl)
            (ttl_stored-caps k ttl clock _ (validate_and_store k v (evict_expired s))
              ∙ validate_and_store-caps k v (evict_expired s)
              ∙ evict_expired-caps s)
    ]

    pub remove-caps : (k : Bytes) (s : EdgeStore S) → caps (remove o k s).0 ≡ caps s
    unfolding remove forget notify persist_manifest
    remove-caps k s = ground (arith, evict_expired-caps s)

    load-caps : (lines : List Bytes) (b : S) (s : EdgeStore S) → caps (load o lines b s) ≡ caps s
    unfolding load
    load-caps [] b s = refl
    load-caps (k ∷ lines) b s = load-caps lines b _ ∙ load_value-caps k (o.get k b) s

    load_manifest-caps :
        (r : Result Bytes) (b : S) (s : EdgeStore S) → caps (load_manifest o r b s) ≡ caps s
    unfolding load_manifest
    load_manifest-caps (Result.fail e) b s = refl
    load_manifest-caps (Result.ok m) b s = load-caps (split_lines m) b s

    pub set_persistence-caps :
        (b : Option S) (s : EdgeStore S) → caps (set_persistence o b s) ≡ caps s
    unfolding set_persistence
    set_persistence-caps none s = refl
    set_persistence-caps (some b) s =
        load_manifest-caps (o.get manifest_key b) b (record s { backend = some b })
