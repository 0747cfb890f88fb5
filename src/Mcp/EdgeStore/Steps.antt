-- ===== src/Mcp/EdgeStore/Steps.antt =====
-- The calls of src/mcp/EdgeStore.cpp keep the backend in step with the durable entries.
use edge_llm.Base.{
  ℕ, suc, ◌+◌, ◌%◌, ◌^◌, ◌≡◌, refl, sym, ap, ◌∙◌, true, false, ◌&&◌, not, ◌||◌, Option, none, some,
  List, [], ◌∷◌, Bytes, beq, beq_refl, arith, Bool-cases, Option-cases, inl, inr,
}
use edge_llm.Base.Map.{insert, erase, has, keys}
use edge_llm.Base.Map.Sorted.{IsSorted}
use edge_llm.Hal.Codec.{Kv}
use edge_llm.Hal.Secrets.{SecretStore, IsSecretStore}
use edge_llm.Mcp.EdgeStore.{
  EdgeStore, Expiry, manifest_key, notify, evict_expired, persist_manifest, update_manifest,
  set_kept, set_durable, set_stored, set, forget, drop_persisted, ttl_stored, set_with_ttl, remove,
}
use edge_llm.Mcp.EdgeStore.Shape.{
  fields-IsStorable, IsStorable, IsShaped, has-insert, has-erase, validate_and_store_cases,
  evict_expired-IsShaped, insert-HasShape, erase-HasShape, untimed-HasShape, timed-HasShape,
}
use edge_llm.Mcp.EdgeStore.Changes.{durable-insert_kept, durable-insert_timed}
use edge_llm.Mcp.EdgeStore.Mirror.{
  IsReliable, Keeps, MirroredBy, persist-Mirrors, Keeps-set, Keeps-remove, listed_keys-set,
  Keeps-insert_timed, Keeps-erase,
}
use edge_llm.Mcp.EdgeStore.Durable.{IsMirrored, evict_expired-IsMirrored, get-IsMirrored}
use edge_llm.Mcp.EdgeStore.Bounds.{Operation, apply, apply_all, apply-IsShaped}

module _ {S : Type 0} (o : SecretStore S) {Valid : S → Type 0} (law : IsSecretStore Valid o)
    (r : IsReliable o) where
  persist_manifest-IsMirrored :
      (s : EdgeStore S) (b : S)
      → IsShaped s
      → s.backend ≡ some b
      → Keeps o s.values s.expiry b
      → IsMirrored o (persist_manifest o s)
  unfolding persist_manifest
  persist_manifest-IsMirrored s b i e h = rw e (
      persist-Mirrors o law r s.max_key_len s.max_value_len s.values s.expiry b
        (fields-IsStorable s i) h)

  -- `set` from the backend on: `m` and `e` are the maps before it.
  set_durable-IsMirrored :
      (k v : Bytes) (m : Kv) (e : Expiry) (s : EdgeStore S) (b : Option S)
      → s.values ≡ insert k v m
      → s.expiry ≡ erase k e
      → s.backend ≡ b
      → IsShaped s
      → IsStorable s.max_key_len s.max_value_len (k, v)
      → IsSorted m
      → MirroredBy o m e b
      → IsMirrored o (set_durable o k v (not (has k m) || has k e) s b).0
  unfolding set_durable notify set_kept update_manifest
  set_durable-IsMirrored k v m e s none p q n i f d h = rw n tt
  set_durable-IsMirrored k v m e s (some b) p q n i f d h =
      let after : EdgeStore S = record s { backend = some (o.set k v b).0 } in
      let keeps : Keeps o s.values s.expiry (o.set k v b).0 =
        rw (p, q) (Keeps-set o law r m e k v b f.nonempty h.kept) in
      elim (Bool-cases (not (has k m) || has k e)) [
        | inl y ↦
            rw (r.set_ok k v b f.nonempty, y)
              (persist_manifest-IsMirrored after (o.set k v b).0 i refl keeps)
        | inr y ↦
            rw (r.set_ok k v b f.nonempty, y)
              (record {
                kept = keeps;
                listed =
                    rw (p, q)
                      (listed_keys-set o law r k v b f.nonempty f.unreserved
                        ∙ h.listed
                        ∙ sym (durable-insert_kept m e k v d (ground arith) (ground arith)));
              })
      ]

  set-IsMirrored :
      (k v : Bytes) (s : EdgeStore S) → IsShaped s → IsMirrored o s → IsMirrored o (set o k v s).0
  unfolding set set_stored
  set-IsMirrored k v s h m =
      let t = evict_expired s in
      let i : IsShaped t = evict_expired-IsShaped s h in
      let n : IsMirrored o t = evict_expired-IsMirrored o s m in
      elim (validate_and_store_cases k v t i) [
        | inl a ↦
            rw (a.stored, set)
              (set_durable-IsMirrored k v t.values t.expiry
                (record t { values = insert k v t.values; expiry = erase k t.expiry }) t.backend
                refl refl refl
                (untimed-HasShape t.max_keys t.max_value_len t.max_key_len k (insert k v t.values)
                  t.expiry
                  (insert-HasShape t.max_keys t.max_value_len t.max_key_len k v t.values t.expiry
                    (inl a.storable) a.room i))
                a.storable i.ordered n)
        | inr (e, f) ↦ rw (f, set) n
      ]

  abbrev KeptBy : Kv → Expiry → Option S → Type 0
  KeptBy m e none = Unit
  KeptBy m e (some b) = Keeps o m e b

  forget-IsMirrored :
      (k : Bytes) (s : EdgeStore S) (b : Option S)
      → s.backend ≡ b
      → IsShaped s
      → (has k s.values && not (has k s.expiry)) ≡ false
      → KeptBy s.values s.expiry b
      → IsMirrored o (forget o k s)
  unfolding forget
  forget-IsMirrored k s none e i u h = rw e tt
  forget-IsMirrored k s (some c) e i u h = rw e (
      persist-Mirrors o law r s.max_key_len s.max_value_len s.values s.expiry (o.remove k c).0
        (fields-IsStorable s i) (Keeps-remove o law r s.values s.expiry k c u h))

  -- `setWithTtl` from the stored entry on.
  drop_persisted-IsMirrored :
      (k v : Bytes) (d : ℕ) (m : Kv) (e : Expiry) (s : EdgeStore S) (b : Option S)
      → s.values ≡ insert k v m
      → s.expiry ≡ insert k d e
      → s.backend ≡ b
      → IsShaped s
      → MirroredBy o m e b
      → IsMirrored o (drop_persisted o (has k m && not (has k e)) k s)
  unfolding drop_persisted
  drop_persisted-IsMirrored k v d m e s none p q n i h =
      let timed : has k s.expiry ≡ true = rw (q, has-insert e k k d, beq_refl k) refl in
      elim (Bool-cases (has k m && not (has k e))) [
        | inl y ↦ rw y (forget-IsMirrored k s none n i (ground (arith, timed)) tt)
        | inr y ↦ rw (y, n) tt
      ]
  drop_persisted-IsMirrored k v d m e s (some c) p q n i h =
      let timed : has k s.expiry ≡ true = rw (q, has-insert e k k d, beq_refl k) refl in
      let keeps : Keeps o s.values s.expiry c =
        rw (p, q) (Keeps-insert_timed o m e k v d c h.kept) in
      elim (Bool-cases (has k m && not (has k e))) [
        | inl y ↦ rw y (forget-IsMirrored k s (some c) n i (ground (arith, timed)) keeps)
        | inr y ↦
            rw (y, n)
              (record {
                kept = keeps;
                listed = rw (p, q) (h.listed ∙ ap keys (sym (durable-insert_timed m e k v d y)));
              })
      ]

  set_with_ttl-IsMirrored :
      (k v : Bytes) (ttl : ℕ) (s : EdgeStore S)
      → IsShaped s
      → IsMirrored o s
      → IsMirrored o (set_with_ttl o k v ttl s).0
  unfolding set_with_ttl ttl_stored notify
  set_with_ttl-IsMirrored k v ttl s h m =
      let t = evict_expired s in
      let i : IsShaped t = evict_expired-IsShaped s h in
      let n : IsMirrored o t = evict_expired-IsMirrored o s m in
      elim (Option-cases s.clock) [
        | inl c ↦ rw (c, set_with_ttl) m
        | inr (clock, c) ↦ elim (validate_and_store_cases k v t i) [
          | inl a ↦
              let d = (clock t.reads + ttl) % 2 ^ 32 in
              let new =
                insert-HasShape t.max_keys t.max_value_len t.max_key_len k v t.values t.expiry
                  (inl a.storable) a.room i in
              let there : has k (insert k v t.values) ≡ true =
                rw (has-insert t.values k k v, beq_refl k) refl in
              rw (c, set_with_ttl, a.stored)
                (drop_persisted-IsMirrored k v d t.values t.expiry
                  (record t {
                    values = insert k v t.values;
                    expiry = insert k d t.expiry;
                    reads = suc t.reads;
                  })
                  t.backend refl refl refl
                  (timed-HasShape t.max_keys t.max_value_len t.max_key_len k d (insert k v t.values)
                    t.expiry there new)
                  n)
          | inr (f, q) ↦ rw (c, set_with_ttl, q) n
        ]
      ]

  erase-KeptBy :
      (m : Kv) (e : Expiry) (b : Option S) (k : Bytes)
      → MirroredBy o m e b
      → KeptBy (erase k m) (erase k e) b
  erase-KeptBy m e none k h = tt
  erase-KeptBy m e (some c) k h = Keeps-erase o m e k c h.kept

  remove-IsMirrored :
      (k : Bytes) (s : EdgeStore S) → IsShaped s → IsMirrored o s → IsMirrored o (remove o k s).0
  unfolding remove notify
  remove-IsMirrored k s h m =
      let t = evict_expired s in
      let i : IsShaped t = evict_expired-IsShaped s h in
      let n : IsMirrored o t = evict_expired-IsMirrored o s m in
      let gone : EdgeStore S = record t { values = erase k t.values; expiry = erase k t.expiry } in
      let j : IsShaped gone =
        erase-HasShape t.max_keys t.max_value_len t.max_key_len k t.values t.expiry i in
      let u : (has k gone.values && not (has k gone.expiry)) ≡ false =
        ground (arith, has-erase t.values k k, beq_refl k) in
      elim (Bool-cases (beq k manifest_key)) [
        | inl y ↦ rw (y, remove) m
        | inr y ↦ elim (Bool-cases (has k t.values)) [
          | inl z ↦
              rw (y, z, remove)
                (forget-IsMirrored k gone t.backend refl j u
                  (erase-KeptBy t.values t.expiry t.backend k n))
          | inr z ↦ rw (y, z, remove) n
        ]
      ]

  apply-IsMirrored :
      (op : Operation) (s : EdgeStore S) → IsShaped s → IsMirrored o s → IsMirrored o (apply o op s)
  apply-IsMirrored (Operation.put k v) s h m = set-IsMirrored k v s h m
  apply-IsMirrored (Operation.put_with_ttl k v ttl) s h m = set_with_ttl-IsMirrored k v ttl s h m
  apply-IsMirrored (Operation.read k) s h m = get-IsMirrored o k s m
  apply-IsMirrored (Operation.delete k) s h m = remove-IsMirrored k s h m

  -- Over a backend that keeps the contract and never refuses: from a store that is in shape and
  -- that the backend, if there is one, mirrors, after any sequence of calls the backend has the
  -- value of each entry without a deadline, and its manifest lists exactly their keys, in order.
  pub apply_all-IsMirrored :
      (ops : List Operation) (s : EdgeStore S)
      → IsShaped s
      → IsMirrored o s
      → IsMirrored o (apply_all o ops s)
  apply_all-IsMirrored [] s h m = m
  apply_all-IsMirrored (op ∷ ops) s h m =
      apply_all-IsMirrored ops (apply o op s) (apply-IsShaped o op s h) (apply-IsMirrored op s h m)
