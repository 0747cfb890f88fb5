-- ===== src/Mcp/EdgeStore/Durable.antt =====
-- An eviction of src/mcp/EdgeStore.cpp leaves the durable entries alone.
use edge_llm.Base.{
  ℕ, suc, ◌≡◌, sym, ap, ◌∙◌, true, false, ◌&&◌, not, Option, none, some, List, [], ◌∷◌, Bytes,
  beq_refl, arith, All, Option-cases, inl, inr,
}
use edge_llm.Base.Map.{erase, has, keys}
use edge_llm.Hal.Codec.{Kv}
use edge_llm.Hal.Secrets.{SecretStore}
use edge_llm.Mcp.EdgeStore.{
  EdgeStore, Expiry, due_keys, dead_keys, notify, evict_keys, evict_expired, get,
}
use edge_llm.Mcp.EdgeStore.Shape.{has-erase}
use edge_llm.Mcp.EdgeStore.Changes.{durable-erase}
use edge_llm.Mcp.EdgeStore.Mirror.{MirroredBy, Keeps-erase}

-- No durable entry has this key.
abbrev IsUndurable : Kv → Expiry → Bytes → Type 0
IsUndurable m e k = (has k m && not (has k e)) ≡ false

dead_keys_timed :
    (clock : ℕ → ℕ) (m e : Expiry) (n : ℕ)
    → ((k : Bytes) → has k m ≡ true → has k e ≡ true)
    → All (λ k. has k e ≡ true) (dead_keys clock n m)
unfolding dead_keys has
dead_keys_timed clock [] e n h = tt
dead_keys_timed clock ((k, d) ∷ m) e n h =
    ground (arith, dead_keys_timed clock m e (suc n), h k, beq_refl k, h)

pub due_keys_timed : {S : Type 0} (s : EdgeStore S) → All (λ k. has k s.expiry ≡ true) (due_keys s)
unfolding due_keys
due_keys_timed s = elim (Option-cases s.clock) [
  | inl n ↦ rw (n, due_keys) tt
  | inr (clock, e) ↦ rw (e, due_keys) (dead_keys_timed clock s.expiry s.expiry s.reads (λ k h. h))
]

module _ {S : Type 0} (o : SecretStore S) where
  abbrev pub IsMirrored : EdgeStore S → Type 0
  IsMirrored s = MirroredBy o s.values s.expiry s.backend

  erase-MirroredBy :
      (m : Kv) (e : Expiry) (b : Option S) (k : Bytes)
      → IsUndurable m e k
      → MirroredBy o m e b
      → MirroredBy o (erase k m) (erase k e) b
  erase-MirroredBy m e none k u h = tt
  erase-MirroredBy m e (some b) k u h = record {
    kept = Keeps-erase o m e k b h.kept;
    listed = h.listed ∙ ap keys (sym (durable-erase m e k u));
  }

  IsUndurable-erase :
      (dead : List Bytes) (m : Kv) (e : Expiry) (k : Bytes)
      → All (IsUndurable m e) dead
      → All (IsUndurable (erase k m) (erase k e)) dead
  IsUndurable-erase [] m e k a = tt
  IsUndurable-erase (j ∷ dead) m e k a =
      (ground (arith, has-erase m k j, has-erase e k j, a.0), IsUndurable-erase dead m e k a.1)

  evict_keys-IsMirrored :
      (dead : List Bytes) (s : EdgeStore S)
      → All (IsUndurable s.values s.expiry) dead
      → IsMirrored s
      → IsMirrored (evict_keys dead s)
  unfolding evict_keys notify
  evict_keys-IsMirrored [] s a h = h
  evict_keys-IsMirrored (k ∷ dead) s a h =
      evict_keys-IsMirrored dead
        (notify k true (record s { values = erase k s.values; expiry = erase k s.expiry }))
        (IsUndurable-erase dead s.values s.expiry k a.1)
        (erase-MirroredBy s.values s.expiry s.backend k a.0 h)

  All-IsUndurable :
      (dead : List Bytes) (m : Kv) (e : Expiry)
      → All (λ k. has k e ≡ true) dead
      → All (IsUndurable m e) dead
  All-IsUndurable [] m e a = tt
  All-IsUndurable (k ∷ dead) m e a = (ground (arith, a.0), All-IsUndurable dead m e a.1)

  pub evict_expired-IsMirrored : (s : EdgeStore S) → IsMirrored s → IsMirrored (evict_expired s)
  unfolding evict_expired
  evict_expired-IsMirrored s h =
      evict_keys-IsMirrored (due_keys s) (record s { reads = _ })
        (All-IsUndurable (due_keys s) s.values s.expiry (due_keys_timed s)) h

  pub get-IsMirrored : (k : Bytes) (s : EdgeStore S) → IsMirrored s → IsMirrored (get k s).0
  unfolding get
  get-IsMirrored k s h = ground (arith, evict_expired-IsMirrored s h)
