-- ===== src/Mcp/EdgeStore/Reads.antt =====
-- What `get` of src/mcp/EdgeStore.cpp finds after a `set`.
use edge_llm.Base.{
  ◌≡◌, refl, ◌∙◌, Bool, true, false, Option, none, some, List, [], ◌∷◌, Bytes, beq, beq_iff,
  beq_refl, arith, All, inl, inr,
}
use edge_llm.Base.Map.{insert, erase, has, lookup}
use edge_llm.Base.Map.Laws.{lookup-insert, lookup-erase}
use edge_llm.Core.{Error, Status, Result}
use edge_llm.Hal.Secrets.{SecretStore}
use edge_llm.Mcp.EdgeStore.{
  EdgeStore, due_keys, notify, evict_keys, evict_expired, validate_and_store, persist_manifest,
  update_manifest, set_kept, set_durable, set_stored, set, get,
}
use edge_llm.Mcp.EdgeStore.Shape.{
  IsShaped, IsAccepted, has-erase, validate_and_store_cases, evict_expired-IsShaped,
}
use edge_llm.Mcp.EdgeStore.Durable.{due_keys_timed}

module _ {S : Type 0} where
  -- The entry of a key without a deadline is as it was.
  record IsUntouched (k : Bytes) (s t : EdgeStore S) : Type 0 where
    value : lookup k t.values ≡ lookup k s.values
    untimed : has k t.expiry ≡ false
    backend : t.backend ≡ s.backend

  evict_keys-IsUntouched :
      (dead : List Bytes) (k : Bytes) (s : EdgeStore S)
      → All (λ d. beq k d ≡ false) dead
      → has k s.expiry ≡ false
      → IsUntouched k s (evict_keys dead s)
  unfolding evict_keys notify
  evict_keys-IsUntouched [] k s a h = record { value = refl; untimed = h; backend = refl }
  evict_keys-IsUntouched (d ∷ dead) k s a h =
      let next : EdgeStore S =
        notify d true (record s { values = erase d s.values; expiry = erase d s.expiry }) in
      let gone : has k (erase d s.expiry) ≡ false = ground (arith, has-erase s.expiry d k) in
      let ih = evict_keys-IsUntouched dead k next a.1 gone in
      record {
        value = ih.value ∙ ground (arith, lookup-erase s.values d k, a.0);
        untimed = ih.untimed;
        backend = ih.backend;
      }

  All_apart :
      (dead : List Bytes) (k : Bytes) (s : EdgeStore S)
      → All (λ d. has d s.expiry ≡ true) dead
      → has k s.expiry ≡ false
      → All (λ d. beq k d ≡ false) dead
  All_apart [] k s a h = tt
  All_apart (d ∷ dead) k s a h = (ground (arith, beq_iff k d, a.0), All_apart dead k s a.1 h)

  evict_expired-IsUntouched :
      (k : Bytes) (s : EdgeStore S) → has k s.expiry ≡ false → IsUntouched k s (evict_expired s)
  unfolding evict_expired
  evict_expired-IsUntouched k s h =
      let u =
        evict_keys-IsUntouched (due_keys s) k (record s { reads = _ })
          (All_apart (due_keys s) k s (due_keys_timed s) h) h in
      record { value = u.value; untimed = u.untimed; backend = u.backend }

  get_untimed :
      (k v : Bytes) (s : EdgeStore S)
      → lookup k s.values ≡ some v
      → has k s.expiry ≡ false
      → (get k s).1 ≡ Result.ok v
  unfolding get
  get_untimed k v s l h =
      let u = evict_expired-IsUntouched k s h in let found = u.value ∙ l in rw (found, get) refl

module _ {S : Type 0} (o : SecretStore S) where
  set_kept_maps :
      (k : Bytes) (c : Bool) (s : EdgeStore S) (q : Status)
      → ((set_kept o k c s q).0.values ≡ s.values) × ((set_kept o k c s q).0.expiry ≡ s.expiry)
  unfolding set_kept notify update_manifest persist_manifest
  set_kept_maps k c s (Status.fail e) = (refl, refl)
  set_kept_maps k true s Status.ok = (refl, refl)
  set_kept_maps k false s Status.ok = (refl, refl)

  set_durable_maps :
      (k v : Bytes) (c : Bool) (s : EdgeStore S) (b : Option S)
      → ((set_durable o k v c s b).0.values ≡ s.values)
        × ((set_durable o k v c s b).0.expiry ≡ s.expiry)
  unfolding set_durable notify
  set_durable_maps k v c s none = (refl, refl)
  set_durable_maps k v c s (some b) =
      set_kept_maps k c (record s { backend = some (o.set k v b).0 }) (o.set k v b).1

  set_maps :
      (k v : Bytes) (s : EdgeStore S)
      → IsAccepted k v (evict_expired s)
      → ((set o k v s).0.values ≡ insert k v (evict_expired s).values)
        × ((set o k v s).0.expiry ≡ erase k (evict_expired s).expiry)
  unfolding set set_stored
  set_maps k v s a = rw (a.stored, set) (set_durable_maps k v _ _ _)

  -- An accepted value is what `get` finds, whatever the backend answered, and however the clock
  -- moves.
  get-set_accepted :
      (k v : Bytes) (s : EdgeStore S)
      → IsAccepted k v (evict_expired s)
      → (get k (set o k v s).0).1 ≡ Result.ok v
  get-set_accepted k v s a =
      let t = evict_expired s in
      let (p, q) = set_maps k v s a in
      get_untimed k v (set o k v s).0
        (rw p (ground (arith, lookup-insert t.values k k v, beq_refl k)))
        (rw q (ground (arith, has-erase t.expiry k k, beq_refl k)))

  set_refused :
      (k v : Bytes) (s : EdgeStore S) (e : Error)
      → validate_and_store k v (evict_expired s) ≡ (evict_expired s, Status.fail e)
      → set o k v s ≡ (evict_expired s, Status.fail e)
  unfolding set set_stored
  set_refused k v s e f = rw (f, set) refl

  set_ok-IsAccepted :
      (k v : Bytes) (s : EdgeStore S)
      → IsShaped s
      → (set o k v s).1 ≡ Status.ok
      → IsAccepted k v (evict_expired s)
  set_ok-IsAccepted k v s h ok =
      let t = evict_expired s in
      elim (validate_and_store_cases k v t (evict_expired-IsShaped s h)) [
        | inl a ↦ a
        | inr (e, f) ↦ ground (arith, set_refused k v s e f)
      ]

  -- In a store in shape, after a `set` that succeeds `get` finds the value, however the clock
  -- moves.
  pub get-set :
      (k v : Bytes) (s : EdgeStore S)
      → IsShaped s
      → (set o k v s).1 ≡ Status.ok
      → (get k (set o k v s).0).1 ≡ Result.ok v
  get-set k v s h ok = get-set_accepted k v s (set_ok-IsAccepted k v s h ok)
