-- ===== src/Mcp/EdgeStore/Restore.antt =====
-- `EdgeStore::setPersistence` of src/mcp/EdgeStore.cpp loads what an earlier run kept.
use edge_llm.Base.{
  ◌+◌, ◌≤◌, ◌<◌, ◌≡◌, refl, sym, ap, ◌∙◌, subst, some, List, [], ◌∷◌, ◌++◌, append-nil,
  append_assoc, Bytes, beq_refl, arith, length, length-append, All,
}
use edge_llm.Base.Map.{lookup, keys}
use edge_llm.Base.Map.Order.{cmp-gt_of_lt, beq_of_gt}
use edge_llm.Base.Map.Sorted.{IsSorted, Above, Below, insert_last, IsSorted-Below}
use edge_llm.Core.{Result}
use edge_llm.Hal.Codec.{Kv}
use edge_llm.Hal.Secrets.{SecretStore, IsSecretStore}
use edge_llm.Mcp.EdgeStore.{
  EdgeStore, Expiry, manifest_key, load, load_value, load_manifest, set_persistence,
}
use edge_llm.Mcp.EdgeStore.Shape.{IsShaped}
use edge_llm.Mcp.EdgeStore.Keys.{durable}
use edge_llm.Mcp.EdgeStore.Mirror.{IsReliable, Keeps, Mirrors, MirroredBy, lines_of}
use edge_llm.Mcp.EdgeStore.Durable.{IsMirrored}
use edge_llm.Mcp.EdgeStore.Bounds.{Operation, apply_all, apply_all-IsShaped}
use edge_llm.Mcp.EdgeStore.Steps.{apply_all-IsMirrored}

Above-durable : (m : Kv) (e : Expiry) (k : Bytes) → Above k m → Above k (durable m e)
Above-durable [] e k a = tt
Above-durable ((j, w) ∷ m) e k a = ground (arith, Above-durable m e k a.1)

durable-IsSorted : (m : Kv) (e : Expiry) → IsSorted m → IsSorted (durable m e)
durable-IsSorted [] e s = tt
durable-IsSorted ((k, v) ∷ m) e s =
    ground (arith, durable-IsSorted m e s.1, Above-durable m e k s.0)

length-durable : (m : Kv) (e : Expiry) → length (durable m e) ≤ length m
length-durable [] e = omega arith
length-durable ((k, v) ∷ m) e = ground (arith, length-durable m e)

-- The entries of `q` are found in `m`.
abbrev AreFound : Kv → Kv → Type 0
AreFound m = All (λ p. lookup p.0 m ≡ some p.1)

found_behind : (m q : Kv) (j w : Bytes) → AreFound m q → Above j q → AreFound ((j, w) ∷ m) q
unfolding lookup
found_behind m [] j w f a = tt
found_behind m ((k, v) ∷ q) j w f a =
    (rw (beq_of_gt k j (cmp-gt_of_lt j k a.0)) f.0, found_behind m q j w f.1 a.1)

all_found : (m : Kv) → IsSorted m → AreFound m m
unfolding lookup
all_found [] s = tt
all_found ((k, v) ∷ m) s = (rw (beq_refl k) refl, found_behind m m k v (all_found m s.1) s.0)

module _ {S : Type 0} (o : SecretStore S) where
  kept_entries :
      (m q : Kv) (e : Expiry) (b : S)
      → AreFound m q
      → Keeps o m e b
      → All (λ p. o.get p.0 b ≡ Result.ok p.1) (durable q e)
  kept_entries m [] e b f h = tt
  kept_entries m ((k, v) ∷ q) e b f h = ground (arith, kept_entries m q e b f.1 h, h k v f.0)

  load_value_last :
      (k v : Bytes) (q : Result Bytes) (s : EdgeStore S)
      → q ≡ Result.ok v
      → Below s.values k
      → length s.values < s.max_keys
      → load_value k q s ≡ record s { values = s.values ++ ((k, v) ∷ []) }
  unfolding load_value
  load_value_last k v (Result.fail e) s h b l = ground arith
  load_value_last k v (Result.ok w) s h b l = ground (arith, insert_last s.values k v b)

  load-keys :
      (m : Kv) (b : S) (s : EdgeStore S)
      → All (λ p. o.get p.0 b ≡ Result.ok p.1) m
      → IsSorted (s.values ++ m)
      → length s.values + length m ≤ s.max_keys
      → (load o (keys m) b s).values ≡ s.values ++ m
  unfolding load load_value
  load-keys [] b s a d l = rw append-nil refl
  load-keys ((k, v) ∷ m) b s a d l =
      let one =
        load_value_last k v (o.get k b) s a.0 (IsSorted-Below s.values m k v d) (omega arith) in
      let next : EdgeStore S = record s { values = s.values ++ ((k, v) ∷ []) } in
      let eq = append_assoc s.values ((k, v) ∷ []) m in
      let ih =
        load-keys m b next a.1 (subst IsSorted (sym eq) d)
          (omega (arith, length-append s.values ((k, v) ∷ []))) in
      ap (λ (t : EdgeStore S). (load o (keys m) b t).values) one ∙ (ih ∙ eq)

  load_manifest_lines :
      (q : Result Bytes) (b : S) (s : EdgeStore S) → load_manifest o q b s ≡ load o (lines_of q) b s
  unfolding load_manifest load
  load_manifest_lines (Result.fail e) b s = refl
  load_manifest_lines (Result.ok m) b s = refl

  -- A store that is attached to the backend of another one has its durable entries and no other.
  pub set_persistence_restores :
      (s fresh : EdgeStore S) (b : S)
      → IsShaped s
      → Mirrors o s.values s.expiry b
      → fresh.values ≡ []
      → length s.values ≤ fresh.max_keys
      → (set_persistence o (some b) fresh).values ≡ durable s.values s.expiry
  unfolding set_persistence
  set_persistence_restores s fresh b i h n l =
      let start : EdgeStore S = record fresh { backend = some b } in
      let found = kept_entries s.values s.values s.expiry b (all_found s.values i.ordered) h.kept in
      let d = durable s.values s.expiry in
      let sorted : IsSorted (fresh.values ++ d) =
        rw n (durable-IsSorted s.values s.expiry i.ordered) in
      let room : length fresh.values + length d ≤ fresh.max_keys =
        rw n (omega (arith, length-durable s.values s.expiry)) in
      rw (load_manifest_lines (o.get manifest_key b) b start, h.listed)
        (load-keys d b start found sorted room ∙ ap (λ x. x ++ d) n)

module _ {S : Type 0} (o : SecretStore S) {Valid : S → Type 0} (law : IsSecretStore Valid o)
    (r : IsReliable o) where
  -- Over a backend that keeps the contract of a secret store and never refuses: from a store that
  -- is in shape and that the backend mirrors, after any sequence of calls, a store without entries
  -- and with room for all of them that is attached to the backend has exactly the entries without a
  -- deadline, with their last values.
  pub set_persistence-apply_all :
      (ops : List Operation) (s fresh : EdgeStore S) (b : S)
      → IsShaped s
      → IsMirrored o s
      → (apply_all o ops s).backend ≡ some b
      → fresh.values ≡ []
      → length (apply_all o ops s).values ≤ fresh.max_keys
      → (set_persistence o (some b) fresh).values
        ≡ durable (apply_all o ops s).values (apply_all o ops s).expiry
  set_persistence-apply_all ops s fresh b i m e n l =
      let t = apply_all o ops s in
      let h : Mirrors o t.values t.expiry b =
        subst (MirroredBy o t.values t.expiry) e (apply_all-IsMirrored o law r ops s i m) in
      set_persistence_restores o t fresh b (apply_all-IsShaped o ops s i) h n l
