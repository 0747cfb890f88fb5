-- ===== src/Mcp/EdgeStore/Mirror.antt =====
-- When a backend holds the durable entries of src/mcp/EdgeStore.cpp, and which changes keep that.
use edge_llm.Base.{
  ℕ, ◌<◌, ◌≡◌, ap, ◌∙◌, false, ◌&&◌, not, Option, none, some, List, [], ◌∷◌, Bytes, beq, beq_iff,
  arith, length, All,
}
use edge_llm.Base.Map.{insert, erase, has, lookup, keys}
use edge_llm.Base.Map.Laws.{lookup-insert, lookup-erase}
use edge_llm.Core.{Status, Result}
use edge_llm.Hal.Codec.{Kv}
use edge_llm.Hal.Secrets.{SecretStore, IsSecretStore}
use edge_llm.Mcp.EdgeStore.{Expiry, manifest_key, split_lines, join_keys}
use edge_llm.Mcp.EdgeStore.Shape.{IsStorable, has-insert, has-erase}
use edge_llm.Mcp.EdgeStore.Keys.{durable, IsLine, split_lines-join_keys}

-- The backend never refuses: there is room, and its medium works.
pub record IsReliable {S : Type 0} (o : SecretStore S) : Type 0 where
  pub set_ok : (k v : Bytes) (b : S) → 0 < length k → (o.set k v b).1 ≡ Status.ok
  pub remove_ok : (k : Bytes) (b : S) → (o.remove k b).1 ≡ Status.ok

abbrev pub lines_of : Result Bytes → List Bytes
lines_of (Result.fail e) = []
lines_of (Result.ok manifest) = split_lines manifest

module _ {S : Type 0} (o : SecretStore S) where
  -- The lines of the manifest in the backend.
  abbrev pub listed_keys : S → List Bytes
  listed_keys b = lines_of (o.get manifest_key b)

  -- The backend answers with the value of each durable entry.
  abbrev pub Keeps : Kv → Expiry → S → Type 0
  Keeps m e b = (k v : Bytes) → lookup k m ≡ some v → has k e ≡ false → o.get k b ≡ Result.ok v

  pub record Mirrors (m : Kv) (e : Expiry) (b : S) : Type 0 where
    pub kept : Keeps m e b
    pub listed : listed_keys b ≡ keys (durable m e)

  abbrev pub MirroredBy : Kv → Expiry → Option S → Type 0
  MirroredBy m e none = Unit
  MirroredBy m e (some b) = Mirrors m e b

-- What holds of each entry holds of the one that is found.
All_at :
    (P : Bytes × Bytes → Type 0) (m : Kv) (k v : Bytes) → All P m → lookup k m ≡ some v → P (k, v)
unfolding lookup
All_at P [] k v a h = cc
All_at P ((j, w) ∷ m) k v a h = ground (arith, All_at P m k v a.1, beq_iff k j)

-- An entry that is durable is not the one of a key that is not.
undurable :
    (m : Kv) (e : Expiry) (k j w : Bytes)
    → (has k m && not (has k e)) ≡ false
    → lookup j m ≡ some w
    → has j e ≡ false
    → beq j k ≡ false
unfolding has
undurable m e k j w c l t = ground (arith, beq_iff j k)

pub storable_lines : (ml mv : ℕ) (m : Kv) → All (IsStorable ml mv) m → All IsLine (keys m)
storable_lines ml mv [] h = tt
storable_lines ml mv ((k, v) ∷ m) h = ((h.0.nonempty, h.0.one_line), storable_lines ml mv m h.1)

module _ {S : Type 0} (o : SecretStore S) {Valid : S → Type 0} (law : IsSecretStore Valid o)
    (r : IsReliable o) where
  -- The write of the manifest.
  pub persist-Mirrors :
      (ml mv : ℕ) (m : Kv) (e : Expiry) (b : S)
      → All (IsStorable ml mv) m
      → Keeps o m e b
      → Mirrors o m e (o.set manifest_key (join_keys [] m e) b).0
  persist-Mirrors ml mv m e b a h =
      let joined = join_keys [] m e in
      let ok = r.set_ok manifest_key joined b (omega arith) in
      record {
        kept = λ k v l n.
            let u = (All_at (IsStorable ml mv) m k v a l).unreserved in
            ground (arith, law.get-set manifest_key joined k b ok, h k v l n);
        listed =
            ap lines_of (law.get-set manifest_key joined manifest_key b ok)
            ∙ split_lines-join_keys m e (storable_lines ml mv m a);
      }

  pub Keeps-set :
      (m : Kv) (e : Expiry) (k v : Bytes) (b : S)
      → 0 < length k
      → Keeps o m e b
      → Keeps o (insert k v m) (erase k e) (o.set k v b).0
  Keeps-set m e k v b n h j w l t =
      ground (
        arith,
        law.get-set k v j b (r.set_ok k v b n),
        lookup-insert m k j v,
        has-erase e k j,
        h j w,
      )

  pub Keeps-remove :
      (m : Kv) (e : Expiry) (k : Bytes) (b : S)
      → (has k m && not (has k e)) ≡ false
      → Keeps o m e b
      → Keeps o m e (o.remove k b).0
  Keeps-remove m e k b c h j w l t =
      let d : beq j k ≡ false = ground (arith, undurable m e k j w c l t) in
      ground (arith, law.get-remove k j b (r.remove_ok k b), h j w l t)

  pub listed_keys-set :
      (k v : Bytes) (b : S)
      → 0 < length k
      → beq k manifest_key ≡ false
      → listed_keys o (o.set k v b).0 ≡ listed_keys o b
  listed_keys-set k v b n u =
      let d : beq manifest_key k ≡ false =
        ground (arith, beq_iff manifest_key k, beq_iff k manifest_key) in
      ap lines_of (ground (arith, law.get-set k v manifest_key b (r.set_ok k v b n)))

module _ {S : Type 0} (o : SecretStore S) where
  pub Keeps-insert_timed :
      (m : Kv) (e : Expiry) (k v : Bytes) (d : ℕ) (b : S)
      → Keeps o m e b
      → Keeps o (insert k v m) (insert k d e) b
  Keeps-insert_timed m e k v d b h j w l t =
      ground (arith, lookup-insert m k j v, has-insert e k j d, h j w)

  pub Keeps-erase :
      (m : Kv) (e : Expiry) (k : Bytes) (b : S) → Keeps o m e b → Keeps o (erase k m) (erase k e) b
  Keeps-erase m e k b h j w l t = ground (arith, lookup-erase m k j, has-erase e k j, h j w)
