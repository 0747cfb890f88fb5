-- ===== src/Mcp/EdgeStore/Changes.antt =====
-- How the durable entries of src/mcp/EdgeStore.cpp change with its two maps.
use edge_llm.Base.{
  ℕ, ◌≡◌, refl, ap, ◌∙◌, true, false, ◌&&◌, not, [], ◌∷◌, Bytes, beq_iff, beq_refl, arith,
}
use edge_llm.Base.Map.{insert, erase, has, lookup, keys}
use edge_llm.Base.Map.Order.{beq_of_lt, beq_of_gt, eq_of_cmp}
use edge_llm.Base.Map.Sorted.{IsSorted, Above-trans, lookup-Above}
use edge_llm.Hal.Codec.{Kv}
use edge_llm.Mcp.EdgeStore.{Expiry}
use edge_llm.Mcp.EdgeStore.Shape.{has-insert, has-erase}
use edge_llm.Mcp.EdgeStore.Keys.{durable}

-- Only which keys have a deadline counts.
durable_ext :
    (m : Kv) (e f : Expiry) → ((k : Bytes) → has k e ≡ has k f) → durable m e ≡ durable m f
durable_ext [] e f h = refl
durable_ext ((k, v) ∷ m) e f h = ground (arith, durable_ext m e f h, h k)

-- A key that is not durable goes without a trace.
pub durable-erase :
    (m : Kv) (e : Expiry) (k : Bytes)
    → (has k m && not (has k e)) ≡ false
    → durable (erase k m) (erase k e) ≡ durable m e
unfolding erase has lookup
durable-erase [] e k h = refl
durable-erase ((j, v) ∷ m) e k h =
    ground (arith, durable-erase m e k, has-erase e k j, beq_iff k j, beq_iff j k)

durable_overwrite :
    (m : Kv) (e : Expiry) (k v : Bytes)
    → IsSorted m
    → has k m ≡ true
    → keys (durable (insert k v m) e) ≡ keys (durable m e)
unfolding insert has lookup
durable_overwrite [] e k v s h = cc
durable_overwrite ((j, w) ∷ m) e k v s h = ground (
  arith,
  durable_overwrite m e k v s.1,
  eq_of_cmp k j,
  beq_of_lt k j,
  beq_of_gt k j,
  lookup-Above m k,
  Above-trans m k j,
)

-- A durable entry that is overwritten keeps its place in the manifest.
pub durable-insert_kept :
    (m : Kv) (e : Expiry) (k v : Bytes)
    → IsSorted m
    → has k m ≡ true
    → has k e ≡ false
    → keys (durable (insert k v m) (erase k e)) ≡ keys (durable m e)
durable-insert_kept m e k v s h f =
    ap keys
      (durable_ext (insert k v m) (erase k e) e (λ j. ground (arith, has-erase e k j, beq_iff j k)))
    ∙ durable_overwrite m e k v s h

durable_timed :
    (m : Kv) (e : Expiry) (k v : Bytes) → has k e ≡ true → durable (insert k v m) e ≡ durable m e
unfolding insert
durable_timed [] e k v h = ground arith
durable_timed ((j, w) ∷ m) e k v h = ground (arith, durable_timed m e k v h, eq_of_cmp k j)

durable_untouched :
    (m : Kv) (e : Expiry) (k : Bytes) (d : ℕ)
    → (has k m && not (has k e)) ≡ false
    → durable m (insert k d e) ≡ durable m e
unfolding has lookup
durable_untouched [] e k d h = refl
durable_untouched ((j, w) ∷ m) e k d h =
    ground (arith, durable_untouched m e k d, has-insert e k j d, beq_iff k j, beq_iff j k)

-- A deadline for a key that was not durable leaves the durable entries as they are.
pub durable-insert_timed :
    (m : Kv) (e : Expiry) (k v : Bytes) (d : ℕ)
    → (has k m && not (has k e)) ≡ false
    → durable (insert k v m) (insert k d e) ≡ durable m e
durable-insert_timed m e k v d h =
    durable_timed m (insert k d e) k v (rw (has-insert e k k d, beq_refl k) refl)
    ∙ durable_untouched m e k d h
