-- ===== src/Base/Map/Laws.antt =====
-- What a client of a map sees.
use mathlib.Core.Path.{◌≡◌, refl}
use mathlib.Core.Option.{none, some}
use mathlib.Core.List.{List, [], ◌∷◌}
use native.Mathlib.Omega.{arith}
use edge_llm.Base.Tests.{if◌then◌else◌}
use edge_llm.Base.Text.{Bytes, beq, beq_iff}
use edge_llm.Base.Map.{lookup, insert, erase}
use edge_llm.Base.Map.Order.{beq_of_lt, beq_of_gt, eq_of_cmp}

module _ {ℓ} {V : Type ℓ} where
  pub lookup-insert :
      (m : List (Bytes × V)) (k j : Bytes) (v : V)
      → lookup j (insert k v m) ≡ (if beq j k then some v else lookup j m)
  unfolding lookup insert
  lookup-insert [] k j v = refl
  lookup-insert ((i, w) ∷ m) k j v = ground (
    arith,
    lookup-insert m k j v,
    eq_of_cmp k i,
    beq_of_gt k i,
    beq_of_lt k i,
    beq_iff j k,
    beq_iff j i,
  )

  pub lookup-erase :
      (m : List (Bytes × V)) (k j : Bytes)
      → lookup j (erase k m) ≡ (if beq j k then none else lookup j m)
  unfolding lookup erase
  lookup-erase [] k j = ground arith
  lookup-erase ((i, w) ∷ m) k j =
      ground (arith, lookup-erase m k j, beq_iff k i, beq_iff j i, beq_iff j k)
