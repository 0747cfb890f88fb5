-- ===== src/Base/Map/Sorted.antt =====
-- Maps whose keys stand in order, each once, which the operations keep.
use Prim.Native.Nat.{suc, ◌≤◌, Ordering}
use mathlib.Core.Path.{◌≡◌, refl, ap}
use mathlib.Core.Option.{none}
use mathlib.Core.List.{List, [], ◌∷◌, ◌++◌}
use native.Mathlib.Omega.{arith}
use edge_llm.Base.Tests.{if◌then◌else◌}
use edge_llm.Base.Text.{Bytes}
use edge_llm.Base.Lists.{length}
use edge_llm.Base.Map.{cmp, lookup, insert, erase, has}
use edge_llm.Base.Map.Order.{
  cmp-lt_trans, cmp-lt_of_gt, cmp-gt_of_lt, beq_of_lt, beq_of_gt, beq_of_cmp, eq_of_cmp,
}

module _ {ℓ} {V : Type ℓ} where
  -- Every key of the map stands behind `k`.
  abbrev pub Above : Bytes → List (Bytes × V) → Type 0
  Above k [] = Unit
  Above k ((j, v) ∷ m) = (cmp k j ≡ Ordering.lt) × Above k m

  abbrev pub IsSorted : List (Bytes × V) → Type 0
  IsSorted [] = Unit
  IsSorted ((k, v) ∷ m) = Above k m × IsSorted m

  pub Above-trans :
      (m : List (Bytes × V)) (k j : Bytes) → cmp k j ≡ Ordering.lt → Above j m → Above k m
  Above-trans [] k j h a = tt
  Above-trans ((i, v) ∷ m) k j h a = (cmp-lt_trans k j i h a.0, Above-trans m k j h a.1)

  Above-insert :
      (m : List (Bytes × V)) (i k : Bytes) (v : V)
      → cmp i k ≡ Ordering.lt
      → Above i m
      → Above i (insert k v m)
  unfolding insert
  Above-insert [] i k v h a = (h, tt)
  Above-insert ((j, w) ∷ m) i k v h a = ground (arith, Above-insert m i k v h a.1)

  pub insert-IsSorted :
      (m : List (Bytes × V)) (k : Bytes) (v : V) → IsSorted m → IsSorted (insert k v m)
  unfolding insert
  insert-IsSorted [] k v s = (tt, tt)
  insert-IsSorted ((j, w) ∷ m) k v s = ground (
    arith,
    insert-IsSorted m k v s.1,
    Above-trans m k j,
    Above-insert m j k v,
    cmp-lt_of_gt k j,
    eq_of_cmp k j,
  )

  Above-erase : (m : List (Bytes × V)) (i k : Bytes) → Above i m → Above i (erase k m)
  unfolding erase
  Above-erase [] i k a = tt
  Above-erase ((j, w) ∷ m) i k a = ground (arith, Above-erase m i k a.1)

  pub erase-IsSorted : (m : List (Bytes × V)) (k : Bytes) → IsSorted m → IsSorted (erase k m)
  unfolding erase
  erase-IsSorted [] k s = tt
  erase-IsSorted ((j, w) ∷ m) k s = ground (arith, erase-IsSorted m k s.1, Above-erase m j k s.0)

  pub lookup-Above : (m : List (Bytes × V)) (k : Bytes) → Above k m → lookup k m ≡ none
  unfolding lookup
  lookup-Above [] k a = refl
  lookup-Above ((j, w) ∷ m) k a = rw (beq_of_lt k j a.0) (lookup-Above m k a.1)

  pub length-insert :
      (m : List (Bytes × V)) (k : Bytes) (v : V)
      → IsSorted m
      → length (insert k v m) ≡ (if has k m then length m else suc (length m))
  unfolding insert lookup has
  length-insert [] k v s = refl
  length-insert ((j, w) ∷ m) k v s = ground (
    arith,
    length-insert m k v s.1,
    lookup-Above m k,
    Above-trans m k j,
    beq_of_lt k j,
    beq_of_gt k j,
    beq_of_cmp k j,
  )

  pub length-erase : (m : List (Bytes × V)) (k : Bytes) → length (erase k m) ≤ length m
  unfolding erase
  length-erase [] k = omega arith
  length-erase ((j, w) ∷ m) k = ground (arith, length-erase m k)

  -- `k` stands behind every key of the map.
  abbrev pub Below : List (Bytes × V) → Bytes → Type 0
  Below [] k = Unit
  Below ((j, v) ∷ m) k = (cmp j k ≡ Ordering.lt) × Below m k

  Above-middle :
      (m n : List (Bytes × V)) (j k : Bytes) (v : V)
      → Above j (m ++ (k, v) ∷ n)
      → cmp j k ≡ Ordering.lt
  Above-middle [] n j k v a = a.0
  Above-middle ((i, w) ∷ m) n j k v a = Above-middle m n j k v a.1

  pub insert_last :
      (m : List (Bytes × V)) (k : Bytes) (v : V) → Below m k → insert k v m ≡ m ++ (k, v) ∷ []
  unfolding insert
  insert_last [] k v b = refl
  insert_last ((j, w) ∷ m) k v b =
      rw (cmp-gt_of_lt j k b.0, insert) (ap (◌∷◌ (j, w)) (insert_last m k v b.1))

  -- The keys in front of an entry stand before its key.
  pub IsSorted-Below :
      (m n : List (Bytes × V)) (k : Bytes) (v : V) → IsSorted (m ++ (k, v) ∷ n) → Below m k
  IsSorted-Below [] n k v s = tt
  IsSorted-Below ((j, w) ∷ m) n k v s = (Above-middle m n j k v s.0, IsSorted-Below m n k v s.1)
