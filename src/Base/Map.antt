-- ===== src/Base/Map.antt =====
-- `std::map` with string keys: an association list in the order of its keys, which is the order
-- of iteration. Strings are ordered by their bytes.
pub mod Order
pub mod Laws
pub mod Sorted
use Prim.Native.Nat.{ℕ, compare, Ordering}
use mathlib.Core.Bool.{Bool, true, false}
use mathlib.Core.Option.{Option, none, some}
use mathlib.Core.List.{List, [], ◌∷◌, map}
use edge_llm.Base.Tests.{if◌then◌else◌}
use edge_llm.Base.Text.{Bytes, beq}

unfoldable pub cmp : Bytes → Bytes → Ordering
cmp [] [] = Ordering.eq
cmp [] (y ∷ ys) = Ordering.lt
cmp (x ∷ xs) [] = Ordering.gt
cmp (x ∷ xs) (y ∷ ys) = elim (compare x y) [
  | Ordering.lt ↦ Ordering.lt
  | Ordering.gt ↦ Ordering.gt
  | Ordering.eq ↦ cmp xs ys
]

module _ {ℓ} {V : Type ℓ} where
  -- `m.find(k)`
  unfoldable pub lookup : Bytes → List (Bytes × V) → Option V
  lookup k [] = none
  lookup k ((j, v) ∷ m) = if beq k j then some v else lookup k m

  -- `m[k] = v`
  unfoldable pub insert : Bytes → V → List (Bytes × V) → List (Bytes × V)
  insert k v [] = (k, v) ∷ []
  insert k v ((j, w) ∷ m) = elim (cmp k j) [
    | Ordering.lt ↦ (k, v) ∷ (j, w) ∷ m
    | Ordering.eq ↦ (k, v) ∷ m
    | Ordering.gt ↦ (j, w) ∷ insert k v m
  ]

  -- `m.erase(k)`
  unfoldable pub erase : Bytes → List (Bytes × V) → List (Bytes × V)
  erase k [] = []
  erase k ((j, v) ∷ m) = let rest = erase k m in if beq k j then rest else (j, v) ∷ rest

  -- `m.find(k) != m.end()`
  unfoldable pub has : Bytes → List (Bytes × V) → Bool
  unfolding lookup
  has k m = elim (lookup k m) [ none ↦ false | some v ↦ true ]

  -- The keys, in the order of iteration.
  abbrev pub keys : List (Bytes × V) → List Bytes
  keys m = map (λ p. p.0) m
