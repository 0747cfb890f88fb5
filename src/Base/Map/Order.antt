-- ===== src/Base/Map/Order.antt =====
-- The order on keys.
use Prim.Native.Nat.{Ordering}
use mathlib.Core.Path.{◌≡◌, refl}
use mathlib.Core.Bool.{true, false}
use mathlib.Core.List.{[], ◌∷◌}
use native.Mathlib.Omega.{arith}
use edge_llm.Base.Text.{Bytes, beq}
use edge_llm.Base.Map.{cmp}

pub cmp_refl : (a : Bytes) → cmp a a ≡ Ordering.eq
unfolding cmp
cmp_refl [] = refl
cmp_refl (x ∷ a) = ground (arith, cmp_refl a)

pub eq_of_cmp : (a b : Bytes) → cmp a b ≡ Ordering.eq → a ≡ b
unfolding cmp
eq_of_cmp [] [] h = refl
eq_of_cmp [] (y ∷ b) h = cc
eq_of_cmp (x ∷ a) [] h = cc
eq_of_cmp (x ∷ a) (y ∷ b) h = ground (arith, eq_of_cmp a b)

pub cmp-lt_of_gt : (a b : Bytes) → cmp a b ≡ Ordering.gt → cmp b a ≡ Ordering.lt
unfolding cmp
cmp-lt_of_gt [] [] h = cc
cmp-lt_of_gt [] (y ∷ b) h = cc
cmp-lt_of_gt (x ∷ a) [] h = refl
cmp-lt_of_gt (x ∷ a) (y ∷ b) h = ground (arith, cmp-lt_of_gt a b)

pub cmp-gt_of_lt : (a b : Bytes) → cmp a b ≡ Ordering.lt → cmp b a ≡ Ordering.gt
unfolding cmp
cmp-gt_of_lt [] [] h = cc
cmp-gt_of_lt [] (y ∷ b) h = refl
cmp-gt_of_lt (x ∷ a) [] h = cc
cmp-gt_of_lt (x ∷ a) (y ∷ b) h = ground (arith, cmp-gt_of_lt a b)

pub cmp-lt_trans :
    (a b c : Bytes) → cmp a b ≡ Ordering.lt → cmp b c ≡ Ordering.lt → cmp a c ≡ Ordering.lt
unfolding cmp
cmp-lt_trans [] [] c h k = cc
cmp-lt_trans [] (y ∷ b) [] h k = cc
cmp-lt_trans [] (y ∷ b) (z ∷ c) h k = refl
cmp-lt_trans (x ∷ a) [] c h k = cc
cmp-lt_trans (x ∷ a) (y ∷ b) [] h k = cc
cmp-lt_trans (x ∷ a) (y ∷ b) (z ∷ c) h k = ground (arith, cmp-lt_trans a b c)

-- The test on keys that `lookup` makes, by the order.
pub beq_of_cmp : (a b : Bytes) → cmp a b ≡ Ordering.eq → beq a b ≡ true
unfolding cmp
beq_of_cmp [] [] h = refl
beq_of_cmp [] (y ∷ b) h = cc
beq_of_cmp (x ∷ a) [] h = cc
beq_of_cmp (x ∷ a) (y ∷ b) h = ground (arith, beq_of_cmp a b)

pub beq_of_lt : (a b : Bytes) → cmp a b ≡ Ordering.lt → beq a b ≡ false
unfolding cmp
beq_of_lt [] [] h = cc
beq_of_lt [] (y ∷ b) h = refl
beq_of_lt (x ∷ a) [] h = cc
beq_of_lt (x ∷ a) (y ∷ b) h = ground (arith, beq_of_lt a b)

pub beq_of_gt : (a b : Bytes) → cmp a b ≡ Ordering.gt → beq a b ≡ false
unfolding cmp
beq_of_gt [] [] h = cc
beq_of_gt [] (y ∷ b) h = cc
beq_of_gt (x ∷ a) [] h = refl
beq_of_gt (x ∷ a) (y ∷ b) h = ground (arith, beq_of_gt a b)
