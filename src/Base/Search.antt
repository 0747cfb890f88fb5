-- ===== src/Base/Search.antt =====
-- `find`, `substr` and their kind on byte strings, and the lemmas on where they cut.
use Prim.Native.Nat.{ℕ, ◌≤◌}
use mathlib.Core.Path.{◌≡◌, refl, ap}
use mathlib.Core.Logic.{◌≢◌}
use mathlib.Core.Bool.{Bool, true, false, ◌&&◌}
use mathlib.Core.Option.{Option, none, some}
use mathlib.Core.List.{[], ◌∷◌, ◌++◌}
use native.Mathlib.Omega.{arith}
use edge_llm.Base.Tests.{◌==◌, if◌then◌else◌}
use edge_llm.Base.Lists.{length, drop, All, drop-length_append, length-append}
use edge_llm.Base.Text.{Bytes, beq}

-- `s.find(c)` with `s.substr(0, pos)` and `s.substr(pos + 1)`: the parts around the first `c`.
abbrev cons_left : ℕ → Option (Bytes × Bytes) → Option (Bytes × Bytes)
cons_left x none = none
cons_left x (some (a, b)) = some (x ∷ a, b)

unfoldable pub cut : ℕ → Bytes → Option (Bytes × Bytes)
cut c [] = none
cut c (x ∷ xs) = if x == c then some ([], xs) else cons_left x (cut c xs)

-- `s.compare(0, p.size(), p) == 0`
abbrev pub starts_with : Bytes → Bytes → Bool
starts_with [] s = true
starts_with (c ∷ p) [] = false
starts_with (c ∷ p) (x ∷ s) = x == c && starts_with p s

pub starts_with-append : (p s : Bytes) → starts_with p (p ++ s) ≡ true
starts_with-append [] s = refl
starts_with-append (c ∷ p) s = ground (arith, starts_with-append p s)

-- The same for a pattern of more than one byte.
unfoldable pub cut_at : Bytes → Bytes → Option (Bytes × Bytes)
cut_at p [] = if beq p [] then some ([], []) else none
cut_at p (x ∷ xs) =
    if starts_with p (x ∷ xs)
    then some ([], drop (length p) (x ∷ xs))
    else cons_left x (cut_at p xs)

-- No byte of the string is `c`.
abbrev pub Lacks : ℕ → Bytes → Type 0
Lacks c = All (λ x. x ≢ c)

pub cut-append : (c : ℕ) (xs ys : Bytes) → Lacks c xs → cut c (xs ++ c ∷ ys) ≡ some (xs, ys)
unfolding cut
cut-append c [] ys h = ground arith
cut-append c (x ∷ xs) ys h = ground (arith, cut-append c xs ys h.1)

pub cut-Lacks : (c : ℕ) (xs : Bytes) → Lacks c xs → cut c xs ≡ none
unfolding cut
cut-Lacks c [] h = refl
cut-Lacks c (x ∷ xs) h = ground (arith, cut-Lacks c xs h.1)

pub eq_of_cut : (c : ℕ) (s a b : Bytes) → cut c s ≡ some (a, b) → (s ≡ a ++ c ∷ b) × Lacks c a
unfolding cut
eq_of_cut c [] a b h = cc
eq_of_cut c (x ∷ xs) [] b h = ground arith
eq_of_cut c (x ∷ xs) (y ∷ a) b h = ground (arith, eq_of_cut c xs a b)

pub cut_at-append :
    (c : ℕ) (p xs ys : Bytes) → Lacks c xs → cut_at (c ∷ p) (xs ++ ((c ∷ p) ++ ys)) ≡ some (xs, ys)
unfolding cut_at
cut_at-append c p [] ys h = rw (starts_with-append (c ∷ p) ys, drop-length_append (c ∷ p) ys)
cut_at-append c p (x ∷ xs) ys h = ground (arith, cut_at-append c p xs ys h.1)

starts_with_split : (p s : Bytes) → starts_with p s ≡ true → s ≡ p ++ drop (length p) s
starts_with_split [] s h = refl
starts_with_split (c ∷ p) [] h = cc
starts_with_split (c ∷ p) (x ∷ s) h = ground (arith, starts_with_split p s)

pub eq_of_cut_at : (p s a b : Bytes) → cut_at p s ≡ some (a, b) → s ≡ a ++ (p ++ b)
unfolding cut_at
eq_of_cut_at [] [] a b h = ground arith
eq_of_cut_at (c ∷ p) [] a b h = cc
eq_of_cut_at p (x ∷ s) [] b h = ground (arith, starts_with_split p (x ∷ s))
eq_of_cut_at p (x ∷ s) (y ∷ a) b h = ground (arith, eq_of_cut_at p s a b)

-- The parts are those around the first place where the pattern stands, also in a longer string.
starts_with_prefix :
    (p s t y : Bytes) → s ++ t ≡ p ++ y → length p ≤ length s → starts_with p s ≡ true
starts_with_prefix [] s t y e l = refl
starts_with_prefix (c ∷ p) [] t y e l = absurd (omega (arith, l))
starts_with_prefix (c ∷ p) (x ∷ s) t y e l = ground (arith, starts_with_prefix p s t y)

length_of_cut_at : (p s a b : Bytes) → cut_at p s ≡ some (a, b) → length p ≤ length s
length_of_cut_at p s a b h =
    omega (arith, ap length (eq_of_cut_at p s a b h), length-append a (p ++ b), length-append p b)

pub cut_at_first :
    (p s a b x y t : Bytes)
    → cut_at p s ≡ some (a, b)
    → s ++ t ≡ x ++ (p ++ y)
    → length a ≤ length x
unfolding cut_at
cut_at_first p s [] b x y t h e = omega arith
cut_at_first p [] (z ∷ a) b x y t h e = ground arith
cut_at_first p (c ∷ s) (z ∷ a) b [] y t h e =
    ground (arith, h, starts_with_prefix p (c ∷ s) t y e (length_of_cut_at p (c ∷ s) (z ∷ a) b h))
cut_at_first p (c ∷ s) (z ∷ a) b (d ∷ x) y t h e = ground (arith, h, e, cut_at_first p s a b x y t)
