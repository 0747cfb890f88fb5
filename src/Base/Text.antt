-- ===== src/Base/Text.antt =====
-- `std::string` and byte buffers: lists of byte values.
use Prim.Native.Nat.{ℕ}
use Prim.Native.Char.{code}
use Prim.Native.String.{String}
use mathlib.Core.Path.{◌≡◌, refl}
use mathlib.Core.Logic.{◌↔◌}
use mathlib.Core.Bool.{Bool, true, false, ◌&&◌}
use mathlib.Core.List.{List, [], ◌∷◌}
use native.Mathlib.Omega.{arith}
use edge_llm.Base.Tests.{◌==◌}

abbrev pub Bytes : Type 0
Bytes = List ℕ

-- The bytes of an ASCII literal.
abbrev pub bytes : String → Bytes
bytes String.[] = []
bytes (String.◌∷◌ c s) = code c ∷ bytes s

abbrev pub beq : Bytes → Bytes → Bool
beq [] [] = true
beq [] (y ∷ ys) = false
beq (x ∷ xs) [] = false
beq (x ∷ xs) (y ∷ ys) = x == y && beq xs ys

pub beq_refl : (xs : Bytes) → beq xs xs ≡ true
beq_refl [] = refl
beq_refl (x ∷ xs) = ground (arith, beq_refl xs)

pub eq_of_beq : (xs ys : Bytes) → beq xs ys ≡ true → xs ≡ ys
eq_of_beq [] [] h = refl
eq_of_beq [] (y ∷ ys) h = cc
eq_of_beq (x ∷ xs) [] h = cc
eq_of_beq (x ∷ xs) (y ∷ ys) h = ground (arith, eq_of_beq xs ys)

pub beq_of_eq : (xs ys : Bytes) → xs ≡ ys → beq xs ys ≡ true
beq_of_eq xs ys h = rw h (beq_refl ys)

pub beq_iff : (xs ys : Bytes) → (beq xs ys ≡ true) ↔ (xs ≡ ys)
beq_iff xs ys = (eq_of_beq xs ys, beq_of_eq xs ys)
