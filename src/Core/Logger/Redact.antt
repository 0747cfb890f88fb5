-- ===== src/Core/Logger/Redact.antt =====
-- No secret is left in what `Logger::redact` of src/core/Logger.cpp returns.
use edge_llm.Base.{
  ℕ, zero, suc, ◌≤◌, ◌<◌, ◌≡◌, refl, true, false, List, [], ◌∷◌, ◌++◌, Bytes, arith, length, drop,
  All, Lacks, cut_at, starts_with, Bool-cases, inl, inr,
}
use edge_llm.Core.Logger.{Logger, mask, redact_loop, redact_all, redact}

-- The pattern stands nowhere in the text.
abbrev pub IsAbsent : Bytes → Bytes → Type 0
IsAbsent q [] = Unit
IsAbsent q (x ∷ xs) = (starts_with q (x ∷ xs) ≡ false) × IsAbsent q xs

-- A secret that can be registered, without the byte of the mask.
abbrev pub IsSecret : Bytes → Type 0
IsSecret s = (4 ≤ length s) × Lacks b'*' s

redact_loop_hit :
    (f x : ℕ) (p xs : Bytes)
    → starts_with p (x ∷ xs) ≡ true
    → redact_loop (suc f) p (x ∷ xs) ≡ mask ++ redact_loop f p (drop (length p) (x ∷ xs))
unfolding redact_loop cut_at
redact_loop_hit f x p xs h = ground (arith, h)

redact_loop_miss :
    (f x : ℕ) (p xs : Bytes)
    → starts_with p (x ∷ xs) ≡ false
    → redact_loop (suc f) p (x ∷ xs) ≡ x ∷ redact_loop (suc f) p xs
unfolding redact_loop cut_at
redact_loop_miss f x p xs h = ground (arith, h)

redact_loop_empty : (f : ℕ) (p : Bytes) → 0 < length p → redact_loop f p [] ≡ []
unfolding redact_loop cut_at
redact_loop_empty zero p h = refl
redact_loop_empty (suc f) [] h = ground arith
redact_loop_empty (suc f) (c ∷ p) h = refl

-- Where a text without the mask's byte stands in the output, it stood in the input.
starts_with-redact_loop :
    (f : ℕ) (p q s : Bytes)
    → 0 < length p
    → Lacks b'*' q
    → starts_with q (redact_loop f p s) ≡ true
    → starts_with q s ≡ true
unfolding redact_loop
starts_with-redact_loop zero p q s n a h = h
starts_with-redact_loop (suc f) p [] s n a h = refl
starts_with-redact_loop (suc f) p (c ∷ q) [] n a h =
    ground (arith, redact_loop_empty (suc f) p n, h)
starts_with-redact_loop (suc f) p (c ∷ q) (x ∷ xs) n a h =
    elim (Bool-cases (starts_with p (x ∷ xs))) [
      | inl y ↦ ground (arith, redact_loop_hit f x p xs y, a.0, h)
      | inr y ↦
          let ih = starts_with-redact_loop (suc f) p q xs n a.1 in
          ground (arith, redact_loop_miss f x p xs y, ih, h)
    ]

IsAbsent-drop : (n : ℕ) (q s : Bytes) → IsAbsent q s → IsAbsent q (drop n s)
IsAbsent-drop zero q s a = a
IsAbsent-drop (suc n) q [] a = tt
IsAbsent-drop (suc n) q (x ∷ s) a = IsAbsent-drop n q s a.1

IsAbsent-mask : (q s : Bytes) → 0 < length q → Lacks b'*' q → IsAbsent q s → IsAbsent q (mask ++ s)
IsAbsent-mask [] s n l a = ground arith
IsAbsent-mask (c ∷ q) s n l a = ground (arith, l.0, a)

starts_with_miss :
    (f x : ℕ) (p q xs : Bytes)
    → 0 < length p
    → Lacks b'*' q
    → starts_with p (x ∷ xs) ≡ false
    → starts_with q (x ∷ xs) ≡ false
    → starts_with q (x ∷ redact_loop (suc f) p xs) ≡ false
starts_with_miss f x p q xs n l y a =
    ground (arith, redact_loop_miss f x p xs y, starts_with-redact_loop (suc f) p q (x ∷ xs) n l, a)

length-drop : (n : ℕ) (s : Bytes) → length (drop n s) ≤ length s
length-drop zero s = omega arith
length-drop (suc n) [] = omega arith
length-drop (suc n) (x ∷ s) = omega (arith, length-drop n s)

drop_shorter :
    (p : Bytes) (x : ℕ) (xs : Bytes) (f : ℕ)
    → 0 < length p
    → length (x ∷ xs) ≤ suc f
    → length (drop (length p) (x ∷ xs)) ≤ f
drop_shorter [] x xs f n h = ground arith
drop_shorter (c ∷ p) x xs f n h = omega (arith, length-drop (length p) xs)

-- A secret that is not in the text does not come into it.
IsAbsent-redact_loop :
    (f : ℕ) (p q s : Bytes)
    → 0 < length p
    → 0 < length q
    → Lacks b'*' q
    → IsAbsent q s
    → IsAbsent q (redact_loop f p s)
unfolding redact_loop
IsAbsent-redact_loop zero p q s n m l a = a
IsAbsent-redact_loop (suc f) p q [] n m l a = rw (redact_loop_empty (suc f) p n) tt
IsAbsent-redact_loop (suc f) p q (x ∷ xs) n m l a = elim (Bool-cases (starts_with p (x ∷ xs))) [
  | inl y ↦ rw (redact_loop_hit f x p xs y) (
      IsAbsent-mask q (redact_loop f p (drop (length p) (x ∷ xs))) m l (
        IsAbsent-redact_loop f p q (drop (length p) (x ∷ xs)) n m l
          (IsAbsent-drop (length p) q (x ∷ xs) a)))
  | inr y ↦
      rw (redact_loop_miss f x p xs y)
        (starts_with_miss f x p q xs n l y a.0, IsAbsent-redact_loop (suc f) p q xs n m l a.1)
]

-- A secret does not stand behind its own replacement.
IsAbsent-own :
    (f : ℕ) (p s : Bytes)
    → 0 < length p
    → Lacks b'*' p
    → length s ≤ f
    → IsAbsent p (redact_loop f p s)
unfolding redact_loop
IsAbsent-own zero p [] n l h = tt
IsAbsent-own zero p (x ∷ xs) n l h = ground arith
IsAbsent-own (suc f) p [] n l h = rw (redact_loop_empty (suc f) p n) tt
IsAbsent-own (suc f) p (x ∷ xs) n l h = elim (Bool-cases (starts_with p (x ∷ xs))) [
  | inl y ↦ rw (redact_loop_hit f x p xs y) (
      IsAbsent-mask p (redact_loop f p (drop (length p) (x ∷ xs))) n l
        (IsAbsent-own f p (drop (length p) (x ∷ xs)) n l (drop_shorter p x xs f n h)))
  | inr y ↦
      rw (redact_loop_miss f x p xs y)
        (starts_with_miss f x p p xs n l y y, IsAbsent-own (suc f) p xs n l (omega arith))
]

redact_all-IsAbsent :
    (ps : List Bytes) (q s : Bytes)
    → All IsSecret ps
    → IsSecret q
    → IsAbsent q s
    → IsAbsent q (redact_all ps s)
unfolding redact_all
redact_all-IsAbsent [] q s h i a = a
redact_all-IsAbsent (p ∷ ps) q s h i a =
    redact_all-IsAbsent ps q (redact_loop (length s) p s) h.1 i
      (IsAbsent-redact_loop (length s) p q s (omega (arith, h.0.0)) (omega (arith, i.0)) i.1 a)

redact_all-All :
    (ps : List Bytes) (s : Bytes) → All IsSecret ps → All (λ q. IsAbsent q (redact_all ps s)) ps
unfolding redact_all
redact_all-All [] s h = tt
redact_all-All (p ∷ ps) s h = (
  redact_all-IsAbsent ps p (redact_loop (length s) p s) h.1 h.0
      (IsAbsent-own (length s) p s (omega (arith, h.0.0)) h.0.1 (omega arith)),
  redact_all-All ps (redact_loop (length s) p s) h.1,
)

-- When every registered secret has four bytes or more and none has the byte of the mask, no
-- registered secret stands anywhere in a redacted text.
pub redact-IsAbsent :
    (l : Logger) (text : Bytes)
    → All IsSecret l.secrets
    → All (λ q. IsAbsent q (redact l text)) l.secrets
unfolding redact
redact-IsAbsent l text h = redact_all-All l.secrets text h
