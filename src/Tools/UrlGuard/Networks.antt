-- ===== src/Tools/UrlGuard/Networks.antt =====
-- The IPv4 networks that `isBlockedHost` of src/tools/UrlGuard.cpp refuses, by their prefixes.
use edge_llm.Base.{
  ℕ, ◌+◌, ◌*◌, ◌/◌, ◌≤◌, ◌≡◌, Bool, true, ◌||◌, [], ◌∷◌, Bytes, arith, ◌==◌, inl, inr, Option, none,
  some, zero, suc, sym, ◌∙◌, refl, subst, List, All, cut, Option-cases, Bool-cases,
}
use edge_llm.Tools.UrlGuard.{
  put_octet, octet, octets, is_blocked_ipv4, is_blocked_lower, is_blocked_name, parse_ipv4,
}

-- The address as one number.
abbrev pub address : ℕ → ℕ → ℕ → ℕ → ℕ
address a b c d = ((a * 256 + b) * 256 + c) * 256 + d

-- 0/8, 10/8, 100.64/10, 127/8, 169.254/16, 172.16/12 and 192.168/16: the networks of the host
-- itself, of private use, of a carrier's translation, of loopback and of the link.
abbrev pub is_internal : ℕ → Bool
is_internal n =
    n / 16777216 == 0
    || n / 16777216 == 10
    || n / 4194304 == 401
    || n / 16777216 == 127
    || n / 65536 == 43518
    || n / 1048576 == 2753
    || n / 65536 == 49320

-- For four numbers up to 255, the tests on the numbers of an address agree with its membership in
-- the internal networks.
pub is_blocked_ipv4-address :
    (a b c d : ℕ)
    → a ≤ 255
    → b ≤ 255
    → c ≤ 255
    → d ≤ 255
    → is_blocked_ipv4 (a ∷ b ∷ c ∷ d ∷ []) ≡ is_internal (address a b c d)
unfolding is_blocked_ipv4
is_blocked_ipv4-address a b c d ha hb hc hd = ground arith

octet_bound : (part : Bytes) (v : ℕ) → octet part ≡ some v → v ≤ 255
unfolding octet
octet_bound part v h = ground (arith, h)

put_octet_bound :
    (o : Option ℕ) (m : Option (List ℕ)) (os : List ℕ)
    → ((v : ℕ) → o ≡ some v → v ≤ 255)
    → ((vs : List ℕ) → m ≡ some vs → All (λ v. v ≤ 255) vs)
    → put_octet o m ≡ some os
    → All (λ v. v ≤ 255) os
put_octet_bound none m os b bs h = cc
put_octet_bound (some v) none os b bs h = cc
put_octet_bound (some v) (some vs) [] b bs h = cc
put_octet_bound (some v) (some vs) (w ∷ ws) b bs h =
    (ground (arith, b v refl, h), subst (All (λ v. v ≤ 255)) (ground (arith, h)) (bs vs refl))

pub octets_last : (s : Bytes) → cut b'.' s ≡ none → octets zero s ≡ put_octet (octet s) (some [])
unfolding octets
octets_last s e = rw (e, octets) refl

octets_more : (s x y : Bytes) → cut b'.' s ≡ some (x, y) → octets zero s ≡ none
unfolding octets
octets_more s x y e = rw (e, octets) refl

pub octets_part :
    (n : ℕ) (s x y : Bytes)
    → cut b'.' s ≡ some (x, y)
    → octets (suc n) s ≡ put_octet (octet x) (octets n y)
unfolding octets
octets_part n s x y e = rw (e, octets) refl

octets_short : (n : ℕ) (s : Bytes) → cut b'.' s ≡ none → octets (suc n) s ≡ none
unfolding octets
octets_short n s e = rw (e, octets) refl

nil_bound : (vs : List ℕ) → some [] ≡ some vs → All (λ v. v ≤ 255) vs
nil_bound [] q = tt
nil_bound (v ∷ vs) q = cc

octets_bound : (n : ℕ) (s : Bytes) (os : List ℕ) → octets n s ≡ some os → All (λ v. v ≤ 255) os
octets_bound zero s os h = elim (Option-cases (cut b'.' s)) [
  | inl e ↦
      put_octet_bound (octet s) (some []) os (octet_bound s) nil_bound (sym (octets_last s e) ∙ h)
  | inr ((x, y), e) ↦ ground (arith, octets_more s x y e, h)
]
octets_bound (suc n) s os h = elim (Option-cases (cut b'.' s)) [
  | inl e ↦ ground (arith, octets_short n s e, h)
  | inr ((x, y), e) ↦
      put_octet_bound (octet x) (octets n y) os (octet_bound x) (octets_bound n y)
        (sym (octets_part n s x y e) ∙ h)
]

parse_ipv4_bound : (s : Bytes) (os : List ℕ) → parse_ipv4 s ≡ some os → All (λ v. v ≤ 255) os
unfolding parse_ipv4
parse_ipv4_bound s os h = octets_bound 3 s os h

-- A host that reads as an address of an internal network is blocked.
pub is_blocked_lower-parse_ipv4 :
    (host : Bytes) (a b c d : ℕ)
    → parse_ipv4 host ≡ some (a ∷ b ∷ c ∷ d ∷ [])
    → is_internal (address a b c d) ≡ true
    → is_blocked_lower host ≡ true
unfolding is_blocked_lower
is_blocked_lower-parse_ipv4 host a b c d q i =
    let (ha, (hb, (hc, (hd, _)))) = parse_ipv4_bound host (a ∷ b ∷ c ∷ d ∷ []) q in
    let e = is_blocked_ipv4-address a b c d ha hb hc hd ∙ i in
    elim (Bool-cases (is_blocked_name host)) [
      | inl y ↦ rw (y, is_blocked_lower) refl
      | inr n ↦ rw (n, is_blocked_lower, q) e
    ]
