-- ===== src/Tools/UrlGuard.antt =====
-- src/tools/UrlGuard.{h,cpp}: which URLs a tool may fetch.
pub mod Networks
pub mod Hosts
mod Tests
use edge_llm.Base.{
  ℕ, zero, suc, ◌+◌, ◌-◌, ◌*◌, Bool, true, false, not, ◌&&◌, ◌||◌, Option, none, some, List, [],
  ◌∷◌, ◌++◌, Bytes, bytes, beq, ◌==◌, ltb, leb, if◌then◌else◌, length, drop, cut, cut_at,
  starts_with, map,
}
use edge_llm.Transport.Http.{ascii_lower}

unfoldable pub to_lower : Bytes → Bytes
unfolding ascii_lower
to_lower s = map ascii_lower s

-- The digits of a part, and its value.
unfoldable pub digits : ℕ → Bytes → Option ℕ
digits n [] = some n
digits n (c ∷ s) =
    let rest = digits (10 * n + (c - b'0')) s in if ltb c b'0' || ltb b'9' c then none else rest

unfoldable pub octet : Bytes → Option ℕ
unfolding digits
octet part = if length part == 0 || ltb 3 (length part) then none else elim (digits 0 part) [
  | none ↦ none
  | some value ↦ if ltb 255 value then none else some value
]

abbrev pub put_octet : Option ℕ → Option (List ℕ) → Option (List ℕ)
put_octet (some a) (some os) = some (a ∷ os)
put_octet _ _ = none

-- The loop over the parts, with `n` parts to come behind this one.
unfoldable pub octets : ℕ → Bytes → Option (List ℕ)
unfolding octet cut
octets zero s = elim (cut b'.' s) [ none ↦ put_octet (octet s) (some []) | some p ↦ none ]
octets (suc n) s = elim (cut b'.' s) [ none ↦ none | some p ↦ put_octet (octet p.0) (octets n p.1) ]

unfoldable pub parse_ipv4 : Bytes → Option (List ℕ)
unfolding octets
parse_ipv4 host = octets 3 host

-- The tests on the numbers of an address.
unfoldable pub is_blocked_ipv4 : List ℕ → Bool
is_blocked_ipv4 (a ∷ b ∷ os) =
    a == 127
    || a == 10
    || (a == 172 && leb 16 b && leb b 31)
    || (a == 192 && b == 168)
    || (a == 169 && b == 254)
    || a == 0
    || (a == 100 && leb 64 b && leb b 127)
is_blocked_ipv4 _ = false

-- The bytes before the first '/', '?' or '#'.
unfoldable pub authority : Bytes → Bytes
authority [] = []
authority (c ∷ s) =
    let rest = authority s in if c == b'/' || c == b'?' || c == b'#' then [] else c ∷ rest

unfoldable pub after_scheme : Bytes → Bytes
unfolding cut_at
after_scheme url = elim (cut_at (bytes "://") url) [ none ↦ url | some p ↦ p.1 ]

unfoldable pub after_userinfo : Bytes → Bytes
unfolding cut
after_userinfo a = elim (cut b'@' a) [ none ↦ a | some p ↦ p.1 ]

unfoldable pub strip_port : Bytes → Bytes
unfolding cut
strip_port a = elim (cut b':' a) [ none ↦ a | some p ↦ p.0 ]

-- An IPv6 literal keeps its brackets.
unfoldable pub strip_brackets : Bytes → Bytes
unfolding cut
strip_brackets a = elim (cut b']' a) [ none ↦ a | some p ↦ p.0 ++ bytes "]" ]

unfoldable pub host_from_url : Bytes → Bytes
host_from_url url =
    let a = after_userinfo (authority (after_scheme url)) in
    if starts_with (bytes "[") a then strip_brackets a else strip_port a

abbrev pub ends_with : Bytes → Bytes → Bool
ends_with p s = leb (length p) (length s) && beq (drop (length s - length p) s) p

abbrev pub has_colon : Bytes → Bool
has_colon [] = false
has_colon (c ∷ s) = c == b':' || has_colon s

unfoldable pub is_blocked_ipv6 : Bytes → Bool
is_blocked_ipv6 host =
    let h = if starts_with (bytes "[") host then drop 1 host else host in
    beq host (bytes "::1")
    || beq host (bytes "[::1]")
    || starts_with (bytes "fe80") h
    || starts_with (bytes "fc") h
    || starts_with (bytes "fd") h

unfoldable pub is_blocked_name : Bytes → Bool
is_blocked_name host =
    beq host (bytes "localhost")
    || beq host (bytes "metadata.google.internal")
    || ends_with (bytes ".local") host

-- The tests on a host in lower case.
unfoldable pub is_blocked_lower : Bytes → Bool
is_blocked_lower host = if is_blocked_name host then true else elim (parse_ipv4 host) [
  | some os ↦ is_blocked_ipv4 os
  | none ↦ if has_colon host then is_blocked_ipv6 host else false
]

unfoldable pub is_blocked_host : Bytes → Bool
is_blocked_host [] = true
is_blocked_host (c ∷ s) = is_blocked_lower (to_lower (c ∷ s))

unfoldable pub is_url_allowed : Bytes → Bool
is_url_allowed url =
    let lower = to_lower url in
    if starts_with (bytes "http://") lower || starts_with (bytes "https://") lower
    then not (is_blocked_host (host_from_url url))
    else false
