-- ===== src/Tools/UrlGuard/Hosts.antt =====
-- The host that src/tools/UrlGuard.cpp finds in a URL.
use edge_llm.Base.{
  ℕ, zero, suc, ◌+◌, ◌*◌, ◌≤◌, ◌<◌, ◌≡◌, ◌≢◌, refl, true, false, ◌||◌, some, [], ◌∷◌, ◌++◌,
  append-nil, Bytes, bytes, arith, ◌==◌, length, All, All-append, All-imp, length-append, ap, ◌∙◌,
  Lacks, cut-append, cut-Lacks, cut_at-append, starts_with,
}
use edge_llm.Transport.Http.{ascii_lower}
use edge_llm.Tools.UrlGuard.{
  to_lower, authority, after_scheme, after_userinfo, strip_port, host_from_url, is_blocked_host,
  is_blocked_lower, parse_ipv4, is_url_allowed, octet, octets, digits, put_octet,
}
use edge_llm.Tools.UrlGuard.Networks.{
  octets_part, octets_last, address, is_internal, is_blocked_lower-parse_ipv4,
}

-- A byte of an authority.
abbrev pub IsPlain : ℕ → Type 0
IsPlain c = (c ≢ b'/') × ((c ≢ b'?') × ((c ≢ b'#') × (c ≢ b'@')))

-- A name or an IPv4 address.
pub record IsHost (host : Bytes) : Type 0 where
  pub nonempty : 0 < length host
  pub plain : All IsPlain host
  pub no_colon : Lacks b':' host
  pub no_bracket : starts_with (bytes "[") host ≡ false

-- Nothing, or a colon and a number.
abbrev pub IsPort : Bytes → Type 0
IsPort [] = Unit
IsPort (c ∷ s) = (c ≡ b':') × All IsPlain s

-- Nothing, or a path, a query or a fragment.
abbrev pub IsRest : Bytes → Type 0
IsRest [] = Unit
IsRest (c ∷ s) = (c == b'/' || c == b'?' || c == b'#') ≡ true

authority-append : (a rest : Bytes) → All IsPlain a → IsRest rest → authority (a ++ rest) ≡ a
unfolding authority
authority-append [] [] h r = refl
authority-append [] (c ∷ s) h r = ground (arith, r)
authority-append (c ∷ a) rest h r = ground (arith, authority-append a rest h.1 r, h.0)

IsPlain-Lacks : (a : Bytes) → All IsPlain a → Lacks b'@' a
IsPlain-Lacks [] h = tt
IsPlain-Lacks (c ∷ a) h = (h.0.1.1.1, IsPlain-Lacks a h.1)

IsPort-IsPlain : (port : Bytes) → IsPort port → All IsPlain port
IsPort-IsPlain [] p = tt
IsPort-IsPlain (c ∷ s) p =
    ((ground (arith, p.0), (ground (arith, p.0), (ground (arith, p.0), ground (arith, p.0)))), p.1)

strip_port_none : (host : Bytes) → Lacks b':' host → strip_port host ≡ host
unfolding strip_port
strip_port_none host h = rw (cut-Lacks b':' host h, strip_port) refl

strip_port-append :
    (host port : Bytes) → Lacks b':' host → IsPort port → strip_port (host ++ port) ≡ host
unfolding strip_port
strip_port-append host [] h p = rw append-nil (strip_port_none host h)
strip_port-append host (c ∷ s) h p = rw (p.0, strip_port, cut-append b':' host s h) refl

-- A URL that names a host.
abbrev pub url_of : Bytes → Bytes → Bytes → Bytes → Bytes
url_of scheme host port rest = scheme ++ (bytes "://" ++ ((host ++ port) ++ rest))

bracket_free :
    (host port : Bytes)
    → 0 < length host
    → starts_with (bytes "[") host ≡ false
    → starts_with (bytes "[") (host ++ port) ≡ false
bracket_free [] port n h = ground arith
bracket_free (c ∷ s) port n h = h

after_scheme-append :
    (scheme s : Bytes) → Lacks b':' scheme → after_scheme (scheme ++ (bytes "://" ++ s)) ≡ s
unfolding after_scheme
after_scheme-append scheme s l = rw (after_scheme, cut_at-append b':' (bytes "//") scheme s l) refl

after_userinfo-Lacks : (a : Bytes) → Lacks b'@' a → after_userinfo a ≡ a
unfolding after_userinfo
after_userinfo-Lacks a l = rw (cut-Lacks b'@' a l, after_userinfo) refl

-- The host of a URL that is put together from a scheme without a colon, a host name or IPv4
-- address, an optional port and an optional path, query or fragment is found.
pub host_from_url-url_of :
    (scheme host port rest : Bytes)
    → Lacks b':' scheme
    → IsHost host
    → IsPort port
    → IsRest rest
    → host_from_url (url_of scheme host port rest) ≡ host
unfolding host_from_url
host_from_url-url_of scheme host port rest l h p r =
    let whole = All-append IsPlain host port h.plain (IsPort-IsPlain port p) in
    rw
      (
        after_scheme-append scheme ((host ++ port) ++ rest) l,
        authority-append (host ++ port) rest whole r,
        after_userinfo-Lacks (host ++ port) (IsPlain-Lacks (host ++ port) whole),
        bracket_free host port h.nonempty h.no_bracket,
      )
      (strip_port-append host port h.no_colon p)

is_blocked_host_lower :
    (host : Bytes)
    → 0 < length host
    → is_blocked_lower (to_lower host) ≡ true
    → is_blocked_host host ≡ true
unfolding is_blocked_host
is_blocked_host_lower [] n b = refl
is_blocked_host_lower (c ∷ s) n b = b

-- The texts of a number up to 255 in one, two or three decimal digits.
pub data OctetText : Bytes → ℕ → Type 0 where
  one_digit : {a : ℕ} → a < 10 → OctetText ((b'0' + a) ∷ []) a
  two_digits : {a b : ℕ} → a < 10 → b < 10 → OctetText ((b'0' + a) ∷ (b'0' + b) ∷ []) (10 * a + b)
  three_digits :
      {a b c : ℕ}
      → a < 10
      → b < 10
      → c < 10
      → 100 * a + 10 * b + c ≤ 255
      → OctetText ((b'0' + a) ∷ (b'0' + b) ∷ (b'0' + c) ∷ []) (100 * a + 10 * b + c)

-- An address in the dotted notation.
abbrev pub dotted : Bytes → Bytes → Bytes → Bytes → Bytes
dotted p q r s = p ++ (b'.' ∷ (q ++ (b'.' ∷ (r ++ (b'.' ∷ s)))))

octet-OctetText : {p : Bytes} {v : ℕ} → OctetText p v → octet p ≡ some v
unfolding octet digits
octet-OctetText (OctetText.one_digit a) = ground arith
octet-OctetText (OctetText.two_digits a b) = ground arith
octet-OctetText (OctetText.three_digits a b c l) = ground arith

-- A digit or a dot.
abbrev IsNumeric : ℕ → Type 0
IsNumeric x = (b'.' ≤ x) × ((x ≤ b'9') × (x ≢ b'/'))

abbrev IsDigit : ℕ → Type 0
IsDigit x = (b'0' ≤ x) × (x ≤ b'9')

OctetText-IsDigit : {p : Bytes} {v : ℕ} → OctetText p v → All IsDigit p
OctetText-IsDigit (OctetText.one_digit a) = omega (arith, a)
OctetText-IsDigit (OctetText.two_digits a b) = omega (arith, a, b)
OctetText-IsDigit (OctetText.three_digits a b c l) = omega (arith, a, b, c)

IsDigit-Lacks : (p : Bytes) → All IsDigit p → Lacks b'.' p
IsDigit-Lacks [] h = tt
IsDigit-Lacks (c ∷ p) h = (omega (arith, h.0.0), IsDigit-Lacks p h.1)

IsDigit-IsNumeric : (p : Bytes) → All IsDigit p → All IsNumeric p
IsDigit-IsNumeric [] h = tt
IsDigit-IsNumeric (c ∷ p) h = (omega (arith, h.0.0, h.0.1), IsDigit-IsNumeric p h.1)

behind_dot : (p s : Bytes) → All IsDigit p → All IsNumeric s → All IsNumeric (p ++ (b'.' ∷ s))
behind_dot p s h k = All-append IsNumeric p (b'.' ∷ s) (IsDigit-IsNumeric p h) (omega arith, k)

to_lower-IsNumeric : (s : Bytes) → All IsNumeric s → to_lower s ≡ s
unfolding to_lower ascii_lower
to_lower-IsNumeric [] h = refl
to_lower-IsNumeric (c ∷ s) h = ground (arith, to_lower-IsNumeric s h.1, h.0.0, h.0.1.0)

no_bracket_of : (s : Bytes) → All IsNumeric s → starts_with (bytes "[") s ≡ false
no_bracket_of [] h = refl
no_bracket_of (c ∷ s) h = ground (arith, h.0.1.0)

IsNumeric-IsHost : (s : Bytes) → 0 < length s → All IsNumeric s → IsHost s
IsNumeric-IsHost s n h = record {
  nonempty = n;
  plain = All-imp IsNumeric IsPlain (λ c k. omega (arith, k.0, k.1.0, k.1.1)) s h;
  no_colon = All-imp IsNumeric (λ c. c ≢ b':') (λ c k. omega (arith, k.1.0)) s h;
  no_bracket = no_bracket_of s h;
}

octets-OctetText :
    (n : ℕ) {p : Bytes} {a : ℕ} (s : Bytes)
    → OctetText p a
    → octets (suc n) (p ++ (b'.' ∷ s)) ≡ put_octet (some a) (octets n s)
octets-OctetText n {p = p} s i =
    octets_part n (p ++ (b'.' ∷ s)) p s
      (cut-append b'.' p s (IsDigit-Lacks p (OctetText-IsDigit i)))
    ∙ ap (λ o. put_octet o (octets n s)) (octet-OctetText i)

last-OctetText : {p : Bytes} {a : ℕ} → OctetText p a → octets zero p ≡ some (a ∷ [])
last-OctetText {p = p} i =
    octets_last p (cut-Lacks b'.' p (IsDigit-Lacks p (OctetText-IsDigit i)))
    ∙ ap (λ o. put_octet o (some [])) (octet-OctetText i)

parse_ipv4-dotted :
    {p q r s : Bytes} {a b c d : ℕ}
    → OctetText p a
    → OctetText q b
    → OctetText r c
    → OctetText s d
    → parse_ipv4 (dotted p q r s) ≡ some (a ∷ b ∷ c ∷ d ∷ [])
unfolding parse_ipv4
parse_ipv4-dotted {a = a} {b = b} {c = c} i j k l =
    octets-OctetText 2 _ i
    ∙ ap (put_octet (some a)) (
        octets-OctetText 1 _ j
        ∙ ap (put_octet (some b))
            (octets-OctetText 0 _ k ∙ ap (put_octet (some c)) (last-OctetText l)))

-- No URL is allowed that is put together from a scheme without a colon, four numbers up to 255 with
-- dots between them, an optional port and an optional path, query or fragment, where the numbers are
-- an address of an internal network.
pub is_url_allowed_internal :
    (scheme p q r s port rest : Bytes) (a b c d : ℕ)
    → Lacks b':' scheme
    → OctetText p a
    → OctetText q b
    → OctetText r c
    → OctetText s d
    → IsPort port
    → IsRest rest
    → is_internal (address a b c d) ≡ true
    → is_url_allowed (url_of scheme (dotted p q r s) port rest) ≡ false
unfolding is_url_allowed
is_url_allowed_internal scheme p q r s port rest a b c d l i j k m w z n =
    let numeric = behind_dot p (q ++ (b'.' ∷ (r ++ (b'.' ∷ s)))) (OctetText-IsDigit i) (
      behind_dot q (r ++ (b'.' ∷ s)) (OctetText-IsDigit j)
        (behind_dot r s (OctetText-IsDigit k) (IsDigit-IsNumeric s (OctetText-IsDigit m)))) in
    let host = dotted p q r s in
    let some_byte : 0 < length host =
      ground (arith, length-append p (b'.' ∷ (q ++ (b'.' ∷ (r ++ (b'.' ∷ s)))))) in
    let h = IsNumeric-IsHost host some_byte numeric in
    let host_eq = host_from_url-url_of scheme host port rest l h w z in
    let blocked = is_blocked_host_lower host some_byte (
      is_blocked_lower-parse_ipv4 (to_lower host) a b c d
        (ap parse_ipv4 (to_lower-IsNumeric host numeric) ∙ parse_ipv4-dotted i j k m) n) in
    ground (arith, host_eq, blocked)
