-- ===== src/Transport/Http/Lines.antt =====
-- The lines of a request head hold no line break: src/transport/HttpRequestBuilder.cpp.
use edge_llm.Base.{
  ℕ, ◌<◌, ◌/◌, ◌%◌, zero, suc, ◌+◌, ◌≢◌, Bool, true, false, List, [], ◌∷◌, ◌++◌, arith, Bytes,
  bytes, Lacks, All, All-append, if◌then◌else◌, length, map,
}
use edge_llm.Transport.Http.{
  Header, HttpRequest, strip_crlf, to_decimal_loop, to_decimal, request_line, header_line,
  host_line, length_line, connection_line, is_empty,
}

-- A line with no CR or LF in it that is not empty.
pub record IsLine (l : Bytes) : Type 0 where
  pub cr : Lacks b'\r' l
  pub lf : Lacks b'\n' l
  pub nonempty : l ≢ []

strip_crlf-Lacks : (s : Bytes) → Lacks b'\r' (strip_crlf s) × Lacks b'\n' (strip_crlf s)
unfolding strip_crlf
strip_crlf-Lacks [] = (tt, tt)
strip_crlf-Lacks (c ∷ s) = ground (arith, strip_crlf-Lacks s)

to_decimal_loop-Lacks :
    (b i value : ℕ) (digits : Bytes)
    → b < b'0'
    → Lacks b digits
    → Lacks b (to_decimal_loop i value digits)
unfolding to_decimal_loop
to_decimal_loop-Lacks b zero value digits h k = k
to_decimal_loop-Lacks b (suc i) value digits h k = ground (
  arith,
  to_decimal_loop-Lacks b i (value / 10) ((b'0' + value % 10) ∷ digits) h (omega arith, k),
)

to_decimal-Lacks : (b value : ℕ) → b < b'0' → Lacks b (to_decimal value)
unfolding to_decimal
to_decimal-Lacks b value h = ground (arith, to_decimal_loop-Lacks b 20 value [] h tt)

-- Bytes that hold no line break, joined.
abbrev IsPlain : Bytes → Type 0
IsPlain l = Lacks b'\r' l × Lacks b'\n' l

IsPlain-append : (xs ys : Bytes) → IsPlain xs → IsPlain ys → IsPlain (xs ++ ys)
IsPlain-append xs ys h k =
    (All-append (λ x. x ≢ b'\r') xs ys h.0 k.0, All-append (λ x. x ≢ b'\n') xs ys h.1 k.1)

append-ne-nil : (xs : Bytes) (y : ℕ) (ys : Bytes) → xs ++ y ∷ ys ≢ []
append-ne-nil [] y ys = cc
append-ne-nil (x ∷ xs) y ys = cc

IsLine-of_plain :
    (xs : Bytes) (y : ℕ) (ys : Bytes) → IsPlain xs → IsPlain (y ∷ ys) → IsLine (xs ++ y ∷ ys)
IsLine-of_plain xs y ys h k =
    let both = IsPlain-append xs (y ∷ ys) h k in
    record { cr = both.0; lf = both.1; nonempty = append-ne-nil xs y ys }

path-IsPlain : (p : Bytes) → IsPlain (if is_empty p then bytes "/" else strip_crlf p)
path-IsPlain [] = omega arith
path-IsPlain (c ∷ p) = strip_crlf-Lacks (c ∷ p)

pub request_line-IsLine : (req : HttpRequest) → IsLine (request_line req)
unfolding request_line
request_line-IsLine req =
    let tail = IsPlain-append _ (bytes " HTTP/1.1") (path-IsPlain req.path) (omega arith) in
    IsLine-of_plain (strip_crlf req.method) b' ' _ (strip_crlf-Lacks req.method)
      ((omega arith, tail.0), (omega arith, tail.1))

pub header_line-IsLine : (h : Header) → IsLine (header_line h)
unfolding header_line
header_line-IsLine (name, value) =
    let v = strip_crlf-Lacks value in
    IsLine-of_plain (strip_crlf name) b':' _ (strip_crlf-Lacks name)
      ((omega arith, (omega arith, v.0)), (omega arith, (omega arith, v.1)))

pub headers-IsLine : (hs : List Header) → All IsLine (map header_line hs)
headers-IsLine [] = tt
headers-IsLine (h ∷ hs) = (header_line-IsLine h, headers-IsLine hs)

pub host_line-IsLine : (req : HttpRequest) → IsLine (host_line req)
unfolding host_line
host_line-IsLine req =
    let v = strip_crlf-Lacks req.host in
    let both = IsPlain-append (bytes "Host: ") _ (omega arith) v in
    record { cr = both.0; lf = both.1; nonempty = cc }

pub length_line-IsLine : (req : HttpRequest) → IsLine (length_line req)
unfolding length_line
length_line-IsLine req =
    let n = length req.body in
    let both =
      IsPlain-append (bytes "Content-Length: ") (to_decimal n) (omega arith)
        (to_decimal-Lacks b'\r' n (omega arith), to_decimal-Lacks b'\n' n (omega arith)) in
    record { cr = both.0; lf = both.1; nonempty = cc }

pub connection_line-IsLine : (keep_alive : Bool) → IsLine (connection_line keep_alive)
unfolding connection_line
connection_line-IsLine true = record { cr = omega arith; lf = omega arith; nonempty = cc }
connection_line-IsLine false = record { cr = omega arith; lf = omega arith; nonempty = cc }
