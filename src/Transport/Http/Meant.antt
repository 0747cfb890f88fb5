-- ===== src/Transport/Http/Meant.antt =====
-- The head that a request should have, written down apart from src/transport/HttpRequestBuilder.cpp,
-- and that the builder's lines are these.
use edge_llm.Base.{
  ℕ, ◌<◌, ◌/◌, ◌%◌, zero, suc, ◌+◌, ◌≡◌, refl, ap, Bool, true, false, not, ◌&&◌, ◌||◌, List, [],
  ◌∷◌, ◌++◌, arith, Bytes, bytes, beq, ◌==◌, ltb, All, if◌then◌else◌, map, ◌^◌,
}
use edge_llm.Transport.Http.{
  Header, HttpRequest, ascii_lower, header_name_equals, header, has_header, is_some, strip_crlf,
  to_decimal_loop, to_decimal, request_line, header_line, host_line, connection_line, needs_length,
  is_empty,
}
use edge_llm.Transport.Http.Decimal.{IsDigit, number}

-- The bytes of a field without its line breaks.
abbrev pub without_breaks : Bytes → Bytes
without_breaks [] = []
without_breaks (c ∷ s) =
    if c == b'\n'
    then without_breaks s
    else if c == b'\r'
    then without_breaks s
    else c ∷ without_breaks s

-- The test for a header of a name, in any case of its letters.
abbrev small_letter : ℕ → ℕ
small_letter c = if ltb 64 c && ltb c 91 then c + 32 else c

abbrev pub names : List Header → Bytes → Bool
names [] name = false
names (h ∷ hs) name = beq (map small_letter h.0) (map small_letter name) || names hs name

-- The optional lines of a head.
abbrev pub line_if : Bool → Bytes → List Bytes
line_if true l = l ∷ []
line_if false l = []

abbrev target : Bytes → Bytes
target [] = bytes "/"
target (c ∷ p) = without_breaks (c ∷ p)

abbrev first_line : HttpRequest → Bytes
first_line req = without_breaks req.method ++ (b' ' ∷ target req.path ++ bytes " HTTP/1.1")

abbrev field_line : Header → Bytes
field_line h = without_breaks h.0 ++ (bytes ": " ++ without_breaks h.1)

abbrev states_length : HttpRequest → Bool
states_length req =
    not (beq req.body [])
    && not (
        names req.headers (bytes "Content-Length") || names req.headers (bytes "Transfer-Encoding"))

-- The lines of the head of `req`: a request line, the host unless the caller set it, one line for
-- each header of the caller, and the length, whose digits are `digits`, and the connection where
-- they are due.
abbrev pub head_lines : HttpRequest → Bool → Bytes → List Bytes
head_lines req keep_alive digits =
    first_line req
    ∷ (line_if (not (names req.headers (bytes "Host"))) (bytes "Host: " ++ without_breaks req.host)
        ++ (map field_line req.headers
            ++ (line_if (states_length req) (bytes "Content-Length: " ++ digits)
                ++ line_if (not (names req.headers (bytes "Connection"))) (
                    bytes "Connection: "
                    ++ (if keep_alive then bytes "keep-alive" else bytes "close")))))

strip_crlf-without_breaks : (s : Bytes) → strip_crlf s ≡ without_breaks s
unfolding strip_crlf
strip_crlf-without_breaks [] = refl
strip_crlf-without_breaks (c ∷ s) = ground (arith, strip_crlf-without_breaks s)

header_name_equals-small :
    (a b : Bytes) → header_name_equals a b ≡ beq (map small_letter a) (map small_letter b)
unfolding header_name_equals ascii_lower
header_name_equals-small [] [] = refl
header_name_equals-small [] (y ∷ b) = refl
header_name_equals-small (x ∷ a) [] = refl
header_name_equals-small (x ∷ a) (y ∷ b) = ground (arith, header_name_equals-small a b)

header-names : (hs : List Header) (name : Bytes) → is_some (header hs name) ≡ names hs name
unfolding header
header-names [] name = refl
header-names ((n, v) ∷ hs) name =
    ground (arith, header_name_equals-small n name, header-names hs name)

pub has_header-names :
    (req : HttpRequest) (name : Bytes) → has_header req name ≡ names req.headers name
unfolding has_header
has_header-names req name = header-names req.headers name

is_empty-beq : (s : Bytes) → is_empty s ≡ beq s []
is_empty-beq [] = refl
is_empty-beq (c ∷ s) = refl

pub needs_length-states : (req : HttpRequest) → needs_length req ≡ states_length req
unfolding needs_length
needs_length-states req = ground (
  arith,
  is_empty-beq req.body,
  has_header-names req (bytes "Content-Length"),
  has_header-names req (bytes "Transfer-Encoding"),
)

target_of_path : (p : Bytes) → (if is_empty p then bytes "/" else strip_crlf p) ≡ target p
target_of_path [] = refl
target_of_path (c ∷ p) = strip_crlf-without_breaks (c ∷ p)

pub request_line-first : (req : HttpRequest) → request_line req ≡ first_line req
unfolding request_line
request_line-first req = rw (strip_crlf-without_breaks req.method, target_of_path req.path) refl

pub header_line-fields : (hs : List Header) → map header_line hs ≡ map field_line hs
unfolding header_line
header_line-fields [] = refl
header_line-fields ((n, v) ∷ hs) =
    rw (strip_crlf-without_breaks n, strip_crlf-without_breaks v, header_line-fields hs) refl

pub host_line_lem : (req : HttpRequest) → host_line req ≡ bytes "Host: " ++ without_breaks req.host
unfolding host_line
host_line_lem req = ap (λ (s : Bytes). bytes "Host: " ++ s) (strip_crlf-without_breaks req.host)

pub connection_line_lem :
    (keep_alive : Bool)
    → connection_line keep_alive
      ≡ bytes "Connection: " ++ (if keep_alive then bytes "keep-alive" else bytes "close")
unfolding connection_line
connection_line_lem true = refl
connection_line_lem false = refl

number-to_decimal_loop :
    (i v : ℕ) (ds : Bytes) → v < 10 ^ i → number 0 (to_decimal_loop i v ds) ≡ number v ds
unfolding to_decimal_loop
number-to_decimal_loop zero v ds h = ap (λ (n : ℕ). number n ds) (omega (arith, h))
number-to_decimal_loop (suc i) v ds h =
    let d = (b'0' + v % 10) ∷ ds in
    let deeper = number-to_decimal_loop i (v / 10) d (omega (arith, h)) in
    let same : number (v / 10) d ≡ number v ds = ap (λ (n : ℕ). number n ds) (omega arith) in
    ground (arith, deeper, same)

pub number-to_decimal : (v : ℕ) → v < 10 ^ 20 → number 0 (to_decimal v) ≡ v
unfolding to_decimal
number-to_decimal v h = ground (arith, number-to_decimal_loop 20 v [] h)

to_decimal_loop-IsDigit :
    (i v : ℕ) (ds : Bytes) → All IsDigit ds → All IsDigit (to_decimal_loop i v ds)
unfolding to_decimal_loop
to_decimal_loop-IsDigit zero v ds h = h
to_decimal_loop-IsDigit (suc i) v ds h =
    ground (arith, h, to_decimal_loop-IsDigit i (v / 10) ((b'0' + v % 10) ∷ ds) (omega arith, h))

pub to_decimal-IsDigit : (v : ℕ) → All IsDigit (to_decimal v)
unfolding to_decimal
to_decimal-IsDigit v = ground (arith, to_decimal_loop-IsDigit 20 v [] tt)
