-- ===== src/Transport/Http.antt =====
-- src/transport/HttpTypes.{h,cpp} and src/transport/HttpRequestBuilder.cpp: requests, responses,
-- and the bytes of a request. Strings are byte lists, `nullptr` is `none`.
pub mod Decimal
mod Lines
pub mod Meant
pub mod Requests
mod Tests
use edge_llm.Base.{
  ℕ, zero, suc, ◌+◌, ◌-◌, ◌/◌, ◌%◌, Bool, true, false, not, ◌&&◌, ◌||◌, Option, none, some, List,
  [], ◌∷◌, ◌++◌, Bytes, bytes, ◌==◌, ltb, leb, if◌then◌else◌, length,
}

abbrev pub Header : Type 0
Header = Bytes × Bytes

unfoldable pub ascii_lower : ℕ → ℕ
ascii_lower c = if leb b'A' c && leb c b'Z' then c - b'A' + b'a' else c

-- The loop of `headerNameEquals`, with its test on the sizes.
unfoldable pub header_name_equals : Bytes → Bytes → Bool
unfolding ascii_lower
header_name_equals [] [] = true
header_name_equals [] (y ∷ b) = false
header_name_equals (x ∷ a) [] = false
header_name_equals (x ∷ a) (y ∷ b) = ascii_lower x == ascii_lower y && header_name_equals a b

pub record HttpRequest : Type 0 where
  pub method : Bytes
  pub host : Bytes
  pub port : ℕ
  pub path : Bytes
  pub headers : List Header
  pub body : Bytes

pub record HttpResponse : Type 0 where
  pub status : ℕ
  pub reason : Bytes
  pub headers : List Header
  pub body : Bytes

-- `HttpResponse()`
abbrev pub no_response : HttpResponse
no_response = record { status = 0; reason = []; headers = []; body = [] }

unfoldable pub is_success : HttpResponse → Bool
is_success r = leb 200 r.status && ltb r.status 300

-- `header` of both types: the value of the first header of the name.
unfoldable pub header : List Header → Bytes → Option Bytes
header [] name = none
header ((n, v) ∷ hs) name = if header_name_equals n name then some v else header hs name

unfoldable pub set_header : List Header → Bytes → Bytes → List Header
set_header [] name value = (name, value) ∷ []
set_header ((n, v) ∷ hs) name value =
    if header_name_equals n name then (n, value) ∷ hs else (n, v) ∷ set_header hs name value

unfoldable pub add_header : List Header → Bytes → Bytes → List Header
add_header hs name value = hs ++ (name, value) ∷ []

abbrev pub is_some {ℓ} : {A : Type ℓ} → Option A → Bool
is_some none = false
is_some (some a) = true

unfoldable pub has_header : HttpRequest → Bytes → Bool
has_header req name = is_some (header req.headers name)

unfoldable pub strip_crlf : Bytes → Bytes
strip_crlf [] = []
strip_crlf (c ∷ s) = let rest = strip_crlf s in if c == b'\r' || c == b'\n' then rest else c ∷ rest

-- The loop of `toDecimal` over the free bytes of its buffer, from the back.
to_decimal_loop : ℕ → ℕ → Bytes → Bytes
to_decimal_loop zero value digits = digits
to_decimal_loop (suc i) value digits =
    let more = to_decimal_loop i (value / 10) ((b'0' + value % 10) ∷ digits) in
    if ltb 0 value then more else digits

unfoldable pub to_decimal : ℕ → Bytes
unfolding to_decimal_loop
to_decimal value = if value == 0 then bytes "0" else to_decimal_loop 20 value []

abbrev pub crlf : Bytes
crlf = b'\r' ∷ b'\n' ∷ []

abbrev pub is_empty : Bytes → Bool
is_empty [] = true
is_empty (c ∷ s) = false

-- `out += …; out += kCrlf;`, with what is written after it.
abbrev pub put_line : Bytes → Bytes → Bytes
put_line line rest = line ++ (crlf ++ rest)

abbrev pub put_line_if : Bool → Bytes → Bytes → Bytes
put_line_if true line rest = put_line line rest
put_line_if false line rest = rest

unfoldable pub request_line : HttpRequest → Bytes
request_line req =
    strip_crlf req.method
    ++ (b' ' ∷ (if is_empty req.path then bytes "/" else strip_crlf req.path) ++ bytes " HTTP/1.1")

unfoldable pub header_line : Header → Bytes
header_line (name, value) = strip_crlf name ++ (b':' ∷ b' ' ∷ strip_crlf value)

abbrev pub put_headers : List Header → Bytes → Bytes
put_headers [] rest = rest
put_headers (h ∷ hs) rest = put_line (header_line h) (put_headers hs rest)

unfoldable pub needs_length : HttpRequest → Bool
needs_length req =
    not (is_empty req.body)
    && not (has_header req (bytes "Content-Length"))
    && not (has_header req (bytes "Transfer-Encoding"))

unfoldable pub host_line : HttpRequest → Bytes
host_line req = bytes "Host: " ++ strip_crlf req.host

unfoldable pub length_line : HttpRequest → Bytes
length_line req = bytes "Content-Length: " ++ to_decimal (length req.body)

unfoldable pub connection_line : Bool → Bytes
connection_line keep_alive =
    if keep_alive then bytes "Connection: keep-alive" else bytes "Connection: close"

unfoldable pub serialize_request : HttpRequest → Bool → Bytes
serialize_request req keep_alive = put_line (request_line req) (
    put_line_if (not (has_header req (bytes "Host"))) (host_line req) (
      put_headers req.headers (
        put_line_if (needs_length req) (length_line req) (
          put_line_if (not (has_header req (bytes "Connection"))) (connection_line keep_alive)
            (crlf ++ req.body)))))
