-- ===== src/Transport/HttpClient/HeadRoundTrip.antt =====
-- A response head of RFC 7230 is read back by `parseHeaderBlock` of src/transport/HttpClient.cpp.
use edge_llm.Base.{
  ℕ, zero, suc, ◌+◌, ◌/◌, ◌%◌, ◌≤◌, ◌<◌, ◌≡◌, ◌≢◌, refl, ap, ◌∙◌, some, List, [], ◌∷◌, ◌++◌, Bytes,
  bytes, arith, Lacks, All, All-append, length, length-append, cut-append, cut_at-append,
}
use edge_llm.Core.{Status}
use edge_llm.Transport.Http.{Header, no_response, crlf}
use edge_llm.Transport.HttpClient.Heads.{
  trim, status_code, code_and_reason, parse_status_line, parse_header, next_line, header_lines,
  parse_header_block,
}

-- A code of three digits.
abbrev pub three_digits : ℕ → Bytes
three_digits code = (b'0' + code / 100) ∷ (b'0' + code / 10 % 10) ∷ (b'0' + code % 10) ∷ []

abbrev status_line : ℕ → Bytes → Bytes
status_line code reason = bytes "HTTP/1.1" ++ b' ' ∷ (three_digits code ++ b' ' ∷ reason)

-- `name: value`
abbrev field_line : Header → Bytes
field_line h = h.0 ++ b':' ∷ (b' ' ∷ h.1)

abbrev print_fields : List Header → Bytes
print_fields [] = []
print_fields (h ∷ hs) = field_line h ++ (crlf ++ print_fields hs)

-- The head up to the blank line.
abbrev pub print_head : ℕ → Bytes → List Header → Bytes
print_head code reason hs = status_line code reason ++ (crlf ++ print_fields hs)

-- No blanks at the ends, and no line break.
abbrev pub IsText : Bytes → Type 0
IsText s = (trim s ≡ s) × Lacks b'\r' s

abbrev pub IsField : Header → Type 0
IsField h = IsText h.0 × (Lacks b':' h.0 × IsText h.1)

three_digits_code : (code : ℕ) → code < 1000 → status_code 0 (three_digits code) ≡ some code
unfolding status_code
three_digits_code code h = ground arith

parse_status_line-print :
    (code : ℕ) (reason : Bytes)
    → code < 1000
    → IsText reason
    → parse_status_line (status_line code reason) ≡ some (code, reason)
unfolding parse_status_line code_and_reason
parse_status_line-print code reason h t =
    rw
      (
        cut-append b' ' (bytes "HTTP/1.1") (three_digits code ++ b' ' ∷ reason) (omega arith),
        parse_status_line,
        code_and_reason,
        cut-append b' ' (three_digits code) reason (omega arith),
        three_digits_code code h,
      )
      (ap (λ (r : Bytes). some (code, r)) t.0)

trim-space : (s : Bytes) → trim (b' ' ∷ s) ≡ trim s
unfolding trim
trim-space s = refl

parse_header-print : (h : Header) → IsField h → parse_header (field_line h) ≡ some h
unfolding parse_header
parse_header-print (name, value) f =
    rw (cut-append b':' name (b' ' ∷ value) f.1.0, parse_header, trim-space value, f.0.0, f.1.1.0)
      refl

field_line-Lacks : (h : Header) → IsField h → Lacks b'\r' (field_line h)
field_line-Lacks (name, value) f =
    All-append (λ x. x ≢ b'\r') name (b':' ∷ b' ' ∷ value) f.0.1
      (omega arith, (omega arith, f.1.1.1))

next_line-print :
    (h : Header) (rest : Bytes)
    → IsField h
    → next_line (field_line h ++ (crlf ++ rest)) ≡ (field_line h, rest)
unfolding next_line
next_line-print h rest f =
    rw (cut_at-append b'\r' (b'\n' ∷ []) (field_line h) rest (field_line-Lacks h f), next_line) refl

header_lines_step :
    (fuel : ℕ) (h : Header) (rest : Bytes)
    → IsField h
    → header_lines (suc fuel) (field_line h ++ (crlf ++ rest)) ≡ h ∷ header_lines fuel rest
unfolding header_lines
header_lines_step fuel ([], value) rest f =
    rw (next_line-print ([], value) rest f, header_lines, parse_header-print ([], value) f) refl
header_lines_step fuel (c ∷ name, value) rest f =
    rw
      (
        next_line-print (c ∷ name, value) rest f,
        header_lines,
        parse_header-print (c ∷ name, value) f,
      )
      refl

header_lines-print :
    (hs : List Header) (fuel : ℕ)
    → length (print_fields hs) ≤ fuel
    → All IsField hs
    → header_lines fuel (print_fields hs) ≡ hs
unfolding header_lines
header_lines-print [] zero n f = refl
header_lines-print [] (suc fuel) n f = refl
header_lines-print (h ∷ hs) zero n f =
    absurd (omega (arith, length-append (field_line h) (crlf ++ print_fields hs), n))
header_lines-print (h ∷ hs) (suc fuel) n f =
    header_lines_step fuel h (print_fields hs) f.0
    ∙ ap (λ (r : List Header). h ∷ r)
        (header_lines-print hs fuel
          (omega (arith, length-append (field_line h) (crlf ++ print_fields hs), n)) f.1)

-- A head with a code below 1000, and with a reason and fields that have no blanks at their ends and
-- no carriage return in them, and no colon in a name, is read back: the code, the reason, and every
-- field in order.
pub parse_header_block-print :
    (code : ℕ) (reason : Bytes) (hs : List Header)
    → code < 1000
    → IsText reason
    → All IsField hs
    → parse_header_block (print_head code reason hs) no_response
      ≡ (Status.ok, record { status = code; reason = reason; headers = hs; body = [] })
unfolding parse_header_block
parse_header_block-print code reason hs c t f =
    let start = bytes "HTTP/1.1" ++ b' ' ∷ (three_digits code ++ b' ' ∷ []) in
    let plain = All-append (λ x. x ≢ b'\r') start reason (omega arith) t.1 in
    rw
      (
        cut_at-append b'\r' (b'\n' ∷ []) (status_line code reason) (print_fields hs) plain,
        parse_header_block,
        parse_status_line-print code reason c t,
        header_lines-print hs (length (print_fields hs)) (omega arith) f,
      )
      refl
