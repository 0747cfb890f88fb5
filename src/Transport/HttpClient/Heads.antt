-- ===== src/Transport/HttpClient/Heads.antt =====
-- The head of a response: `trim`, `containsCaseInsensitive` and `parseHeaderBlock` of
-- src/transport/HttpClient.cpp.
use edge_llm.Base.{
  ℕ, zero, suc, ◌+◌, ◌-◌, ◌*◌, ◌%◌, ◌^◌, Bool, ◌||◌, Option, none, some, List, [], ◌∷◌, ◌++◌, Bytes,
  ◌==◌, ltb, if◌then◌else◌, length, map, cut, cut_at,
}
use edge_llm.Core.{Status, http_malformed}
use edge_llm.Transport.Http.{Header, HttpResponse, ascii_lower, is_some, is_empty, crlf}

unfoldable pub is_blank : ℕ → Bool
is_blank c = c == b' ' || c == b'\t'

-- The loop from the front.
unfoldable pub trim_start : Bytes → Bytes
unfolding is_blank
trim_start [] = []
trim_start (c ∷ s) = let rest = trim_start s in if is_blank c then rest else c ∷ s

-- The loop from the back: a blank byte goes with all blank bytes behind it.
abbrev pub keep : ℕ → Bytes → Bytes
keep c [] = if c == b' ' || c == b'\t' || c == b'\r' then [] else c ∷ []
keep c (x ∷ s) = c ∷ (x ∷ s)

unfoldable pub trim_end : Bytes → Bytes
trim_end [] = []
trim_end (c ∷ s) = keep c (trim_end s)

unfoldable pub trim : Bytes → Bytes
unfolding trim_start trim_end
trim s = trim_end (trim_start s)

unfoldable pub contains_case_insensitive : Bytes → Bytes → Bool
contains_case_insensitive haystack needle = is_some (cut_at needle (map ascii_lower haystack))

-- The loop over the digits of the code. The `int` is kept as its 32 bits; the source has no test
-- for overflow.
unfoldable pub status_code : ℕ → Bytes → Option ℕ
status_code code [] = some code
status_code code (c ∷ s) =
    let rest = status_code ((code * 10 + (c - b'0')) % 2 ^ 32) s in
    if ltb c b'0' || ltb b'9' c then none else rest

-- The code and the reason of a status line.
unfoldable pub code_and_reason : Bytes → Option (Bytes × Bytes)
unfolding trim
code_and_reason line = elim (cut b' ' line) [
  | none ↦ none
  | some p ↦ elim (cut b' ' p.1) [ none ↦ some (p.1, []) | some q ↦ some (q.0, trim q.1) ]
]

unfoldable pub parse_status_line : Bytes → Option (ℕ × Bytes)
unfolding code_and_reason status_code
parse_status_line line = elim (code_and_reason line) [
  | none ↦ none
  | some p ↦
      if ltb (length p.0) 3
      then none
      else elim (status_code 0 p.0) [ none ↦ none | some code ↦ some (code, p.1) ]
]

-- A header line: `none` for a line with no colon.
unfoldable pub parse_header : Bytes → Option Header
unfolding trim
parse_header line = elim (cut b':' line) [ none ↦ none | some p ↦ some (trim p.0, trim p.1) ]

abbrev pub cons_header : Option Header → List Header → List Header
cons_header none hs = hs
cons_header (some h) hs = h ∷ hs

-- The line up to the next line ending, and what stands behind it.
unfoldable pub next_line : Bytes → Bytes × Bytes
next_line s = elim (cut_at crlf s) [ none ↦ (s, []) | some p ↦ p ]

-- The loop over the header lines. Each round takes a byte at least.
unfoldable pub header_lines : ℕ → Bytes → List Header
unfolding next_line parse_header
header_lines zero s = []
header_lines (suc fuel) [] = []
header_lines (suc fuel) (c ∷ s) =
    let (line, behind) = next_line (c ∷ s) in
    let hs = header_lines fuel behind in
    if is_empty line then [] else cons_header (parse_header line) hs

unfoldable pub parse_header_block : Bytes → HttpResponse → Status × HttpResponse
unfolding parse_status_line header_lines
parse_header_block block out = elim (cut_at crlf block) [
  | none ↦ (Status.fail http_malformed, out)
  | some p ↦ elim (parse_status_line p.0) [
    | none ↦ (Status.fail http_malformed, out)
    | some l ↦ (
      Status.ok,
      record out {
        status = l.0;
        reason = l.1;
        headers = out.headers ++ header_lines (length p.1) p.1;
      },
    )
  ]
]
