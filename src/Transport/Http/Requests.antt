-- ===== src/Transport/Http/Requests.antt =====
-- The bytes of a request, read back line by line: src/transport/HttpRequestBuilder.cpp.
use edge_llm.Base.{
  ℕ, zero, suc, ◌≡◌, refl, sym, subst, ap, ◌∙◌, Bool, true, false, not, Option, none, some, List,
  [], ◌∷◌, ◌++◌, Bytes, bytes, All, All-append, arith, Lacks, ◌==◌, ◌<◌, ◌^◌, if◌then◌else◌, length,
  map,
}
use edge_llm.Transport.Http.{
  Header, HttpRequest, crlf, put_line, put_line_if, put_headers, request_line, header_line,
  host_line, length_line, connection_line, needs_length, has_header, serialize_request, is_empty,
  to_decimal,
}
use edge_llm.Transport.Http.Decimal.{IsDigit, number}
use edge_llm.Transport.Http.Meant.{
  line_if, head_lines, has_header-names, needs_length-states, request_line-first,
  header_line-fields, host_line_lem, connection_line_lem, number-to_decimal, to_decimal-IsDigit,
}
use edge_llm.Transport.Http.Lines.{
  IsLine, request_line-IsLine, headers-IsLine, host_line-IsLine, length_line-IsLine,
  connection_line-IsLine,
}

-- A reader of a message head that ends a line at CR LF, at a CR alone or at an LF alone: the line
-- and what follows it.
abbrev after_cr : Bytes → Bytes
after_cr [] = []
after_cr (c ∷ s) = if c == b'\n' then s else c ∷ s

abbrev cons_byte : ℕ → Option (Bytes × Bytes) → Option (Bytes × Bytes)
cons_byte c none = none
cons_byte c (some (l, rest)) = some (c ∷ l, rest)

unfoldable pub read_line : Bytes → Option (Bytes × Bytes)
read_line [] = none
read_line (c ∷ s) =
    if c == b'\r'
    then some ([], after_cr s)
    else if c == b'\n'
    then some ([], s)
    else cons_byte c (read_line s)

-- Lines up to a blank one, and the bytes behind it.
abbrev pub cons_line : Bytes → Option (List Bytes × Bytes) → Option (List Bytes × Bytes)
cons_line l none = none
cons_line l (some (ls, rest)) = some (l ∷ ls, rest)

unfoldable pub read_head : ℕ → Bytes → Option (List Bytes × Bytes)
read_head zero s = none
read_head (suc n) s = elim (read_line s) [
  | none ↦ none
  | some (l, rest) ↦
      (let more = cons_line l (read_head n rest) in if is_empty l then some ([], rest) else more)
]

read_line-append :
    (l rest : Bytes)
    → Lacks b'\r' l
    → Lacks b'\n' l
    → read_line (l ++ (crlf ++ rest)) ≡ some (l, rest)
unfolding read_line
read_line-append [] rest h k = refl
read_line-append (c ∷ l) rest h k = ground (arith, read_line-append l rest h.1 k.1)

-- The lines of a head, and their bytes.
abbrev put_lines : List Bytes → Bytes → Bytes
put_lines [] rest = rest
put_lines (l ∷ ls) rest = put_line l (put_lines ls rest)

read_head-put_line :
    (n : ℕ) (l rest : Bytes)
    → IsLine l
    → read_head (suc n) (put_line l rest) ≡ cons_line l (read_head n rest)
unfolding read_head
read_head-put_line n [] rest h = absurd (h.nonempty refl)
read_head-put_line n (c ∷ l) rest h = rw (read_line-append (c ∷ l) rest h.cr h.lf, read_head)

read_head-put_lines :
    (ls : List Bytes) (rest : Bytes)
    → All IsLine ls
    → read_head (suc (length ls)) (put_lines ls (crlf ++ rest)) ≡ some (ls, rest)
unfolding read_head read_line
read_head-put_lines [] rest h = refl
read_head-put_lines (l ∷ ls) rest h =
    read_head-put_line (suc (length ls)) l (put_lines ls (crlf ++ rest)) h.0
    ∙ ap (cons_line l) (read_head-put_lines ls rest h.1)

-- The lines that the builder writes.
abbrev written_lines : HttpRequest → Bool → List Bytes
written_lines req keep_alive =
    request_line req
    ∷ (line_if (not (has_header req (bytes "Host"))) (host_line req)
        ++ (map header_line req.headers
            ++ (line_if (needs_length req) (length_line req)
                ++ line_if (not (has_header req (bytes "Connection")))
                    (connection_line keep_alive))))

written_lines_lem :
    (req : HttpRequest) (keep_alive : Bool)
    → written_lines req keep_alive ≡ head_lines req keep_alive (to_decimal (length req.body))
unfolding length_line
written_lines_lem req keep_alive =
    rw
      (
        request_line-first req,
        has_header-names req (bytes "Host"),
        has_header-names req (bytes "Connection"),
        host_line_lem req,
        header_line-fields req.headers,
        needs_length-states req,
        connection_line_lem keep_alive,
      )
      refl

put_lines-append :
    (xs ys : List Bytes) (rest : Bytes)
    → put_lines (xs ++ ys) rest ≡ put_lines xs (put_lines ys rest)
put_lines-append [] ys rest = refl
put_lines-append (x ∷ xs) ys rest = ap (put_line x) (put_lines-append xs ys rest)

put_lines-line_if :
    (b : Bool) (l rest : Bytes) → put_lines (line_if b l) rest ≡ put_line_if b l rest
put_lines-line_if true l rest = refl
put_lines-line_if false l rest = refl

put_lines-headers :
    (hs : List Header) (rest : Bytes) → put_lines (map header_line hs) rest ≡ put_headers hs rest
put_lines-headers [] rest = refl
put_lines-headers (h ∷ hs) rest = ap (put_line (header_line h)) (put_lines-headers hs rest)

serialize_request-put_lines :
    (req : HttpRequest) (keep_alive : Bool)
    → serialize_request req keep_alive ≡ put_lines (written_lines req keep_alive) (crlf ++ req.body)
unfolding serialize_request
serialize_request-put_lines req keep_alive =
    sym (simp (put_lines-append, put_lines-line_if, put_lines-headers))

line_if-IsLine : (b : Bool) (l : Bytes) → IsLine l → All IsLine (line_if b l)
line_if-IsLine true l h = (h, tt)
line_if-IsLine false l h = tt

written_lines-IsLine :
    (req : HttpRequest) (keep_alive : Bool) → All IsLine (written_lines req keep_alive)
written_lines-IsLine req keep_alive =
    let host = line_if (not (has_header req (bytes "Host"))) (host_line req) in
    let heads = map header_line req.headers in
    let size = line_if (needs_length req) (length_line req) in
    let close = line_if (not (has_header req (bytes "Connection"))) (connection_line keep_alive) in
    (
      request_line-IsLine req,
      All-append IsLine host (heads ++ (size ++ close))
          (line_if-IsLine (not (has_header req (bytes "Host"))) _ (host_line-IsLine req))
          (All-append IsLine heads (size ++ close) (headers-IsLine req.headers) (
            All-append IsLine size close
              (line_if-IsLine (needs_length req) _ (length_line-IsLine req))
              (line_if-IsLine (not (has_header req (bytes "Connection"))) _
                (connection_line-IsLine keep_alive)))),
    )

-- Whatever bytes the method, the path, the host, and the names and values of the headers hold, for a
-- body of less than 10^20 bytes: a reader that ends a line at CR LF, at a CR alone and at an LF alone
-- finds the request line, the Host line unless the caller set one, one line "name: value" for each
-- header of the caller, and the Content-Length and Connection lines where they are due, each field
-- without its CRs and LFs and nothing else; the digits of the Content-Length write the number of
-- bytes of the body; and behind the blank line the body stands unchanged. So no field can add a line,
-- end the head early or reach into the body.
pub read_head-serialize_request :
    (req : HttpRequest) (keep_alive : Bool)
    → length req.body < 10 ^ 20
    → (digits : Bytes) × (All IsDigit digits
        × ((number 0 digits ≡ length req.body)
            × (read_head
                  (suc (length (head_lines req keep_alive digits)))
                  (serialize_request req keep_alive)
                ≡ some (head_lines req keep_alive digits, req.body))))
read_head-serialize_request req keep_alive small =
    let n = length req.body in
    (
      to_decimal n,
      (
        to_decimal-IsDigit n,
        (
          number-to_decimal n small,
          subst
              (λ (ls : List Bytes).
                read_head (suc (length ls)) (serialize_request req keep_alive)
                ≡ some (ls, req.body))
              (written_lines_lem req keep_alive)
              (rw (serialize_request-put_lines req keep_alive) (
                read_head-put_lines (written_lines req keep_alive) req.body
                  (written_lines-IsLine req keep_alive))),
        ),
      ),
    )
