-- ===== src/Transport/HttpClient/Reading.antt =====
-- The loops of src/transport/HttpClient.cpp over the connection: `writeAll`, `readHeaders`,
-- `readBody`. Each runs on fuel, and `none` means that the fuel ran out.
use edge_llm.Base.{
  ℕ, zero, suc, ◌+◌, ◌-◌, ◌*◌, ◌%◌, ◌^◌, min, Bool, true, false, not, ◌&&◌, ◌||◌, Option, none,
  some, [], ◌∷◌, ◌++◌, Bytes, bytes, ◌==◌, ltb, leb, if◌then◌else◌, length, take, drop, cut_at,
}
use edge_llm.Core.{
  Status, write_failed, timeout, http_malformed, http_body_too_large, connection_closed,
}
use edge_llm.Transport.Chunked.{ChunkedDecoder, Fed, reset, feed}
use edge_llm.Transport.Http.{HttpResponse, header, crlf, is_empty}
use edge_llm.Transport.Connection.{Connection, Received, got, idle, closed}
use edge_llm.Transport.HttpClient.{HttpClient, Reply, reply, timed_out}
use edge_llm.Transport.HttpClient.Heads.{contains_case_insensitive, parse_header_block}

abbrev pub max_header_section : ℕ
max_header_section = 8192

abbrev pub with_body : HttpResponse → Bytes → HttpResponse
with_body out body = record out { body = body }

-- The loop over the digits; other bytes are passed over.
unfoldable pub content_length : ℕ → Bytes → ℕ
content_length want [] = want
content_length want (c ∷ s) =
    content_length (if leb b'0' c && leb c b'9' then (want * 10 + (c - b'0')) % 2 ^ 32 else want) s

unfoldable pub is_chunked : HttpResponse → Bool
unfolding header contains_case_insensitive
is_chunked out = elim (header out.headers (bytes "Transfer-Encoding")) [
  | none ↦ false
  | some te ↦ contains_case_insensitive te (bytes "chunked")
]

module _ {W : Type 0} (net : Connection W) (clock : Option (W → ℕ)) where
  abbrev pub late : HttpClient W → ℕ → Bool
  late c start = timed_out clock c.timeout_ms start c.world

  -- `!conn_.connected() && conn_.available() <= 0`
  abbrev pub hung_up : HttpClient W → Bool
  hung_up c = not (net.connected c.world) && not (net.available c.world)

  -- `conn_.read`, up to `n` bytes: the client behind it, and what it returns.
  abbrev pub polled : ℕ → HttpClient W → HttpClient W
  polled n c = record c { world = (net.read n c.world).0 }

  abbrev pub answer : ℕ → HttpClient W → Received
  answer n c = (net.read n c.world).1

  unfoldable pub write_all : ℕ → ℕ → Bytes → HttpClient W → Option (HttpClient W × Status)
  write_all fuel start [] c = some (c, Status.ok)
  write_all zero start (x ∷ s) c = none
  write_all (suc fuel) start (x ∷ s) c =
      let (w, n) = net.write (x ∷ s) c.world in
      let c' : HttpClient W = record c { world = w } in
      elim n [
        | none ↦ some (c', Status.fail write_failed)
        | some k ↦
            let rest = write_all fuel start (drop k (x ∷ s)) c' in
            if k == 0 && late c' start then some (c', Status.fail timeout) else rest
      ]

  -- What follows a head whose end was found; the bytes behind it are left over.
  abbrev pub head_found : Bytes → HttpClient W → Status × HttpResponse → Option (Reply W × Bytes)
  head_found rest c (s, out) = some (reply c out s, rest)

  abbrev pub head_failed : HttpClient W → HttpResponse → Status → Option (Reply W × Bytes)
  head_failed c out s = some (reply c out s, [])

  abbrev pub seen : HttpClient W → HttpClient W
  seen c = record c { saw_response_bytes = true }

  -- The loop of `readHeaders` over the bytes `acc` taken so far.
  unfoldable pub read_head : ℕ → ℕ → Bytes → HttpClient W → HttpResponse → Option (Reply W × Bytes)
  unfolding parse_header_block
  read_head zero start acc c out = none
  read_head (suc fuel) start acc c out =
      let c' = polled c.recv_buffer_size c in
      elim (cut_at (crlf ++ crlf) acc) [
        | some p ↦ head_found p.1 c (parse_header_block (p.0 ++ crlf) out)
        | none ↦ elim (ltb max_header_section (length acc)) [
          | true ↦ head_failed c out (Status.fail http_malformed)
          | false ↦ elim (answer c.recv_buffer_size c) [
            | got x xs ↦ read_head fuel start (acc ++ x ∷ xs) (seen c') out
            | closed ↦ head_failed c' out (Status.fail http_malformed)
            | idle ↦ elim (hung_up c') [
              | true ↦ head_failed c' out (Status.fail http_malformed)
              | false ↦ elim (late c' start) [
                | true ↦ head_failed c' out (Status.fail timeout)
                | false ↦ read_head fuel start acc c' out
              ]
            ]
          ]
        ]
      ]

  -- The pending bytes are the head of this response.
  unfoldable pub read_headers : ℕ → ℕ → HttpClient W → HttpResponse → Option (Reply W × Bytes)
  unfolding read_head
  read_headers fuel start c out =
      let c' : HttpClient W = record c {
        pending = [];
        saw_response_bytes = c.saw_response_bytes || not (is_empty c.pending);
      } in
      read_head fuel start c.pending c' out

  abbrev pub failed : HttpClient W → HttpResponse → Status → Option (Reply W)
  failed c out s = some (reply c out s)

  -- A poll that gave nothing while a body with framing is read.
  abbrev pub idle_in_body : ℕ → HttpClient W → HttpResponse → Option (Reply W) → Option (Reply W)
  idle_in_body start c out rest = elim (late c start) [
    | true ↦ failed c out (Status.fail timeout)
    | false ↦ elim (hung_up c) [
      | true ↦ failed c out (Status.fail connection_closed)
      | false ↦ rest
    ]
  ]

  unfoldable pub check_cap : HttpClient W → HttpResponse → Option (Reply W)
  check_cap c out =
      if ltb c.max_response_body (length out.body)
      then some (reply c out (Status.fail http_body_too_large))
      else some (reply c out Status.ok)

  -- What follows an answer of the decoder: `more` is the rest of the loop.
  unfoldable pub after_feed :
      (ChunkedDecoder → HttpResponse → Option (Reply W))
      → HttpClient W
      → HttpResponse
      → Option Fed
      → Option (Reply W)
  unfolding check_cap
  after_feed more c out none = none
  after_feed more c out (some f) = elim f.status [
    | Status.fail e ↦ failed c (with_body out f.out) (Status.fail e)
    | Status.ok ↦ elim f.done [
      | true ↦ check_cap c (with_body out f.out)
      | false ↦ more f.decoder (with_body out f.out)
    ]
  ]

  unfoldable pub read_chunked :
      ℕ → ℕ → HttpClient W → ChunkedDecoder → HttpResponse → Option (Reply W)
  unfolding feed after_feed
  read_chunked zero start c d out = none
  read_chunked (suc fuel) start c d out =
      let c' = polled c.recv_buffer_size c in
      elim (ltb c.max_response_body (length out.body)) [
        | true ↦ failed c out (Status.fail http_body_too_large)
        | false ↦ elim (answer c.recv_buffer_size c) [
          | got x xs ↦
              after_feed (read_chunked fuel start c') c' out (feed d out.body false (x ∷ xs))
          | closed ↦ failed c' out (Status.fail connection_closed)
          | idle ↦ idle_in_body start c' out (read_chunked fuel start c' d out)
        ]
      ]

  -- The loop that reads up to `want` bytes.
  unfoldable pub read_sized : ℕ → ℕ → ℕ → HttpClient W → HttpResponse → Option (Reply W)
  read_sized zero start want c out = none
  read_sized (suc fuel) start want c out =
      let room = min (want - length out.body) c.recv_buffer_size in
      let c' = polled room c in
      elim (ltb (length out.body) want) [
        | false ↦ some (reply c out Status.ok)
        | true ↦ elim (answer room c) [
          | got x xs ↦
              read_sized fuel start want c' (with_body out (take want (out.body ++ x ∷ xs)))
          | closed ↦ failed c' out (Status.fail connection_closed)
          | idle ↦ idle_in_body start c' out (read_sized fuel start want c' out)
        ]
      ]

  unfoldable pub read_to_close : ℕ → ℕ → HttpClient W → HttpResponse → Option (Reply W)
  read_to_close zero start c out = none
  read_to_close (suc fuel) start c out =
      let c' = polled c.recv_buffer_size c in
      elim (ltb c.max_response_body (length out.body)) [
        | true ↦ failed c out (Status.fail http_body_too_large)
        | false ↦ elim (answer c.recv_buffer_size c) [
          | got x xs ↦ read_to_close fuel start c' (with_body out (out.body ++ x ∷ xs))
          | closed ↦ some (reply c' out Status.ok)
          | idle ↦ elim (hung_up c') [
            | true ↦ some (reply c' out Status.ok)
            | false ↦ elim (late c' start) [
              | true ↦ failed c' out (Status.fail timeout)
              | false ↦ read_to_close fuel start c' out
            ]
          ]
        ]
      ]

  -- A body with a length: bytes past it belong to the next response and are kept.
  unfoldable pub start_sized : ℕ → Bytes → HttpClient W → HttpClient W
  start_sized want initial c = record c {
    pending = if ltb want (length initial) then drop want initial else c.pending;
  }

  unfoldable pub read_body : ℕ → ℕ → Bytes → HttpClient W → HttpResponse → Option (Reply W)
  unfolding is_chunked after_feed read_chunked content_length start_sized read_sized read_to_close
      header
  read_body fuel start initial c out = elim (is_chunked out) [
    | true ↦ after_feed (read_chunked fuel start c) c out (feed reset out.body false initial)
    | false ↦ elim (header out.headers (bytes "Content-Length")) [
      | none ↦ read_to_close fuel start c (with_body out initial)
      | some cl ↦
          let want = content_length 0 cl in
          elim (ltb c.max_response_body want) [
            | true ↦ failed c out (Status.fail http_body_too_large)
            | false ↦
                read_sized fuel start want (start_sized want initial c)
                  (with_body out (take want initial))
          ]
    ]
  ]
