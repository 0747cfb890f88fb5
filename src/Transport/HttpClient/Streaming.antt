-- ===== src/Transport/HttpClient/Streaming.antt =====
-- `HttpClient::sendStream` of src/transport/HttpClient.cpp. The callback answers whether it wants
-- more; its answer is a function of the calls made so far. The log lines are left out.
use edge_llm.Base.{
  ℕ, zero, suc, ◌+◌, ◌%◌, ◌^◌, Bool, true, false, Option, none, some, List, [], ◌∷◌, ◌++◌, Bytes,
  ltb, length,
}
use edge_llm.Core.{Status, timeout, http_body_too_large, connection_closed}
use edge_llm.Transport.Chunked.{ChunkedDecoder, Fed, reset, feed}
use edge_llm.Transport.Http.{HttpRequest, HttpResponse, serialize_request}
use edge_llm.Transport.Connection.{host_name, Connection, got, idle, closed}
use edge_llm.Transport.HttpClient.{HttpClient, Reply, reply, reading}
use edge_llm.Transport.HttpClient.Reading.{
  is_chunked, polled, answer, late, hung_up, write_all, read_headers,
}
use edge_llm.Transport.HttpClient.Sending.{has_body}

-- The calls of the callback, and the bytes counted against the cap.
pub record Sink : Type 0 where
  pub calls : List Bytes
  pub total : ℕ

abbrev pub empty_sink : Sink
empty_sink = record { calls = []; total = 0 }

-- How the stream goes on behind a call of `emit`.
pub data Emitted : Type 0 where
  go overflow stop : Emitted

-- A reply, with the sink behind it.
abbrev pub Streamed : Type 0 → Type 0
Streamed W = Reply W × Sink

-- The length of a call is added modulo 2 ^ 32.
abbrev pub counted : Bytes → Sink → Sink
counted s k = record k { total = (k.total + length s) % 2 ^ 32 }

abbrev pub called : Bytes → Sink → Sink
called s k = record k { calls = k.calls ++ s ∷ [] }

module _ {W : Type 0} (net : Connection W) (clock : Option (W → ℕ))
    (accept : List Bytes → Bool) where
  unfoldable pub emit : ℕ → Bytes → Sink → Sink × Emitted
  emit cap [] k = (k, go)
  emit cap (x ∷ s) k = elim (ltb cap (counted (x ∷ s) k).total) [
    | true ↦ (counted (x ∷ s) k, overflow)
    | false ↦ elim (accept (called (x ∷ s) (counted (x ∷ s) k)).calls) [
      | true ↦ (called (x ∷ s) (counted (x ∷ s) k), go)
      | false ↦ (called (x ∷ s) (counted (x ∷ s) k), stop)
    ]
  ]

  abbrev pub streamed : HttpClient W → HttpResponse → Sink → Status → Option (Streamed W)
  streamed c out k s = some (reply c out s, k)

  -- What follows a call of `emit`: `more` is the rest of the stream.
  unfoldable pub after_emit :
      (Sink → Option (Streamed W))
      → HttpClient W
      → HttpResponse
      → Sink × Emitted
      → Option (Streamed W)
  after_emit more c out (k, go) = more k
  after_emit more c out (k, overflow) = streamed c out k (Status.fail http_body_too_large)
  after_emit more c out (k, stop) = streamed c out k Status.ok

  unfoldable pub after_chunk :
      (ChunkedDecoder → Sink → Option (Streamed W))
      → HttpClient W
      → HttpResponse
      → Sink
      → Option Fed
      → Option (Streamed W)
  unfolding emit after_emit
  after_chunk more c out k none = none
  after_chunk more c out k (some f) = elim f.status [
    | Status.fail e ↦ streamed c out k (Status.fail e)
    | Status.ok ↦
        after_emit
          (λ k'. elim f.done [ true ↦ streamed c out k' Status.ok | false ↦ more f.decoder k' ]) c
          out (emit c.max_response_body f.out k)
  ]

  unfoldable pub stream_chunked :
      ℕ → ℕ → HttpResponse → HttpClient W → ChunkedDecoder → Sink → Option (Streamed W)
  unfolding feed after_chunk
  stream_chunked zero start out c d k = none
  stream_chunked (suc fuel) start out c d k =
      let c' = polled net clock c.recv_buffer_size c in
      elim (answer net clock c.recv_buffer_size c) [
        | got x xs ↦
            after_chunk (stream_chunked fuel start out c') c' out k (feed d [] false (x ∷ xs))
        | closed ↦ streamed c' out k (Status.fail connection_closed)
        | idle ↦ elim (late net clock c' start) [
          | true ↦ streamed c' out k (Status.fail timeout)
          | false ↦ elim (hung_up net clock c') [
            | true ↦ streamed c' out k (Status.fail connection_closed)
            | false ↦ stream_chunked fuel start out c' d k
          ]
        ]
      ]

  unfoldable pub stream_raw : ℕ → ℕ → HttpResponse → HttpClient W → Sink → Option (Streamed W)
  unfolding emit after_emit
  stream_raw zero start out c k = none
  stream_raw (suc fuel) start out c k =
      let c' = polled net clock c.recv_buffer_size c in
      elim (answer net clock c.recv_buffer_size c) [
        | got x xs ↦
            after_emit (stream_raw fuel start out c') c' out (emit c.max_response_body (x ∷ xs) k)
        | closed ↦ streamed c' out k Status.ok
        | idle ↦ elim (hung_up net clock c') [
          | true ↦ streamed c' out k Status.ok
          | false ↦ elim (late net clock c' start) [
            | true ↦ streamed c' out k (Status.fail timeout)
            | false ↦ stream_raw fuel start out c' k
          ]
        ]
      ]

  -- The body, behind a head that was read with success.
  unfoldable pub stream_body : ℕ → ℕ → Bytes → HttpClient W → HttpResponse → Option (Streamed W)
  unfolding has_body is_chunked emit after_emit after_chunk stream_chunked stream_raw
  stream_body fuel start leftover c out = elim (has_body out) [
    | false ↦ streamed c out empty_sink Status.ok
    | true ↦ elim (is_chunked out) [
      | true ↦
          after_chunk (stream_chunked fuel start out c) c out empty_sink
            (feed reset [] false leftover)
      | false ↦
          after_emit (stream_raw fuel start out c) c out
            (emit c.max_response_body leftover empty_sink)
    ]
  ]

  unfoldable pub receive_stream : ℕ → ℕ → HttpClient W → HttpResponse → Option (Streamed W)
  unfolding read_headers stream_body
  receive_stream fuel start c out = elim (read_headers net clock fuel start c out) [
    | none ↦ none
    | some h ↦ elim h.0.status [
      | Status.ok ↦ stream_body fuel start h.1 h.0.client h.0.out
      | Status.fail e ↦ streamed h.0.client h.0.out empty_sink (Status.fail e)
    ]
  ]

  -- The request is always sent with `Connection: close`.
  unfoldable pub exchange_stream :
      ℕ → ℕ → HttpRequest → HttpClient W → HttpResponse → Option (Streamed W)
  unfolding write_all serialize_request receive_stream
  exchange_stream fuel start req c out =
      elim (write_all net clock fuel start (serialize_request req false) c) [
        | none ↦ none
        | some w ↦ elim w.1 [
          | Status.ok ↦ receive_stream fuel start w.0 out
          | Status.fail e ↦ streamed w.0 out empty_sink (Status.fail e)
        ]
      ]

  abbrev pub opening : HttpRequest → HttpClient W → HttpClient W × Status
  opening req c =
      let (w, s) = net.connect (host_name req.host) req.port c.world in (record c { world = w }, s)

  unfoldable pub send_stream : ℕ → HttpRequest → HttpClient W → HttpResponse → Option (Streamed W)
  unfolding exchange_stream
  send_stream fuel req c out =
      let start = reading clock c.world in
      elim (net.connected c.world) [
        | true ↦ exchange_stream fuel start req c out
        | false ↦ elim (opening req c).1 [
          | Status.ok ↦ exchange_stream fuel start req (opening req c).0 out
          | Status.fail e ↦ streamed (opening req c).0 out empty_sink (Status.fail e)
        ]
      ]
