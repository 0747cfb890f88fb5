-- ===== src/Transport/HttpClient/StreamCap.antt =====
-- The cap on what a streamed response hands to its callback: `HttpClient::sendStream` of
-- src/transport/HttpClient.cpp.
use edge_llm.Base.{
  ℕ, ◌+◌, ◌^◌, ◌≤◌, ◌<◌, ◌≡◌, refl, ap, inl, inr, Bool, false, Option, some, List, ◌∷◌, ◌++◌, Bytes,
  arith, length, length-append, cut_at, eq_of_cut_at, Bool-cases, Option-cases, subst,
}
use edge_llm.Core.{Status-cases}
use edge_llm.Transport.Http.{HttpRequest, HttpResponse, crlf, serialize_request}
use edge_llm.Transport.Connection.{host_name, Connection}
use edge_llm.Transport.HttpClient.{HttpClient, Reply}
use edge_llm.Transport.HttpClient.Reading.{read_headers, write_all}
use edge_llm.Transport.HttpClient.Streaming.{
  Streamed, stream_body, receive_stream, exchange_stream, send_stream,
}
use edge_llm.Transport.HttpClient.Calls.{write_all_world}
use edge_llm.Transport.HttpClient.Rules.{Holds, read_head-Holds}
use edge_llm.Transport.HttpClient.StreamLoops.{
  most, bytes_called, Bounded, Capped, stream_body-Capped,
}

module _ {W : Type 0} (net : Connection W) (clock : Option (W → ℕ)) (accept : List Bytes → Bool)
    (bounded : Bounded net clock accept) where
  -- The head leaves a client with its cap, and what one call may have.
  record HeadFits (cap : ℕ) (h : Reply W × Bytes) : Type 0 where
    same : h.0.client.max_response_body ≡ cap
    buffer : h.0.client.recv_buffer_size ≤ 2 ^ 16
    few : length h.1 ≤ most

  length_of_cut_at : (p s : Bytes) (q : Bytes × Bytes) → cut_at p s ≡ some q → length q.1 ≤ length s
  length_of_cut_at p s q e =
      let l = ap length (eq_of_cut_at p s q.0 q.1 e) in
      omega (arith, l, length-append q.0 (p ++ q.1), length-append p q.1)

  read_headers-HeadFits :
      (cap fuel start : ℕ) (c : HttpClient W) (out : HttpResponse)
      → c.max_response_body ≡ cap
      → c.recv_buffer_size ≤ 2 ^ 16
      → length c.pending ≤ 2 ^ 16
      → Holds (HeadFits cap) (read_headers net clock fuel start c out)
  unfolding read_headers
  read_headers-HeadFits cap fuel start c out m r p =
      read_head-Holds net clock
        (λ acc c'.
          (c'.max_response_body ≡ cap) × ((c'.recv_buffer_size ≤ 2 ^ 16) × (length acc ≤ most)))
        (HeadFits cap) out
        (λ acc c' x xs k b e. (
          k.0,
          (k.1.0, ground (arith, b, k.1.0, length-append acc (x ∷ xs), bounded _ c'.world x xs e)),
        ))
        (λ acc c' k q. k)
        (λ acc c' q k e. record {
          same = k.0;
          buffer = k.1.0;
          few = omega (arith, k.1.1, length_of_cut_at (crlf ++ crlf) acc q e);
        })
        (λ acc c' e k. record { same = k.0; buffer = k.1.0; few = omega arith }) fuel start
        c.pending _ (m, (r, omega (arith, p)))

  receive_stream-Capped :
      (fuel start : ℕ) (c : HttpClient W) (out : HttpResponse)
      → c.max_response_body + most < 2 ^ 32
      → c.recv_buffer_size ≤ 2 ^ 16
      → length c.pending ≤ 2 ^ 16
      → Capped net clock accept c.max_response_body
          (receive_stream net clock accept fuel start c out)
  unfolding receive_stream
  receive_stream-Capped fuel start c out b r p =
      elim (Option-cases (read_headers net clock fuel start c out)) [
        | inl n ↦ rw (n, receive_stream) tt
        | inr (h, e) ↦
            let k : HeadFits c.max_response_body h =
              rw e at (read_headers-HeadFits c.max_response_body fuel start c out refl r p) in
            elim (Status-cases h.0.status) [
              | inr (err, s) ↦ rw (e, s, receive_stream) (omega arith)
              | inl s ↦
                  rw (e, s, receive_stream)
                    (subst
                      (λ (n : ℕ).
                        Capped net clock accept n
                          (stream_body net clock accept fuel start h.1 h.0.client h.0.out))
                      k.same
                      (stream_body-Capped net clock accept fuel start h.1 h.0.client h.0.out bounded
                        (omega (arith, k.same, b)) (omega (arith, k.buffer)) k.few))
            ]
      ]

  exchange_stream-Capped :
      (fuel start : ℕ) (req : HttpRequest) (c : HttpClient W) (out : HttpResponse)
      → c.max_response_body + most < 2 ^ 32
      → c.recv_buffer_size ≤ 2 ^ 16
      → length c.pending ≤ 2 ^ 16
      → Capped net clock accept c.max_response_body
          (exchange_stream net clock accept fuel start req c out)
  unfolding exchange_stream
  exchange_stream-Capped fuel start req c out b r p =
      let bytes = serialize_request req false in
      elim (Option-cases (write_all net clock fuel start bytes c)) [
        | inl n ↦ rw (n, exchange_stream) tt
        | inr (w, f) ↦
            let k : w.0 ≡ record c { world = w.0.world } =
              rw f at (write_all_world net clock fuel start bytes c) in
            elim (Status-cases w.1) [
              | inl s ↦
                  rw (f, s, k, exchange_stream)
                    (receive_stream-Capped fuel start (record c { world = w.0.world }) out b r p)
              | inr (e, s) ↦ rw (f, s, exchange_stream) (omega arith)
            ]
      ]

  send_stream-Capped :
      (fuel : ℕ) (req : HttpRequest) (c : HttpClient W) (out : HttpResponse)
      → c.max_response_body + most < 2 ^ 32
      → c.recv_buffer_size ≤ 2 ^ 16
      → length c.pending ≤ 2 ^ 16
      → Capped net clock accept c.max_response_body (send_stream net clock accept fuel req c out)
  unfolding send_stream
  send_stream-Capped fuel req c out b r p = elim (Bool-cases (net.connected c.world)) [
    | inl y ↦ rw (y, send_stream) (exchange_stream-Capped fuel _ req c out b r p)
    | inr n ↦ elim (Status-cases (net.connect (host_name req.host) req.port c.world).1) [
      | inl s ↦ rw (n, s, send_stream) (exchange_stream-Capped fuel _ req _ out b r p)
      | inr (e, s) ↦ rw (n, s, send_stream) (omega arith)
    ]
  ]

  -- Over a connection that never delivers more bytes than asked for: with a cap that leaves room in
  -- 32 bits for the largest call, a buffer of 16 bits and at most 2 ^ 16 bytes kept from before, the
  -- calls of the callback together hand it at most `max_response_body` bytes, whatever the framing,
  -- the answers of the callback and the outcome.
  pub send_stream_bounds :
      (fuel : ℕ) (req : HttpRequest) (c : HttpClient W) (out : HttpResponse) (r : Streamed W)
      → c.max_response_body + most < 2 ^ 32
      → c.recv_buffer_size ≤ 2 ^ 16
      → length c.pending ≤ 2 ^ 16
      → send_stream net clock accept fuel req c out ≡ some r
      → bytes_called r.1.calls ≤ c.max_response_body
  send_stream_bounds fuel req c out r b s p h = rw h at (send_stream-Capped fuel req c out b s p)
