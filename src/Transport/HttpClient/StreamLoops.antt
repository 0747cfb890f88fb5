-- ===== src/Transport/HttpClient/StreamLoops.antt =====
-- The loops of a streamed response hand no more to the callback than the cap: `sendStream` of
-- src/transport/HttpClient.cpp.
use edge_llm.Base.{
  ℕ, zero, suc, ◌+◌, ◌^◌, ◌≤◌, ◌<◌, ◌≡◌, refl, ap, inl, inr, Bool, true, false, Option, none, some,
  List, [], ◌∷◌, ◌++◌, Bytes, arith, ltb, length, Bool-cases,
}
use edge_llm.Core.{Status, Status-cases}
use edge_llm.Transport.Chunked.{ChunkedDecoder, Fed, reset, feed}
use edge_llm.Transport.Chunked.Bytewise.{IsValid}
use edge_llm.Transport.Chunked.Split.{feed_bounds}
use edge_llm.Transport.Http.{HttpResponse}
use edge_llm.Transport.Connection.{Connection, got, Received-cases}
use edge_llm.Transport.HttpClient.{HttpClient}
use edge_llm.Transport.HttpClient.Reading.{polled, answer, late, hung_up, is_chunked}
use edge_llm.Transport.HttpClient.Sending.{has_body}
use edge_llm.Transport.HttpClient.Streaming.{
  Sink, empty_sink, Emitted, go, overflow, stop, Streamed, counted, called, emit, after_emit,
  after_chunk, stream_chunked, stream_raw, stream_body, streamed,
}
use edge_llm.Transport.HttpClient.Rules.{Holds}

-- The bytes of all calls.
abbrev pub bytes_called : List Bytes → ℕ
bytes_called [] = 0
bytes_called (s ∷ calls) = length s + bytes_called calls

bytes_called-snoc :
    (calls : List Bytes) (s : Bytes)
    → bytes_called (calls ++ s ∷ []) ≡ bytes_called calls + length s
bytes_called-snoc [] s = omega arith
bytes_called-snoc (t ∷ calls) s = omega (arith, bytes_called-snoc calls s)

-- The most bytes that one call can have, since a buffer has 16 bits and a head section a cap.
abbrev pub most : ℕ
most = 2 ^ 17

record IsCounted (cap : ℕ) (k : Sink) : Type 0 where
  exact : bytes_called k.calls ≡ k.total
  within : k.total ≤ cap

-- What `emit` leaves.
abbrev Left : ℕ → Sink × Emitted → Type 0
Left cap (k, go) = IsCounted cap k
Left cap (k, overflow) = bytes_called k.calls ≤ cap
Left cap (k, stop) = bytes_called k.calls ≤ cap

module _ {W : Type 0} (net : Connection W) (clock : Option (W → ℕ))
    (accept : List Bytes → Bool) where
  emit-Left :
      (cap : ℕ) (s : Bytes) (k : Sink)
      → IsCounted cap k
      → length s ≤ most
      → cap + most < 2 ^ 32
      → Left cap (emit net clock accept cap s k)
  unfolding emit
  emit-Left cap [] k i h b = i
  emit-Left cap (x ∷ s) k i h b =
      let c = bytes_called-snoc k.calls (x ∷ s) in
      elim (Bool-cases (ltb cap (counted (x ∷ s) k).total)) [
        | inl y ↦ rw (y, emit) (omega (arith, i.exact, i.within))
        | inr y ↦ elim (Bool-cases (accept (called (x ∷ s) (counted (x ∷ s) k)).calls)) [
          | inl z ↦
              rw (y, z, emit)
                (record { exact = omega (arith, c, i.exact, i.within); within = ground (arith, y) })
          | inr z ↦ rw (y, z, emit) (ground (arith, y, c, i.exact, i.within))
        ]
      ]

  abbrev pub Capped : ℕ → Option (Streamed W) → Type 0
  Capped cap = Holds (λ (r : Streamed W). bytes_called r.1.calls ≤ cap)

  after_emit-Capped :
      (cap : ℕ) (more : Sink → Option (Streamed W)) (c : HttpClient W) (out : HttpResponse)
      → ((k : Sink) → IsCounted cap k → Capped cap (more k))
      → (k : Sink) (e : Emitted) → Left cap (k, e)
      → Capped cap (after_emit net clock accept more c out (k, e))
  unfolding after_emit
  after_emit-Capped cap more c out h k go l = h k l
  after_emit-Capped cap more c out h k overflow l = l
  after_emit-Capped cap more c out h k stop l = l

  -- What the decoder makes of bytes that one call may have.
  abbrev Fits : Fed → Type 0
  Fits f = (length f.out ≤ most) × IsValid f.decoder

  feed-Fits :
      (d : ChunkedDecoder) (s : Bytes)
      → IsValid d
      → length s ≤ most
      → Holds Fits (feed d [] false s)
  feed-Fits d s v h =
      let (f, b, e, o, l, v') = feed_bounds d [] false s v in
      rw e (omega (arith, ap length o, l, h), v')

  chunk_emitted :
      (more : ChunkedDecoder → Sink → Option (Streamed W)) (c : HttpClient W) (out : HttpResponse)
      (f : Fed)
      → ((k : Sink)
          → IsCounted c.max_response_body k
          → Capped c.max_response_body (more f.decoder k))
      → (fin : Bool) (k : Sink) → IsCounted c.max_response_body k
      → Capped c.max_response_body (elim fin [
        | true ↦ streamed net clock accept c out k Status.ok
        | false ↦ more f.decoder k
      ])
  chunk_emitted more c out f h true k i = omega (arith, i.exact, i.within)
  chunk_emitted more c out f h false k i = h k i

  after_chunk-Capped :
      (more : ChunkedDecoder → Sink → Option (Streamed W)) (c : HttpClient W) (out : HttpResponse)
      (k : Sink)
      → c.max_response_body + most < 2 ^ 32
      → IsCounted c.max_response_body k
      → ((d : ChunkedDecoder) (k' : Sink)
          → IsValid d
          → IsCounted c.max_response_body k'
          → Capped c.max_response_body (more d k'))
      → (o : Option Fed) → Holds Fits o
      → Capped c.max_response_body (after_chunk net clock accept more c out k o)
  unfolding after_chunk
  after_chunk-Capped more c out k b i h none f = tt
  after_chunk-Capped more c out k b i h (some f) (l, v) = elim (Status-cases f.status) [
    | inr (e, s) ↦ rw (s, after_chunk) (omega (arith, i.exact, i.within))
    | inl s ↦
        rw (s, after_chunk)
          (after_emit-Capped c.max_response_body _ c out
            (λ k'. chunk_emitted more c out f (λ k''. h f.decoder k'' v) f.done k') _ _
            (emit-Left c.max_response_body f.out k i l b))
  ]

  abbrev pub Bounded : Type 0
  Bounded = (n : ℕ) (w : W) (x : ℕ) (xs : Bytes) → (net.read n w).1 ≡ got x xs → length (x ∷ xs) ≤ n

  stream_chunked-Capped :
      (fuel start : ℕ) (out : HttpResponse) (c : HttpClient W) (d : ChunkedDecoder) (k : Sink)
      → Bounded
      → c.max_response_body + most < 2 ^ 32
      → c.recv_buffer_size ≤ most
      → IsValid d
      → IsCounted c.max_response_body k
      → Capped c.max_response_body (stream_chunked net clock accept fuel start out c d k)
  unfolding stream_chunked
  stream_chunked-Capped zero start out c d k bounded b r v i = tt
  stream_chunked-Capped (suc fuel) start out c d k bounded b r v i =
      let n = c.recv_buffer_size in
      let c' = polled net clock n c in
      elim (Received-cases (answer net clock n c)) [
        | inl (x, (xs, e)) ↦
            rw (e, stream_chunked)
              (after_chunk-Capped _ c' out k b i
                (λ d' k' v' j. stream_chunked-Capped fuel start out c' d' k' bounded b r v' j) _
                (feed-Fits d (x ∷ xs) v (omega (arith, bounded n c.world x xs e, r))))
        | inr (inr e) ↦ rw (e, stream_chunked) (omega (arith, i.exact, i.within))
        | inr (inl e) ↦ elim (Bool-cases (late net clock c' start)) [
          | inl l ↦ rw (e, l, stream_chunked) (omega (arith, i.exact, i.within))
          | inr l ↦ elim (Bool-cases (hung_up net clock c')) [
            | inl z ↦ rw (e, l, z, stream_chunked) (omega (arith, i.exact, i.within))
            | inr z ↦
                rw (e, l, z, stream_chunked)
                  (stream_chunked-Capped fuel start out c' d k bounded b r v i)
          ]
        ]
      ]

  stream_raw-Capped :
      (fuel start : ℕ) (out : HttpResponse) (c : HttpClient W) (k : Sink)
      → Bounded
      → c.max_response_body + most < 2 ^ 32
      → c.recv_buffer_size ≤ most
      → IsCounted c.max_response_body k
      → Capped c.max_response_body (stream_raw net clock accept fuel start out c k)
  unfolding stream_raw
  stream_raw-Capped zero start out c k bounded b r i = tt
  stream_raw-Capped (suc fuel) start out c k bounded b r i =
      let n = c.recv_buffer_size in
      let c' = polled net clock n c in
      elim (Received-cases (answer net clock n c)) [
        | inl (x, (xs, e)) ↦
            rw (e, stream_raw)
              (after_emit-Capped c.max_response_body _ c' out
                (λ k' j. stream_raw-Capped fuel start out c' k' bounded b r j) _ _
                (emit-Left c.max_response_body (x ∷ xs) k i
                  (omega (arith, bounded n c.world x xs e, r)) b))
        | inr (inr e) ↦ rw (e, stream_raw) (omega (arith, i.exact, i.within))
        | inr (inl e) ↦ elim (Bool-cases (hung_up net clock c')) [
          | inl z ↦ rw (e, z, stream_raw) (omega (arith, i.exact, i.within))
          | inr z ↦ elim (Bool-cases (late net clock c' start)) [
            | inl l ↦ rw (e, z, l, stream_raw) (omega (arith, i.exact, i.within))
            | inr l ↦ rw (e, z, l, stream_raw) (stream_raw-Capped fuel start out c' k bounded b r i)
          ]
        ]
      ]

  pub stream_body-Capped :
      (fuel start : ℕ) (leftover : Bytes) (c : HttpClient W) (out : HttpResponse)
      → Bounded
      → c.max_response_body + most < 2 ^ 32
      → c.recv_buffer_size ≤ most
      → length leftover ≤ most
      → Capped c.max_response_body (stream_body net clock accept fuel start leftover c out)
  unfolding stream_body
  stream_body-Capped fuel start leftover c out bounded b r l =
      let i : IsCounted c.max_response_body empty_sink = record {
        exact = refl;
        within = omega arith;
      } in
      elim (Bool-cases (has_body out)) [
        | inr n ↦ rw (n, stream_body) (omega arith)
        | inl y ↦ elim (Bool-cases (is_chunked out)) [
          | inl z ↦
              rw (y, z, stream_body)
                (after_chunk-Capped _ c out empty_sink b i
                  (λ d k v j. stream_chunked-Capped fuel start out c d k bounded b r v j) _
                  (feed-Fits reset leftover tt l))
          | inr z ↦
              rw (y, z, stream_body)
                (after_emit-Capped c.max_response_body _ c out
                  (λ k j. stream_raw-Capped fuel start out c k bounded b r j) _ _
                  (emit-Left c.max_response_body leftover empty_sink i l b))
        ]
      ]
