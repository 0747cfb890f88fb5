-- ===== src/Transport/HttpClient/Framing.antt =====
-- A reused connection is in step: src/transport/HttpClient.cpp.
use edge_llm.Base.{
  ◌%◌, ◌^◌, ◌+◌, ◌*◌, ◌-◌, ◌≤◌, ◌∷◌, [], ℕ, ◌≡◌, refl, ap, ◌∙◌, ◌⊎◌, inl, inr, true, false, Option,
  none, some, ◌++◌, Bytes, bytes, arith, ltb, length, Bool-cases, Option-cases, sym, ◌≤◌,
}
use edge_llm.Core.{Status, is_ok}
use edge_llm.Transport.Http.{HttpResponse, crlf, header}
use edge_llm.Transport.Http.Decimal.{number, digits_of}
use edge_llm.Transport.Connection.{Connection}
use edge_llm.Transport.HttpClient.{HttpClient, Reply}
use edge_llm.Transport.HttpClient.Heads.{parse_header_block}
use edge_llm.Transport.HttpClient.Reading.{with_body, content_length, is_chunked, read_body}
use edge_llm.Transport.HttpClient.Sending.{has_body, is_framed, settle, receive}
use edge_llm.Transport.HttpClient.Rules.{
  Holds, Holds-map, read_to_close-Holds, read_chunked-Holds, after_feed-Holds,
}
use edge_llm.Transport.HttpClient.Calls.{body_of-Holds, receive-Holds}
use edge_llm.Transport.HttpClient.Bounds.{parse_header_block_body}
use edge_llm.Transport.HttpClient.Conserve.{
  Delivers, ahead, IsCut, Cuts, read_sized-Cuts, start_sized-Sized, IsHeadCut, HeadCuts,
  read_headers-HeadCuts,
}

-- A response whose body is not delimited by a length.
abbrev HasOtherFraming : HttpResponse → Type 0
HasOtherFraming o =
    (has_body o ≡ false)
    ⊎ ((is_chunked o ≡ true) ⊎ (header o.headers (bytes "Content-Length") ≡ none))

content_length_lem :
    (n : ℕ) (s : Bytes) → content_length (n % 2 ^ 32) s ≡ number n (digits_of s) % 2 ^ 32
unfolding content_length
content_length_lem n [] = refl
content_length_lem n (c ∷ s) =
    ground (arith, content_length_lem n s, content_length_lem (10 * n + (c - b'0')) s)

module _ {W : Type 0} (net : Connection W) (clock : Option (W → ℕ)) (input : W → Bytes)
    (laws : Delivers net input) where
  -- The stream is a head, the first blank line, a body of the length that the digits of the head's
  -- field state, and what stands before the client behind the exchange.
  pub record IsExchange (stream : Bytes) (out : HttpResponse) (r : Reply W) : Type 0 where
    pub block : Bytes
    pub value : Bytes
    pub all :
        stream
        ≡ block ++ ((crlf ++ crlf) ++ (r.out.body ++ (r.client.pending ++ input r.client.world)))
    pub first : (a b : Bytes) → stream ≡ a ++ ((crlf ++ crlf) ++ b) → length block ≤ length a
    pub parsed : parse_header_block (block ++ crlf) out ≡ (Status.ok, with_body r.out out.body)
    pub stated : header r.out.headers (bytes "Content-Length") ≡ some value
    pub size : length r.out.body ≡ number 0 (digits_of value) % 2 ^ 32

  abbrev BodyEnds : Bytes → HttpResponse → Reply W → Type 0
  BodyEnds stream out r =
      (is_ok r.status ≡ false) ⊎ (HasOtherFraming r.out ⊎ IsExchange stream out r)

  IsExchange-of_cut :
      (stream : Bytes) (out : HttpResponse) (h : Reply W × Bytes) (r : Reply W) (value : Bytes)
      → IsHeadCut net clock input laws stream out h
      → header h.0.out.headers (bytes "Content-Length") ≡ some value
      → IsCut net clock input laws
          (h.1 ++ input h.0.client.world)
          (content_length 0 value)
          h.0.out
          r
      → IsExchange stream out r
  IsExchange-of_cut stream out h r value k e cut =
      let body : h.0.out.body ≡ out.body =
        sym (ap (λ (s : Status × HttpResponse). s.1.body) k.parsed)
        ∙ parse_header_block_body net clock (k.block ++ crlf) out in
      let same : with_body r.out out.body ≡ h.0.out =
        ap (λ (o : HttpResponse). with_body o out.body) cut.same
        ∙ ap (λ (s : Bytes). with_body h.0.out s) (sym body) in
      record {
        block = k.block;
        value = value;
        all = k.all ∙ ap (λ (s : Bytes). k.block ++ ((crlf ++ crlf) ++ s)) cut.all;
        parsed = k.parsed ∙ ap (λ (o : HttpResponse). (Status.ok, o)) (sym same);
        stated = ap (λ (o : HttpResponse). header o.headers (bytes "Content-Length")) cut.same ∙ e;
        first = k.first;
        size = cut.size ∙ content_length_lem 0 value;
      }

  BodyEnds-of_cut :
      (stream : Bytes) (out : HttpResponse) (h : Reply W × Bytes) (r : Reply W) (value : Bytes)
      → IsHeadCut net clock input laws stream out h
      → header h.0.out.headers (bytes "Content-Length") ≡ some value
      → Cuts net clock input laws (h.1 ++ input h.0.client.world) (content_length 0 value) h.0.out r
      → BodyEnds stream out r
  BodyEnds-of_cut stream out h r value k e (inl f) = inl f
  BodyEnds-of_cut stream out h r value k e (inr cut) =
      inr (inr (IsExchange-of_cut stream out h r value k e cut))

  read_body-BodyEnds :
      (fuel start : ℕ) (stream : Bytes) (out : HttpResponse) (h : Reply W × Bytes)
      → IsHeadCut net clock input laws stream out h
      → Holds (BodyEnds stream out) (read_body net clock fuel start h.1 h.0.client h.0.out)
  unfolding read_body is_chunked has_body
  read_body-BodyEnds fuel start stream out h k = elim (Bool-cases (is_chunked h.0.out)) [
    | inl y ↦
        rw (y, read_body)
          (after_feed-Holds net clock (λ o. is_chunked o ≡ true) (BodyEnds stream out) h.0.client _
            (λ o s p. p) (λ o p b. inr (inl (inr (inl p)))) (λ o e. inl refl)
            (λ d o p.
              read_chunked-Holds net clock (λ c. Unit {0}) (λ o. is_chunked o ≡ true)
                (BodyEnds stream out) (λ c q. tt) (λ o s p. p)
                (λ c o q p b. inr (inl (inr (inl p)))) (λ c o e q. inl refl) fuel start h.0.client d
                o tt p)
            h.0.out _ y)
    | inr y ↦ elim (Option-cases (header h.0.out.headers (bytes "Content-Length"))) [
      | inl e ↦
          rw (y, e, read_body)
            (read_to_close-Holds net clock (λ c o. header o.headers (bytes "Content-Length") ≡ none)
              (BodyEnds stream out)
              (record { bytes_keep = λ c o x xs p q. p; quiet_keep = λ c o p q. p })
              (λ c o p b q. inr (inl (inr (inr p)))) (λ c o err p. inl refl) fuel start h.0.client _
              e)
      | inr (value, e) ↦
          let want = content_length 0 value in
          elim (Bool-cases (ltb h.0.client.max_response_body want)) [
            | inl b ↦ rw (y, e, b, read_body) (inl refl)
            | inr b ↦
                rw (y, e, b, read_body)
                  (Holds-map (λ r. BodyEnds-of_cut stream out h r value k e) _
                    (read_sized-Cuts net clock input laws (h.1 ++ input h.0.client.world) fuel start
                      want h.0.out _ _
                      (start_sized-Sized net clock input laws want h.1 h.0.client h.0.out
                        k.none_kept)))
          ]
    ]
  ]

  settle_world :
      (r : Reply W)
      → (settle net clock r).client.reusable ≡ true
      → (settle net clock r).client.world ≡ r.client.world
  unfolding settle
  settle_world r y = ground arith

  settle_framed :
      (r : Reply W)
      → header r.out.headers (bytes "Content-Length") ≡ none
      → (settle net clock r).client.reusable ≡ true
      → (has_body r.out ≡ false) ⊎ (is_chunked r.out ≡ true)
  unfolding settle is_framed
  settle_framed r e y = ground arith

  -- Where the connection is reported as reusable, the exchange is in step.
  abbrev InStep : Bytes → HttpResponse → Reply W → Type 0
  InStep stream out s =
      (is_ok s.status ≡ false)
      ⊎ ((s.client.reusable ≡ false)
          ⊎ ((has_body s.out ≡ false) ⊎ ((is_chunked s.out ≡ true) ⊎ IsExchange stream out s)))

  settle-InStep :
      (stream : Bytes) (out : HttpResponse) (r : Reply W)
      → r.status ≡ Status.ok
      → BodyEnds stream out r
      → InStep stream out (settle net clock r)
  unfolding settle
  settle-InStep stream out r ok (inl f) = absurd (ground (arith, ok, f))
  settle-InStep stream out r ok (inr (inl (inl f))) = inr (inr (inl f))
  settle-InStep stream out r ok (inr (inl (inr (inl f)))) = inr (inr (inr (inl f)))
  settle-InStep stream out r ok (inr (inl (inr (inr f)))) = ground (arith, settle_framed r f)
  settle-InStep stream out r ok (inr (inr x)) =
      elim (Bool-cases (settle net clock r).client.reusable) [
        | inr n ↦ inr (inl n)
        | inl y ↦ inr (
            inr (
              inr (
                inr (record {
                  block = x.block;
                  value = x.value;
                  all =
                      x.all
                      ∙ ap
                          (λ (w : W).
                            x.block
                            ++ ((crlf ++ crlf) ++ (r.out.body ++ (r.client.pending ++ input w))))
                          (sym (settle_world r y));
                  first = x.first;
                  parsed = x.parsed;
                  stated = x.stated;
                  size = x.size;
                }))))
      ]

  body_after_head :
      (fuel start : ℕ) (stream : Bytes) (out : HttpResponse) (h : Reply W × Bytes)
      → HeadCuts net clock input laws stream out h
      → h.0.status ≡ Status.ok
      → Holds (BodyEnds stream out) (read_body net clock fuel start h.1 h.0.client h.0.out)
  body_after_head fuel start stream out h (inl f) s = absurd (ground (arith, s, f))
  body_after_head fuel start stream out h (inr k) s = read_body-BodyEnds fuel start stream out h k

  receive-InStep :
      (fuel start : ℕ) (c : HttpClient W) (out : HttpResponse)
      → Holds (InStep (ahead net clock input laws c) out) (receive net clock fuel start c out)
  receive-InStep fuel start c out =
      let stream = ahead net clock input laws c in
      receive-Holds net clock (HeadCuts net clock input laws stream out) (BodyEnds stream out)
        (InStep stream out) fuel start c out
        (read_headers-HeadCuts net clock input laws fuel start c out) (λ h e k s. inl (rw s refl))
        (λ h k s.
          body_of-Holds net clock (BodyEnds stream out) fuel start h.1 h.0
            (λ y. body_after_head fuel start stream out h k s) (λ n. inr (inl (inl n))))
        (λ r e b s. inl (rw s refl)) (λ r b s. settle-InStep stream out r s b)

  -- Over a connection that delivers the bytes of its peer in order and never more than asked for: a
  -- response that was received with success, that has a body and no chunked encoding, and behind
  -- which the connection is reported as reusable, is the next message of the stream. The bytes that
  -- stood before the client were a head that parses to the response, the first blank line of those
  -- bytes, a body of as many bytes as the digits of the head's Content-Length write (modulo 2^32),
  -- and the bytes that stand before the client now.
  pub receive-IsExchange :
      (fuel start : ℕ) (c : HttpClient W) (out : HttpResponse) (r : Reply W)
      → receive net clock fuel start c out ≡ some r
      → r.status ≡ Status.ok
      → r.client.reusable ≡ true
      → has_body r.out ≡ true
      → is_chunked r.out ≡ false
      → IsExchange (ahead net clock input laws c) out r
  receive-IsExchange fuel start c out r e ok up body plain =
      let step : InStep (ahead net clock input laws c) out r =
        rw e at (receive-InStep fuel start c out) in
      ground (arith, step)
