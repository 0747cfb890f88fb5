-- ===== src/Transport/HttpClient/Deadline.antt =====
-- A response is received or refused by the deadline: src/transport/HttpClient.cpp.
use edge_llm.Base.{
  ℕ, ◌+◌, ◌<◌, ◌≡◌, refl, ◌⊎◌, inl, inr, true, false, Option, some, [], Bytes, bytes, arith, ltb,
  Bool-cases, Option-cases, ◌∙◌, ◌||◌, not,
}
use edge_llm.Core.{Status-cases}
use edge_llm.Transport.Http.{HttpResponse, header, is_empty}
use edge_llm.Transport.Connection.{Connection}
use edge_llm.Transport.HttpClient.{HttpClient, Reply}
use edge_llm.Transport.HttpClient.Reading.{
  max_header_section, read_body, read_headers, start_sized, is_chunked, content_length,
}
use edge_llm.Transport.HttpClient.Sending.{then_ok, settle, receive, has_body, body_of}
use edge_llm.Transport.HttpClient.Ends.{
  Paces, Returns, read_head-Returns, read_sized-Returns, read_to_close-Returns,
}

module _ {W : Type 0} (net : Connection W) (clock : Option (W → ℕ)) (limit start : ℕ)
    (patience : W → ℕ) (paces : Paces net clock limit start patience) where
  -- What `readBody` does without chunked encoding.
  read_body-Returns :
      (fuel : ℕ) (s : Bytes) (c : HttpClient W) (out : HttpResponse)
      → c.timeout_ms ≡ limit
      → patience c.world + (c.max_response_body + 1) < fuel
      → is_chunked out ≡ false
      → Returns (read_body net clock fuel start s c out)
  unfolding read_body start_sized
  read_body-Returns fuel s c out t f n =
      elim (Option-cases (header out.headers (bytes "Content-Length"))) [
        | inl e ↦
            rw (n, e, read_body)
              (read_to_close-Returns net clock limit start patience paces fuel c _ t
                (omega (arith, f)))
        | inr (value, e) ↦ elim (Bool-cases (ltb c.max_response_body (content_length 0 value))) [
          | inl b ↦ rw (n, e, b, read_body) (_, refl)
          | inr b ↦
              rw (n, e, b, read_body)
                (read_sized-Returns net clock limit start patience paces fuel
                  (content_length 0 value) _ _ t (ground (arith, f, b)))
        ]
      ]

  -- The response is received, or is in chunked encoding.
  abbrev pub Ends : ℕ → HttpClient W → HttpResponse → Option (Reply W) → Type 0
  Ends fuel c out o =
      Returns o
      ⊎ ((h : Reply W × Bytes) × ((read_headers net clock fuel start c out ≡ some h)
            × (is_chunked h.0.out ≡ true)))

  then_settle-Returns :
      (o : Option (Reply W))
      → Returns o
      → Returns (then_ok net clock o (λ b. some (settle net clock b)))
  then_settle-Returns o (r, e) = elim (Status-cases r.status) [
    | inl s ↦ rw (e, s) (_, refl)
    | inr (err, s) ↦ rw (e, s) (_, refl)
  ]

  receive_of_head :
      (fuel : ℕ) (c : HttpClient W) (out : HttpResponse) (h : Reply W × Bytes)
      → read_headers net clock fuel start c out ≡ some h
      → h.0.client.timeout_ms ≡ limit
      → patience h.0.client.world + (h.0.client.max_response_body + 1) < fuel
      → Ends fuel c out (receive net clock fuel start c out)
  unfolding receive
  receive_of_head fuel c out h r t g = elim (Status-cases h.0.status) [
    | inr (e, s) ↦ inl (rw (r, s, receive) (_, refl))
    | inl s ↦ elim (Bool-cases (has_body h.0.out)) [
      | inr b ↦ inl (
          rw (r, s, receive)
            (then_settle-Returns (body_of net clock fuel start h.1 h.0)
              (rw (b, body_of) (_, refl))))
      | inl b ↦ elim (Bool-cases (is_chunked h.0.out)) [
        | inl k ↦ inr (h, (r, k))
        | inr n ↦ inl (
            rw (r, s, receive)
              (then_settle-Returns (body_of net clock fuel start h.1 h.0)
                (rw (b, body_of) (read_body-Returns fuel h.1 h.0.client h.0.out t g n))))
      ]
    ]
  ]

  -- While time passes as the client waits, and with fuel for the polls before the deadline and for
  -- the bytes that the caps allow, a response is received or refused; or else its head came, and
  -- announces a chunked body.
  pub receive-Ends :
      (fuel : ℕ) (c : HttpClient W) (out : HttpResponse)
      → c.timeout_ms ≡ limit
      → patience c.world + (max_header_section + 1) < fuel
      → patience c.world + (c.max_response_body + 1) < fuel
      → Ends fuel c out (receive net clock fuel start c out)
  unfolding read_headers
  receive-Ends fuel c out t f g =
      let c' : HttpClient W = record c {
        pending = [];
        saw_response_bytes = c.saw_response_bytes || not (is_empty c.pending);
      } in
      let (h, (r, (p, (u, v)))) =
        read_head-Returns net clock limit start patience paces fuel c.pending c' out t
          (omega (arith, f)) in
      receive_of_head fuel c out h r (u ∙ t) (omega (arith, g, p, v))
