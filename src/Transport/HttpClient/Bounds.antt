-- ===== src/Transport/HttpClient/Bounds.antt =====
-- The cap on the body of a response: src/transport/HttpClient.cpp.
use edge_llm.Base.{
  ℕ, ◌≤◌, ◌≡◌, refl, ◌⊎◌, inl, inr, false, Option, some, Bytes, bytes, arith, ltb, length,
  length-take, Bool-cases, Option-cases, ◌∷◌, ◌++◌, [],
}
use edge_llm.Core.{Status, is_ok}
use edge_llm.Transport.Http.{HttpRequest, HttpResponse, no_response, header, crlf}
use edge_llm.Transport.Connection.{Connection}
use edge_llm.Transport.HttpClient.{HttpClient, Reply}
use edge_llm.Transport.HttpClient.Heads.{parse_header_block}
use edge_llm.Transport.HttpClient.Reading.{
  content_length, is_chunked, start_sized, read_headers, read_body, read_sized,
}
use edge_llm.Transport.HttpClient.Sending.{settle, receive, send_once, send}
use edge_llm.Transport.HttpClient.Rules.{
  Holds, read_sized-Holds, read_to_close-Holds, read_chunked-Holds, after_feed-Holds,
  read_head-Holds,
}
use edge_llm.Transport.HttpClient.Calls.{
  receive-Holds, send_once-Holds, body_of-Holds, exchange-Holds, send-Holds,
}

-- The client keeps its cap, and a successful reply has a body within it.
pub record IsCapped {W : Type 0} (cap : ℕ) (r : Reply W) : Type 0 where
  pub same : r.client.max_response_body ≡ cap
  pub within : (is_ok r.status ≡ false) ⊎ (length r.out.body ≤ cap)

module _ {W : Type 0} (net : Connection W) (clock : Option (W → ℕ)) where
  read_sized-IsCapped :
      (cap fuel start want : ℕ) (c : HttpClient W) (out : HttpResponse)
      → want ≤ cap
      → c.max_response_body ≡ cap
      → length out.body ≤ want
      → Holds (IsCapped cap) (read_sized net clock fuel start want c out)
  read_sized-IsCapped cap fuel start want c out h same k =
      read_sized-Holds net clock (λ c o. (c.max_response_body ≡ cap) × (length o.body ≤ want))
        (IsCapped cap) want
        (record {
          bytes_keep = λ c o x xs p e. (p.0, omega (arith, length-take want (o.body ++ x ∷ xs)));
          quiet_keep = λ c o p e. p;
        })
        (λ c o p y. record { same = p.0; within = inr (omega (arith, p.1)) })
        (λ c o e p. record { same = p.0; within = inl refl }) fuel start c out (same, k)

  read_body-IsCapped :
      (cap fuel start : ℕ) (initial : Bytes) (c : HttpClient W) (out : HttpResponse)
      → c.max_response_body ≡ cap
      → Holds (IsCapped cap) (read_body net clock fuel start initial c out)
  unfolding read_body start_sized
  read_body-IsCapped cap fuel start initial c out same = elim (Bool-cases (is_chunked out)) [
    | inl y ↦
        rw (y, read_body)
          (after_feed-Holds net clock (λ o. Unit {0}) (IsCapped cap) c _ (λ o s k. tt)
            (λ o k b. record { same = same; within = inr (ground (arith, b)) })
            (λ o e. record { same = same; within = inl refl })
            (λ d o k.
              read_chunked-Holds net clock (λ c'. c'.max_response_body ≡ cap) (λ o. Unit {0})
                (IsCapped cap) (λ c' p. p) (λ o s k. tt)
                (λ c' o p k b. record { same = p; within = inr (ground (arith, b)) })
                (λ c' o e p. record { same = p; within = inl refl }) fuel start c d o same tt)
            out _ tt)
    | inr y ↦ elim (Option-cases (header out.headers (bytes "Content-Length"))) [
      | inl e ↦
          rw (y, e, read_body)
            (read_to_close-Holds net clock (λ c' o. c'.max_response_body ≡ cap) (IsCapped cap)
              (record { bytes_keep = λ c' o x xs p e. p; quiet_keep = λ c' o p e. p })
              (λ c' o p b q. record { same = p; within = inr (ground (arith, b)) })
              (λ c' o e p. record { same = p; within = inl refl }) fuel start c _ same)
      | inr (cl, e) ↦
          let want = content_length 0 cl in
          elim (Bool-cases (ltb c.max_response_body want)) [
            | inl b ↦ rw (y, e, b, read_body) (record { same = same; within = inl refl })
            | inr b ↦
                rw (y, e, b, read_body)
                  (read_sized-IsCapped cap fuel start want _ _ (ground (arith, b)) same
                    (omega (arith, length-take want initial)))
          ]
    ]
  ]

  pub parse_header_block_body :
      (block : Bytes) (out : HttpResponse) → (parse_header_block block out).1.body ≡ out.body
  unfolding parse_header_block
  parse_header_block_body block out = ground arith

  -- A response whose head was read has no body yet.
  read_headers-IsCapped :
      (cap fuel start : ℕ) (c : HttpClient W) (out : HttpResponse)
      → c.max_response_body ≡ cap
      → out.body ≡ []
      → Holds (λ (h : Reply W × Bytes). IsCapped cap h.0) (read_headers net clock fuel start c out)
  unfolding read_headers
  read_headers-IsCapped cap fuel start c out same e =
      read_head-Holds net clock (λ acc c'. c'.max_response_body ≡ cap)
        (λ (h : Reply W × Bytes). IsCapped cap h.0) out (λ acc c' x xs p b q. p) (λ acc c' p q. p)
        (λ acc c' q p f. record {
          same = p;
          within = inr (rw (parse_header_block_body (q.0 ++ crlf) out, e) (omega arith));
        })
        (λ acc c' err p. record { same = p; within = inl refl }) fuel start c.pending _ same

  settle-IsCapped :
      (cap : ℕ) (r : Reply W)
      → r.status ≡ Status.ok
      → IsCapped cap r
      → IsCapped cap (settle net clock r)
  unfolding settle
  settle-IsCapped cap r ok h = ground (arith, h.same, h.within)

  receive-IsCapped :
      (cap fuel start : ℕ) (c : HttpClient W) (out : HttpResponse)
      → c.max_response_body ≡ cap
      → out.body ≡ []
      → Holds (IsCapped cap) (receive net clock fuel start c out)
  receive-IsCapped k fuel start c out same e =
      receive-Holds net clock (λ h. IsCapped k h.0) (IsCapped k) (IsCapped k) fuel start c out
        (read_headers-IsCapped k fuel start c out same e) (λ h err i s. i)
        (λ h i s.
          body_of-Holds net clock (IsCapped k) fuel start h.1 h.0
            (λ y. read_body-IsCapped k fuel start h.1 h.0.client h.0.out i.same) (λ n. i))
        (λ r err i s. i) (λ r i s. settle-IsCapped k r s i)

  send_once-IsCapped :
      (cap fuel : ℕ) (req : HttpRequest) (c : HttpClient W) (out : HttpResponse)
      → c.max_response_body ≡ cap
      → out.body ≡ []
      → Holds (IsCapped cap) (send_once net clock fuel req c out)
  send_once-IsCapped k fuel req c out same e =
      send_once-Holds net clock (λ c'. c'.max_response_body ≡ k) (IsCapped k) fuel req c out same
        (λ w. same) (λ c' err p. record { same = p; within = inl refl })
        (λ c' start p.
          exchange-Holds net clock (IsCapped k) fuel start req c' out
            (λ w err. record { same = p; within = inl refl })
            (λ w. receive-IsCapped k fuel start (record c' { world = w }) out p e))

  -- Over every connection and clock, a request that is answered with success into an empty response
  -- gives a body of at most `max_response_body` bytes, whatever its framing and also when the
  -- request was sent twice.
  pub send-IsCapped :
      (fuel : ℕ) (req : HttpRequest) (c : HttpClient W) (r : Reply W)
      → send net clock fuel req c no_response ≡ some r
      → r.status ≡ Status.ok
      → length r.out.body ≤ c.max_response_body
  send-IsCapped fuel req c r h ok =
      let k = c.max_response_body in
      let first = send_once-IsCapped k fuel req c no_response refl refl in
      let all =
        send-Holds net clock (IsCapped k) (IsCapped k) fuel req c no_response first
          (λ r i s. send_once-IsCapped k fuel req _ no_response i.same refl) (λ r i s. i) in
      let capped : IsCapped k r = rw h at all in ground (arith, capped.within)
