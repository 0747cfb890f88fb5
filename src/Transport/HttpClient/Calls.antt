-- ===== src/Transport/HttpClient/Calls.antt =====
-- Rules for the calls of src/transport/HttpClient.cpp that send a request and receive its response.
use edge_llm.Base.{
  ℕ, zero, suc, ◌≡◌, refl, inl, inr, true, false, Option, none, some, [], ◌∷◌, Bytes, Bool-cases,
  Option-cases, ◌==◌, ◌&&◌, drop,
}
use edge_llm.Core.{Error, Status, Status-cases}
use edge_llm.Transport.Http.{HttpResponse, HttpRequest, serialize_request, no_response}
use edge_llm.Transport.Connection.{host_name, Connection}
use edge_llm.Transport.HttpClient.{HttpClient, Reply, reply}
use edge_llm.Transport.HttpClient.Sending.{
  then_ok, has_body, body_of, settle, receive, exchange, send_once, send, is_stale, stopped,
}
use edge_llm.Transport.HttpClient.Reading.{late, write_all, read_body, read_headers}
use edge_llm.Transport.HttpClient.Rules.{Holds}

module _ {W : Type 0} (net : Connection W) (clock : Option (W → ℕ)) where
  pub then_ok-Holds :
      (P Q : Reply W → Type 0) (more : Reply W → Option (Reply W))
      → ((r : Reply W) → P r → r.status ≡ Status.ok → Holds Q (more r))
      → ((r : Reply W) (e : Error) → P r → r.status ≡ Status.fail e → Q r)
      → (o : Option (Reply W)) → Holds P o
      → Holds Q (then_ok net clock o more)
  then_ok-Holds P Q more next fails none h = tt
  then_ok-Holds P Q more next fails (some r) h = elim (Status-cases r.status) [
    | inl e ↦ rw e (next r h e)
    | inr (err, e) ↦ rw e (fails r err h e)
  ]

  -- Writing changes the world alone.
  pub write_all_world :
      (fuel start : ℕ) (s : Bytes) (c : HttpClient W)
      → Holds
          (λ (r : HttpClient W × Status). r.0 ≡ record c { world = r.0.world })
          (write_all net clock fuel start s c)
  unfolding write_all
  write_all_world fuel start [] c = refl
  write_all_world zero start (x ∷ s) c = tt
  write_all_world (suc fuel) start (x ∷ s) c = elim (Option-cases (net.write (x ∷ s) c.world).1) [
    | inl e ↦ rw (e, write_all) refl
    | inr (k, e) ↦
        let c' : HttpClient W = record c { world = (net.write (x ∷ s) c.world).0 } in
        elim (Bool-cases (k == 0 && late net clock c' start)) [
          | inl y ↦ rw (e, y, write_all) refl
          | inr y ↦ rw (e, y, write_all) (write_all_world fuel start (drop k (x ∷ s)) c')
        ]
  ]

  -- The body of a response, if it has one.
  pub body_of-Holds :
      (Q : Reply W → Type 0) (fuel start : ℕ) (s : Bytes) (r : Reply W)
      → (has_body r.out ≡ true → Holds Q (read_body net clock fuel start s r.client r.out))
      → (has_body r.out ≡ false → Q r)
      → Holds Q (body_of net clock fuel start s r)
  body_of-Holds Q fuel start s r h k = elim (Bool-cases (has_body r.out)) [
    | inl y ↦ rw (y, body_of) (h y)
    | inr n ↦ rw (n, body_of) (k n)
  ]

  -- A response: `H` holds of the head, and `B` of the body.
  pub receive-Holds :
      (H : Reply W × Bytes → Type 0) (B Q : Reply W → Type 0) (fuel start : ℕ) (c : HttpClient W)
      (out : HttpResponse)
      → Holds H (read_headers net clock fuel start c out)
      → ((h : Reply W × Bytes) (e : Error) → H h → h.0.status ≡ Status.fail e → Q h.0)
      → ((h : Reply W × Bytes)
          → H h
          → h.0.status ≡ Status.ok
          → Holds B (body_of net clock fuel start h.1 h.0))
      → ((r : Reply W) (e : Error) → B r → r.status ≡ Status.fail e → Q r)
      → ((r : Reply W) → B r → r.status ≡ Status.ok → Q (settle net clock r))
      → Holds Q (receive net clock fuel start c out)
  unfolding receive
  receive-Holds H B Q fuel start c out head bad_head body bad_body good =
      elim (Option-cases (read_headers net clock fuel start c out)) [
        | inl n ↦ rw (n, receive) tt
        | inr (h, f) ↦
            let k : H h = rw f at head in
            elim (Status-cases h.0.status) [
              | inr (e, s) ↦ rw (f, s, receive) (bad_head h e k s)
              | inl s ↦
                  rw (f, s, receive)
                    (then_ok-Holds B Q (λ b. some (settle net clock b)) (λ r b ok. good r b ok)
                      (λ r e b s'. bad_body r e b s') (body_of net clock fuel start h.1 h.0)
                      (body h k s))
            ]
      ]

  pub exchange-Holds :
      (Q : Reply W → Type 0) (fuel start : ℕ) (req : HttpRequest) (c : HttpClient W)
      (out : HttpResponse)
      → ((w : W) (e : Error) → Q (reply (record c { world = w }) out (Status.fail e)))
      → ((w : W) → Holds Q (receive net clock fuel start (record c { world = w }) out))
      → Holds Q (exchange net clock fuel start req c out)
  unfolding exchange
  exchange-Holds Q fuel start req c out fails h =
      let bytes = serialize_request req c.keep_alive in
      elim (Option-cases (write_all net clock fuel start bytes c)) [
        | inl n ↦ rw (n, exchange) tt
        | inr (w, f) ↦
            let k : w.0 ≡ record c { world = w.0.world } =
              rw f at (write_all_world fuel start bytes c) in
            elim (Status-cases w.1) [
              | inl s ↦ rw (f, s, k, exchange) (h w.0.world)
              | inr (e, s) ↦ rw (f, s, k, exchange) (fails w.0.world e)
            ]
      ]

  -- `P` holds of the client behind the connection.
  pub send_once-Holds :
      (P : HttpClient W → Type 0) (Q : Reply W → Type 0) (fuel : ℕ) (req : HttpRequest)
      (c : HttpClient W) (out : HttpResponse)
      → P (record c { saw_response_bytes = false; reusable = false })
      → ((w : W)
          → P (record c { world = w; pending = []; saw_response_bytes = false; reusable = false }))
      → ((c' : HttpClient W) (e : Error) → P c' → Q (reply c' out (Status.fail e)))
      → ((c' : HttpClient W) (start : ℕ)
          → P c'
          → Holds Q (exchange net clock fuel start req c' out))
      → Holds Q (send_once net clock fuel req c out)
  unfolding send_once
  send_once-Holds P Q fuel req c out old new fails h = elim (Bool-cases (net.connected c.world)) [
    | inl y ↦ rw (y, send_once) (h _ _ old)
    | inr n ↦ elim (Status-cases (net.connect (host_name req.host) req.port c.world).1) [
      | inl s ↦ rw (n, s, send_once) (h _ _ (new _))
      | inr (e, s) ↦ rw (n, s, send_once) (fails _ e (new _))
    ]
  ]

  pub send-Holds :
      (A Q : Reply W → Type 0) (fuel : ℕ) (req : HttpRequest) (c : HttpClient W)
      (out : HttpResponse)
      → Holds A (send_once net clock fuel req c out)
      → ((r : Reply W)
          → A r
          → is_stale net clock (net.connected c.world) r ≡ true
          → Holds Q (send_once net clock fuel req (stopped net clock r.client) no_response))
      → ((r : Reply W) → A r → is_stale net clock (net.connected c.world) r ≡ false → Q r)
      → Holds Q (send net clock fuel req c out)
  unfolding send
  send-Holds A Q fuel req c out first again done =
      elim (Option-cases (send_once net clock fuel req c out)) [
        | inl n ↦ rw (n, send) tt
        | inr (r, e) ↦
            let k : A r = rw e at first in
            elim (Bool-cases (is_stale net clock (net.connected c.world) r)) [
              | inl s ↦ rw (e, s, send) (again r k s)
              | inr s ↦ rw (e, s, send) (done r k s)
            ]
      ]
