-- ===== src/Transport/HttpClient/Sending.antt =====
-- `HttpClient::sendOnce` and `HttpClient::send` of src/transport/HttpClient.cpp. The log lines are
-- left out. Every loop of an exchange runs on the same fuel.
use edge_llm.Base.{
  ℕ, Bool, true, false, not, ◌&&◌, ◌||◌, Option, none, some, [], Bytes, bytes, ◌==◌, ltb, leb,
  if◌then◌else◌,
}
use edge_llm.Core.{Error, Status, is_ok}
use edge_llm.Transport.Http.{
  HttpRequest, HttpResponse, no_response, header, is_some, serialize_request,
}
use edge_llm.Transport.Connection.{Connection, host_name}
use edge_llm.Transport.HttpClient.{HttpClient, Reply, reply, reading}
use edge_llm.Transport.HttpClient.Heads.{contains_case_insensitive}
use edge_llm.Transport.HttpClient.Reading.{is_chunked, write_all, read_headers, read_body, failed}

-- 1xx, 204 and 304 carry no body.
unfoldable pub has_body : HttpResponse → Bool
has_body out =
    not (out.status == 204 || out.status == 304 || (leb 100 out.status && ltb out.status 200))

unfoldable pub announces_close : HttpResponse → Bool
unfolding header contains_case_insensitive
announces_close out = elim (header out.headers (bytes "Connection")) [
  | none ↦ false
  | some value ↦ contains_case_insensitive value (bytes "close")
]

unfoldable pub is_framed : HttpResponse → Bool
unfolding has_body header is_chunked
is_framed out =
    not (has_body out) || is_some (header out.headers (bytes "Content-Length")) || is_chunked out

unfoldable pub is_stale_error : Status → Bool
is_stale_error (Status.fail Error.write_failed) = true
is_stale_error (Status.fail Error.connection_closed) = true
is_stale_error (Status.fail Error.http_malformed) = true
is_stale_error _ = false

module _ {W : Type 0} (net : Connection W) (clock : Option (W → ℕ)) where
  abbrev pub stopped : HttpClient W → HttpClient W
  stopped c = record c { world = net.stop c.world }

  -- The end of a successful exchange: whether the connection serves another request.
  unfoldable pub settle : Reply W → Reply W
  unfolding announces_close is_framed
  settle r =
      let up = not (announces_close r.out) && is_framed r.out && net.connected r.client.world in
      let c' : HttpClient W = record r.client {
        reusable = r.client.keep_alive && up;
        world = if r.client.keep_alive && not up then net.stop r.client.world else r.client.world;
      } in
      reply c' r.out Status.ok

  -- `then_ok r more` returns a failure, and goes on with `more` behind a success.
  abbrev pub then_ok : Option (Reply W) → (Reply W → Option (Reply W)) → Option (Reply W)
  then_ok none more = none
  then_ok (some r) more = elim r.status [ Status.ok ↦ more r | Status.fail e ↦ some r ]

  abbrev pub body_of : ℕ → ℕ → Bytes → Reply W → Option (Reply W)
  body_of fuel start leftover r = elim (has_body r.out) [
    | true ↦ read_body net clock fuel start leftover r.client r.out
    | false ↦ some r
  ]

  -- The response, from its head on.
  unfoldable pub receive : ℕ → ℕ → HttpClient W → HttpResponse → Option (Reply W)
  unfolding read_headers has_body read_body settle
  receive fuel start c out = elim (read_headers net clock fuel start c out) [
    | none ↦ none
    | some h ↦ then_ok (some h.0) (λ r. then_ok (body_of fuel start h.1 r) (λ b. some (settle b)))
  ]

  -- The request, and the response to it, over an open connection.
  unfoldable pub exchange : ℕ → ℕ → HttpRequest → HttpClient W → HttpResponse → Option (Reply W)
  unfolding write_all serialize_request receive
  exchange fuel start req c out =
      elim (write_all net clock fuel start (serialize_request req c.keep_alive) c) [
        | none ↦ none
        | some w ↦ elim w.1 [
          | Status.ok ↦ receive fuel start w.0 out
          | Status.fail e ↦ failed net clock w.0 out (Status.fail e)
        ]
      ]

  -- A fresh connection starts a fresh byte stream.
  abbrev pub connecting : HttpRequest → HttpClient W → HttpClient W × Status
  connecting req c =
      let (w, s) = net.connect (host_name req.host) req.port c.world in
      (record c { world = w; pending = [] }, s)

  unfoldable pub send_once : ℕ → HttpRequest → HttpClient W → HttpResponse → Option (Reply W)
  unfolding exchange
  send_once fuel req c out =
      let start = reading clock c.world in
      let fresh : HttpClient W = record c { saw_response_bytes = false; reusable = false } in
      elim (net.connected c.world) [
        | true ↦ exchange fuel start req fresh out
        | false ↦ elim (connecting req fresh).1 [
          | Status.ok ↦ exchange fuel start req (connecting req fresh).0 out
          | Status.fail e ↦ failed net clock (connecting req fresh).0 out (Status.fail e)
        ]
      ]

  -- Whether a failed exchange is tried again: on a connection that was open, with no byte received.
  unfoldable pub is_stale : Bool → Reply W → Bool
  unfolding is_stale_error
  is_stale was_open r =
      not (is_ok r.status) && was_open && not r.client.saw_response_bytes && is_stale_error r.status

  unfoldable pub send : ℕ → HttpRequest → HttpClient W → HttpResponse → Option (Reply W)
  unfolding send_once is_stale
  send fuel req c out = elim (send_once fuel req c out) [
    | none ↦ none
    | some r ↦ elim (is_stale (net.connected c.world) r) [
      | true ↦ send_once fuel req (stopped r.client) no_response
      | false ↦ some r
    ]
  ]
