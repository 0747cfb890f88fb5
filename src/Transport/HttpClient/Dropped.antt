-- ===== src/Transport/HttpClient/Dropped.antt =====
-- What the client does with the bytes behind a chunked body, and with one that never ends:
-- src/transport/HttpClient.cpp.
use edge_llm.Base.{
  ℕ, zero, suc, ◌≤◌, ◌≡◌, refl, true, false, Option, none, some, [], ◌∷◌, Bytes, Lacks, arith, ltb,
  length, ◌∙◌, ap,
}
use edge_llm.Core.{Status}
use edge_llm.Transport.Chunked.{ChunkedDecoder, State, reset, feed, ended, step_in}
use edge_llm.Transport.Chunked.Bytewise.{run, feed-eq-run, Ready}
use edge_llm.Transport.Chunked.Wire.{Message, IsMessage, print, body}
use edge_llm.Transport.Chunked.RoundTrip.{feed-print}
use edge_llm.Transport.Http.{HttpResponse}
use edge_llm.Transport.Connection.{Connection, got}
use edge_llm.Transport.HttpClient.{HttpClient, reply}
use edge_llm.Transport.HttpClient.Reading.{
  with_body, is_chunked, after_feed, check_cap, read_chunked, read_body,
}

module _ {W : Type 0} (net : Connection W) (clock : Option (W → ℕ)) where
  -- A chunked body that comes with the head is decoded with success, if it is within the cap. The
  -- bytes `rest` behind it, which belong to the next response, do not count, and are not kept.
  pub read_body_drops :
      (fuel start : ℕ) (c : HttpClient W) (out : HttpResponse) (m : Message) (rest : Bytes)
      → is_chunked out ≡ true
      → out.body ≡ []
      → IsMessage m
      → length (body m.chunks) ≤ c.max_response_body
      → read_body net clock fuel start (print m rest) c out
        ≡ some (reply c (with_body out (body m.chunks)) Status.ok)
  unfolding read_body after_feed check_cap
  read_body_drops fuel start c out m rest h e v k =
      let fed = ap (λ (b : Bytes). feed reset b false (print m rest)) e ∙ feed-print m rest v in
      rw (h, read_body, fed, after_feed, check_cap) (ground arith)

  size_ext-Ready : (s : State) (n : ℕ) → s ≡ State.size_ext → Ready s n
  size_ext-Ready s n e = ground (arith, e)

  run_size_ext :
      (d : ChunkedDecoder) (out cs : Bytes)
      → d.state ≡ State.size_ext
      → Lacks b'\n' cs
      → run d out false cs ≡ ended d out false Status.ok
  unfolding run step_in
  run_size_ext d out [] s h = rw s refl
  run_size_ext d out (c ∷ cs) s h = ground (arith, run_size_ext d out cs s h.1)

  -- A peer that sends bytes without a line feed whenever it is asked for more, in the extension of
  -- a size line, holds the client for ever: the loop runs out of every fuel, whatever the clock
  -- reads and the timeout is, and no byte is counted against the cap.
  pub read_chunked_endless :
      (fuel start : ℕ) (c : HttpClient W) (d : ChunkedDecoder) (out : HttpResponse)
      → ((n : ℕ) (w : W)
          → (x : ℕ) × ((xs : Bytes) × (((net.read n w).1 ≡ got x xs) × Lacks b'\n' (x ∷ xs))))
      → d.state ≡ State.size_ext
      → length out.body ≤ c.max_response_body
      → read_chunked net clock fuel start c d out ≡ none
  unfolding read_chunked after_feed
  read_chunked_endless zero start c d out talks s k = refl
  read_chunked_endless (suc fuel) start c d out talks s k =
      let (x, (xs, (e, l))) = talks c.recv_buffer_size c.world in
      let below : ltb c.max_response_body (length out.body) ≡ false = ground arith in
      let fed : feed d out.body false (x ∷ xs) ≡ some (ended d out.body false Status.ok) =
        feed-eq-run d out.body false (x ∷ xs) (size_ext-Ready d.state d.remaining s)
        ∙ ap some (run_size_ext d out.body (x ∷ xs) s l) in
      rw (below, e, read_chunked, fed, after_feed) (read_chunked_endless fuel start _ d _ talks s k)
