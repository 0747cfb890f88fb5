-- ===== src/Transport/HttpClient/Conserve.antt =====
-- No byte of the peer is lost or read twice between two responses with a length:
-- src/transport/HttpClient.cpp.
use edge_llm.Base.{
  ℕ, ◌≤◌, ◌≡◌, refl, ◌⊎◌, inl, inr, false, Option, some, [], ◌∷◌, ◌++◌, Bytes, arith, ltb, length,
  take, length-append, take-all, append_assoc, cut_at, eq_of_cut_at, length-take, take-append-drop,
  ◌∙◌, Bool-cases, ap, cut_at_first, sym,
}
use edge_llm.Core.{Status, is_ok, Status-cases}
use edge_llm.Transport.Http.{HttpResponse, crlf}
use edge_llm.Transport.Connection.{Connection, got}
use edge_llm.Transport.HttpClient.{HttpClient, Reply, reply}
use edge_llm.Transport.HttpClient.Heads.{parse_header_block}
use edge_llm.Transport.HttpClient.Reading.{
  with_body, polled, answer, read_sized, start_sized, read_headers,
}
use edge_llm.Transport.HttpClient.Rules.{
  Holds, Quiet, room, add_sized, read_sized-Holds, read_head-Holds,
}

-- What src/transport/IConnection.h says of `read`, with `input w` for the bytes that the peer has
-- still to deliver in the world `w`: at most as many bytes as asked for, in order.
pub record Delivers {W : Type 0} (net : Connection W) (input : W → Bytes) : Type 0 where
  pub bounded :
      (n : ℕ) (w : W) (x : ℕ) (xs : Bytes) → (net.read n w).1 ≡ got x xs → length (x ∷ xs) ≤ n
  pub in_order :
      (n : ℕ) (w : W) (x : ℕ) (xs : Bytes)
      → (net.read n w).1 ≡ got x xs
      → input w ≡ (x ∷ xs) ++ input (net.read n w).0
  pub quiet : (n : ℕ) (w : W) → Quiet (net.read n w).1 → input (net.read n w).0 ≡ input w

module _ {W : Type 0} (net : Connection W) (clock : Option (W → ℕ)) (input : W → Bytes)
    (laws : Delivers net input) where
  -- The bytes that stand before the client: those it kept, and those to come.
  abbrev pub ahead : HttpClient W → Bytes
  ahead c = c.pending ++ input c.world

  -- A loop over a body of `want` bytes, of a response that is otherwise `out`.
  pub record Sized (stream : Bytes) (want : ℕ) (out : HttpResponse) (c : HttpClient W)
      (o : HttpResponse) : Type 0 where
    pub all : stream ≡ o.body ++ ahead c
    pub kept : (c.pending ≡ []) ⊎ (length o.body ≡ want)
    pub fits : length o.body ≤ want
    pub same : o ≡ with_body out o.body

  Sized-bytes :
      (stream : Bytes) (want : ℕ) (out : HttpResponse) (c : HttpClient W) (o : HttpResponse) (x : ℕ)
      (xs : Bytes)
      → Sized stream want out c o
      → answer net clock (room net clock want c o) c ≡ got x xs
      → Sized stream want out
          (polled net clock (room net clock want c o) c)
          (add_sized net clock want o (x ∷ xs))
  Sized-bytes stream want out c o x xs s e =
      let b = laws.bounded _ _ x xs e in
      let i = laws.in_order _ _ x xs e in
      let none_kept : c.pending ≡ [] = ground (arith, s.kept, b) in
      let fits : length (o.body ++ x ∷ xs) ≤ want =
        omega (arith, length-append o.body (x ∷ xs), b, s.fits) in
      let whole = take-all want (o.body ++ x ∷ xs) fits in
      record {
        all = rw (whole, none_kept, append_assoc o.body (x ∷ xs)) (s.all ∙ rw (none_kept, i) refl);
        kept = inl none_kept;
        fits = rw whole fits;
        same = ap (λ (r : HttpResponse). with_body r (take want (o.body ++ x ∷ xs))) s.same;
      }

  Sized-Quiet :
      (stream : Bytes) (want n : ℕ) (out : HttpResponse) (c : HttpClient W) (o : HttpResponse)
      → Sized stream want out c o
      → Quiet (answer net clock n c)
      → Sized stream want out (polled net clock n c) o
  Sized-Quiet stream want n out c o s q = record {
    all = rw (laws.quiet n c.world q) s.all;
    kept = s.kept;
    fits = s.fits;
    same = s.same;
  }

  -- A body of `want` bytes was taken off the stream, into a response that is otherwise `out`.
  pub record IsCut (stream : Bytes) (want : ℕ) (out : HttpResponse) (r : Reply W) : Type 0 where
    pub all : stream ≡ r.out.body ++ ahead r.client
    pub size : length r.out.body ≡ want
    pub same : r.out ≡ with_body out r.out.body

  -- A failed reply, or a cut.
  abbrev pub Cuts : Bytes → ℕ → HttpResponse → Reply W → Type 0
  Cuts stream want out r = (is_ok r.status ≡ false) ⊎ IsCut stream want out r

  pub read_sized-Cuts :
      (stream : Bytes) (fuel start want : ℕ) (out : HttpResponse) (c : HttpClient W)
      (o : HttpResponse)
      → Sized stream want out c o
      → Holds (Cuts stream want out) (read_sized net clock fuel start want c o)
  read_sized-Cuts stream fuel start want out c o s =
      read_sized-Holds net clock (Sized stream want out) (Cuts stream want out) want
        (record {
          bytes_keep = λ c o x xs s e. Sized-bytes stream want out c o x xs s e;
          quiet_keep = λ c o s q. Sized-Quiet stream want _ out c o s q;
        })
        (λ c o s b. inr (record { all = s.all; size = ground (arith, b, s.fits); same = s.same }))
        (λ c o e s. inl refl) fuel start c o s

  pub start_sized-Sized :
      (want : ℕ) (initial : Bytes) (c : HttpClient W) (out : HttpResponse)
      → c.pending ≡ []
      → Sized
          (initial ++ input c.world)
          want
          out
          (start_sized net clock want initial c)
          (with_body out (take want initial))
  unfolding start_sized
  start_sized-Sized want initial c out e = elim (Bool-cases (ltb want (length initial))) [
    | inl y ↦ record {
      all = rw (y, ← append_assoc (take want initial), take-append-drop want initial) refl;
      kept = inr (ground (arith, y, length-take want initial));
      fits = omega (arith, length-take want initial);
      same = refl;
    }
    | inr n ↦
        let whole = take-all want initial (ground (arith, n)) in
        record {
          all = rw (n, e, whole) refl;
          kept = inl (rw n e);
          fits = omega (arith, length-take want initial);
          same = refl;
        }
  ]

  -- A head was taken off the stream, into a response that was `out` before: what stands before the
  -- first blank line.
  pub record IsHeadCut (stream : Bytes) (out : HttpResponse) (h : Reply W × Bytes) : Type 0 where
    pub block : Bytes
    pub all : stream ≡ block ++ ((crlf ++ crlf) ++ (h.1 ++ input h.0.client.world))
    pub none_kept : h.0.client.pending ≡ []
    pub first : (a b : Bytes) → stream ≡ a ++ ((crlf ++ crlf) ++ b) → length block ≤ length a
    pub parsed : parse_header_block (block ++ crlf) out ≡ (Status.ok, h.0.out)

  abbrev pub HeadCuts : Bytes → HttpResponse → Reply W × Bytes → Type 0
  HeadCuts stream out h = (is_ok h.0.status ≡ false) ⊎ IsHeadCut stream out h

  head_found-HeadCuts :
      (stream : Bytes) (out : HttpResponse) (acc : Bytes) (c : HttpClient W) (p : Bytes × Bytes)
      → (stream ≡ acc ++ input c.world) × (c.pending ≡ [])
      → cut_at (crlf ++ crlf) acc ≡ some p
      → let s = parse_header_block (p.0 ++ crlf) out in HeadCuts stream out (reply c s.1 s.0, p.1)
  head_found-HeadCuts stream out acc c p k e =
      let s = parse_header_block (p.0 ++ crlf) out in
      elim (Status-cases s.0) [
        | inr (err, f) ↦ inl (rw f refl)
        | inl f ↦ inr (record {
          block = p.0;
          all =
              k.0
              ∙ rw
                  (
                    eq_of_cut_at (crlf ++ crlf) acc p.0 p.1 e,
                    append_assoc p.0,
                    append_assoc (crlf ++ crlf) p.1,
                  )
                  refl;
          none_kept = k.1;
          first =
              λ a b f. cut_at_first (crlf ++ crlf) acc p.0 p.1 a b (input c.world) e (sym k.0 ∙ f);
          parsed = ap (λ (st : Status). (st, s.1)) f;
        })
      ]

  pub read_headers-HeadCuts :
      (fuel start : ℕ) (c : HttpClient W) (out : HttpResponse)
      → Holds (HeadCuts (ahead c) out) (read_headers net clock fuel start c out)
  unfolding read_headers
  read_headers-HeadCuts fuel start c out =
      read_head-Holds net clock (λ acc c'. (ahead c ≡ acc ++ input c'.world) × (c'.pending ≡ []))
        (HeadCuts (ahead c) out) out
        (λ acc c' x xs p b q.
          (p.0 ∙ rw (laws.in_order _ c'.world x xs q, append_assoc acc (x ∷ xs)) refl, p.1))
        (λ acc c' p q. (rw (laws.quiet _ c'.world q) p.0, p.1))
        (λ acc c' p k e. head_found-HeadCuts (ahead c) out acc c' p k e) (λ acc c' e p. inl refl)
        fuel start c.pending _ (refl, refl)
