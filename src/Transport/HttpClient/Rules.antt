-- ===== src/Transport/HttpClient/Rules.antt =====
-- Rules for the loops of src/transport/HttpClient.cpp: what holds at every round, and so of the
-- reply.
use edge_llm.Base.{
  ℕ, zero, suc, ◌-◌, min, ◌≡◌, ◌⊎◌, inl, inr, false, Option, none, some, [], ◌∷◌, ◌++◌, Bytes, ltb,
  length, take, cut_at, Bool-cases, Option-cases,
}
use edge_llm.Core.{Error, Status, Status-cases}
use edge_llm.Transport.Chunked.{ChunkedDecoder, Fed}
use edge_llm.Transport.Http.{HttpResponse, crlf}
use edge_llm.Transport.Connection.{Connection, Received, got, idle, closed, Received-cases}
use edge_llm.Transport.HttpClient.{HttpClient, Reply, reply}
use edge_llm.Transport.HttpClient.Heads.{parse_header_block}
use edge_llm.Transport.HttpClient.Reading.{
  max_header_section, with_body, polled, answer, hung_up, late, seen, read_head, idle_in_body,
  after_feed, read_chunked, read_sized, read_to_close, check_cap,
}

-- `P` holds of the value, if there is one.
abbrev pub Holds : {A : Type 0} → (A → Type 0) → Option A → Type 0
Holds P none = Unit
Holds P (some a) = P a

pub Holds-map :
    {A : Type 0} {P Q : A → Type 0} → ((a : A) → P a → Q a) → (o : Option A) → Holds P o → Holds Q o
Holds-map f none h = tt
Holds-map f (some a) h = f a h

-- A read that gives no bytes.
abbrev pub Quiet : Received → Type 0
Quiet r = (r ≡ idle) ⊎ (r ≡ closed)

module _ {W : Type 0} (net : Connection W) (clock : Option (W → ℕ)) where
  -- What a loop over a body keeps.
  pub record Keeps (P : HttpClient W → HttpResponse → Type 0) (n : HttpClient W → HttpResponse → ℕ)
      (add : HttpResponse → Bytes → HttpResponse) : Type 0 where
    pub bytes_keep :
        (c : HttpClient W) (out : HttpResponse) (x : ℕ) (xs : Bytes)
        → P c out
        → answer net clock (n c out) c ≡ got x xs
        → P (polled net clock (n c out) c) (add out (x ∷ xs))
    pub quiet_keep :
        (c : HttpClient W) (out : HttpResponse)
        → P c out
        → Quiet (answer net clock (n c out) c)
        → P (polled net clock (n c out) c) out

  idle_in_body-Holds :
      (Q : Reply W → Type 0) (start : ℕ) (c : HttpClient W) (out : HttpResponse)
      (rest : Option (Reply W))
      → ((e : Error) → Q (reply c out (Status.fail e)))
      → Holds Q rest
      → Holds Q (idle_in_body net clock start c out rest)
  idle_in_body-Holds Q start c out rest f h = elim (Bool-cases (late net clock c start)) [
    | inl y ↦ rw (y, idle_in_body) (f _)
    | inr y ↦ elim (Bool-cases (hung_up net clock c)) [
      | inl z ↦ rw (y, z, idle_in_body) (f _)
      | inr z ↦ rw (y, z, idle_in_body) h
    ]
  ]

  abbrev pub room : ℕ → HttpClient W → HttpResponse → ℕ
  room want c out = min (want - length out.body) c.recv_buffer_size

  abbrev pub add_sized : ℕ → HttpResponse → Bytes → HttpResponse
  add_sized want out s = with_body out (take want (out.body ++ s))

  pub read_sized-Holds :
      (P : HttpClient W → HttpResponse → Type 0) (Q : Reply W → Type 0) (want : ℕ)
      → Keeps P (room want) (add_sized want)
      → ((c : HttpClient W) (out : HttpResponse)
          → P c out
          → ltb (length out.body) want ≡ false
          → Q (reply c out Status.ok))
      → ((c : HttpClient W) (out : HttpResponse) (e : Error)
          → P c out
          → Q (reply c out (Status.fail e)))
      → (fuel start : ℕ) (c : HttpClient W) (out : HttpResponse) → P c out
      → Holds Q (read_sized net clock fuel start want c out)
  unfolding read_sized
  read_sized-Holds P Q want k done fails zero start c out p = tt
  read_sized-Holds P Q want k done fails (suc fuel) start c out p =
      let more = read_sized-Holds P Q want k done fails fuel start in
      elim (Bool-cases (ltb (length out.body) want)) [
        | inr y ↦ rw (y, read_sized) (done c out p y)
        | inl y ↦ elim (Received-cases (answer net clock (room want c out) c)) [
          | inl (x, (xs, e)) ↦ rw (y, e, read_sized) (more _ _ (k.bytes_keep c out x xs p e))
          | inr (inl e) ↦
              let q = k.quiet_keep c out p (inl e) in
              rw (y, e, read_sized)
                (idle_in_body-Holds Q start _ out _ (λ err. fails _ out err q) (more _ _ q))
          | inr (inr e) ↦ rw (y, e, read_sized) (fails _ out _ (k.quiet_keep c out p (inr e)))
        ]
      ]

  abbrev pub buffer : HttpClient W → HttpResponse → ℕ
  buffer c out = c.recv_buffer_size

  abbrev pub add_raw : HttpResponse → Bytes → HttpResponse
  add_raw out s = with_body out (out.body ++ s)

  pub read_to_close-Holds :
      (P : HttpClient W → HttpResponse → Type 0) (Q : Reply W → Type 0)
      → Keeps P buffer add_raw
      → ((c : HttpClient W) (out : HttpResponse)
          → P c out
          → ltb c.max_response_body (length out.body) ≡ false
          → Quiet (answer net clock c.recv_buffer_size c)
          → Q (reply (polled net clock c.recv_buffer_size c) out Status.ok))
      → ((c : HttpClient W) (out : HttpResponse) (e : Error)
          → P c out
          → Q (reply c out (Status.fail e)))
      → (fuel start : ℕ) (c : HttpClient W) (out : HttpResponse) → P c out
      → Holds Q (read_to_close net clock fuel start c out)
  unfolding read_to_close
  read_to_close-Holds P Q k done fails zero start c out p = tt
  read_to_close-Holds P Q k done fails (suc fuel) start c out p =
      let more = read_to_close-Holds P Q k done fails fuel start in
      let c' = polled net clock c.recv_buffer_size c in
      elim (Bool-cases (ltb c.max_response_body (length out.body))) [
        | inl y ↦ rw (y, read_to_close) (fails c out _ p)
        | inr y ↦ elim (Received-cases (answer net clock c.recv_buffer_size c)) [
          | inl (x, (xs, e)) ↦ rw (y, e, read_to_close) (more _ _ (k.bytes_keep c out x xs p e))
          | inr (inr e) ↦ rw (y, e, read_to_close) (done c out p y (inr e))
          | inr (inl e) ↦ elim (Bool-cases (hung_up net clock c')) [
            | inl z ↦ rw (y, e, z, read_to_close) (done c out p y (inl e))
            | inr z ↦ elim (Bool-cases (late net clock c' start)) [
              | inl l ↦
                  rw (y, e, z, l, read_to_close) (fails c' out _ (k.quiet_keep c out p (inl e)))
              | inr l ↦ rw (y, e, z, l, read_to_close) (more c' out (k.quiet_keep c out p (inl e)))
            ]
          ]
        ]
      ]

  pub read_head-Holds :
      (P : Bytes → HttpClient W → Type 0) (Q : Reply W × Bytes → Type 0) (out : HttpResponse)
      → ((acc : Bytes) (c : HttpClient W) (x : ℕ) (xs : Bytes)
          → P acc c
          → ltb max_header_section (length acc) ≡ false
          → answer net clock c.recv_buffer_size c ≡ got x xs
          → P (acc ++ x ∷ xs) (seen net clock (polled net clock c.recv_buffer_size c)))
      → ((acc : Bytes) (c : HttpClient W)
          → P acc c
          → Quiet (answer net clock c.recv_buffer_size c)
          → P acc (polled net clock c.recv_buffer_size c))
      → ((acc : Bytes) (c : HttpClient W) (p : Bytes × Bytes)
          → P acc c
          → cut_at (crlf ++ crlf) acc ≡ some p
          → let s = parse_header_block (p.0 ++ crlf) out in Q (reply c s.1 s.0, p.1))
      → ((acc : Bytes) (c : HttpClient W) (e : Error)
          → P acc c
          → Q (reply c out (Status.fail e), []))
      → (fuel start : ℕ) (acc : Bytes) (c : HttpClient W) → P acc c
      → Holds Q (read_head net clock fuel start acc c out)
  unfolding read_head
  read_head-Holds P Q out bytes_keep quiet_keep found fails zero start acc c p = tt
  read_head-Holds P Q out bytes_keep quiet_keep found fails (suc fuel) start acc c p =
      let more = read_head-Holds P Q out bytes_keep quiet_keep found fails fuel start in
      let c' = polled net clock c.recv_buffer_size c in
      elim (Option-cases (cut_at (crlf ++ crlf) acc)) [
        | inr (q, e) ↦ rw (e, read_head) (found acc c q p e)
        | inl n ↦ elim (Bool-cases (ltb max_header_section (length acc))) [
          | inl y ↦ rw (n, y, read_head) (fails acc c _ p)
          | inr y ↦ elim (Received-cases (answer net clock c.recv_buffer_size c)) [
            | inl (x, (xs, e)) ↦ rw (n, y, e, read_head) (more _ _ (bytes_keep acc c x xs p y e))
            | inr (inr e) ↦ rw (n, y, e, read_head) (fails acc c' _ (quiet_keep acc c p (inr e)))
            | inr (inl e) ↦
                let q = quiet_keep acc c p (inl e) in
                elim (Bool-cases (hung_up net clock c')) [
                  | inl z ↦ rw (n, y, e, z, read_head) (fails acc c' _ q)
                  | inr z ↦ elim (Bool-cases (late net clock c' start)) [
                    | inl l ↦ rw (n, y, e, z, l, read_head) (fails acc c' _ q)
                    | inr l ↦ rw (n, y, e, z, l, read_head) (more acc c' q)
                  ]
                ]
          ]
        ]
      ]

  -- For a chunked body `P` speaks of the client and `O` of the response, whatever its body.
  pub after_feed-Holds :
      (O : HttpResponse → Type 0) (Q : Reply W → Type 0) (c : HttpClient W)
      (more : ChunkedDecoder → HttpResponse → Option (Reply W))
      → ((out : HttpResponse) (s : Bytes) → O out → O (with_body out s))
      → ((out : HttpResponse)
          → O out
          → ltb c.max_response_body (length out.body) ≡ false
          → Q (reply c out Status.ok))
      → ((out : HttpResponse) (e : Error) → Q (reply c out (Status.fail e)))
      → ((d : ChunkedDecoder) (out : HttpResponse) → O out → Holds Q (more d out))
      → (out : HttpResponse) (o : Option Fed) → O out
      → Holds Q (after_feed net clock more c out o)
  unfolding after_feed check_cap
  after_feed-Holds O Q c more body done fails h out none k = tt
  after_feed-Holds O Q c more body done fails h out (some f) k = elim (Status-cases f.status) [
    | inr (e, s) ↦ rw (s, after_feed) (fails _ e)
    | inl s ↦ elim (Bool-cases f.done) [
      | inr d ↦ rw (s, d, after_feed) (h _ _ (body out f.out k))
      | inl d ↦ elim (Bool-cases (ltb c.max_response_body (length f.out))) [
        | inl b ↦ rw (s, d, b, after_feed, check_cap) (fails _ _)
        | inr b ↦
            rw (s, d, b, after_feed, check_cap) (done (with_body out f.out) (body out f.out k) b)
      ]
    ]
  ]

  pub read_chunked-Holds :
      (P : HttpClient W → Type 0) (O : HttpResponse → Type 0) (Q : Reply W → Type 0)
      → ((c : HttpClient W) → P c → P (polled net clock c.recv_buffer_size c))
      → ((out : HttpResponse) (s : Bytes) → O out → O (with_body out s))
      → ((c : HttpClient W) (out : HttpResponse)
          → P c
          → O out
          → ltb c.max_response_body (length out.body) ≡ false
          → Q (reply c out Status.ok))
      → ((c : HttpClient W) (out : HttpResponse) (e : Error)
          → P c
          → Q (reply c out (Status.fail e)))
      → (fuel start : ℕ) (c : HttpClient W) (d : ChunkedDecoder) (out : HttpResponse) → P c
      → O out
      → Holds Q (read_chunked net clock fuel start c d out)
  unfolding read_chunked
  read_chunked-Holds P O Q keep body done fails zero start c d out p k = tt
  read_chunked-Holds P O Q keep body done fails (suc fuel) start c d out p k =
      let more = read_chunked-Holds P O Q keep body done fails fuel start in
      let c' = polled net clock c.recv_buffer_size c in
      let q = keep c p in
      elim (Bool-cases (ltb c.max_response_body (length out.body))) [
        | inl y ↦ rw (y, read_chunked) (fails c out _ p)
        | inr y ↦ elim (Received-cases (answer net clock c.recv_buffer_size c)) [
          | inl (x, (xs, e)) ↦
              rw (y, e, read_chunked)
                (after_feed-Holds O Q c' _ body (λ o. done c' o q) (λ o err. fails c' o err q)
                  (λ d' o. more c' d' o q) out _ k)
          | inr (inl e) ↦
              rw (y, e, read_chunked)
                (idle_in_body-Holds Q start c' out _ (λ err. fails c' out err q)
                  (more c' d out q k))
          | inr (inr e) ↦ rw (y, e, read_chunked) (fails c' out _ q)
        ]
      ]
