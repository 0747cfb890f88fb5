-- ===== src/Transport/HttpClient/Ends.antt =====
-- The loops of src/transport/HttpClient.cpp end at the deadline, but for a chunked body.
use edge_llm.Base.{
  ℕ, zero, suc, ◌+◌, ◌-◌, ◌≤◌, ◌<◌, ◌≡◌, refl, inl, inr, false, Option, some, ◌∷◌, ◌++◌, Bytes,
  arith, ltb, length, length-append, length-take, take, drop, cut_at, Bool-cases, Option-cases,
  ◌==◌, ◌&&◌, ap, sym, ◌∙◌, length-drop,
}
use edge_llm.Transport.Http.{HttpResponse, crlf}
use edge_llm.Transport.Connection.{Connection, idle, Received-cases}
use edge_llm.Transport.HttpClient.{HttpClient, Reply, timed_out}
use edge_llm.Transport.HttpClient.Reading.{
  with_body, polled, answer, hung_up, late, seen, read_head, idle_in_body, read_sized,
  read_to_close, max_header_section,
}
use edge_llm.Transport.HttpClient.Rules.{room}

-- Time passes while the client waits: before the deadline that `timeout` sets behind `start`, a
-- poll that gives nothing, or a write that takes nothing, leaves less patience, and no call gives
-- any back.
pub record Paces {W : Type 0} (net : Connection W) (clock : Option (W → ℕ)) (limit start : ℕ)
    (patience : W → ℕ) : Type 0 where
  pub read_keeps : (n : ℕ) (w : W) → patience (net.read n w).0 ≤ patience w
  pub idle_costs :
      (n : ℕ) (w : W)
      → (net.read n w).1 ≡ idle
      → timed_out clock limit start (net.read n w).0 ≡ false
      → patience (net.read n w).0 < patience w
  pub write_keeps : (s : Bytes) (w : W) → patience (net.write s w).0 ≤ patience w
  pub stall_costs :
      (s : Bytes) (w : W)
      → (net.write s w).1 ≡ some 0
      → timed_out clock limit start (net.write s w).0 ≡ false
      → patience (net.write s w).0 < patience w

abbrev pub Returns {ℓ} : {A : Type ℓ} → Option A → Type ℓ
Returns {A = A} o = (a : A) × (o ≡ some a)

module _ {W : Type 0} (net : Connection W) (clock : Option (W → ℕ)) (limit start : ℕ)
    (patience : W → ℕ) (paces : Paces net clock limit start patience) where
  on_time :
      (c : HttpClient W)
      → c.timeout_ms ≡ limit
      → late net clock c start ≡ false
      → timed_out clock limit start c.world ≡ false
  on_time c t l = ap (λ (n : ℕ). timed_out clock n start c.world) (sym t) ∙ l

  idle_in_body-Returns :
      (c : HttpClient W) (out : HttpResponse) (rest : Option (Reply W))
      → (late net clock c start ≡ false → Returns rest)
      → Returns (idle_in_body net clock start c out rest)
  idle_in_body-Returns c out rest h = elim (Bool-cases (late net clock c start)) [
    | inl y ↦ rw (y, idle_in_body) (_, refl)
    | inr y ↦ elim (Bool-cases (hung_up net clock c)) [
      | inl z ↦ rw (y, z, idle_in_body) (_, refl)
      | inr z ↦ rw (y, z, idle_in_body) (h y)
    ]
  ]

  pub read_sized-Returns :
      (fuel want : ℕ) (c : HttpClient W) (out : HttpResponse)
      → c.timeout_ms ≡ limit
      → patience c.world + (want - length out.body) < fuel
      → Returns (read_sized net clock fuel start want c out)
  unfolding read_sized
  read_sized-Returns zero want c out t f = elim f [ ]
  read_sized-Returns (suc fuel) want c out t f =
      let n = room net clock want c out in
      let c' = polled net clock n c in
      elim (Bool-cases (ltb (length out.body) want)) [
        | inr y ↦ rw (y, read_sized) (_, refl)
        | inl y ↦ elim (Received-cases (answer net clock n c)) [
          | inl (x, (xs, e)) ↦
              let more = out.body ++ x ∷ xs in
              rw (y, e, read_sized)
                (read_sized-Returns fuel want c' (with_body out (take want more)) t (
                  ground (
                    arith,
                    paces.read_keeps n c.world,
                    length-take want more,
                    length-append out.body (x ∷ xs),
                    y,
                    f,
                  )))
          | inr (inl e) ↦
              rw (y, e, read_sized)
                (idle_in_body-Returns c' out _ (λ l.
                  read_sized-Returns fuel want c' out t
                    (omega (arith, f, paces.idle_costs n c.world e (on_time c' t l)))))
          | inr (inr e) ↦ rw (y, e, read_sized) (_, refl)
        ]
      ]

  pub read_to_close-Returns :
      (fuel : ℕ) (c : HttpClient W) (out : HttpResponse)
      → c.timeout_ms ≡ limit
      → patience c.world + (c.max_response_body + 1 - length out.body) < fuel
      → Returns (read_to_close net clock fuel start c out)
  unfolding read_to_close
  read_to_close-Returns zero c out t f = elim f [ ]
  read_to_close-Returns (suc fuel) c out t f =
      let n = c.recv_buffer_size in
      let c' = polled net clock n c in
      elim (Bool-cases (ltb c.max_response_body (length out.body))) [
        | inl y ↦ rw (y, read_to_close) (_, refl)
        | inr y ↦ elim (Received-cases (answer net clock n c)) [
          | inl (x, (xs, e)) ↦
              rw (y, e, read_to_close)
                (read_to_close-Returns fuel c' (with_body out (out.body ++ x ∷ xs)) t (
                  ground
                    (arith, paces.read_keeps n c.world, length-append out.body (x ∷ xs), y, f)))
          | inr (inr e) ↦ rw (y, e, read_to_close) (_, refl)
          | inr (inl e) ↦ elim (Bool-cases (hung_up net clock c')) [
            | inl z ↦ rw (y, e, z, read_to_close) (_, refl)
            | inr z ↦ elim (Bool-cases (late net clock c' start)) [
              | inl l ↦ rw (y, e, z, l, read_to_close) (_, refl)
              | inr l ↦
                  rw (y, e, z, l, read_to_close)
                    (read_to_close-Returns fuel c' out t
                      (omega (arith, f, paces.idle_costs n c.world e (on_time c' t l))))
            ]
          ]
        ]
      ]

  -- With enough fuel a head is read or refused, and no patience is given back.
  abbrev pub HeadReturns : HttpClient W → Option (Reply W × Bytes) → Type 0
  HeadReturns c o =
      (h : Reply W × Bytes) × ((o ≡ some h)
        × ((patience h.0.client.world ≤ patience c.world)
            × ((h.0.client.timeout_ms ≡ c.timeout_ms)
                × (h.0.client.max_response_body ≡ c.max_response_body))))

  pub read_head-Returns :
      (fuel : ℕ) (acc : Bytes) (c : HttpClient W) (out : HttpResponse)
      → c.timeout_ms ≡ limit
      → patience c.world + (max_header_section + 1 - length acc) < fuel
      → HeadReturns c (read_head net clock fuel start acc c out)
  unfolding read_head
  read_head-Returns zero acc c out t f = elim f [ ]
  read_head-Returns (suc fuel) acc c out t f =
      let n = c.recv_buffer_size in
      let c' = polled net clock n c in
      elim (Option-cases (cut_at (crlf ++ crlf) acc)) [
        | inr (q, e) ↦ rw (e, read_head) (_, (refl, (omega arith, (refl, refl))))
        | inl m ↦ elim (Bool-cases (ltb max_header_section (length acc))) [
          | inl y ↦ rw (m, y, read_head) (_, (refl, (omega arith, (refl, refl))))
          | inr y ↦ elim (Received-cases (answer net clock n c)) [
            | inl (x, (xs, e)) ↦
                let k = paces.read_keeps n c.world in
                let (h, (r, (p, q))) =
                  read_head-Returns fuel (acc ++ x ∷ xs) (seen net clock c') out t
                    (ground (arith, k, length-append acc (x ∷ xs), y, f)) in
                rw (m, y, e, read_head) (h, (r, (omega (arith, k, p), q)))
            | inr (inr e) ↦
                rw (m, y, e, read_head) (_, (refl, (paces.read_keeps n c.world, (refl, refl))))
            | inr (inl e) ↦ elim (Bool-cases (hung_up net clock c')) [
              | inl z ↦
                  rw (m, y, e, z, read_head) (_, (refl, (paces.read_keeps n c.world, (refl, refl))))
              | inr z ↦ elim (Bool-cases (late net clock c' start)) [
                | inl l ↦
                    rw (m, y, e, z, l, read_head)
                      (_, (refl, (paces.read_keeps n c.world, (refl, refl))))
                | inr l ↦
                    let k = paces.idle_costs n c.world e (on_time c' t l) in
                    let (h, (r, (p, q))) =
                      read_head-Returns fuel acc c' out t (omega (arith, f, k)) in
                    rw (m, y, e, z, l, read_head) (h, (r, (omega (arith, k, p), q)))
              ]
            ]
          ]
        ]
      ]

  -- A write takes bytes, or patience.
  write_progress :
      (fuel x : ℕ) (s : Bytes) (c : HttpClient W) (k : ℕ)
      → c.timeout_ms ≡ limit
      → patience c.world + suc (length s) < suc fuel
      → (net.write (x ∷ s) c.world).1 ≡ some k
      → let c' : HttpClient W = record c { world = (net.write (x ∷ s) c.world).0 } in
        (k == 0 && late net clock c' start) ≡ false
        → patience (net.write (x ∷ s) c.world).0 + length (drop k (x ∷ s)) < fuel
  write_progress fuel x s c zero t f e y =
      let c' : HttpClient W = record c { world = (net.write (x ∷ s) c.world).0 } in
      omega (arith, f, paces.stall_costs (x ∷ s) c.world e (on_time c' t y))
  write_progress fuel x s c (suc k) t f e y =
      omega (arith, f, paces.write_keeps (x ∷ s) c.world, length-drop k s)
