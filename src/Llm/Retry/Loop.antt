-- ===== src/Llm/Retry/Loop.antt =====
-- `LLMClient::sendWithRetry` of src/llm/LLMClient.cpp ends, within its bounds.
use edge_llm.Base.{
  ℕ, zero, suc, ◌+◌, ◌-◌, ◌%◌, ◌≤◌, ◌<◌, ◌≡◌, refl, false, Option, none, some, arith, Bool-cases,
  inl, inr,
}
use edge_llm.Core.{Error, Status}
use edge_llm.Transport.Http.{HttpResponse}
use edge_llm.Llm.UsageMeter.{UsageMeter, IsWithin, record_request-IsWithin}
use edge_llm.Llm.Retry.{RetryPolicy, ClientMetrics}
use edge_llm.Llm.Retry.Send.{
  Client, Verdict, verdict, budget_spent, metered, bump, count_final, count_give_up, timed,
  after_verdict, attempt_once, back_off, retry_loop, send_with_retry,
}

again_below :
    (p : RetryPolicy) (attempt : ℕ) (last : Status) (got : HttpResponse)
    → verdict p attempt last got ≡ Verdict.again
    → attempt < p.max_retries
unfolding verdict
again_below p attempt last got h = ground (arith, h)

-- The meter keeps to its cap on requests.
abbrev pub MeterIsWithin : Option UsageMeter → Type 0
MeterIsWithin none = Unit
MeterIsWithin (some m) = IsWithin m

metered_within : (m : Option UsageMeter) → budget_spent m ≡ false → MeterIsWithin (metered m)
unfolding budget_spent metered
metered_within none h = tt
metered_within (some m) h = record_request-IsWithin m (ground (arith, h))

-- What the loop promises of its result, when `n` attempts are left.
pub record Ends {W : Type 0} (n : ℕ) (c : Client W) (r : Client W × (Status × HttpResponse))
    : Type 0 where
  pub requests : r.0.metrics.requests ≤ c.metrics.requests + n
  pub meter : MeterIsWithin r.0.meter

abbrev pub EndsWith :
    {W : Type 0} → ℕ → Client W → Option (Client W × (Status × HttpResponse)) → Type 0
EndsWith {W = W} n c o = (r : Client W × (Status × HttpResponse)) × ((o ≡ some r) × Ends n c r)

count_give_up_requests :
    (last : Status) (m : ClientMetrics) → (count_give_up last m).requests ≡ m.requests
unfolding count_give_up
count_give_up_requests Status.ok m = refl
count_give_up_requests (Status.fail e) m = refl

after_verdict-EndsWith :
    {W : Type 0} (v : Verdict) (n : ℕ) (last : Status) (got : HttpResponse) (c sent : Client W)
    (rest : Option (Client W × (Status × HttpResponse)))
    → sent.metrics.requests ≤ c.metrics.requests + 1
    → MeterIsWithin sent.meter
    → (v ≡ Verdict.again → (0 < n) × EndsWith n sent rest)
    → EndsWith (n + 1) c (after_verdict v last got sent rest)
unfolding after_verdict count_final
after_verdict-EndsWith Verdict.final n last got c sent rest q w h =
    (_, (refl, record { requests = omega (arith, q); meter = w }))
after_verdict-EndsWith Verdict.give_up n last got c sent rest q w h = (
  _,
  (
    refl,
    record { requests = omega (arith, q, count_give_up_requests last sent.metrics); meter = w },
  ),
)
after_verdict-EndsWith Verdict.again n last got c sent rest q w h =
    let (_, (r, (e, d))) = h refl in
    (r, (e, record { requests = omega (arith, q, d.requests); meter = d.meter }))

module _ {W : Type 0} (send : W → W × (Status × HttpResponse)) (wait : ℕ → W → W)
    (clock : Option (W → ℕ)) where
  attempt_once_requests :
      (c : Client W) → (attempt_once send wait clock c).metrics.requests ≤ c.metrics.requests + 1
  unfolding attempt_once timed bump
  attempt_once_requests c = omega arith

  retry_loop-Ends :
      (fuel : ℕ) (p : RetryPolicy) (attempt : ℕ) (c : Client W) (resp : HttpResponse)
      → p.max_retries ≤ 255
      → attempt ≤ p.max_retries
      → p.max_retries < attempt + fuel
      → MeterIsWithin c.meter
      → EndsWith (p.max_retries - attempt + 1) c (retry_loop send wait clock fuel p attempt c resp)
  unfolding retry_loop attempt_once back_off
  retry_loop-Ends zero p attempt c resp m a f w = ground arith
  retry_loop-Ends (suc fuel) p attempt c resp m a f w = elim (Bool-cases (budget_spent c.meter)) [
    | inl y ↦
        rw (y, retry_loop)
          (
            (c, (Status.fail Error.budget_exceeded, resp)),
            (refl, record { requests = omega arith; meter = w }),
          )
    | inr n ↦
        let last = (send c.world).1.0 in
        let got = (send c.world).1.1 in
        let sent = attempt_once send wait clock c in
        let within : MeterIsWithin sent.meter = metered_within c.meter n in
        rw (n, retry_loop)
          (after_verdict-EndsWith (verdict p attempt last got) (p.max_retries - attempt) last got c
            sent _ (attempt_once_requests c) within
            (λ e.
              let below = again_below p attempt last got e in
              let next : (attempt + 1) % 256 ≡ attempt + 1 = omega arith in
              let back = back_off send wait clock p attempt last got sent in
              let (r, (q, d)) =
                retry_loop-Ends fuel p ((attempt + 1) % 256) back got m (omega arith) (omega arith)
                  within in
              (
                omega arith,
                (r, (q, record { requests = omega (arith, d.requests, next); meter = d.meter })),
              )))
  ]

  -- With at most 255 retries, and a meter, if there is one, that is within its cap on requests, the
  -- loop returns for every sender, wait and clock: it makes at most `max_retries` attempts behind
  -- the first one, and the meter stays within its cap.
  pub send_with_retry-EndsWith :
      (p : RetryPolicy) (c : Client W) (resp : HttpResponse)
      → p.max_retries ≤ 255
      → MeterIsWithin c.meter
      → EndsWith (p.max_retries + 1) c (send_with_retry send wait clock p c resp)
  unfolding send_with_retry
  send_with_retry-EndsWith p c resp m w =
      let (r, (q, d)) =
        retry_loop-Ends (suc p.max_retries) p 0 c resp m (omega arith) (omega arith) w in
      (r, (q, record { requests = omega (arith, d.requests); meter = d.meter }))
