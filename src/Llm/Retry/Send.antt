-- ===== src/Llm/Retry/Send.antt =====
-- `LLMClient::sendWithRetry` of src/llm/LLMClient.cpp. The log lines are left out.
use edge_llm.Base.{
  ℕ, zero, suc, ◌+◌, ◌-◌, ◌%◌, ◌^◌, Bool, false, not, ◌&&◌, ◌||◌, Option, none, some, leb,
  if◌then◌else◌,
}
use edge_llm.Core.{Error, Status, is_ok}
use edge_llm.Transport.Http.{HttpResponse, is_success}
use edge_llm.Llm.UsageMeter.{UsageMeter, allow_request, record_request}
use edge_llm.Llm.Retry.{
  RetryPolicy, ClientMetrics, is_transient_transport_error, is_retryable_status, backoff_for,
}

-- The parts of `LLMClient` that the loop changes.
pub record Client (W : Type 0) : Type 0 where
  pub world : W
  pub meter : Option UsageMeter
  pub metrics : ClientMetrics
  pub jitter_state : ℕ

-- How the loop goes on behind an answer.
pub data Verdict : Type 0 where
  final give_up again : Verdict

unfoldable pub is_transient : Status → HttpResponse → Bool
unfolding is_transient_transport_error is_retryable_status
is_transient Status.ok resp = is_retryable_status resp.status
is_transient (Status.fail e) resp = is_transient_transport_error e

unfoldable pub verdict : RetryPolicy → ℕ → Status → HttpResponse → Verdict
unfolding is_transient
verdict p attempt last resp =
    if is_ok last && not (is_transient last resp)
    then Verdict.final
    else if not (is_transient last resp) || leb p.max_retries attempt
    then Verdict.give_up
    else Verdict.again

unfoldable pub bump : ℕ → ℕ
bump n = (n + 1) % 2 ^ 32

unfoldable pub budget_spent : Option UsageMeter → Bool
unfolding allow_request
budget_spent none = false
budget_spent (some m) = not (allow_request m)

unfoldable pub metered : Option UsageMeter → Option UsageMeter
unfolding record_request
metered none = none
metered (some m) = some (record_request m)

unfoldable pub count_final : HttpResponse → ClientMetrics → ClientMetrics
unfolding bump
count_final resp m = record m {
  http_errors = if is_success resp then m.http_errors else bump m.http_errors;
}

unfoldable pub count_give_up : Status → ClientMetrics → ClientMetrics
unfolding bump
count_give_up Status.ok m = record m { http_errors = bump m.http_errors }
count_give_up (Status.fail e) m = record m { transport_errors = bump m.transport_errors }

-- The return of a verdict, or the rest of the loop.
unfoldable pub after_verdict :
    {W : Type 0}
    → Verdict
    → Status
    → HttpResponse
    → Client W
    → Option (Client W × (Status × HttpResponse))
    → Option (Client W × (Status × HttpResponse))
unfolding count_final count_give_up
after_verdict Verdict.final last got sent rest =
    some (record sent { metrics = count_final got sent.metrics }, (Status.ok, got))
after_verdict Verdict.give_up last got sent rest =
    some (record sent { metrics = count_give_up last sent.metrics }, (last, got))
after_verdict Verdict.again last got sent rest = rest

module _ {W : Type 0} (send : W → W × (Status × HttpResponse)) (wait : ℕ → W → W)
    (clock : Option (W → ℕ)) where
  abbrev reading : W → ℕ
  reading w = elim clock [ none ↦ 0 | some now ↦ now w ]

  unfoldable pub timed : ℕ → W → ClientMetrics → ClientMetrics
  unfolding bump
  timed sent_at w m =
      let latency = (reading w + (2 ^ 32 - sent_at)) % 2 ^ 32 in
      let total = (m.total_latency_ms + latency) % 2 ^ 32 in
      record m {
        requests = bump m.requests;
        last_latency_ms = elim clock [ none ↦ m.last_latency_ms | some now ↦ latency ];
        total_latency_ms = elim clock [ none ↦ m.total_latency_ms | some now ↦ total ];
      }

  -- One attempt, with its bookkeeping.
  unfoldable pub attempt_once : Client W → Client W
  unfolding timed metered
  attempt_once c =
      let after = (send c.world).0 in
      record c {
        world = after;
        meter = metered c.meter;
        metrics = timed (reading c.world) after c.metrics;
      }

  -- The wait before the next attempt.
  unfoldable pub back_off : RetryPolicy → ℕ → Status → HttpResponse → Client W → Client W
  unfolding bump backoff_for
  back_off p attempt last resp c =
      let (ms, state) = backoff_for p attempt resp (is_ok last) c.jitter_state in
      record c {
        world = wait ms c.world;
        metrics = record c.metrics { retries = bump c.metrics.retries };
        jitter_state = state;
      }

  -- The loop on fuel; `none` means that the fuel ran out.
  unfoldable pub retry_loop :
      ℕ → RetryPolicy → ℕ → Client W → HttpResponse → Option (Client W × (Status × HttpResponse))
  retry_loop zero p attempt c resp = none
  retry_loop (suc fuel) p attempt c resp =
      let (last, got) = (send c.world).1 in
      let sent = attempt_once c in
      let rest = retry_loop fuel p ((attempt + 1) % 256) (back_off p attempt last got sent) got in
      if budget_spent c.meter
      then some (c, (Status.fail Error.budget_exceeded, resp))
      else after_verdict (verdict p attempt last got) last got sent rest

  -- The first attempt and `max_retries` more are fuel enough.
  unfoldable pub send_with_retry :
      RetryPolicy → Client W → HttpResponse → Option (Client W × (Status × HttpResponse))
  unfolding retry_loop
  send_with_retry p c resp = retry_loop (suc p.max_retries) p 0 c resp
