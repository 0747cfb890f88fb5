-- ===== src/Llm/Client/Budget.antt =====
-- How many requests a call of the client makes: src/llm/LLMClient.cpp.
use edge_llm.Base.{
  ℕ, zero, suc, ◌+◌, ◌≤◌, ◌≡◌, refl, true, false, Option, none, some, List, Bytes, arith, inl, inr,
  Bool,
}
use edge_llm.Core.{Error, Status, Result}
use edge_llm.Transport.Http.{Header, HttpRequest, HttpResponse, no_response}
use edge_llm.Llm.UsageMeter.{UsageMeter, record_tokens}
use edge_llm.Llm.Messages.{Message}
use edge_llm.Llm.Retry.{RetryPolicy}
use edge_llm.Llm.Retry.Send.{Client}
use edge_llm.Llm.Retry.Loop.{MeterIsWithin, send_with_retry-EndsWith}
use edge_llm.Llm.Client.{
  ChatOptions, ChatResult, AgentTurn, Settings, Environment, add_extra_headers, request_round,
  count_tokens, finish_request_cycle, metered_tokens,
}
use edge_llm.Llm.Client.Generate.{
  after_validation, after_parse, after_round, generate_loop, do_generate, finished,
  count_schema_retry,
}
use edge_llm.Llm.Client.Transcript.{calls-cases}
use edge_llm.Llm.Client.Agent.{
  turn_client, when_supported, after_turn, after_tool_parse, after_tool_round, agent_loop,
  after_agent, run_impl, run, flatten_for_structured,
}

-- A call that began with `c` returns, with at most `n` requests more and the meter within its cap.
abbrev pub Spends : {W A : Type 0} → ℕ → Client W → Option (Client W × A) → Type 0
Spends {W = W} {A = A} n c o =
    (r : Client W × A) × ((o ≡ some r)
      × ((r.0.metrics.requests ≤ c.metrics.requests + n) × MeterIsWithin r.0.meter))

Spends-then :
    {W A B : Type 0} (m n : ℕ) (c : Client W) (o : Option (Client W × A))
    (g : Option (Client W × A) → Option (Client W × B))
    → Spends m c o
    → ((r : Client W × A) → MeterIsWithin r.0.meter → Spends n r.0 (g (some r)))
    → Spends (m + n) c (g o)
Spends-then m n c o g (r, (q, (a, w))) k =
    let (r', (q', (b, w'))) = k r w in rw q (r', (q', (omega (arith, a, b), w')))

-- What returns at once spends nothing.
Spends-now :
    {W A : Type 0} (n : ℕ) (c : Client W) (a : A) → MeterIsWithin c.meter → Spends n c (some (c, a))
Spends-now n c a w = (_, (refl, (omega arith, w)))

meter_tokens :
    (input output : ℕ) (m : Option UsageMeter)
    → MeterIsWithin m
    → MeterIsWithin (metered_tokens input output m)
unfolding record_tokens
meter_tokens input output none w = tt
meter_tokens input output (some m) w = ground (arith, w)

module _ {W F S R : Type 0} (env : Environment W F S R) where
  request_round-Spends :
      (p : RetryPolicy) (extra : List Header) (built : Result HttpRequest) (c : Client W)
      → p.max_retries ≤ 255
      → MeterIsWithin c.meter
      → Spends (p.max_retries + 1) c (request_round env p extra built c)
  unfolding request_round
  request_round-Spends p extra (Result.fail e) c m w = (_, (refl, (omega arith, w)))
  request_round-Spends p extra (Result.ok req) c m w =
      let (r, (q, d)) =
        send_with_retry-EndsWith (env.send (add_extra_headers extra req)) env.wait env.clock p c
          no_response m w in
      rw q (_, (refl, (d.requests, d.meter)))

  -- A continuation that spends at most `n` requests from every client.
  abbrev Goes : {A B : Type 0} → ℕ → (A → Client W → Option (Client W × B)) → Type 0
  Goes {A = A} n more = (a : A) (c : Client W) → MeterIsWithin c.meter → Spends n c (more a c)

  after_validation-Spends :
      (n : ℕ) (schema : S) (more : Error → Option (Client W × Result Bytes)) (c : Client W)
      (json : Bytes) (v : Status)
      → MeterIsWithin c.meter
      → ((e : Error) → Spends n c (more e))
      → Spends n c (after_validation env schema more c json v)
  unfolding after_validation
  after_validation-Spends n schema more c json Status.ok w k = Spends-now n c _ w
  after_validation-Spends n schema more c json (Status.fail e) w k = k _

  after_parse-Spends :
      (n : ℕ) (schema : S) (more : Error → Client W → Option (Client W × Result Bytes))
      (c : Client W) (r : Result (Bytes × ChatResult))
      → MeterIsWithin c.meter
      → Goes n more
      → Spends n c (after_parse env schema more c r)
  unfolding after_parse count_tokens
  after_parse-Spends n schema more c (Result.fail e) w k = k e c w
  after_parse-Spends n schema more c (Result.ok (json, meta)) w k =
      let c' = count_tokens meta.input_tokens meta.output_tokens c in
      let w' = meter_tokens meta.input_tokens meta.output_tokens c.meter w in
      after_validation-Spends n schema (λ e. more e c') c' json (env.validate schema json) w'
        (λ e. k e c' w')

  after_round-Spends :
      (n : ℕ) (schema : S) (more : Error → Client W → Option (Client W × Result Bytes))
      (r : Client W × Result HttpResponse)
      → MeterIsWithin r.0.meter
      → Goes n more
      → Spends n r.0 (after_round env schema more (some r))
  unfolding after_round
  after_round-Spends n schema more (c, Result.fail e) w k = Spends-now n c _ w
  after_round-Spends n schema more (c, Result.ok resp) w k =
      after_parse-Spends n schema more c _ w k

  counted_retry-Spends :
      {A : Type 0} (n left : ℕ) (c : Client W) (o : Option (Client W × A))
      → Spends n (count_schema_retry left c) o
      → Spends n c o
  unfolding count_schema_retry
  counted_retry-Spends n zero c o h = h
  counted_retry-Spends n (suc left) c o h = h

  counted_retry_meter :
      (left : ℕ) (c : Client W)
      → MeterIsWithin c.meter
      → MeterIsWithin (count_schema_retry left c).meter
  unfolding count_schema_retry
  counted_retry_meter zero c w = w
  counted_retry_meter (suc left) c w = w

  -- The most requests of `n` attempts under the retry policy.
  abbrev pub attempts : Settings F → ℕ → ℕ
  attempts s zero = 0
  attempts s (suc n) = s.retry_policy.max_retries + 1 + attempts s n

  generate_loop-Spends :
      (left : ℕ) (schema : S) (s : Settings F) (o : ChatOptions F) (ms : List Message)
      (last : Error) (c : Client W)
      → s.retry_policy.max_retries ≤ 255
      → MeterIsWithin c.meter
      → Spends (attempts s left) c (generate_loop env schema left s o ms last c)
  unfolding generate_loop
  generate_loop-Spends zero schema s o ms last c m w = Spends-now 0 c _ w
  generate_loop-Spends (suc left) schema s o ms last c m w =
      let more = λ (e : Error) (c' : Client W).
        generate_loop env schema left s o ms e (count_schema_retry left c') in
      Spends-then (s.retry_policy.max_retries + 1) (attempts s left) c _
        (after_round env schema more) (request_round-Spends s.retry_policy o.extra_headers _ c m w)
        (λ r w'. after_round-Spends (attempts s left) schema more r w' (λ e c' v.
          counted_retry-Spends (attempts s left) left c' _ (
            generate_loop-Spends left schema s o ms e (count_schema_retry left c') m
              (counted_retry_meter left c' v))))

  after_turn-Spends :
      (n : ℕ) (more : List Message → Client W → Option (Client W × Result (List Message)))
      (tools : R) (working : List Message) (turn : AgentTurn) (c : Client W)
      → MeterIsWithin c.meter
      → Goes n more
      → Spends n c (after_turn env more tools working turn c)
  unfolding after_turn
  after_turn-Spends n more tools working turn c w k = elim (calls-cases turn.tool_calls) [
    | inl e ↦ rw (e, after_turn) (Spends-now n c _ w)
    | inr (call, (calls, e)) ↦ rw (e, after_turn) (k _ (turn_client env tools turn c) w)
  ]

  after_tool_parse-Spends :
      (n : ℕ) (more : List Message → Client W → Option (Client W × Result (List Message)))
      (tools : R) (working : List Message) (c : Client W) (r : Result AgentTurn)
      → MeterIsWithin c.meter
      → Goes n more
      → Spends n c (after_tool_parse env more tools working c r)
  unfolding after_tool_parse count_tokens
  after_tool_parse-Spends n more tools working c (Result.fail e) w k = Spends-now n c _ w
  after_tool_parse-Spends n more tools working c (Result.ok turn) w k =
      let c' = count_tokens turn.input_tokens turn.output_tokens c in
      after_turn-Spends n more tools working turn c'
        (meter_tokens turn.input_tokens turn.output_tokens c.meter w) k

  after_tool_round-Spends :
      (n : ℕ) (more : List Message → Client W → Option (Client W × Result (List Message)))
      (tools : R) (working : List Message) (r : Client W × Result HttpResponse)
      → MeterIsWithin r.0.meter
      → Goes n more
      → Spends n r.0 (after_tool_round env more tools working (some r))
  unfolding after_tool_round
  after_tool_round-Spends n more tools working (c, Result.fail e) w k = Spends-now n c _ w
  after_tool_round-Spends n more tools working (c, Result.ok resp) w k =
      after_tool_parse-Spends n more tools working c _ w k

  agent_loop-Spends :
      (left : ℕ) (s : Settings F) (tools : R) (working : List Message) (c : Client W)
      → s.retry_policy.max_retries ≤ 255
      → MeterIsWithin c.meter
      → Spends (attempts s left) c (agent_loop env left s tools working c)
  unfolding agent_loop
  agent_loop-Spends zero s tools working c m w = Spends-now 0 c _ w
  agent_loop-Spends (suc left) s tools working c m w =
      Spends-then (s.retry_policy.max_retries + 1) (attempts s left) c _
        (after_tool_round env (agent_loop env left s tools) tools working)
        (request_round-Spends s.retry_policy s.options.extra_headers _ c m w)
        (λ r w'.
          after_tool_round-Spends (attempts s left) _ tools working r w'
            (λ ms c' v. agent_loop-Spends left s tools ms c' m v))

  after_agent-Spends :
      (s : Settings F) (schema : S) (r : Client W × Result (List Message))
      → s.retry_policy.max_retries ≤ 255
      → MeterIsWithin r.0.meter
      → Spends (attempts s (suc s.structured_retries)) r.0 (after_agent env s schema (some r))
  unfolding after_agent do_generate
  after_agent-Spends s schema (c, Result.fail e) m w = Spends-now _ c _ w
  after_agent-Spends s schema (c, Result.ok ms) m w =
      generate_loop-Spends (suc s.structured_retries) schema s s.options (flatten_for_structured ms)
        Error.schema_validation_failed c m w

  when_supported-Spends :
      (n : ℕ) (b : Bool) (c : Client W) (o : Option (Client W × Result Bytes))
      → MeterIsWithin c.meter
      → Spends n c o
      → Spends n c (when_supported env b c o)
  unfolding when_supported
  when_supported-Spends n false c o w h = Spends-now n c _ w
  when_supported-Spends n true c o w h = h

  finished-Spends :
      (n : ℕ) (s : Settings F) (schema : S) (c : Client W) (o : Option (Client W × Result Bytes))
      → Spends n c o
      → Spends n c (finished env schema s o)
  unfolding finish_request_cycle
  finished-Spends n s schema c o (r, (q, k)) = rw q (_, (refl, k))

  -- With at most 255 retries and a meter, if there is one, that is within its cap on requests, a call
  -- of `run` returns, for every service, connection, tools and validation: it makes at most
  -- `max_retries + 1` requests for each of the `max_iterations` rounds and for each of the
  -- `structured_retries + 1` attempts at the final answer, and the meter stays within its cap.
  pub run-Spends :
      (s : Settings F) (schema : S) (tools : R) (ms : List Message) (c : Client W)
      → s.retry_policy.max_retries ≤ 255
      → MeterIsWithin c.meter
      → Spends
          (attempts s s.max_iterations + attempts s (suc s.structured_retries))
          c
          (run env s schema tools ms c)
  unfolding run run_impl
  run-Spends s schema tools ms c m w = finished-Spends _ s schema c _ (
      when_supported-Spends _ env.provider.supports_tools c _ w (
        Spends-then (attempts s s.max_iterations) (attempts s (suc s.structured_retries)) c _
          (after_agent env s schema) (agent_loop-Spends s.max_iterations s tools ms c m w)
          (λ r w'. after_agent-Spends s schema r m w')))
