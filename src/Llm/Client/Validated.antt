-- ===== src/Llm/Client/Validated.antt =====
-- An answer that the client returns is validated: src/llm/LLMClient.cpp.
use edge_llm.Base.{
  Bool, ℕ, zero, suc, ◌≡◌, refl, true, false, Option, none, some, List, Bytes, inl, inr, ◌⊎◌,
}
use edge_llm.Core.{Error, Status, Result}
use edge_llm.Transport.Http.{HttpResponse}
use edge_llm.Llm.Messages.{Message}
use edge_llm.Llm.Retry.Send.{Client}
use edge_llm.Llm.Client.{ChatOptions, ChatResult, Settings, Environment, count_tokens}
use edge_llm.Llm.Client.Generate.{
  after_validation, after_parse, after_round, generate_loop, do_generate, finished, generate,
  count_schema_retry,
}
use edge_llm.Llm.Client.Agent.{
  agent_loop, after_agent, run_impl, when_supported, run, flatten_for_structured,
}

module _ {W F S R : Type 0} (env : Environment W F S R) (schema : S) where
  abbrev Validated : Option (Client W × Result Bytes) → Type 0
  Validated none = Unit
  Validated (some (c, Result.fail e)) = Unit
  Validated (some (c, Result.ok json)) = env.validate schema json ≡ Status.ok

  after_validation-Validated :
      (more : Error → Option (Client W × Result Bytes)) (c : Client W) (json : Bytes) (s : Status)
      → env.validate schema json ≡ s
      → ((e : Error) → Validated (more e))
      → Validated (after_validation env schema more c json s)
  unfolding after_validation
  after_validation-Validated more c json Status.ok v h = v
  after_validation-Validated more c json (Status.fail e) v h = h _

  after_parse-Validated :
      (more : Error → Client W → Option (Client W × Result Bytes)) (c : Client W)
      (r : Result (Bytes × ChatResult))
      → ((e : Error) (c' : Client W) → Validated (more e c'))
      → Validated (after_parse env schema more c r)
  unfolding after_parse
  after_parse-Validated more c (Result.fail e) h = h e c
  after_parse-Validated more c (Result.ok (json, meta)) h =
      let c' = count_tokens meta.input_tokens meta.output_tokens c in
      after_validation-Validated (λ e. more e c') c' json (env.validate schema json) refl
        (λ e. h e c')

  after_round-Validated :
      (more : Error → Client W → Option (Client W × Result Bytes))
      (o : Option (Client W × Result HttpResponse))
      → ((e : Error) (c : Client W) → Validated (more e c))
      → Validated (after_round env schema more o)
  unfolding after_round
  after_round-Validated more none h = tt
  after_round-Validated more (some (c, Result.fail e)) h = tt
  after_round-Validated more (some (c, Result.ok resp)) h = after_parse-Validated more c _ h

  generate_loop-Validated :
      (left : ℕ) (s : Settings F) (o : ChatOptions F) (ms : List Message) (last : Error)
      (c : Client W)
      → Validated (generate_loop env schema left s o ms last c)
  unfolding generate_loop
  generate_loop-Validated zero s o ms last c = tt
  generate_loop-Validated (suc left) s o ms last c =
      after_round-Validated _ _
        (λ e c'. generate_loop-Validated left s o ms e (count_schema_retry left c'))

  after_agent-Validated :
      (s : Settings F) (o : Option (Client W × Result (List Message)))
      → Validated (after_agent env s schema o)
  unfolding after_agent do_generate
  after_agent-Validated s none = tt
  after_agent-Validated s (some (c, Result.fail e)) = tt
  after_agent-Validated s (some (c, Result.ok ms)) =
      generate_loop-Validated (suc s.structured_retries) s s.options (flatten_for_structured ms)
        Error.schema_validation_failed c

  finished-Validated :
      (s : Settings F) (o : Option (Client W × Result Bytes))
      → Validated o
      → Validated (finished env schema s o)
  finished-Validated s none h = tt
  finished-Validated s (some (c, Result.fail e)) h = tt
  finished-Validated s (some (c, Result.ok json)) h = h

  when_supported-Validated :
      (b : Bool) (c : Client W) (o : Option (Client W × Result Bytes))
      → Validated o
      → Validated (when_supported env b c o)
  unfolding when_supported
  when_supported-Validated false c o h = tt
  when_supported-Validated true c o h = h

  run_impl-Validated :
      (s : Settings F) (tools : R) (ms : List Message) (c : Client W)
      → Validated (run_impl env s schema tools ms c)
  unfolding run_impl
  run_impl-Validated s tools ms c =
      when_supported-Validated env.provider.supports_tools c _
        (after_agent-Validated s (agent_loop env s.max_iterations s tools ms c))

  -- Whatever the service answers, an answer that `generate` or `run` returns with success is one
  -- that the schema accepts.
  pub answers_validated :
      (s : Settings F) (o : ChatOptions F) (tools : R) (ms : List Message) (c c' : Client W)
      (json : Bytes)
      → (generate env schema s o ms c ≡ some (c', Result.ok json))
        ⊎ (run env s schema tools ms c ≡ some (c', Result.ok json))
      → env.validate schema json ≡ Status.ok
  unfolding generate run do_generate
  answers_validated s o tools ms c c' json (inl e) = rw e at (
      finished-Validated s _ (
        generate_loop-Validated (suc s.structured_retries) s o ms Error.schema_validation_failed c))
  answers_validated s o tools ms c c' json (inr e) =
      rw e at (finished-Validated s _ (run_impl-Validated s tools ms c))
