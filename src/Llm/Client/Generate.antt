-- ===== src/Llm/Client/Generate.antt =====
-- `LLMClient::doGenerate` and the four calls `generate` of src/llm/LLMClient.cpp.
use edge_llm.Base.{ℕ, zero, suc, Option, none, some, List, [], ◌∷◌, Bytes}
use edge_llm.Core.{Error, Status, Result}
use edge_llm.Transport.Http.{HttpResponse}
use edge_llm.Llm.Messages.{Message, Role, message, user_with_image}
use edge_llm.Llm.Conversation.{Conversation, add}
use edge_llm.Llm.Retry.Send.{Client, bump}
use edge_llm.Llm.Client.{
  ChatOptions, ChatResult, Settings, Environment, request_round, count_tokens, finish_request_cycle,
}

-- Counted only when another attempt follows.
unfoldable pub count_schema_retry : {W : Type 0} → ℕ → Client W → Client W
unfolding bump
count_schema_retry zero c = c
count_schema_retry (suc left) c = record c {
  metrics = record c.metrics { schema_retries = bump c.metrics.schema_retries };
}

-- The options of a call with a system prompt, where it is not empty.
abbrev pub with_system : {F : Type 0} → Bytes → ChatOptions F → ChatOptions F
with_system [] o = o
with_system (x ∷ s) o = record o { system = x ∷ s }

module _ {W F S R : Type 0} (env : Environment W F S R) (schema : S) where
  -- An answer that parsed is validated; `more` is the rest of the attempts behind a refusal.
  unfoldable pub after_validation :
      (Error → Option (Client W × Result Bytes))
      → Client W
      → Bytes
      → Status
      → Option (Client W × Result Bytes)
  after_validation more c json Status.ok = some (c, Result.ok json)
  after_validation more c json (Status.fail e) = more Error.schema_validation_failed

  unfoldable pub after_parse :
      (Error → Client W → Option (Client W × Result Bytes))
      → Client W
      → Result (Bytes × ChatResult)
      → Option (Client W × Result Bytes)
  unfolding count_tokens after_validation
  after_parse more c (Result.fail e) = more e c
  after_parse more c (Result.ok (json, meta)) =
      let c' = count_tokens meta.input_tokens meta.output_tokens c in
      after_validation (λ e. more e c') c' json (env.validate schema json)

  unfoldable pub after_round :
      (Error → Client W → Option (Client W × Result Bytes))
      → Option (Client W × Result HttpResponse)
      → Option (Client W × Result Bytes)
  unfolding after_parse
  after_round more none = none
  after_round more (some (c, Result.fail e)) = some (c, Result.fail e)
  after_round more (some (c, Result.ok resp)) =
      after_parse more c (env.provider.parse_structured_response resp)

  -- The loop, over the attempts that are left.
  unfoldable pub generate_loop :
      ℕ
      → Settings F
      → ChatOptions F
      → List Message
      → Error
      → Client W
      → Option (Client W × Result Bytes)
  unfolding request_round after_round count_schema_retry
  generate_loop zero s o messages last c = some (c, Result.fail last)
  generate_loop (suc left) s o messages last c =
      after_round (λ e c'. generate_loop left s o messages e (count_schema_retry left c'))
        (request_round env s.retry_policy o.extra_headers
          (env.provider.build_structured_request messages o schema) c)

  unfoldable pub do_generate :
      Settings F → ChatOptions F → List Message → Client W → Option (Client W × Result Bytes)
  unfolding generate_loop
  do_generate s o messages c =
      generate_loop (suc s.structured_retries) s o messages Error.schema_validation_failed c

  abbrev pub finished :
      Settings F → Option (Client W × Result Bytes) → Option (Client W × Result Bytes)
  finished s none = none
  finished s (some (c, r)) = some (finish_request_cycle env s c, r)

  unfoldable pub generate :
      Settings F → ChatOptions F → List Message → Client W → Option (Client W × Result Bytes)
  unfolding do_generate finish_request_cycle
  generate s o messages c = finished s (do_generate s o messages c)

  unfoldable pub generate_text :
      Settings F → Bytes → Bytes → Client W → Option (Client W × Result Bytes)
  unfolding generate
  generate_text s system user c =
      generate s (with_system system s.options) (message Role.user user ∷ []) c

  unfoldable pub generate_image :
      Settings F → Bytes → Bytes → Bytes → Bytes → Client W → Option (Client W × Result Bytes)
  unfolding generate user_with_image
  generate_image s system user image mime c =
      generate s (with_system system s.options) (user_with_image user image mime ∷ []) c

  unfoldable pub generate_messages :
      Settings F → List Message → Client W → Option (Client W × Result Bytes)
  unfolding generate
  generate_messages s messages c = generate s s.options messages c

  -- The answer is added to the conversation.
  unfoldable pub keep_answer :
      Conversation → Client W × Result Bytes → Client W × (Result Bytes × Conversation)
  unfolding add
  keep_answer convo (c, Result.ok json) =
      (c, (Result.ok json, add (message Role.assistant json) convo))
  keep_answer convo (c, Result.fail e) = (c, (Result.fail e, convo))

  unfoldable pub generate_conversation :
      Settings F → Conversation → Client W → Option (Client W × (Result Bytes × Conversation))
  unfolding generate keep_answer
  generate_conversation s convo c =
      elim (generate s (with_system convo.system s.options) convo.messages c) [
        | none ↦ none
        | some r ↦ some (keep_answer convo r)
      ]
