-- ===== src/Llm/Providers/OpenAi/Replies.antt =====
-- The responses that src/llm/providers/OpenAIChatProvider.cpp reads.
use edge_llm.Base.{Bytes, bytes, if◌then◌else◌}
use edge_llm.Core.{Error, Result}
use edge_llm.Llm.Messages.{ToolCall}
use edge_llm.Llm.Client.{ChatResult, AgentTurn}
use edge_llm.Tools.Json.{Json, get}
use edge_llm.Tools.Schema.{items_of}
use edge_llm.Tools.Args.{as_text, is_object}
use edge_llm.Llm.Providers.{ProviderLib, first_of, text_at, with_text, turn_of, meta_of, read_calls}

module _ {N : Type 0} where
  unfoldable pub openai_read_call : Json N → ToolCall
  unfolding text_at
  openai_read_call c = record {
    id = text_at (bytes "id") c;
    name = text_at (bytes "name") (get (bytes "function") c);
    arguments_json = text_at (bytes "arguments") (get (bytes "function") c);
  }

module _ {F N : Type 0} (lib : ProviderLib F N) where
  unfoldable pub openai_read_structured : Json N → Result (Bytes × ChatResult)
  unfolding as_text text_at meta_of
  openai_read_structured doc =
      let choice = first_of (get (bytes "choices") doc) in
      let usage = get (bytes "usage") doc in
      if is_object choice
      then with_text
          (λ content. Result.ok (
            content,
            meta_of lib (text_at (bytes "finish_reason") choice) (get (bytes "prompt_tokens") usage)
                (get (bytes "completion_tokens") usage),
          ))
          (as_text (get (bytes "content") (get (bytes "message") choice)))
      else Result.fail Error.provider_error

  unfoldable pub openai_read_turn : Json N → Result AgentTurn
  unfolding text_at turn_of openai_read_call
  openai_read_turn doc =
      let choice = first_of (get (bytes "choices") doc) in
      let message = get (bytes "message") choice in
      let usage = get (bytes "usage") doc in
      if is_object choice
      then Result.ok (
          turn_of lib (text_at (bytes "content") message)
            (read_calls openai_read_call (items_of (get (bytes "tool_calls") message)))
            (text_at (bytes "finish_reason") choice) (get (bytes "prompt_tokens") usage)
            (get (bytes "completion_tokens") usage))
      else Result.fail Error.provider_error
