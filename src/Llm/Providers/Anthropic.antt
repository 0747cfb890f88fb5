-- ===== src/Llm/Providers/Anthropic.antt =====
-- src/llm/providers/AnthropicProvider.{h,cpp}: the Messages API of Anthropic.
pub mod Turns
pub mod Replies
use edge_llm.Base.{true, List, [], ◌∷◌, ◌++◌, map, Bytes, bytes}
use edge_llm.Core.{Result}
use edge_llm.Transport.Http.{HttpRequest, set_header}
use edge_llm.Llm.Messages.{Message}
use edge_llm.Llm.Client.{ChatOptions, Provider}
use edge_llm.Llm.Schema.{ResponseSchema}
use edge_llm.Tools.Json.{Json, Members}
use edge_llm.Tools.Write.{write_object_schema}
use edge_llm.Tools.Registry.{ToolRegistry}
use edge_llm.Llm.Providers.{
  ProviderLib, Fields, system_text, text_if, model_or, tool_fields, sampling, post, read_response,
  unprompted, text_field, array_of, object_of,
}
use edge_llm.Llm.Providers.Anthropic.Turns.{anthropic_message, anthropic_turns}
use edge_llm.Llm.Providers.Anthropic.Replies.{anthropic_read_turn, anthropic_read_structured}

pub record AnthropicProvider : Type 0 where
  pub api_key : Bytes
  pub default_model : Bytes
  pub api_version : Bytes

module _ {F N : Type 0} (lib : ProviderLib F N) where
  module _ (p : AnthropicProvider) where
    -- The members in front of the tools, over the messages as they are written.
    unfoldable pub anthropic_document : List (Json N) → List Message → ChatOptions F → Fields N
    unfolding sampling system_text
    anthropic_document written messages o =
        text_field (bytes "model") (model_or p.default_model o)
        ∷ ((bytes "max_tokens", Json.number (lib.unsigned o.max_tokens))
            ∷ (sampling lib (bytes "temperature") (bytes "top_p") (bytes "stop_sequences") o
                ++ (text_if (bytes "system") (system_text o.system messages)
                    ++ ((bytes "messages", array_of written) ∷ []))))

    unfoldable pub anthropic_post : Fields N → HttpRequest
    unfolding post set_header
    anthropic_post doc =
        post lib (bytes "api.anthropic.com") 443 (bytes "/v1/messages")
          (set_header
            (set_header (set_header [] (bytes "Content-Type") (bytes "application/json"))
              (bytes "x-api-key") p.api_key)
            (bytes "anthropic-version") p.api_version)
          doc

    -- The one tool whose input is the answer, and the choice of it.
    unfoldable pub forced_tool : ResponseSchema → Fields N
    unfolding write_object_schema
    forced_tool schema =
        (
          bytes "tools",
          array_of (
              object_of (
                text_field (bytes "name") schema.name
                ∷ (text_field (bytes "description")
                      (bytes "Return the result in the required structure.")
                    ∷ ((
                      bytes "input_schema",
                      Json.object (write_object_schema true schema.spec Members.no_members),
                    )
                        ∷ [])))
              ∷ []),
        )
        ∷ ((
          bytes "tool_choice",
          object_of (
              text_field (bytes "type") (bytes "tool")
              ∷ (text_field (bytes "name") schema.name ∷ [])),
        )
            ∷ [])

    unfoldable pub anthropic_build_structured :
        List Message → ChatOptions F → ResponseSchema → Result HttpRequest
    unfolding anthropic_document anthropic_message anthropic_post forced_tool unprompted
    anthropic_build_structured messages o schema = Result.ok (
        anthropic_post (
          anthropic_document (unprompted anthropic_message messages) messages o
          ++ forced_tool schema))

    unfoldable pub anthropic_build_tool :
        {W : Type 0} → List Message → ChatOptions F → ToolRegistry W N → Result HttpRequest
    unfolding anthropic_document anthropic_turns anthropic_post tool_fields
    anthropic_build_tool messages o tools = Result.ok (
        anthropic_post (
          anthropic_document (anthropic_turns lib messages) messages o
          ++ ((
            bytes "tools",
            array_of (map (λ t. object_of (tool_fields (bytes "input_schema") t)) tools),
          )
              ∷ [])))

unfoldable pub anthropic_provider :
    {F N W : Type 0}
    → ProviderLib F N
    → AnthropicProvider
    → Provider F ResponseSchema (ToolRegistry W N)
unfolding anthropic_build_structured anthropic_build_tool read_response anthropic_read_structured
    anthropic_read_turn
anthropic_provider lib p = record {
  supports_tools = true;
  build_structured_request = anthropic_build_structured lib p;
  parse_structured_response = read_response lib (anthropic_read_structured lib);
  build_tool_request = anthropic_build_tool lib p;
  parse_tool_response = read_response lib (anthropic_read_turn lib);
}
