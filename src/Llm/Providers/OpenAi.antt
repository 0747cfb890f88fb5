-- ===== src/Llm/Providers/OpenAi.antt =====
-- src/llm/providers/OpenAIChatProvider.{h,cpp}: the Chat Completions of OpenAI and of the servers
-- that are compatible with it.
pub mod Turns
pub mod Replies
use edge_llm.Base.{ℕ, true, List, [], ◌∷◌, ◌++◌, map, Bytes, bytes, if◌then◌else◌}
use edge_llm.Core.{Result}
use edge_llm.Transport.Http.{Header, HttpRequest, set_header, is_empty}
use edge_llm.Llm.Messages.{Message}
use edge_llm.Llm.Client.{ChatOptions, Provider}
use edge_llm.Llm.Schema.{ResponseSchema}
use edge_llm.Tools.Json.{Json, Members}
use edge_llm.Tools.Write.{write_object_schema, all_fields_required}
use edge_llm.Tools.Registry.{ToolRegistry}
use edge_llm.Llm.Providers.{
  ProviderLib, Fields, array_of, model_or, sampling, post, read_response, system_message,
  function_tool, text_field, object_of,
}
use edge_llm.Llm.Providers.OpenAi.Turns.{openai_message, openai_turn}
use edge_llm.Llm.Providers.OpenAi.Replies.{openai_read_structured, openai_read_turn}

pub record Endpoint : Type 0 where
  pub host : Bytes
  pub port : ℕ
  pub path : Bytes
  pub auth_header : Bytes
  pub auth_prefix : Bytes

-- `OpenAIChatProvider`, without its name and `secure`, which no request shows.
pub record OpenAiProvider : Type 0 where
  pub api_key : Bytes
  pub default_model : Bytes
  pub endpoint : Endpoint

-- `OpenAIProvider`
unfoldable pub openai : Bytes → Bytes → OpenAiProvider
openai api_key model = record {
  api_key = api_key;
  default_model = model;
  endpoint = record {
    host = bytes "api.openai.com";
    port = 443;
    path = bytes "/v1/chat/completions";
    auth_header = bytes "Authorization";
    auth_prefix = bytes "Bearer ";
  };
}

unfoldable pub openai_headers : OpenAiProvider → List Header
unfolding set_header
openai_headers p =
    let headers = set_header [] (bytes "Content-Type") (bytes "application/json") in
    if is_empty p.api_key
    then headers
    else set_header headers p.endpoint.auth_header (p.endpoint.auth_prefix ++ p.api_key)

module _ {F N : Type 0} (lib : ProviderLib F N) (p : OpenAiProvider) where
  -- The members in front of the last ones, over the messages as they are written.
  unfoldable pub openai_document : (Message → Json N) → List Message → ChatOptions F → Fields N
  unfolding sampling
  openai_document write messages o =
      text_field (bytes "model") (model_or p.default_model o)
      ∷ ((bytes "max_tokens", Json.number (lib.unsigned o.max_tokens))
          ∷ (sampling lib (bytes "temperature") (bytes "top_p") (bytes "stop") o
              ++ ((bytes "messages", array_of (system_message o.system ++ map write messages))
                  ∷ [])))

  unfoldable pub openai_post : Fields N → HttpRequest
  unfolding post openai_headers
  openai_post doc = post lib p.endpoint.host p.endpoint.port p.endpoint.path (openai_headers p) doc

  unfoldable pub response_format : ResponseSchema → Json N
  unfolding all_fields_required write_object_schema
  response_format schema = object_of (
      text_field (bytes "type") (bytes "json_schema")
      ∷ ((
        bytes "json_schema",
        object_of (
            text_field (bytes "name") schema.name
            ∷ ((bytes "strict", Json.bool (all_fields_required schema.spec))
                ∷ ((
                  bytes "schema",
                  Json.object (write_object_schema true schema.spec Members.no_members),
                )
                    ∷ []))),
      )
          ∷ []))

  unfoldable pub openai_build_structured :
      List Message → ChatOptions F → ResponseSchema → Result HttpRequest
  unfolding openai_document openai_message openai_post response_format
  openai_build_structured messages o schema = Result.ok (
      openai_post (
        openai_document openai_message messages o
        ++ ((bytes "response_format", response_format schema) ∷ [])))

  unfoldable pub openai_build_tool :
      {W : Type 0} → List Message → ChatOptions F → ToolRegistry W N → Result HttpRequest
  unfolding openai_document openai_turn openai_post function_tool
  openai_build_tool messages o tools = Result.ok (
      openai_post (
        openai_document openai_turn messages o
        ++ ((bytes "tools", array_of (map function_tool tools)) ∷ [])))

unfoldable pub openai_provider :
    {F N W : Type 0}
    → ProviderLib F N
    → OpenAiProvider
    → Provider F ResponseSchema (ToolRegistry W N)
unfolding openai_build_structured openai_build_tool read_response openai_read_structured
    openai_read_turn
openai_provider lib p = record {
  supports_tools = true;
  build_structured_request = openai_build_structured lib p;
  parse_structured_response = read_response lib (openai_read_structured lib);
  build_tool_request = openai_build_tool lib p;
  parse_tool_response = read_response lib (openai_read_turn lib);
}
