-- ===== src/Llm/Providers/Gemini.antt =====
-- src/llm/providers/GeminiProvider.{h,cpp}: the Generative Language API of Google.
pub mod Turns
pub mod Replies
use edge_llm.Base.{true, false, List, [], ◌∷◌, ◌++◌, map, Bytes, bytes}
use edge_llm.Core.{Result}
use edge_llm.Transport.Http.{HttpRequest, set_header}
use edge_llm.Llm.Messages.{Message}
use edge_llm.Llm.Client.{ChatOptions, Provider}
use edge_llm.Llm.Schema.{ResponseSchema}
use edge_llm.Tools.Json.{Json, Members}
use edge_llm.Tools.Write.{write_object_schema}
use edge_llm.Tools.Registry.{ToolRegistry}
use edge_llm.Llm.Providers.{
  ProviderLib, Fields, system_text, text_field, model_or, tool_fields, sampling, post,
  read_response, unprompted, object_of, array_of,
}
use edge_llm.Llm.Providers.Gemini.Turns.{text_part, gemini_message, gemini_turns}
use edge_llm.Llm.Providers.Gemini.Replies.{gemini_read_turn, gemini_read_structured}

pub record GeminiProvider : Type 0 where
  pub api_key : Bytes
  pub default_model : Bytes

module _ {N : Type 0} where
  abbrev pub text_content : Bytes → Json N
  text_content s = object_of ((bytes "parts", array_of (text_part s ∷ [])) ∷ [])

  abbrev pub system_instruction : Bytes → Fields N
  system_instruction [] = []
  system_instruction (c ∷ s) = (bytes "systemInstruction", text_content (c ∷ s)) ∷ []

module _ {F N : Type 0} (lib : ProviderLib F N) where
  -- The configuration that both requests start with.
  unfoldable pub generation_config : ChatOptions F → Fields N
  unfolding sampling
  generation_config o =
      (bytes "maxOutputTokens", Json.number (lib.unsigned o.max_tokens))
      ∷ sampling lib (bytes "temperature") (bytes "topP") (bytes "stopSequences") o

  module _ (p : GeminiProvider) where
    unfoldable pub gemini_post : ChatOptions F → Fields N → HttpRequest
    unfolding post set_header
    gemini_post o doc =
        post lib (bytes "generativelanguage.googleapis.com") 443
          (bytes "/v1beta/models/"
            ++ (model_or p.default_model o ++ (bytes ":generateContent?key=" ++ p.api_key)))
          (set_header [] (bytes "Content-Type") (bytes "application/json")) doc

    unfoldable pub gemini_build_structured :
        List Message → ChatOptions F → ResponseSchema → Result HttpRequest
    unfolding system_text unprompted gemini_message generation_config gemini_post
        write_object_schema
    gemini_build_structured messages o schema = Result.ok (
        gemini_post o (
          system_instruction (system_text o.system messages)
          ++ ((bytes "contents", array_of (unprompted gemini_message messages))
              ∷ ((
                bytes "generationConfig",
                object_of (
                    generation_config o
                    ++ (text_field (bytes "responseMimeType") (bytes "application/json")
                        ∷ ((
                          bytes "responseSchema",
                          Json.object (write_object_schema false schema.spec Members.no_members),
                        )
                            ∷ []))),
              )
                  ∷ []))))

    unfoldable pub gemini_build_tool :
        {W : Type 0} → List Message → ChatOptions F → ToolRegistry W N → Result HttpRequest
    unfolding system_text gemini_turns tool_fields generation_config gemini_post
    gemini_build_tool messages o tools = Result.ok (
        gemini_post o (
          system_instruction (system_text o.system messages)
          ++ ((bytes "contents", array_of (gemini_turns lib messages))
              ∷ ((
                bytes "tools",
                array_of (
                    object_of (
                      (
                        bytes "functionDeclarations",
                        array_of (map (λ t. object_of (tool_fields (bytes "parameters") t)) tools),
                      )
                      ∷ [])
                    ∷ []),
              )
                  ∷ ((bytes "generationConfig", object_of (generation_config o)) ∷ [])))))

unfoldable pub gemini_provider :
    {F N W : Type 0}
    → ProviderLib F N
    → GeminiProvider
    → Provider F ResponseSchema (ToolRegistry W N)
unfolding gemini_build_structured gemini_build_tool read_response gemini_read_structured
    gemini_read_turn
gemini_provider lib p = record {
  supports_tools = true;
  build_structured_request = gemini_build_structured lib p;
  parse_structured_response = read_response lib (gemini_read_structured lib);
  build_tool_request = gemini_build_tool lib p;
  parse_tool_response = read_response lib (gemini_read_turn lib);
}
