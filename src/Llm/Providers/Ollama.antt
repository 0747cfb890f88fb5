-- ===== src/Llm/Providers/Ollama.antt =====
-- src/llm/providers/OllamaProvider.{h,cpp}: the chat API of a local Ollama server.
use edge_llm.Base.{ℕ, Bool, true, false, List, [], ◌∷◌, ◌++◌, map, Bytes, bytes}
use edge_llm.Core.{Result}
use edge_llm.Transport.Http.{HttpRequest, set_header}
use edge_llm.Llm.Messages.{Message, Role, ToolCall, has_image}
use edge_llm.Llm.Client.{ChatOptions, ChatResult, AgentTurn, Provider}
use edge_llm.Llm.Schema.{ResponseSchema}
use edge_llm.Tools.Json.{Json, Members, get}
use edge_llm.Tools.Schema.{items_of}
use edge_llm.Tools.Args.{as_text}
use edge_llm.Tools.Write.{write_object_schema}
use edge_llm.Tools.Registry.{ToolRegistry}
use edge_llm.Llm.Providers.{
  ProviderLib, Fields, text_if, array_of, text_at, model_or, sampling, arguments, printed, turn_of,
  meta_of, post, read_response, read_calls, system_message, function_tool, object_of, with_text,
  text_field,
}

-- `OllamaProvider`, without `secure`, which no request shows.
pub record OllamaProvider : Type 0 where
  pub server_host : Bytes
  pub server_port : ℕ
  pub default_model : Bytes

unfoldable pub ollama_role : Role → Bytes
ollama_role Role.system = bytes "system"
ollama_role Role.user = bytes "user"
ollama_role Role.assistant = bytes "assistant"
ollama_role Role.tool = bytes "tool"

module _ {N : Type 0} where
  abbrev pub images : Bool → Message → Fields N
  images false m = []
  images true m = (bytes "images", array_of (Json.text m.image_base64 ∷ [])) ∷ []

  -- A message without calls, under the name of its role.
  unfoldable pub ollama_message : Bytes → Message → Json N
  unfolding has_image
  ollama_message role m = object_of (
      text_field (bytes "role") role
      ∷ (text_field (bytes "content") m.content ∷ images (has_image m) m))

  unfoldable pub ollama_result : Message → Json N
  ollama_result m = object_of (
      text_field (bytes "role") (bytes "tool")
      ∷ (text_field (bytes "content") m.content ∷ text_if (bytes "tool_name") m.tool_name))

module _ {F N : Type 0} (lib : ProviderLib F N) where
  unfoldable pub ollama_call : ToolCall → Json N
  unfolding arguments
  ollama_call call = object_of (
      (
        bytes "function",
        object_of (
            text_field (bytes "name") call.name
            ∷ ((bytes "arguments", arguments lib call.arguments_json) ∷ [])),
      )
      ∷ [])

  -- The turn of the assistant, with its calls if there are any.
  unfoldable pub ollama_assistant : Message → List ToolCall → Json N
  unfolding ollama_message ollama_call
  ollama_assistant m [] = ollama_message (bytes "assistant") m
  ollama_assistant m (call ∷ calls) = object_of (
      text_field (bytes "role") (bytes "assistant")
      ∷ (text_field (bytes "content") m.content
          ∷ ((bytes "tool_calls", array_of (map ollama_call (call ∷ calls))) ∷ [])))

  -- A message of a request with tools.
  unfoldable pub ollama_turn : Message → Json N
  unfolding ollama_message ollama_result ollama_assistant
  ollama_turn m = elim m.role [
    | Role.tool ↦ ollama_result m
    | Role.assistant ↦ ollama_assistant m m.tool_calls
    | _ ↦ ollama_message (bytes "user") m
  ]

  -- A name is the id too.
  unfoldable pub ollama_read_call : Json N → ToolCall
  unfolding text_at
  ollama_read_call c = record {
    id = text_at (bytes "name") (get (bytes "function") c);
    name = text_at (bytes "name") (get (bytes "function") c);
    arguments_json = printed lib (get (bytes "arguments") (get (bytes "function") c));
  }

  unfoldable pub ollama_read_turn : Json N → Result AgentTurn
  unfolding text_at turn_of ollama_read_call
  ollama_read_turn doc =
      let message = get (bytes "message") doc in
      Result.ok (
        turn_of lib (text_at (bytes "content") message)
          (read_calls ollama_read_call (items_of (get (bytes "tool_calls") message)))
          (text_at (bytes "done_reason") doc) (get (bytes "prompt_eval_count") doc)
          (get (bytes "eval_count") doc))

  unfoldable pub ollama_read_structured : Json N → Result (Bytes × ChatResult)
  unfolding as_text text_at meta_of
  ollama_read_structured doc =
      with_text
        (λ content. Result.ok (
          content,
          meta_of lib (text_at (bytes "done_reason") doc) (get (bytes "prompt_eval_count") doc)
              (get (bytes "eval_count") doc),
        ))
        (as_text (get (bytes "content") (get (bytes "message") doc)))

  module _ (p : OllamaProvider) where
    -- The members of both requests, around the one that tells them apart.
    unfoldable pub ollama_document :
        (Message → Json N) → Bytes × Json N → List Message → ChatOptions F → Fields N
    unfolding sampling
    ollama_document write middle messages o =
        text_field (bytes "model") (model_or p.default_model o)
        ∷ ((bytes "stream", Json.bool false)
            ∷ ((bytes "messages", array_of (system_message o.system ++ map write messages))
                ∷ (middle
                    ∷ ((
                      bytes "options",
                      object_of (
                          (bytes "num_predict", Json.number (lib.unsigned o.max_tokens))
                          ∷ sampling lib (bytes "temperature") (bytes "top_p") (bytes "stop") o),
                    )
                        ∷ []))))

    unfoldable pub ollama_post : Fields N → HttpRequest
    unfolding post set_header
    ollama_post doc =
        post lib p.server_host p.server_port (bytes "/api/chat")
          (set_header [] (bytes "Content-Type") (bytes "application/json")) doc

    unfoldable pub ollama_build_structured :
        List Message → ChatOptions F → ResponseSchema → Result HttpRequest
    unfolding ollama_document ollama_message ollama_role ollama_post write_object_schema
    ollama_build_structured messages o schema = Result.ok (
        ollama_post (
          ollama_document (λ m. ollama_message (ollama_role m.role) m)
            (bytes "format", Json.object (write_object_schema true schema.spec Members.no_members))
            messages o))

    unfoldable pub ollama_build_tool :
        {W : Type 0} → List Message → ChatOptions F → ToolRegistry W N → Result HttpRequest
    unfolding ollama_document ollama_turn ollama_post function_tool
    ollama_build_tool messages o tools = Result.ok (
        ollama_post (
          ollama_document ollama_turn (bytes "tools", array_of (map function_tool tools)) messages
            o))

unfoldable pub ollama_provider :
    {F N W : Type 0}
    → ProviderLib F N
    → OllamaProvider
    → Provider F ResponseSchema (ToolRegistry W N)
unfolding ollama_build_structured ollama_build_tool read_response ollama_read_structured
    ollama_read_turn
ollama_provider lib p = record {
  supports_tools = true;
  build_structured_request = ollama_build_structured lib p;
  parse_structured_response = read_response lib (ollama_read_structured lib);
  build_tool_request = ollama_build_tool lib p;
  parse_tool_response = read_response lib (ollama_read_turn lib);
}
