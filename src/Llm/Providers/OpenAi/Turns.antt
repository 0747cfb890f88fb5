-- ===== src/Llm/Providers/OpenAi/Turns.antt =====
-- The messages that src/llm/providers/OpenAIChatProvider.cpp writes.
use edge_llm.Base.{not, List, [], ◌∷◌, ◌++◌, map, Bytes, bytes, if◌then◌else◌}
use edge_llm.Transport.Http.{is_empty}
use edge_llm.Llm.Messages.{Message, Role, ToolCall, has_image}
use edge_llm.Tools.Json.{Json}
use edge_llm.Llm.Providers.{image_mime_of, array_of, parts_text, object_of, text_field}

unfoldable pub openai_role : Role → Bytes
openai_role Role.system = bytes "system"
openai_role Role.user = bytes "user"
openai_role Role.assistant = bytes "assistant"
openai_role Role.tool = bytes "tool"

module _ {N : Type 0} where
  unfoldable pub openai_content : Message → Json N
  unfolding has_image
  openai_content m =
      if not (has_image m)
      then Json.text m.content
      else array_of (
          parts_text m.content
          ++ (object_of (
                text_field (bytes "type") (bytes "image_url")
                ∷ ((
                  bytes "image_url",
                  object_of (
                      text_field (bytes "url")
                        (bytes "data:" ++ (image_mime_of m ++ (bytes ";base64," ++ m.image_base64)))
                      ∷ []),
                )
                    ∷ []))
              ∷ []))

  -- A message of a structured request.
  unfoldable pub openai_message : Message → Json N
  unfolding openai_role openai_content
  openai_message m =
      object_of (
        text_field (bytes "role") (openai_role m.role) ∷ ((bytes "content", openai_content m) ∷ []))

  -- The content of a turn with calls, which is null for an empty one.
  abbrev pub text_or_null : Bytes → Json N
  text_or_null [] = Json.null
  text_or_null (c ∷ s) = Json.text (c ∷ s)

  unfoldable pub openai_call : ToolCall → Json N
  openai_call call = object_of (
      text_field (bytes "id") call.id
      ∷ (text_field (bytes "type") (bytes "function")
          ∷ ((
            bytes "function",
            object_of (
                text_field (bytes "name") call.name
                ∷ (text_field (bytes "arguments")
                      (if is_empty call.arguments_json then bytes "{}" else call.arguments_json)
                    ∷ [])),
          )
              ∷ [])))

  -- The turn of the assistant, with its calls if there are any.
  unfoldable pub openai_assistant : Message → List ToolCall → Json N
  unfolding openai_content openai_call
  openai_assistant m [] =
      object_of
        (text_field (bytes "role") (bytes "assistant") ∷ ((bytes "content", openai_content m) ∷ []))
  openai_assistant m (call ∷ calls) = object_of (
      text_field (bytes "role") (bytes "assistant")
      ∷ ((bytes "content", text_or_null m.content)
          ∷ ((bytes "tool_calls", array_of (map openai_call (call ∷ calls))) ∷ [])))

  -- A message of a request with tools.
  unfoldable pub openai_turn : Message → Json N
  unfolding openai_content openai_assistant
  openai_turn m = elim m.role [
    | Role.system ↦
        object_of (
          text_field (bytes "role") (bytes "system")
          ∷ (text_field (bytes "content") m.content ∷ []))
    | Role.tool ↦ object_of (
        text_field (bytes "role") (bytes "tool")
        ∷ (text_field (bytes "tool_call_id") m.tool_call_id
            ∷ (text_field (bytes "content") m.content ∷ [])))
    | Role.assistant ↦ openai_assistant m m.tool_calls
    | Role.user ↦
        object_of
          (text_field (bytes "role") (bytes "user") ∷ ((bytes "content", openai_content m) ∷ []))
  ]
