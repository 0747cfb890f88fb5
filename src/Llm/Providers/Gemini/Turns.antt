-- ===== src/Llm/Providers/Gemini/Turns.antt =====
-- The messages that src/llm/providers/GeminiProvider.cpp writes.
use edge_llm.Base.{not, List, [], ◌∷◌, ◌++◌, map, Bytes, bytes, if◌then◌else◌, ◌||◌}
use edge_llm.Transport.Http.{is_empty}
use edge_llm.Llm.Messages.{Message, Role, ToolCall, has_image}
use edge_llm.Tools.Json.{Json}
use edge_llm.Llm.Providers.{
  ProviderLib, image_mime_of, array_of, arguments, grouped, object_of, text_field,
}

abbrev pub gemini_role : Role → Bytes
gemini_role Role.assistant = bytes "model"
gemini_role r = bytes "user"

module _ {N : Type 0} where
  abbrev pub text_part : Bytes → Json N
  text_part s = object_of (text_field (bytes "text") s ∷ [])

  unfoldable pub gemini_parts : Message → List (Json N)
  unfolding has_image
  gemini_parts m =
      (if not (is_empty m.content) || not (has_image m) then text_part m.content ∷ [] else [])
      ++ (if has_image m
          then object_of (
              (
                bytes "inline_data",
                object_of (
                    text_field (bytes "mime_type") (image_mime_of m)
                    ∷ (text_field (bytes "data") m.image_base64 ∷ [])),
              )
              ∷ [])
            ∷ []
          else [])

  abbrev pub gemini_content : Bytes → List (Json N) → Json N
  gemini_content role parts =
      object_of (text_field (bytes "role") role ∷ ((bytes "parts", array_of parts) ∷ []))

  -- A message without calls.
  unfoldable pub gemini_message : Message → Json N
  unfolding gemini_parts
  gemini_message m = gemini_content (gemini_role m.role) (gemini_parts m)

  unfoldable pub gemini_result : Message → Json N
  gemini_result m = object_of (
      (
        bytes "functionResponse",
        object_of (
            text_field (bytes "name") m.tool_name
            ∷ ((bytes "response", object_of (text_field (bytes "result") m.content ∷ [])) ∷ [])),
      )
      ∷ [])

  -- The content of consecutive results.
  unfoldable pub gemini_results : List Message → Json N
  unfolding gemini_result
  gemini_results ms = gemini_content (bytes "user") (map gemini_result ms)

module _ {F N : Type 0} (lib : ProviderLib F N) where
  unfoldable pub gemini_call : ToolCall → Json N
  unfolding arguments
  gemini_call call = object_of (
      (
        bytes "functionCall",
        object_of (
            text_field (bytes "name") call.name
            ∷ ((bytes "args", arguments lib call.arguments_json) ∷ [])),
      )
      ∷ [])

  abbrev pub part_if : Bytes → List (Json N)
  part_if [] = []
  part_if (c ∷ s) = text_part (c ∷ s) ∷ []

  -- The turn of the assistant, with its calls if there are any.
  unfoldable pub gemini_assistant : Message → List ToolCall → Json N
  unfolding gemini_message gemini_call
  gemini_assistant m [] = gemini_message m
  gemini_assistant m (call ∷ calls) =
      gemini_content (bytes "model") (part_if m.content ++ map gemini_call (call ∷ calls))

  unfoldable pub gemini_one : Message → Json N
  unfolding gemini_message gemini_assistant
  gemini_one m = elim m.role [
    | Role.assistant ↦ gemini_assistant m m.tool_calls
    | _ ↦ gemini_message m
  ]

  -- The messages of a request with tools.
  unfoldable pub gemini_turns : List Message → List (Json N)
  unfolding grouped gemini_results gemini_one
  gemini_turns ms = grouped gemini_results gemini_one [] ms
