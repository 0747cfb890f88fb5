-- ===== src/Llm/Providers/Anthropic/Turns.antt =====
-- The messages that src/llm/providers/AnthropicProvider.cpp writes.
use edge_llm.Base.{Bool, true, false, not, List, [], ◌∷◌, ◌++◌, map, bytes, if◌then◌else◌}
use edge_llm.Llm.Messages.{Message, Role, ToolCall, has_image}
use edge_llm.Tools.Json.{Json}
use edge_llm.Llm.Providers.{
  ProviderLib, Fields, image_mime_of, array_of, arguments, grouped, parts_text, user_or_assistant,
  object_of, text_field,
}

module _ {N : Type 0} where
  unfoldable pub anthropic_content : Message → Json N
  unfolding has_image
  anthropic_content m =
      if not (has_image m)
      then Json.text m.content
      else array_of (
          object_of (
            text_field (bytes "type") (bytes "image")
            ∷ ((
              bytes "source",
              object_of (
                  text_field (bytes "type") (bytes "base64")
                  ∷ (text_field (bytes "media_type") (image_mime_of m)
                      ∷ (text_field (bytes "data") m.image_base64 ∷ []))),
            )
                ∷ []))
          ∷ parts_text m.content)

  -- A message without calls; the role of a result is the user's.
  unfoldable pub anthropic_message : Message → Json N
  unfolding anthropic_content
  anthropic_message m = object_of (
      text_field (bytes "role") (user_or_assistant m.role)
      ∷ ((bytes "content", anthropic_content m) ∷ []))

  abbrev pub error_mark : Bool → Fields N
  error_mark false = []
  error_mark true = (bytes "is_error", Json.bool true) ∷ []

  unfoldable pub anthropic_result : Message → Json N
  anthropic_result m = object_of (
      text_field (bytes "type") (bytes "tool_result")
      ∷ (text_field (bytes "tool_use_id") m.tool_call_id
          ∷ (text_field (bytes "content") m.content ∷ error_mark m.is_tool_error)))

  -- The message of consecutive results.
  unfoldable pub anthropic_results : List Message → Json N
  unfolding anthropic_result
  anthropic_results ms = object_of (
      text_field (bytes "role") (bytes "user")
      ∷ ((bytes "content", array_of (map anthropic_result ms)) ∷ []))

module _ {F N : Type 0} (lib : ProviderLib F N) where
  unfoldable pub anthropic_use : ToolCall → Json N
  unfolding arguments
  anthropic_use call = object_of (
      text_field (bytes "type") (bytes "tool_use")
      ∷ (text_field (bytes "id") call.id
          ∷ (text_field (bytes "name") call.name
              ∷ ((bytes "input", arguments lib call.arguments_json) ∷ []))))

  -- The turn of the assistant, with its calls if there are any.
  unfoldable pub anthropic_assistant : Message → List ToolCall → Json N
  unfolding anthropic_message anthropic_use
  anthropic_assistant m [] = anthropic_message m
  anthropic_assistant m (call ∷ calls) = object_of (
      text_field (bytes "role") (bytes "assistant")
      ∷ ((bytes "content", array_of (parts_text m.content ++ map anthropic_use (call ∷ calls)))
          ∷ []))

  unfoldable pub anthropic_one : Message → Json N
  unfolding anthropic_message anthropic_assistant
  anthropic_one m = elim m.role [
    | Role.assistant ↦ anthropic_assistant m m.tool_calls
    | _ ↦ anthropic_message m
  ]

  -- The messages of a request with tools.
  unfoldable pub anthropic_turns : List Message → List (Json N)
  unfolding grouped anthropic_results anthropic_one
  anthropic_turns ms = grouped anthropic_results anthropic_one [] ms
