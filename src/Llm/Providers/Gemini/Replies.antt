-- ===== src/Llm/Providers/Gemini/Replies.antt =====
-- The responses that src/llm/providers/GeminiProvider.cpp reads.
use edge_llm.Base.{not, ◌&&◌, List, [], ◌∷◌, ◌++◌, Bytes, bytes, if◌then◌else◌}
use edge_llm.Core.{Error, Result}
use edge_llm.Transport.Http.{is_empty}
use edge_llm.Llm.Messages.{ToolCall}
use edge_llm.Llm.Client.{ChatResult, AgentTurn}
use edge_llm.Tools.Json.{Json, Items, at, get}
use edge_llm.Tools.Schema.{items_of}
use edge_llm.Tools.Args.{is_object}
use edge_llm.Llm.Providers.{ProviderLib, first_of, text_at, printed, turn_of, meta_of, read_parts}

module _ {N : Type 0} where
  -- `appendParts`, on the text so far.
  unfoldable pub append_parts : Items N → Bytes → Bytes
  unfolding text_at
  append_parts Items.no_items dst = dst
  append_parts (Items.item part parts) dst = append_parts parts (dst ++ text_at (bytes "text") part)

module _ {F N : Type 0} (lib : ProviderLib F N) where
  -- The calls behind a part of a response; a name is the id too.
  abbrev pub call_of_part : Json N → List ToolCall → List ToolCall
  unfolding text_at
  call_of_part (Json.object fc) calls =
      calls
      ++ (record {
        id = text_at (bytes "name") (Json.object fc);
        name = text_at (bytes "name") (Json.object fc);
        arguments_json = printed lib (at (bytes "args") fc);
      }
          ∷ [])
  call_of_part v calls = calls

  unfoldable pub gemini_part : Json N → Bytes × List ToolCall → Bytes × List ToolCall
  unfolding text_at
  gemini_part part (text, calls) =
      (text ++ text_at (bytes "text") part, call_of_part (get (bytes "functionCall") part) calls)

  -- The parts of the first candidate; what is no array has none.
  abbrev pub parts_of : Json N → Items N
  parts_of candidate = items_of (get (bytes "parts") (get (bytes "content") candidate))

  abbrev gemini_turn_of : Json N → Json N → Bytes × List ToolCall → AgentTurn
  unfolding turn_of text_at
  gemini_turn_of doc candidate (text, calls) =
      turn_of lib text calls (text_at (bytes "finishReason") candidate)
        (get (bytes "promptTokenCount") (get (bytes "usageMetadata") doc))
        (get (bytes "candidatesTokenCount") (get (bytes "usageMetadata") doc))

  unfoldable pub gemini_read_turn : Json N → Result AgentTurn
  unfolding gemini_part turn_of text_at
  gemini_read_turn doc =
      let candidate = first_of (get (bytes "candidates") doc) in
      if is_object candidate
      then Result.ok
          (gemini_turn_of doc candidate (read_parts gemini_part (parts_of candidate) ([], [])))
      else Result.fail Error.provider_error

  unfoldable pub gemini_read_structured : Json N → Result (Bytes × ChatResult)
  unfolding append_parts meta_of text_at
  gemini_read_structured doc =
      let candidate = first_of (get (bytes "candidates") doc) in
      let json = append_parts (parts_of candidate) [] in
      if is_object candidate && not (is_empty json)
      then Result.ok (
        json,
        meta_of lib (text_at (bytes "finishReason") candidate)
            (get (bytes "promptTokenCount") (get (bytes "usageMetadata") doc))
            (get (bytes "candidatesTokenCount") (get (bytes "usageMetadata") doc)),
      )
      else Result.fail Error.provider_error
