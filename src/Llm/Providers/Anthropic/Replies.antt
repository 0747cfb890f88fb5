-- ===== src/Llm/Providers/Anthropic/Replies.antt =====
-- The responses that src/llm/providers/AnthropicProvider.cpp reads.
use edge_llm.Base.{Bool, ◌&&◌, List, [], ◌∷◌, ◌++◌, Bytes, bytes, beq, if◌then◌else◌}
use edge_llm.Core.{Error, Result}
use edge_llm.Llm.Messages.{ToolCall}
use edge_llm.Llm.Client.{ChatResult, AgentTurn}
use edge_llm.Tools.Json.{Json, Items, get}
use edge_llm.Tools.Schema.{items_of}
use edge_llm.Tools.Args.{is_object}
use edge_llm.Llm.Providers.{ProviderLib, is_array, text_at, printed, turn_of, meta_of, read_parts}

module _ {N : Type 0} where
  -- The block of a given type; a block without a type is of none.
  unfoldable pub is_type : Bytes → Json N → Bool
  unfolding text_at
  is_type type block = beq (text_at (bytes "type") block) type

module _ {F N : Type 0} (lib : ProviderLib F N) where
  -- A block of a response.
  unfoldable pub anthropic_block : Json N → Bytes × List ToolCall → Bytes × List ToolCall
  unfolding is_type text_at
  anthropic_block block (text, calls) =
      if is_type (bytes "text") block
      then (text ++ text_at (bytes "text") block, calls)
      else if is_type (bytes "tool_use") block
      then (
        text,
        calls
            ++ (record {
              id = text_at (bytes "id") block;
              name = text_at (bytes "name") block;
              arguments_json = printed lib (get (bytes "input") block);
            }
                ∷ []),
      )
      else (text, calls)

  abbrev anthropic_turn_of : Json N → Bytes × List ToolCall → AgentTurn
  unfolding turn_of text_at
  anthropic_turn_of doc (text, calls) =
      turn_of lib text calls (text_at (bytes "stop_reason") doc)
        (get (bytes "input_tokens") (get (bytes "usage") doc))
        (get (bytes "output_tokens") (get (bytes "usage") doc))

  unfoldable pub anthropic_read_turn : Json N → Result AgentTurn
  unfolding anthropic_block turn_of text_at
  anthropic_read_turn doc =
      if is_array (get (bytes "content") doc)
      then Result.ok (
          anthropic_turn_of doc
            (read_parts anthropic_block (items_of (get (bytes "content") doc)) ([], [])))
      else Result.fail Error.provider_error

  -- The input of the first call that has one.
  unfoldable pub first_input : Items N → Result Bytes
  unfolding is_type
  first_input Items.no_items = Result.fail Error.provider_error
  first_input (Items.item block blocks) =
      let rest = first_input blocks in
      if is_type (bytes "tool_use") block && is_object (get (bytes "input") block)
      then Result.ok (lib.serialize (get (bytes "input") block))
      else rest

  abbrev anthropic_result_of : Json N → Result Bytes → Result (Bytes × ChatResult)
  unfolding meta_of text_at
  anthropic_result_of doc (Result.fail e) = Result.fail e
  anthropic_result_of doc (Result.ok json) = Result.ok (
    json,
    meta_of lib (text_at (bytes "stop_reason") doc)
        (get (bytes "input_tokens") (get (bytes "usage") doc))
        (get (bytes "output_tokens") (get (bytes "usage") doc)),
  )

  -- A content that is no array has no block.
  unfoldable pub anthropic_read_structured : Json N → Result (Bytes × ChatResult)
  unfolding first_input meta_of text_at
  anthropic_read_structured doc =
      anthropic_result_of doc (first_input (items_of (get (bytes "content") doc)))
