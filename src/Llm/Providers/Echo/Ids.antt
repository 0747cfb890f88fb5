-- ===== src/Llm/Providers/Echo/Ids.antt =====
-- Turns that OpenAI and Anthropic read back, whose calls have ids of their own.
use edge_llm.Llm.Providers.Echo.{
  openai_reply, turn_with, IsPlain, IsPlainCall, IsPrintedCall, arguments-IsPrinted, read_calls-map,
  read_parts-map,
}
use edge_llm.Base.{◌≡◌, refl, ◌∙◌, List, [], ◌∷◌, ◌++◌, map, Bytes, arith, All, All-imp, ap}
use edge_llm.Core.{Result}
use edge_llm.Llm.Messages.{ToolCall, has_image}
use edge_llm.Llm.Client.Agent.{assistant_turn}
use edge_llm.Tools.Json.{some_items}
use edge_llm.Tools.Schema.{c_string}
use edge_llm.Tools.Args.{as_text}
use edge_llm.Llm.Providers.{ProviderLib, text_at, or_empty, turn_of, read_parts, parts_text}
use edge_llm.Llm.Providers.OpenAi.Turns.{
  openai_content, text_or_null, openai_call, openai_assistant, openai_turn,
}
use edge_llm.Llm.Providers.OpenAi.Replies.{openai_read_call, openai_read_turn}
use edge_llm.Llm.Providers.Anthropic.Turns.{anthropic_use, anthropic_assistant, anthropic_one}
use edge_llm.Llm.Providers.Anthropic.Replies.{is_type, anthropic_block, anthropic_read_turn}

module _ {F N : Type 0} (lib : ProviderLib F N) where
  text_or_null-IsPlain :
      (text : Bytes) → IsPlain text → or_empty (as_text (text_or_null {N = N} text)) ≡ text
  unfolding as_text
  text_or_null-IsPlain [] p = refl
  text_or_null-IsPlain (x ∷ s) p = p

  openai_read_call-openai_call :
      (id name args : Bytes)
      → IsPlainCall (record { id = id; name = name; arguments_json = args })
      → openai_read_call
          (openai_call {N = N} (record { id = id; name = name; arguments_json = args }))
        ≡ record { id = id; name = name; arguments_json = args }
  unfolding openai_read_call openai_call text_at as_text
  openai_read_call-openai_call id name [] (p, (q, (r, pos))) = absurd (omega (arith, pos))
  openai_read_call-openai_call id name (x ∷ s) (p, (q, (r, pos))) = rw (p, q, r) refl

  -- OpenAI reads back the text and the calls of a turn: texts without a zero byte, and calls whose
  -- arguments are not empty.
  pub openai_read_turn-openai_turn :
      (text : Bytes) (calls : List ToolCall)
      → IsPlain text
      → All IsPlainCall calls
      → openai_read_turn lib (openai_reply (openai_turn (assistant_turn (turn_with text calls))))
        ≡ Result.ok (turn_with text calls)
  unfolding openai_read_turn openai_turn openai_assistant openai_content text_at as_text turn_of
      has_image
  openai_read_turn-openai_turn text [] p h = rw p refl
  openai_read_turn-openai_turn text (call ∷ calls) p h =
      rw
        (
          text_or_null-IsPlain text p,
          read_calls-map openai_read_call openai_call (call ∷ calls) (
              All-imp IsPlainCall _
                (λ c q. openai_read_call-openai_call c.id c.name c.arguments_json q) (call ∷ calls)
                h),
        )
        refl

  anthropic_block-anthropic_use :
      (c : ToolCall)
      → IsPrintedCall lib c
      → (text : Bytes) (l : List ToolCall)
      → anthropic_block lib (anthropic_use lib c) (text, l) ≡ (text, l ++ (c ∷ []))
  unfolding anthropic_block anthropic_use is_type text_at as_text c_string
  anthropic_block-anthropic_use c (p, (q, r)) text l =
      rw (p, q, arguments-IsPrinted lib c.arguments_json r) refl

  anthropic_parts :
      (text : Bytes) (calls : List ToolCall)
      → IsPlain text
      → All (IsPrintedCall lib) calls
      → read_parts
          (anthropic_block lib)
          (some_items (parts_text text ++ map (anthropic_use lib) calls))
          ([], [])
        ≡ (text, calls)
  unfolding anthropic_block is_type text_at as_text
  anthropic_parts [] calls p h =
      read_parts-map (anthropic_block lib) (anthropic_use lib) calls
        (All-imp (IsPrintedCall lib) _ anthropic_block-anthropic_use calls h) [] []
  anthropic_parts (x ∷ s) calls p h =
      ap
        (λ k. read_parts (anthropic_block lib) (some_items (map (anthropic_use lib) calls)) (k, []))
        p
      ∙ read_parts-map (anthropic_block lib) (anthropic_use lib) calls
          (All-imp (IsPrintedCall lib) _ anthropic_block-anthropic_use calls h) (x ∷ s) []

  -- Anthropic reads back the text and the calls of a turn that has a call: texts without a zero byte,
  -- and calls whose arguments are an object as the JSON library prints it.
  pub anthropic_read_turn-anthropic_one :
      (text : Bytes) (call : ToolCall) (calls : List ToolCall)
      → IsPlain text
      → All (IsPrintedCall lib) (call ∷ calls)
      → anthropic_read_turn lib (anthropic_one lib (assistant_turn (turn_with text (call ∷ calls))))
        ≡ Result.ok (turn_with text (call ∷ calls))
  unfolding anthropic_read_turn anthropic_one anthropic_assistant text_at as_text turn_of
  anthropic_read_turn-anthropic_one text call calls p h =
      rw (anthropic_parts text (call ∷ calls) p h) refl
