-- ===== src/Llm/Providers/Echo/Names.antt =====
-- Turns that Gemini and Ollama read back, whose calls are told apart by their names.
use edge_llm.Llm.Providers.Echo.{
  gemini_reply, ollama_reply, turn_with, IsPlain, IsNamedCall, arguments-IsPrinted, read_parts-map,
  read_calls-map,
}
use edge_llm.Base.{◌≡◌, refl, ◌∙◌, List, [], ◌∷◌, ◌++◌, map, append-nil, Bytes, All, All-imp, ap}
use edge_llm.Core.{Result}
use edge_llm.Llm.Messages.{ToolCall, has_image}
use edge_llm.Llm.Client.Agent.{assistant_turn}
use edge_llm.Tools.Json.{some_items}
use edge_llm.Tools.Args.{as_text}
use edge_llm.Llm.Providers.{ProviderLib, text_at, turn_of, read_parts}
use edge_llm.Llm.Providers.Gemini.Turns.{gemini_call, part_if, gemini_assistant, gemini_one}
use edge_llm.Llm.Providers.Gemini.Replies.{gemini_part, gemini_read_turn}
use edge_llm.Llm.Providers.Ollama.{
  ollama_turn, ollama_call, ollama_assistant, ollama_read_call, ollama_read_turn, ollama_message,
}

module _ {F N : Type 0} (lib : ProviderLib F N) where
  gemini_part-gemini_call :
      (c : ToolCall)
      → IsNamedCall lib c
      → (text : Bytes) (l : List ToolCall)
      → gemini_part lib (gemini_call lib c) (text, l) ≡ (text, l ++ (c ∷ []))
  unfolding gemini_part gemini_call text_at as_text
  gemini_part-gemini_call c (p, (q, r)) text l =
      rw (p, q, arguments-IsPrinted lib c.arguments_json r)
        (ap (λ s. (s, l ++ (record c { id = c.name } ∷ []))) (append-nil text))

  ollama_read_call-ollama_call :
      (c : ToolCall) → IsNamedCall lib c → ollama_read_call lib (ollama_call lib c) ≡ c
  unfolding ollama_read_call ollama_call text_at as_text
  ollama_read_call-ollama_call c (p, (q, r)) =
      rw (p, q, arguments-IsPrinted lib c.arguments_json r) refl

  gemini_read-parts :
      (text : Bytes) (calls : List ToolCall)
      → IsPlain text
      → All (IsNamedCall lib) calls
      → read_parts
          (gemini_part lib)
          (some_items (part_if lib text ++ map (gemini_call lib) calls))
          ([], [])
        ≡ (text, calls)
  unfolding gemini_part text_at as_text
  gemini_read-parts [] calls p h =
      read_parts-map (gemini_part lib) (gemini_call lib) calls
        (All-imp (IsNamedCall lib) _ gemini_part-gemini_call calls h) [] []
  gemini_read-parts (x ∷ s) calls p h =
      ap (λ k. read_parts (gemini_part lib) (some_items (map (gemini_call lib) calls)) (k, [])) p
      ∙ read_parts-map (gemini_part lib) (gemini_call lib) calls
          (All-imp (IsNamedCall lib) _ gemini_part-gemini_call calls h) (x ∷ s) []

  gemini_read_turn-gemini_one :
      (text : Bytes) (call : ToolCall) (calls : List ToolCall)
      → IsPlain text
      → All (IsNamedCall lib) (call ∷ calls)
      → gemini_read_turn lib
          (gemini_reply (gemini_one lib (assistant_turn (turn_with text (call ∷ calls)))))
        ≡ Result.ok (turn_with text (call ∷ calls))
  unfolding gemini_read_turn gemini_one gemini_assistant text_at as_text turn_of
  gemini_read_turn-gemini_one text call calls p h =
      rw (gemini_read-parts text (call ∷ calls) p h) refl

  ollama_read_turn-ollama_turn :
      (text : Bytes) (calls : List ToolCall)
      → IsPlain text
      → All (IsNamedCall lib) calls
      → ollama_read_turn lib
          (ollama_reply (ollama_turn lib (assistant_turn (turn_with text calls))))
        ≡ Result.ok (turn_with text calls)
  unfolding ollama_read_turn ollama_turn ollama_assistant ollama_message text_at as_text turn_of
      has_image
  ollama_read_turn-ollama_turn text [] p h = rw p refl
  ollama_read_turn-ollama_turn text (call ∷ calls) p h =
      rw
        (
          p,
          read_calls-map (ollama_read_call lib) (ollama_call lib) (call ∷ calls)
              (All-imp (IsNamedCall lib) _ ollama_read_call-ollama_call (call ∷ calls) h),
        )
        refl

  -- Gemini, for a turn that has a call, and Ollama read back its text and its calls: texts without a
  -- zero byte, and calls whose id is their name and whose arguments are an object as the JSON library
  -- prints it.
  pub named_turn_read :
      (text : Bytes) (call : ToolCall) (calls : List ToolCall)
      → IsPlain text
      → All (IsNamedCall lib) (call ∷ calls)
      → let turn = turn_with text (call ∷ calls) in
        (gemini_read_turn lib (gemini_reply (gemini_one lib (assistant_turn turn)))
          ≡ Result.ok turn)
        × (ollama_read_turn lib (ollama_reply (ollama_turn lib (assistant_turn turn)))
            ≡ Result.ok turn)
  named_turn_read text call calls p h = (
    gemini_read_turn-gemini_one text call calls p h,
    ollama_read_turn-ollama_turn text (call ∷ calls) p h,
  )
