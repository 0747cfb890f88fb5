-- ===== src/Llm/Providers/Echo.antt =====
-- What the services give back of a turn that was written for them: the readers of
-- src/llm/providers on what the writers there produce.
pub mod Ids
pub mod Names
use edge_llm.Base.{
  ◌<◌, ◌≡◌, refl, ◌∙◌, some, List, [], ◌∷◌, ◌++◌, map, append-nil, append_assoc, Bytes, bytes,
  length, arith, All, ap,
}
use edge_llm.Llm.Messages.{ToolCall}
use edge_llm.Llm.Client.{AgentTurn}
use edge_llm.Tools.Json.{Json, Members, some_items}
use edge_llm.Tools.Schema.{c_string}
use edge_llm.Llm.Providers.{
  ProviderLib, array_of, arguments, printed, read_parts, read_calls, object_of,
}

-- A text without a zero byte.
abbrev pub IsPlain : Bytes → Type 0
unfolding c_string
IsPlain s = c_string s ≡ s

abbrev pub IsPlainCall : ToolCall → Type 0
IsPlainCall c =
    IsPlain c.id × (IsPlain c.name × (IsPlain c.arguments_json × (0 < length c.arguments_json)))

-- The arguments that the parser reads as an object and the printer gives back.
pub record IsPrinted {F N : Type 0} (lib : ProviderLib F N) (json : Bytes) : Type 0 where
  pub members : Members N
  pub read : lib.deserialize json ≡ some (Json.object members)
  pub written : lib.serialize (Json.object members) ≡ json
  pub some_byte : 0 < length json

abbrev pub IsPrintedCall : {F N : Type 0} → ProviderLib F N → ToolCall → Type 0
IsPrintedCall lib c = IsPlain c.id × (IsPlain c.name × IsPrinted lib c.arguments_json)

-- A service without ids of calls gives the names.
abbrev pub IsNamedCall : {F N : Type 0} → ProviderLib F N → ToolCall → Type 0
IsNamedCall lib c = (c.id ≡ c.name) × (IsPlain c.name × IsPrinted lib c.arguments_json)

-- A turn of these calls, without the tokens and the reason, which no request shows.
abbrev pub turn_with : Bytes → List ToolCall → AgentTurn
turn_with text calls = record {
  text = text;
  tool_calls = calls;
  finish_reason = [];
  input_tokens = 0;
  output_tokens = 0;
}

-- The responses in which a service gives a message as it was written.
abbrev pub openai_reply : {N : Type 0} → Json N → Json N
openai_reply v =
    object_of ((bytes "choices", array_of (object_of ((bytes "message", v) ∷ []) ∷ [])) ∷ [])

abbrev pub gemini_reply : {N : Type 0} → Json N → Json N
gemini_reply v =
    object_of ((bytes "candidates", array_of (object_of ((bytes "content", v) ∷ []) ∷ [])) ∷ [])

abbrev pub ollama_reply : {N : Type 0} → Json N → Json N
ollama_reply v = object_of ((bytes "message", v) ∷ [])

module _ {F N : Type 0} (lib : ProviderLib F N) where
  pub arguments-IsPrinted :
      (json : Bytes) → IsPrinted lib json → printed lib (arguments lib json) ≡ json
  unfolding arguments
  arguments-IsPrinted [] p = absurd (omega (arith, p.some_byte))
  arguments-IsPrinted (x ∷ s) p = rw p.read p.written

module _ {N : Type 0} where
  pub read_calls-map :
      (read : Json N → ToolCall) (write : ToolCall → Json N) (calls : List ToolCall)
      → All (λ c. read (write c) ≡ c) calls
      → read_calls read (some_items (map write calls)) ≡ calls
  read_calls-map read write [] h = refl
  read_calls-map read write (c ∷ calls) (e, h) = rw (e, read_calls-map read write calls h) refl

  -- The calls of a response that are added in turn.
  pub read_parts-map :
      (read : Json N → Bytes × List ToolCall → Bytes × List ToolCall) (write : ToolCall → Json N)
      (calls : List ToolCall)
      → All
          (λ c.
            (text : Bytes) (l : List ToolCall) → read (write c) (text, l) ≡ (text, l ++ (c ∷ [])))
          calls
      → (text : Bytes) (l : List ToolCall)
      → read_parts read (some_items (map write calls)) (text, l) ≡ (text, l ++ calls)
  read_parts-map read write [] h text l = rw (append-nil l) refl
  read_parts-map read write (c ∷ calls) (e, h) text l =
      ap (read_parts read (some_items (map write calls))) (e text l)
      ∙ (read_parts-map read write calls h text (l ++ (c ∷ []))
          ∙ ap (λ k. (text, k)) (append_assoc l (c ∷ []) calls))
