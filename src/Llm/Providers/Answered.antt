-- ===== src/Llm/Providers/Answered.antt =====
-- The requests that Anthropic and Gemini get for the transcript of the agent loop of
-- src/llm/LLMClient.cpp: each call is answered in the next message, in the order of the calls.
use edge_llm.Base.{
  ℕ, ◌<◌, ◌≡◌, refl, sym, ap, ◌∙◌, some, List, [], ◌∷◌, ◌++◌, map, Bytes, bytes, if◌then◌else◌,
  length, arith,
}
use edge_llm.Core.{Result}
use edge_llm.Llm.Messages.{Message, ToolCall}
use edge_llm.Llm.Client.{Settings, Environment}
use edge_llm.Llm.Client.Agent.{agent_loop, assistant_turn}
use edge_llm.Llm.Client.Transcript.{agent_loop-IsTranscript}
use edge_llm.Llm.Retry.Send.{Client}
use edge_llm.Tools.Json.{Json, Items, get, some_items}
use edge_llm.Tools.Schema.{c_string, items_of}
use edge_llm.Tools.Args.{as_text, is_object}
use edge_llm.Llm.Providers.{ProviderLib, text_at}
use edge_llm.Llm.Providers.Anthropic.Turns.{
  anthropic_result, anthropic_results, anthropic_use, anthropic_assistant, anthropic_one,
  anthropic_turns,
}
use edge_llm.Llm.Providers.Anthropic.Replies.{is_type}
use edge_llm.Llm.Providers.Gemini.Turns.{
  gemini_result, gemini_results, gemini_call, gemini_assistant, gemini_one, gemini_turns,
}
use edge_llm.Llm.Providers.Rounds.{Paired, grouped-Paired, grouped-append-Rounds}

module _ {N : Type 0} where
  abbrev text_of : Json N → Bytes
  text_of (Json.text s) = s
  text_of v = []

  -- The texts under a key in the blocks of a type, in order.
  unfoldable pub ids_of : Bytes → Bytes → Items N → List Bytes
  unfolding is_type
  ids_of type key Items.no_items = []
  ids_of type key (Items.item block blocks) =
      let rest = ids_of type key blocks in
      if is_type type block then text_of (get key block) ∷ rest else rest

  -- The ids of the calls, and of the results, in a message of Anthropic.
  abbrev pub use_ids : Json N → List Bytes
  unfolding ids_of
  use_ids v = ids_of (bytes "tool_use") (bytes "id") (items_of (get (bytes "content") v))

  abbrev pub result_ids : Json N → List Bytes
  unfolding ids_of
  result_ids v =
      ids_of (bytes "tool_result") (bytes "tool_use_id") (items_of (get (bytes "content") v))

  -- The names in the parts of a kind, in order.
  unfoldable pub names_of : Bytes → Items N → List Bytes
  names_of kind Items.no_items = []
  names_of kind (Items.item part parts) =
      let rest = names_of kind parts in
      if is_object (get kind part)
      then text_of (get (bytes "name") (get kind part)) ∷ rest
      else rest

  -- The names of the calls, and of the responses, in a content of Gemini.
  abbrev pub call_names : Json N → List Bytes
  unfolding names_of
  call_names v = names_of (bytes "functionCall") (items_of (get (bytes "parts") v))

  abbrev pub response_names : Json N → List Bytes
  unfolding names_of
  response_names v = names_of (bytes "functionResponse") (items_of (get (bytes "parts") v))

module _ {F N : Type 0} (lib : ProviderLib F N) where
  ids_of-results :
      (ms : List Message)
      → ids_of
          (bytes "tool_result")
          (bytes "tool_use_id")
          (some_items (map (anthropic_result {N = N}) ms))
        ≡ map (λ (m : Message). m.tool_call_id) ms
  unfolding ids_of anthropic_result is_type text_at as_text c_string
  ids_of-results [] = refl
  ids_of-results (m ∷ ms) = ap (λ l. m.tool_call_id ∷ l) (ids_of-results ms)

  names_of-results :
      (ms : List Message)
      → names_of (bytes "functionResponse") (some_items (map (gemini_result {N = N}) ms))
        ≡ map (λ (m : Message). m.tool_name) ms
  unfolding names_of gemini_result
  names_of-results [] = refl
  names_of-results (m ∷ ms) = ap (λ l. m.tool_name ∷ l) (names_of-results ms)

  ids_of-uses :
      (calls : List ToolCall)
      → ids_of (bytes "tool_use") (bytes "id") (some_items (map (anthropic_use lib) calls))
        ≡ map (λ (c : ToolCall). c.id) calls
  unfolding ids_of anthropic_use is_type text_at as_text c_string
  ids_of-uses [] = refl
  ids_of-uses (c ∷ calls) = ap (λ l. c.id ∷ l) (ids_of-uses calls)

  names_of-calls :
      (calls : List ToolCall)
      → names_of (bytes "functionCall") (some_items (map (gemini_call lib) calls))
        ≡ map (λ (c : ToolCall). c.name) calls
  unfolding names_of gemini_call
  names_of-calls [] = refl
  names_of-calls (c ∷ calls) = ap (λ l. c.name ∷ l) (names_of-calls calls)

  assistant-uses :
      (m : Message) (text : Bytes) (calls : List ToolCall)
      → m.content ≡ text
      → 0 < length calls
      → use_ids (anthropic_assistant lib m calls) ≡ map (λ (c : ToolCall). c.id) calls
  unfolding ids_of anthropic_assistant is_type text_at as_text c_string
  assistant-uses m text [] e pos = absurd (omega (arith, pos))
  assistant-uses m [] (c ∷ calls) e pos = rw e (ids_of-uses (c ∷ calls))
  assistant-uses m (x ∷ s) (c ∷ calls) e pos = rw e (ids_of-uses (c ∷ calls))

  assistant-names :
      (m : Message) (text : Bytes) (calls : List ToolCall)
      → m.content ≡ text
      → 0 < length calls
      → call_names (gemini_assistant lib m calls) ≡ map (λ (c : ToolCall). c.name) calls
  unfolding names_of gemini_assistant
  assistant-names m text [] e pos = absurd (omega (arith, pos))
  assistant-names m [] (c ∷ calls) e pos = rw e (names_of-calls (c ∷ calls))
  assistant-names m (x ∷ s) (c ∷ calls) e pos = rw e (names_of-calls (c ∷ calls))

-- What a service gets for a longer transcript: what it gets for the messages of the caller, and in
-- less than `bound` rounds of two messages the calls and their answers, which `P` relates.
pub record IsAnswered {A : Type 0} (P : A → A → Type 0) (bound : ℕ) (before after : List A)
    : Type 0 where
  pub count : ℕ
  pub new : List A
  pub few : count < bound
  pub split : after ≡ before ++ new
  pub pairs : Paired P count new

module _ {W F S R N : Type 0} (lib : ProviderLib F N) (env : Environment W F S R) where
  -- When the agent loop settles, the messages that Anthropic gets for its transcript are those for
  -- the caller's messages and then, for each of fewer rounds than `max_iterations`, two: the calls of
  -- the model, and one message whose results have the ids of these calls, in their order.
  pub anthropic_turns-IsAnswered :
      (s : Settings F) (tools : R) (messages result : List Message) (c c' : Client W)
      → agent_loop env s.max_iterations s tools messages c ≡ some (c', Result.ok result)
      → IsAnswered
          (λ calls results. use_ids calls ≡ result_ids results)
          s.max_iterations
          (anthropic_turns lib messages)
          (anthropic_turns lib result)
  unfolding anthropic_turns anthropic_one anthropic_results use_ids result_ids ids_of
  anthropic_turns-IsAnswered s tools messages result c c' e =
      let t = agent_loop-IsTranscript env s tools messages result c c' e in
      record {
        count = t.count;
        new = anthropic_turns lib t.added;
        few = t.few;
        split =
            grouped-append-Rounds anthropic_results (anthropic_one lib) messages result t.rounds
              t.split;
        pairs =
            grouped-Paired anthropic_results (anthropic_one lib) _
              (λ turn answers pos a.
                assistant-uses lib (assistant_turn turn) turn.text turn.tool_calls refl pos
                ∙ (sym a.ids ∙ sym (ids_of-results lib answers)))
              t.rounds;
      }

  -- When the agent loop settles, the contents that Gemini gets for its transcript are those for the
  -- caller's messages and then, for each of fewer rounds than `max_iterations`, two: the calls of the
  -- model, and one content whose responses have the names of these calls, in their order.
  pub gemini_turns-IsAnswered :
      (s : Settings F) (tools : R) (messages result : List Message) (c c' : Client W)
      → agent_loop env s.max_iterations s tools messages c ≡ some (c', Result.ok result)
      → IsAnswered
          (λ calls results. call_names calls ≡ response_names results)
          s.max_iterations
          (gemini_turns lib messages)
          (gemini_turns lib result)
  unfolding gemini_turns gemini_one gemini_results call_names response_names names_of
  gemini_turns-IsAnswered s tools messages result c c' e =
      let t = agent_loop-IsTranscript env s tools messages result c c' e in
      record {
        count = t.count;
        new = gemini_turns lib t.added;
        few = t.few;
        split =
            grouped-append-Rounds gemini_results (gemini_one lib) messages result t.rounds t.split;
        pairs =
            grouped-Paired gemini_results (gemini_one lib) _
              (λ turn answers pos a.
                assistant-names lib (assistant_turn turn) turn.text turn.tool_calls refl pos
                ∙ (sym a.names ∙ sym (names_of-results lib answers)))
              t.rounds;
      }
