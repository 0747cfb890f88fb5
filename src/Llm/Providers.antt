-- ===== src/Llm/Providers.antt =====
-- What the services of src/llm/providers share: how a request and a response are JSON documents, over
-- the calls of the JSON library. Each provider is in a child module.
pub mod OpenAi
pub mod Anthropic
pub mod Gemini
pub mod Ollama
pub mod Rounds
pub mod Answered
pub mod Echo
pub mod Strict
mod Tests
use edge_llm.Base.{
  ℕ, zero, Bool, true, false, Option, none, some, List, [], ◌∷◌, ◌++◌, Bytes, bytes, map,
  if◌then◌else◌,
}
use edge_llm.Core.{Error, Result}
use edge_llm.Transport.Http.{Header, HttpRequest, HttpResponse, is_empty}
use edge_llm.Llm.Messages.{Message, Role, ToolCall}
use edge_llm.Llm.Client.{ChatOptions, ChatResult, AgentTurn}
use edge_llm.Tools.Json.{Json, Items, Members, obj, some_items, get}
use edge_llm.Tools.Write.{write_object_schema}
use edge_llm.Tools.Registry.{Tool}
use edge_llm.Tools.Args.{as_text}

-- The parser and the printer of the JSON library, a number of an unsigned value and of a `float`,
-- whether a `float` is set (not below zero), and `v | 0` on a number, as an unsigned value.
pub record ProviderLib (F N : Type 0) : Type 0 where
  pub deserialize : Bytes → Option (Json N)
  pub serialize : Json N → Bytes
  pub unsigned : ℕ → N
  pub real : F → N
  pub is_set : F → Bool
  pub count : N → ℕ

-- Members that are written in turn.
abbrev pub Fields : Type 0 → Type 0
Fields N = List (Bytes × Json N)

-- The texts of the system messages behind the system prompt, with a blank line between two.
unfoldable pub system_text : Bytes → List Message → Bytes
system_text system [] = system
system_text system (m ∷ ms) = elim m.role [
  | Role.system ↦
      let next = if is_empty system then m.content else system ++ (bytes "\n\n" ++ m.content) in
      system_text next ms
  | _ ↦ system_text system ms
]

abbrev pub image_mime_of : Message → Bytes
image_mime_of m = if is_empty m.image_mime then bytes "image/jpeg" else m.image_mime

abbrev pub or_empty : Option Bytes → Bytes
or_empty none = []
or_empty (some s) = s

-- The model of the options, or the one of the provider.
abbrev pub model_or : {F : Type 0} → Bytes → ChatOptions F → Bytes
model_or default_model o = if is_empty o.model then default_model else o.model

-- A text that must be there.
abbrev pub with_text : {A : Type 0} → (Bytes → Result A) → Option Bytes → Result A
with_text read none = Result.fail Error.provider_error
with_text read (some s) = read s

-- The role of a message that is neither a system prompt nor a result.
abbrev pub user_or_assistant : Role → Bytes
user_or_assistant Role.assistant = bytes "assistant"
user_or_assistant r = bytes "user"

module _ {N : Type 0} where
  -- A member of a text, and one that is written only for a text that is not empty.
  abbrev pub text_field : Bytes → Bytes → Bytes × Json N
  text_field key s = (key, Json.text s)

  abbrev pub text_if : Bytes → Bytes → Fields N
  text_if key [] = []
  text_if key (c ∷ s) = (key, Json.text (c ∷ s)) ∷ []

  -- An object of such members.
  abbrev pub object_of : Fields N → Json N
  object_of fs = Json.object (obj fs)

  abbrev pub array_of : List (Json N) → Json N
  array_of vs = Json.array (some_items vs)

  abbrev pub stops : Bytes → List Bytes → Fields N
  stops key [] = []
  stops key (s ∷ l) = (key, array_of (map Json.text (s ∷ l))) ∷ []

  -- `v[0]`, null if there is none.
  abbrev pub first_of : Json N → Json N
  first_of (Json.array (Items.item v vs)) = v
  first_of v = Json.null

  abbrev pub is_array : Json N → Bool
  is_array (Json.array vs) = true
  is_array v = false

  -- A text of an object, nothing if it is not there.
  unfoldable pub text_at : Bytes → Json N → Bytes
  unfolding as_text
  text_at key v = or_empty (as_text (get key v))

  -- A tool under the names that a service gives to its description and its schema.
  unfoldable pub tool_fields : {W : Type 0} → Bytes → Tool W N → Fields N
  unfolding write_object_schema
  tool_fields schema_key t =
      text_field (bytes "name") t.name
      ∷ (text_if (bytes "description") t.description
          ++ ((schema_key, Json.object (write_object_schema true t.params Members.no_members))
              ∷ []))

  -- The part of a text that is not empty.
  abbrev pub parts_text : Bytes → List (Json N)
  parts_text [] = []
  parts_text (c ∷ s) =
      object_of
        (text_field (bytes "type") (bytes "text") ∷ (text_field (bytes "text") (c ∷ s) ∷ []))
      ∷ []

  -- The loop over the parts of a response, which adds to a text and to the calls.
  abbrev pub read_parts :
      (Json N → Bytes × List ToolCall → Bytes × List ToolCall)
      → Items N
      → Bytes × List ToolCall
      → Bytes × List ToolCall
  read_parts read Items.no_items turn = turn
  read_parts read (Items.item v vs) turn = read_parts read vs (read v turn)

  -- The system prompt in front of the messages.
  abbrev pub system_message : Bytes → List (Json N)
  system_message [] = []
  system_message (c ∷ s) =
      object_of
        (text_field (bytes "role") (bytes "system") ∷ (text_field (bytes "content") (c ∷ s) ∷ []))
      ∷ []

  -- A tool of the services that take functions.
  unfoldable pub function_tool : {W : Type 0} → Tool W N → Json N
  unfolding tool_fields
  function_tool t = object_of (
      text_field (bytes "type") (bytes "function")
      ∷ ((bytes "function", object_of (tool_fields (bytes "parameters") t)) ∷ []))

-- The loop over the calls of a response.
abbrev pub read_calls : {N : Type 0} → (Json N → ToolCall) → Items N → List ToolCall
read_calls read Items.no_items = []
read_calls read (Items.item v vs) = read v ∷ read_calls read vs

module _ {F N : Type 0} (lib : ProviderLib F N) where
  abbrev pub real_if : Bytes → F → Fields N
  real_if key x = if lib.is_set x then (key, Json.number (lib.real x)) ∷ [] else []

  -- The temperature, the nucleus and the stop sequences.
  unfoldable pub sampling : Bytes → Bytes → Bytes → ChatOptions F → Fields N
  sampling temperature top_p stop o =
      real_if temperature o.temperature ++ (real_if top_p o.top_p ++ stops stop o.stop_sequences)

  abbrev pub object_or_empty : Option (Json N) → Json N
  object_or_empty none = Json.object Members.no_members
  object_or_empty (some v) = v

  -- The arguments of a call as a document; an empty object where they are none.
  unfoldable pub arguments : Bytes → Json N
  arguments [] = Json.object Members.no_members
  arguments (c ∷ s) = object_or_empty (lib.deserialize (c ∷ s))

  -- The text of an object, nothing for another value.
  abbrev pub printed : Json N → Bytes
  printed (Json.object ms) = lib.serialize (Json.object ms)
  printed v = []

  -- `v | 0`
  abbrev pub count_of : Json N → ℕ
  count_of (Json.number n) = lib.count n
  count_of v = 0

  -- The turn of a response behind its text and its calls.
  unfoldable pub turn_of : Bytes → List ToolCall → Bytes → Json N → Json N → AgentTurn
  turn_of text calls finish input output = record {
    text = text;
    tool_calls = calls;
    finish_reason = finish;
    input_tokens = count_of input;
    output_tokens = count_of output;
  }

  unfoldable pub meta_of : Bytes → Json N → Json N → ChatResult
  meta_of finish input output = record {
    finish_reason = finish;
    input_tokens = count_of input;
    output_tokens = count_of output;
  }

  -- The request of a document.
  unfoldable pub post : Bytes → ℕ → Bytes → List Header → Fields N → HttpRequest
  post host port path headers doc = record {
    method = bytes "POST";
    host = host;
    port = port;
    path = path;
    headers = headers;
    body = lib.serialize (object_of doc);
  }

  -- A document, or the error of the parser.
  abbrev pub with_document : {A : Type 0} → (Json N → Result A) → Option (Json N) → Result A
  with_document read none = Result.fail Error.json_parse_error
  with_document read (some doc) = read doc

  unfoldable pub read_response : {A : Type 0} → (Json N → Result A) → HttpResponse → Result A
  read_response read r = with_document read (lib.deserialize r.body)

-- The messages of a service without a tool role: the results of consecutive tool messages, which the
-- inner loop collects, stand in one message. System messages are written elsewhere.
module _ {A : Type 0} (results : List Message → A) (one : Message → A) where
  abbrev pub flush : List Message → List A
  flush [] = []
  flush (m ∷ ms) = results (m ∷ ms) ∷ []

  unfoldable pub grouped : List Message → List Message → List A
  grouped pending [] = flush pending
  grouped pending (m ∷ ms) = elim m.role [
    | Role.tool ↦ grouped (pending ++ (m ∷ [])) ms
    | Role.system ↦ flush pending ++ grouped [] ms
    | _ ↦ flush pending ++ (one m ∷ grouped [] ms)
  ]

-- The messages but the system ones, each written alone.
unfoldable pub unprompted : {A : Type 0} → (Message → A) → List Message → List A
unprompted one [] = []
unprompted one (m ∷ ms) = elim m.role [
  | Role.system ↦ unprompted one ms
  | _ ↦ one m ∷ unprompted one ms
]
