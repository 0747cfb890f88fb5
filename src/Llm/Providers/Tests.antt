-- ===== src/Llm/Providers/Tests.antt =====
-- Runs of the services on concrete input.
mod Loop
use edge_llm.Llm.Providers.Echo.{openai_reply, gemini_reply, ollama_reply, turn_with, IsPrinted}
use edge_llm.Llm.Providers.Echo.Ids.{
  openai_read_turn-openai_turn, anthropic_read_turn-anthropic_one,
}
use edge_llm.Llm.Providers.Echo.Names.{named_turn_read}
use edge_llm.Base.{ℕ, ◌≡◌, refl, false, some, [], ◌∷◌, bytes, beq, if◌then◌else◌, arith, true}
use edge_llm.Core.{Result}
use edge_llm.Llm.Messages.{ToolCall}
use edge_llm.Llm.Client.Agent.{assistant_turn}
use edge_llm.Llm.Schema.{ResponseSchema, schema_field, schema_object_field}
use edge_llm.Tools.Json.{Json, Members}
use edge_llm.Tools.Schema.{Params, ParamType, c_string}
use edge_llm.Tools.Fields.{field}
use edge_llm.Tools.Write.{all_fields_required}
use edge_llm.Tools.Write.Strict.{IsStrict}
use edge_llm.Llm.Providers.Strict.{response_format-IsStrict}
use edge_llm.Llm.Providers.{ProviderLib, object_of, get, text_field, array_of}
use edge_llm.Llm.Providers.OpenAi.{OpenAiProvider, openai, response_format}
use edge_llm.Llm.Providers.OpenAi.Turns.{openai_turn}
use edge_llm.Llm.Providers.OpenAi.Replies.{openai_read_turn}
use edge_llm.Llm.Providers.Anthropic.Turns.{anthropic_one}
use edge_llm.Llm.Providers.Anthropic.Replies.{anthropic_read_turn}
use edge_llm.Llm.Providers.Gemini.Turns.{gemini_one}
use edge_llm.Llm.Providers.Gemini.Replies.{gemini_read_turn}
use edge_llm.Llm.Providers.Ollama.{ollama_turn, ollama_read_turn}

abbrev pub call : ToolCall
call = record { id = bytes "t"; name = bytes "t"; arguments_json = bytes "{}" }

abbrev pub wait_call : Json ℕ
wait_call = object_of (
    text_field (bytes "type") (bytes "tool_use")
    ∷ (text_field (bytes "id") (bytes "c1")
        ∷ (text_field (bytes "name") (bytes "t")
            ∷ ((bytes "input", Json.object Members.no_members) ∷ []))))

-- A response for Anthropic and Gemini that asks for a tool, and one that does not.
abbrev pub asking : Json ℕ
asking = object_of (
    (bytes "content", array_of (wait_call ∷ wait_call ∷ []))
    ∷ ((
      bytes "candidates",
      array_of (
          object_of (
            (
              bytes "content",
              object_of (
                  (
                    bytes "parts",
                    array_of (
                        object_of (
                          (
                            bytes "functionCall",
                            object_of (text_field (bytes "name") (bytes "t") ∷ []),
                          )
                          ∷ [])
                        ∷ []),
                  )
                  ∷ []),
            )
            ∷ [])
          ∷ []),
    )
        ∷ []))

abbrev pub settled : Json ℕ
settled = object_of (
    (
      bytes "content",
      array_of (
          object_of (
            text_field (bytes "type") (bytes "text")
            ∷ (text_field (bytes "text") (bytes "done") ∷ []))
          ∷ []),
    )
    ∷ ((bytes "candidates", array_of (object_of [] ∷ [])) ∷ []))

-- A parser of three texts, and a printer of one document.
abbrev pub lib : ProviderLib (Unit {0}) ℕ
lib = record {
  deserialize = λ s.
      if beq s (bytes "{}")
      then some (Json.object Members.no_members)
      else if beq s (0 ∷ [])
      then some asking
      else some settled;
  serialize = λ v. bytes "{}";
  unsigned = λ n. n;
  real = λ x. 0;
  is_set = λ x. false;
  count = λ n. n;
}

IsPrinted-call : IsPrinted lib (bytes "{}")
IsPrinted-call = record {
  members = Members.no_members;
  read = refl;
  written = refl;
  some_byte = omega arith;
}

openai_read_turn-openai_turn_example :
    openai_read_turn lib
      (openai_reply (openai_turn (assistant_turn (turn_with (bytes "hi") (call ∷ [])))))
    ≡ Result.ok (turn_with (bytes "hi") (call ∷ []))
unfolding c_string
openai_read_turn-openai_turn_example =
    openai_read_turn-openai_turn lib (bytes "hi") (call ∷ []) refl
      ((refl, (refl, (refl, omega arith))), tt)

anthropic_read_turn-anthropic_one_example :
    anthropic_read_turn lib
      (anthropic_one lib (assistant_turn (turn_with (bytes "hi") (call ∷ []))))
    ≡ Result.ok (turn_with (bytes "hi") (call ∷ []))
unfolding c_string
anthropic_read_turn-anthropic_one_example =
    anthropic_read_turn-anthropic_one lib (bytes "hi") call [] refl
      ((refl, (refl, IsPrinted-call)), tt)

named_turn_read_example :
    let turn = turn_with (bytes "hi") (call ∷ []) in
    (gemini_read_turn lib (gemini_reply (gemini_one lib (assistant_turn turn))) ≡ Result.ok turn)
    × (ollama_read_turn lib (ollama_reply (ollama_turn lib (assistant_turn turn))) ≡ Result.ok turn)
unfolding c_string
named_turn_read_example =
    named_turn_read lib (bytes "hi") call [] refl ((refl, (refl, IsPrinted-call)), tt)

-- A report of readings, each with a name and a number.
abbrev report : ResponseSchema
unfolding schema_field
report =
    schema_object_field (bytes "reading") []
      (field (bytes "name") ParamType.string [] true
        (field (bytes "value") ParamType.number [] true Params.no_params))
      true
      (schema_field (bytes "ok") ParamType.boolean [] true
        (record { name = bytes "report"; spec = Params.no_params }))

abbrev gpt : OpenAiProvider
unfolding openai
gpt = openai (bytes "k") (bytes "gpt-4o-mini")

report_is_strict :
    get (bytes "strict") (get (bytes "json_schema") (response_format lib gpt report))
    ≡ Json.bool true
unfolding response_format schema_field schema_object_field field openai all_fields_required
report_is_strict = refl

response_format-IsStrict_example :
    (ms : Members ℕ) × ((get
          (bytes "schema")
          (get (bytes "json_schema") (response_format lib gpt report))
        ≡ Json.object ms)
      × IsStrict ms)
response_format-IsStrict_example = response_format-IsStrict lib gpt report report_is_strict
