-- ===== src/Tools/Tests.antt =====
-- Runs of the schemas and of the registry on concrete input.
use edge_llm.Base.{
  ℕ, suc, ◌≡◌, refl, ◌↔◌, Bool, true, false, Option, none, some, [], ◌∷◌, Bytes, bytes, beq, ltb,
  if◌then◌else◌,
}
use edge_llm.Core.{Status, Result}
use edge_llm.Llm.Messages.{ToolResult}
use edge_llm.Tools.Json.{Json, Members, Items}
use edge_llm.Tools.Schema.{ParamType, Params, validate_object, document}
use edge_llm.Tools.Schema.Conform.{Fits}
use edge_llm.Tools.Schema.Decide.{validate_object_iff}
use edge_llm.Tools.Fields.{enum_field, array_field}
use edge_llm.Tools.Args.{ToolCallArgs, get_string}
use edge_llm.Tools.Registry.{ToolRegistry, add_tool, edit, on_call, dispatch}
use edge_llm.Tools.Registry.Dispatch.{Dispatched, dispatch-Dispatched}
use edge_llm.Tools.Registry.Names.{Built, Configures, Distinct, names, built-Distinct}

-- A reading has a unit of two, and perhaps some samples.
abbrev reading : Params
reading =
    array_field (bytes "samples") [] ParamType.integer false
      (enum_field (bytes "unit") [] (bytes "C" ∷ bytes "F" ∷ []) true Params.no_params)

abbrev in_celsius : Json ℕ
in_celsius = Json.object (
    Members.member (bytes "unit") (Json.text (bytes "C")) (
      Members.member (bytes "samples") (Json.array (Items.item (Json.number 7) Items.no_items))
        Members.no_members))

-- The parser of a world with one text that is a document.
abbrev parse : Bytes → Option (Json ℕ)
parse s = if beq s (bytes "{}") then some in_celsius else none

abbrev fits_long : ℕ → Bool
fits_long n = ltb n 100

reading_fits : validate_object fits_long parse reading (bytes "{}") ≡ Status.ok
unfolding validate_object array_field enum_field
reading_fits = refl

-- A text that is no object is accepted when no field is required.
array_accepted :
    validate_object fits_long
      (λ _. some (Json.array Items.no_items))
      (array_field (bytes "samples") [] ParamType.integer false Params.no_params)
      (bytes "[]")
    ≡ Status.ok
unfolding validate_object array_field
array_accepted = refl

validate_object_iff_example :
    (validate_object fits_long parse reading (bytes "{}") ≡ Status.ok)
    ↔ ((doc : Json ℕ) × ((document parse (bytes "{}") ≡ some doc) × Fits fits_long reading doc))
validate_object_iff_example = validate_object_iff fits_long parse reading (bytes "{}")

abbrev handler : ToolCallArgs ℕ → ℕ → ℕ × ToolResult
handler args n = (suc n, record { content = get_string args (bytes "unit") []; is_error = false })

-- A tool that is added, given a parameter and a handler, beside one that is added twice.
abbrev registry : ToolRegistry ℕ ℕ
registry = edit (on_call (some handler)) 0 (
    (add_tool (bytes "u") []
      ((add_tool (bytes "u") (bytes "old") ((add_tool (bytes "t") [] []).0)).0)).0)

dispatch_runs :
    dispatch fits_long parse registry (bytes "t") (bytes "{}") 4
    ≡ (5, Result.ok (record { content = bytes "C"; is_error = false }))
unfolding dispatch add_tool on_call get_string
dispatch_runs = refl

dispatch-Dispatched_example :
    Dispatched fits_long parse registry
      (bytes "t")
      (bytes "{}")
      4
      (dispatch fits_long parse registry (bytes "t") (bytes "{}") 4)
dispatch-Dispatched_example =
    dispatch-Dispatched fits_long parse registry (bytes "t") (bytes "{}") 4

built-Distinct_example : Distinct (names registry)
built-Distinct_example = built-Distinct registry (
    Built.configure 0 (Configures.sets_handler (some handler)) (
      Built.add (bytes "u") []
        (Built.add (bytes "u") (bytes "old") (Built.add (bytes "t") [] Built.empty))))
