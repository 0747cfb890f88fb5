-- ===== src/Tools/Args.antt =====
-- src/tools/ToolCallArgs.{h,cpp}: the arguments of a call. `as<long>`, `as<double>` and `as<bool>` of
-- the JSON library are parameters of the getters that use them.
use edge_llm.Base.{
  Bool, true, false, not, ◌&&◌, ◌||◌, Option, none, some, Bytes, [], ◌∷◌, if◌then◌else◌,
}
use edge_llm.Tools.Json.{Json, get, is_null}
use edge_llm.Tools.Schema.{c_string}

pub record ToolCallArgs (N : Type 0) : Type 0 where
  pub doc : Json N
  pub ok : Bool

module _ {N : Type 0} where
  abbrev pub is_object : Json N → Bool
  is_object (Json.object ms) = true
  is_object v = false

  abbrev pub parsed : Option (Json N) → ToolCallArgs N
  parsed none = record { doc = Json.null; ok = false }
  parsed (some doc) = record { doc = doc; ok = is_object doc }

  -- The constructor. What a failed parse leaves in the document is not read while `ok` is false.
  unfoldable pub tool_call_args : (Bytes → Option (Json N)) → Bytes → ToolCallArgs N
  tool_call_args deserialize [] = record { doc = Json.null; ok = false }
  tool_call_args deserialize (c ∷ s) = parsed (deserialize (c ∷ s))

  unfoldable pub has_arg : ToolCallArgs N → Bytes → Bool
  has_arg args key = args.ok && not (is_null (get key args.doc))

  -- `const char*` of a value: null but for a string.
  unfoldable pub as_text : Json N → Option Bytes
  unfolding c_string
  as_text (Json.text s) = some (c_string s)
  as_text v = none

  unfoldable pub get_string : ToolCallArgs N → Bytes → Bytes → Bytes
  unfolding as_text
  get_string args key def =
      if args.ok then elim (as_text (get key args.doc)) [ none ↦ def | some s ↦ s ] else def

  -- A value that is there, behind a conversion.
  unfoldable pub get_as : {C : Type 0} → (Json N → C) → ToolCallArgs N → Bytes → C → C
  get_as convert args key def =
      if not args.ok || is_null (get key args.doc) then def else convert (get key args.doc)

unfoldable pub get_int : {N L : Type 0} → (Json N → L) → ToolCallArgs N → Bytes → L → L
unfolding get_as
get_int as_long args key def = get_as as_long args key def

unfoldable pub get_number : {N D : Type 0} → (Json N → D) → ToolCallArgs N → Bytes → D → D
unfolding get_as
get_number as_double args key def = get_as as_double args key def

unfoldable pub get_bool : {N : Type 0} → (Json N → Bool) → ToolCallArgs N → Bytes → Bool → Bool
unfolding get_as
get_bool as_bool args key def = get_as as_bool args key def
