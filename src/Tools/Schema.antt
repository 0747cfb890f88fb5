-- ===== src/Tools/Schema.antt =====
-- src/tools/ToolTypes.h, src/tools/FieldSpec.h and src/tools/SchemaUtil.{h,cpp}: the fields of an
-- object, and the check of a JSON document against them. `is_long` says of a number that
-- `is<long>()` holds; `deserialize` is `deserializeJson`, `none` where it gives an error.
pub mod Conform
pub mod Sound
pub mod Decide
use edge_llm.Base.{
  Bool, true, false, not, ◌&&◌, Option, none, some, List, [], ◌∷◌, Bytes, bytes, beq, ◌==◌,
  if◌then◌else◌,
}
use edge_llm.Core.{Error, Status}
use edge_llm.Tools.Json.{Json, Items, Members, get, is_null, every}

pub data ParamType : Type 0 where
  string number integer boolean object array : ParamType

unfoldable pub param_type_name : ParamType → Bytes
param_type_name ParamType.string = bytes "string"
param_type_name ParamType.number = bytes "number"
param_type_name ParamType.integer = bytes "integer"
param_type_name ParamType.boolean = bytes "boolean"
param_type_name ParamType.object = bytes "object"
param_type_name ParamType.array = bytes "array"

-- `ToolParam` without its children.
pub record ParamHead : Type 0 where
  pub name : Bytes
  pub description : Bytes
  pub type : ParamType
  pub required : Bool
  pub enum_values : List Bytes
  pub item_type : ParamType
  pub has_items : Bool

-- `Params` is the vector of them, of an object or of children.
mutual
  pub data ToolParam : Type 0 where
    tool_param : ParamHead → Params → ToolParam

  pub data Params : Type 0 where
    no_params : Params
    param : ToolParam → Params → Params

abbrev pub head : ToolParam → ParamHead
head (ToolParam.tool_param p children) = p

abbrev pub no_children : Params → Bool
no_children Params.no_params = true
no_children (Params.param p ps) = false

-- `push_back`
abbrev pub push : Params → ToolParam → Params
push Params.no_params p = Params.param p Params.no_params
push (Params.param q qs) p = Params.param q (push qs p)

abbrev pub is_object_type : ParamType → Bool
is_object_type ParamType.object = true
is_object_type t = false

abbrev pub is_array_type : ParamType → Bool
is_array_type ParamType.array = true
is_array_type t = false

abbrev pub is_string_type : ParamType → Bool
is_string_type ParamType.string = true
is_string_type t = false

-- A string that is read through `const char*` ends at a zero byte.
unfoldable pub c_string : Bytes → Bytes
c_string [] = []
c_string (x ∷ s) = let rest = c_string s in if x == 0 then [] else x ∷ rest

-- The loop over the allowed values.
unfoldable pub is_allowed : Bytes → List Bytes → Bool
is_allowed s [] = false
is_allowed s (allowed ∷ l) = if beq allowed s then true else is_allowed s l

-- `deserializeJson` on a text; an empty one is a null document.
abbrev pub document : {N : Type 0} → (Bytes → Option (Json N)) → Bytes → Option (Json N)
document deserialize [] = some Json.null
document deserialize (c ∷ s) = deserialize (c ∷ s)

module _ {N : Type 0} where
  -- The members of an enumeration, for a string field that has one.
  unfoldable pub enum_matches : ParamHead → Json N → Bool
  unfolding c_string is_allowed
  enum_matches p (Json.text s) = elim p.enum_values [
    | [] ↦ true
    | e ∷ es ↦ is_allowed (c_string s) (e ∷ es)
  ]
  enum_matches p v = true

  abbrev pub items_of : Json N → Items N
  items_of (Json.array vs) = vs
  items_of v = Items.no_items

module _ {N : Type 0} (is_long : N → Bool) where
  unfoldable pub type_matches : ParamType → Json N → Bool
  type_matches ParamType.string (Json.text s) = true
  type_matches ParamType.integer (Json.number n) = is_long n
  type_matches ParamType.number (Json.number n) = true
  type_matches ParamType.boolean (Json.bool b) = true
  type_matches ParamType.object (Json.object ms) = true
  type_matches ParamType.array (Json.array vs) = true
  type_matches t v = false

  -- One element of an array; `inner` is the check against the children.
  unfoldable pub item_matches : ParamHead → Params → (Json N → Bool) → Json N → Bool
  unfolding type_matches
  item_matches p children inner v =
      if not (type_matches p.item_type v)
      then false
      else if is_object_type p.item_type && not (no_children children)
      then inner v
      else true

  -- The checks behind the one of the type.
  unfoldable pub nested_matches : ParamHead → Params → (Json N → Bool) → Json N → Bool
  unfolding item_matches
  nested_matches p children inner v =
      if is_object_type p.type && not (no_children children)
      then inner v
      else if is_array_type p.type && p.has_items
      then every (item_matches p children inner) (items_of v)
      else true

  unfoldable mutual
    unfolding nested_matches enum_matches type_matches

    pub validate_fields : Params → Json N → Bool
    validate_fields Params.no_params obj = true
    validate_fields (Params.param p ps) obj =
        let v = get (head p).name obj in
        let ok = if is_null v then not (head p).required else validate_value p v in
        if ok then validate_fields ps obj else false

    pub validate_value : ToolParam → Json N → Bool
    validate_value (ToolParam.tool_param p children) v =
        if not (type_matches p.type v)
        then false
        else if is_string_type p.type && not (enum_matches p v)
        then false
        else nested_matches p children (λ w. validate_fields children w) v

  abbrev pub check : Params → Option (Json N) → Status
  check fields none = Status.fail Error.schema_validation_failed
  check fields (some doc) =
      if validate_fields fields doc then Status.ok else Status.fail Error.schema_validation_failed

  unfoldable pub validate_object : (Bytes → Option (Json N)) → Params → Bytes → Status
  unfolding validate_fields
  validate_object deserialize fields json = check fields (document deserialize json)
