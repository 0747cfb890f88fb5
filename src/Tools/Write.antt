-- ===== src/Tools/Write.antt =====
-- `writeObjectSchema` and `allFieldsRequired` of src/tools/SchemaUtil.cpp: the JSON Schema of some
-- fields.
pub mod Strict
pub mod Required
use edge_llm.Base.{Bool, true, false, not, ◌&&◌, ◌||◌, List, [], ◌∷◌, Bytes, bytes, if◌then◌else◌}
use edge_llm.Tools.Json.{Json, Items, Members, put}
use edge_llm.Tools.Schema.{
  ParamHead, ToolParam, Params, head, no_children, is_object_type, is_array_type, param_type_name,
}

unfoldable mutual
  pub all_fields_required : Params → Bool
  all_fields_required Params.no_params = true
  all_fields_required (Params.param p ps) = param_required p && all_fields_required ps

  param_required : ToolParam → Bool
  param_required (ToolParam.tool_param p children) =
      p.required && (no_children children || all_fields_required children)

unfoldable pub any_required : Params → Bool
any_required Params.no_params = false
any_required (Params.param p ps) = (head p).required || any_required ps

module _ {N : Type 0} where
  unfoldable pub required_names : Params → Items N
  required_names Params.no_params = Items.no_items
  required_names (Params.param p ps) =
      let rest = required_names ps in
      if (head p).required then Items.item (Json.text (head p).name) rest else rest

  abbrev pub texts : List Bytes → Items N
  texts [] = Items.no_items
  texts (s ∷ l) = Items.item (Json.text s) (texts l)

  -- `out` behind the writing of an object's schema; `props` is what the loop over the fields wrote.
  unfoldable pub object_schema : Bool → Params → Members N → Members N → Members N
  unfolding any_required required_names
  object_schema strict fields props out =
      let out =
        put (bytes "properties") (Json.object props)
          (put (bytes "type") (Json.text (bytes "object")) out) in
      let out =
        if any_required fields
        then put (bytes "required") (Json.array (required_names fields)) out
        else out in
      if strict then put (bytes "additionalProperties") (Json.bool false) out else out

  -- The description and the enumeration are written where they are not empty.
  abbrev pub write_description : Bytes → Members N → Members N
  write_description [] out = out
  write_description (c ∷ s) out = put (bytes "description") (Json.text (c ∷ s)) out

  abbrev pub write_enum : List Bytes → Members N → Members N
  write_enum [] out = out
  write_enum (e ∷ es) out = put (bytes "enum") (Json.array (texts (e ∷ es))) out

  unfoldable pub write_head : ParamHead → Members N
  unfolding param_type_name
  write_head p =
      let out = put (bytes "type") (Json.text (param_type_name p.type)) Members.no_members in
      write_enum p.enum_values (write_description p.description out)

  -- What is nested in a field; `inner` writes the schema of the children.
  unfoldable pub write_nested : ParamHead → Params → (Members N → Members N) → Members N → Members N
  unfolding param_type_name
  write_nested p children inner out =
      if is_object_type p.type && not (no_children children)
      then inner out
      else if is_array_type p.type && p.has_items
      then put (bytes "items")
          (Json.object (
            if is_object_type p.item_type && not (no_children children)
            then inner Members.no_members
            else put (bytes "type") (Json.text (param_type_name p.item_type)) Members.no_members))
          out
      else out

  unfoldable mutual
    unfolding object_schema write_head write_nested

    -- The loop over the fields, which fills `props`.
    pub write_fields : Bool → Params → Members N → Members N
    write_fields strict Params.no_params props = props
    write_fields strict (Params.param p ps) props =
        write_fields strict ps (put (head p).name (Json.object (write_param_schema strict p)) props)

    pub write_param_schema : Bool → ToolParam → Members N
    write_param_schema strict (ToolParam.tool_param p children) =
        let props = write_fields strict children Members.no_members in
        write_nested p children (object_schema strict children props) (write_head p)

  unfoldable pub write_object_schema : Bool → Params → Members N → Members N
  unfolding object_schema write_fields
  write_object_schema strict fields out =
      object_schema strict fields (write_fields strict fields Members.no_members) out
