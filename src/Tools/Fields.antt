-- ===== src/Tools/Fields.antt =====
-- src/tools/FieldSpec.h, and the fields that `ToolBuilder` of src/tools/ToolRegistry.cpp builds in
-- the same way. A specification is the vector of its fields.
use edge_llm.Base.{Bool, true, false, List, [], Bytes}
use edge_llm.Tools.Schema.{ParamType, ParamHead, ToolParam, Params, push}

-- A default `ToolParam` with a name, a type, a description and `required`.
abbrev basic : Bytes → ParamType → Bytes → Bool → ParamHead
basic name type description required = record {
  name = name;
  description = description;
  type = type;
  required = required;
  enum_values = [];
  item_type = ParamType.string;
  has_items = false;
}

unfoldable pub plain_param : Bytes → ParamType → Bytes → Bool → ToolParam
plain_param name type description required =
    ToolParam.tool_param (basic name type description required) Params.no_params

unfoldable pub enum_param : Bytes → Bytes → List Bytes → Bool → ToolParam
enum_param name description allowed required =
    ToolParam.tool_param
      (record (basic name ParamType.string description required) { enum_values = allowed })
      Params.no_params

unfoldable pub object_param : Bytes → Bytes → Params → Bool → ToolParam
object_param name description shape required =
    ToolParam.tool_param (basic name ParamType.object description required) shape

unfoldable pub array_param : Bytes → Bytes → ParamType → Bool → ToolParam
array_param name description item_type required =
    ToolParam.tool_param
      (record (basic name ParamType.array description required) {
        item_type = item_type;
        has_items = true;
      })
      Params.no_params

unfoldable pub shaped_array_param : Bytes → Bytes → Params → Bool → ToolParam
shaped_array_param name description item_shape required =
    ToolParam.tool_param
      (record (basic name ParamType.array description required) {
        item_type = ParamType.object;
        has_items = true;
      })
      item_shape

-- The methods of `FieldSpec`.
unfoldable pub field : Bytes → ParamType → Bytes → Bool → Params → Params
unfolding plain_param
field name type description required spec = push spec (plain_param name type description required)

unfoldable pub enum_field : Bytes → Bytes → List Bytes → Bool → Params → Params
unfolding enum_param
enum_field name description allowed required spec =
    push spec (enum_param name description allowed required)

unfoldable pub object_field : Bytes → Bytes → Params → Bool → Params → Params
unfolding object_param
object_field name description shape required spec =
    push spec (object_param name description shape required)

unfoldable pub array_field : Bytes → Bytes → ParamType → Bool → Params → Params
unfolding array_param
array_field name description item_type required spec =
    push spec (array_param name description item_type required)

unfoldable pub shaped_array_field : Bytes → Bytes → Params → Bool → Params → Params
unfolding shaped_array_param
shaped_array_field name description item_shape required spec =
    push spec (shaped_array_param name description item_shape required)
