-- ===== src/Llm/Schema.antt =====
-- src/llm/ResponseSchema.h: the fields of the answer that a model must give.
use edge_llm.Base.{Bool, Option, List, Bytes}
use edge_llm.Core.{Status}
use edge_llm.Tools.Json.{Json}
use edge_llm.Tools.Schema.{ParamType, Params, validate_object}
use edge_llm.Tools.Fields.{field, enum_field, object_field, array_field, shaped_array_field}

pub record ResponseSchema : Type 0 where
  pub name : Bytes
  pub spec : Params

unfoldable pub schema_field : Bytes → ParamType → Bytes → Bool → ResponseSchema → ResponseSchema
unfolding field
schema_field name type description required s = record s {
  spec = field name type description required s.spec;
}

unfoldable pub schema_enum_field :
    Bytes → Bytes → List Bytes → Bool → ResponseSchema → ResponseSchema
unfolding enum_field
schema_enum_field name description allowed required s = record s {
  spec = enum_field name description allowed required s.spec;
}

unfoldable pub schema_object_field : Bytes → Bytes → Params → Bool → ResponseSchema → ResponseSchema
unfolding object_field
schema_object_field name description shape required s = record s {
  spec = object_field name description shape required s.spec;
}

unfoldable pub schema_array_field :
    Bytes → Bytes → ParamType → Bool → ResponseSchema → ResponseSchema
unfolding array_field
schema_array_field name description item_type required s = record s {
  spec = array_field name description item_type required s.spec;
}

unfoldable pub schema_shaped_array_field :
    Bytes → Bytes → Params → Bool → ResponseSchema → ResponseSchema
unfolding shaped_array_field
schema_shaped_array_field name description item_shape required s = record s {
  spec = shaped_array_field name description item_shape required s.spec;
}

unfoldable pub validate_response :
    {N : Type 0} → (N → Bool) → (Bytes → Option (Json N)) → ResponseSchema → Bytes → Status
unfolding validate_object
validate_response is_long deserialize s json = validate_object is_long deserialize s.spec json
