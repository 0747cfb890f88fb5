-- ===== src/Llm/Messages.antt =====
-- src/llm/Message.h, and the calls and results of src/tools/ToolTypes.h that a message carries.
use edge_llm.Base.{Bool, false, not, List, [], Bytes, ◌==◌, length}

pub data Role : Type 0 where
  system user assistant tool : Role

pub record ToolCall : Type 0 where
  pub id : Bytes
  pub name : Bytes
  pub arguments_json : Bytes

pub record ToolResult : Type 0 where
  pub content : Bytes
  pub is_error : Bool

pub record Message : Type 0 where
  pub role : Role
  pub content : Bytes
  pub image_base64 : Bytes
  pub image_mime : Bytes
  pub tool_calls : List ToolCall
  pub tool_call_id : Bytes
  pub tool_name : Bytes
  pub is_tool_error : Bool

-- `Message(role, content)`
abbrev pub message : Role → Bytes → Message
message role content = record {
  role = role;
  content = content;
  image_base64 = [];
  image_mime = [];
  tool_calls = [];
  tool_call_id = [];
  tool_name = [];
  is_tool_error = false;
}

unfoldable pub has_image : Message → Bool
has_image m = not (length m.image_base64 == 0)

unfoldable pub user_with_image : Bytes → Bytes → Bytes → Message
user_with_image text image mime = record (message Role.user text) {
  image_base64 = image;
  image_mime = mime;
}

unfoldable pub tool_result : ToolCall → ToolResult → Message
tool_result call result = record (message Role.tool result.content) {
  tool_call_id = call.id;
  tool_name = call.name;
  is_tool_error = result.is_error;
}
