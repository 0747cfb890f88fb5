-- ===== src/Mcp/Server.antt =====
-- src/mcp/McpServer.{h,cpp}: the server of the protocol. A request and a response are JSON values;
-- the registries and the store that the server points to are held with its state, and `world` is
-- what the handlers change. A handler that reaches the store by itself is not modelled.
pub mod Lists
pub mod Calls
pub mod Fetch
pub mod Post
pub mod Effects
pub mod Safe
pub mod SafeFetch
pub mod Outcomes
pub mod Batch
pub mod Gate
mod Tests
use edge_llm.Transport.Http.{is_empty}
use edge_llm.Base.{
  ℕ, zero, suc, ◌+◌, ◌/◌, ◌%◌, ◌^◌, Bool, true, false, not, ◌&&◌, Option, none, some, List, [], ◌∷◌,
  ◌++◌, Bytes, bytes, beq, ◌==◌, ltb, if◌then◌else◌, length,
}
use edge_llm.Mcp.EdgeStore.{EdgeStore}
use edge_llm.Mcp.Resources.{Resource}
use edge_llm.Mcp.Prompts.{Prompt}
use edge_llm.Tools.Json.{Json, Items, Members, is_null, obj}
use edge_llm.Tools.Registry.{ToolRegistry}

-- What the server calls of the JSON library: the parser, the printer, whether a number fits a
-- `long`, and the number below zero of an error code.
pub record JsonLib (N : Type 0) : Type 0 where
  pub deserialize : Bytes → Option (Json N)
  pub serialize : Json N → Bytes
  pub is_long : N → Bool
  pub negative : ℕ → N

pub record McpServer (W S N : Type 0) : Type 0 where
  pub world : W
  pub name : Bytes
  pub version : Bytes
  pub instructions : Bytes
  pub protocol_version : Bytes
  pub auth_token : Bytes
  pub tools : Option (ToolRegistry W N)
  pub resources : Option (List (Resource W))
  pub prompts : Option (List (Prompt W N))
  pub store : Option (EdgeStore S)
  pub store_writes : Bool
  pub session_counter : ℕ

pub record McpReply : Type 0 where
  pub body : Bytes
  pub http_status : ℕ
  pub is_notification_only : Bool
  pub session_id : Bytes
  pub set_session : Bool

abbrev pub no_reply : McpReply
no_reply = record {
  body = [];
  http_status = 200;
  is_notification_only = false;
  session_id = [];
  set_session = false;
}

-- The error codes, without their sign.
abbrev pub parse_error : ℕ
parse_error = 32700

abbrev pub invalid_request : ℕ
invalid_request = 32600

abbrev pub method_not_found : ℕ
method_not_found = 32601

abbrev pub invalid_params : ℕ
invalid_params = 32602

abbrev pub resource_not_found : ℕ
resource_not_found = 32002

abbrev pub unauthorized : ℕ
unauthorized = 32001

-- The loop over the bytes of two strings of one length: no difference was found.
unfoldable pub same_bytes : Bytes → Bytes → Bool
same_bytes [] b = true
same_bytes (x ∷ a) [] = true
same_bytes (x ∷ a) (y ∷ b) = x == y && same_bytes a b

unfoldable pub constant_time_equals : Bytes → Bytes → Bool
unfolding same_bytes
constant_time_equals a b = length a == length b && same_bytes a b

-- The loop of `itos` over the free bytes of its buffer, from the back.
unfoldable pub itos_loop : ℕ → ℕ → Bytes → Bytes
itos_loop zero v digits = digits
itos_loop (suc i) v digits =
    let more = itos_loop i (v / 10) ((b'0' + v % 10) ∷ digits) in if ltb 0 v then more else digits

unfoldable pub itos : ℕ → Bytes
unfolding itos_loop
itos v = if v == 0 then bytes "0" else itos_loop 24 v []

module _ {N : Type 0} where
  -- A response with a result.
  unfoldable pub result_reply : Json N → Json N → Json N
  result_reply id r = Json.object (
      obj
        ((bytes "jsonrpc", Json.text (bytes "2.0")) ∷ (bytes "id", id) ∷ (bytes "result", r) ∷ []))

  -- `writeToolResult`
  unfoldable pub tool_reply : Json N → Bytes → Bool → Json N
  unfolding result_reply
  tool_reply id text is_error = result_reply id (
      Json.object (
        obj (
          (
            bytes "content",
            Json.array (
                Items.item
                  (Json.object (
                    obj (
                      (bytes "type", Json.text (bytes "text"))
                      ∷ (bytes "text", Json.text text)
                      ∷ [])))
                  Items.no_items),
          )
          ∷ (bytes "isError", Json.bool is_error)
          ∷ [])))

module _ {N : Type 0} (lib : JsonLib N) where
  -- `writeError`
  unfoldable pub error_reply : Json N → ℕ → Bytes → Json N
  error_reply id code message = Json.object (
      obj (
        (bytes "jsonrpc", Json.text (bytes "2.0"))
        ∷ (bytes "id", if is_null id then Json.null else id)
        ∷ (
          bytes "error",
          Json.object (
              obj (
                (bytes "code", Json.number (lib.negative code))
                ∷ (bytes "message", Json.text message)
                ∷ [])),
        )
        ∷ []))

module _ {W S N : Type 0} where
  abbrev pub auth_required : McpServer W S N → Bool
  auth_required s = not (is_empty s.auth_token)

  unfoldable pub check_auth : McpServer W S N → Bytes → Bool
  unfolding constant_time_equals
  check_auth s authorization_header =
      if not (auth_required s)
      then true
      else constant_time_equals authorization_header (bytes "Bearer " ++ s.auth_token)
