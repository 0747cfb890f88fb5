-- ===== src/Mcp/Server/Post.antt =====
-- `McpServer::handlePost` of src/mcp/McpServer.cpp: one POST of a request or of a batch of requests.
use edge_llm.Base.{
  ℕ, Bool, true, not, ◌&&◌, ◌||◌, Option, none, some, List, [], ◌∷◌, ◌++◌, Bytes, bytes, beq,
  if◌then◌else◌, starts_with,
}
use edge_llm.Hal.Secrets.{SecretStore}
use edge_llm.Mcp.Server.{
  JsonLib, McpServer, McpReply, no_reply, error_reply, result_reply, auth_required, parse_error,
  invalid_request, method_not_found, unauthorized,
}
use edge_llm.Mcp.Server.Lists.{listed_tools, kv_tools, listed_prompts, template_json}
use edge_llm.Mcp.Server.Calls.{Answer, answer, initialize, resources_list, tools_call}
use edge_llm.Mcp.Server.Fetch.{resources_read, prompts_get}
use edge_llm.Tools.Json.{Json, Items, Members, get, is_null, obj, some_items}
use edge_llm.Tools.Args.{as_text}

-- What came of one request: a notification has no response.
pub record Processed (W S N : Type 0) : Type 0 where
  pub server : McpServer W S N
  pub response : Option (Json N)
  pub session : Option Bytes

abbrev pub session_reply : Option Bytes → McpReply → McpReply
session_reply none r = r
session_reply (some id) r = record r { session_id = id; set_session = true }

-- A later `initialize` of a batch gives the session.
abbrev pub last_session : Option Bytes → Option Bytes → Option Bytes
last_session first none = first
last_session first (some id) = some id

abbrev pub with_response : {N : Type 0} → Option (Json N) → Items N → Items N
with_response none rest = rest
with_response (some r) rest = Items.item r rest

-- The responses of a batch, if there are any.
abbrev pub batch_response : {N : Type 0} → Items N → Option (Json N)
batch_response Items.no_items = none
batch_response (Items.item v vs) = some (Json.array (Items.item v vs))

abbrev pub accepted : McpReply
accepted = record no_reply { is_notification_only = true; http_status = 202 }

module _ {N : Type 0} (lib : JsonLib N) where
  abbrev pub rejection : ℕ → ℕ → Bytes → McpReply
  rejection status code message = record no_reply {
    body = lib.serialize (error_reply lib Json.null code message);
    http_status = status;
  }

  abbrev pub body_reply : Option (Json N) → McpReply
  body_reply none = accepted
  body_reply (some v) = record no_reply { body = lib.serialize v }

module _ {W S N : Type 0} where
  abbrev pub silent : McpServer W S N → Processed W S N
  silent s = record { server = s; response = none; session = none }

  abbrev pub responded : Answer W S N → Processed W S N
  responded a = record { server = a.server; response = some a.response; session = a.session }

  -- The methods that only list what the server holds.
  unfoldable pub tools_list : Json N → McpServer W S N → Answer W S N
  unfolding result_reply kv_tools
  tools_list id s =
      let kv : List (Json N) = elim s.store [
        | none ↦ []
        | some st ↦ if s.store_writes then kv_tools else []
      ] in
      answer s (
        result_reply id (
          Json.object
            (obj ((bytes "tools", Json.array (some_items (listed_tools s.tools ++ kv))) ∷ []))))

  unfoldable pub templates_list : Json N → McpServer W S N → Answer W S N
  unfolding result_reply
  templates_list id s =
      let l : List (Json N) = elim s.store [ none ↦ [] | some st ↦ template_json ∷ [] ] in
      answer s (
        result_reply id
          (Json.object (obj ((bytes "resourceTemplates", Json.array (some_items l)) ∷ []))))

  unfoldable pub prompts_list : Json N → McpServer W S N → Answer W S N
  unfolding result_reply
  prompts_list id s = answer s (
      result_reply id (
        Json.object
          (obj ((bytes "prompts", Json.array (some_items (listed_prompts s.prompts))) ∷ []))))

  module _ (lib : JsonLib N) (o : SecretStore S) where
    -- The chain of tests on the method of a request that has an id.
    unfoldable pub method_answer : Bytes → Json N → Json N → McpServer W S N → Answer W S N
    unfolding initialize tools_list tools_call resources_list templates_list resources_read
        prompts_list prompts_get result_reply error_reply
    method_answer m id params s =
        if beq m (bytes "initialize")
        then initialize id params s
        else if beq m (bytes "ping")
        then answer s (result_reply id (Json.object Members.no_members))
        else if beq m (bytes "tools/list")
        then tools_list id s
        else if beq m (bytes "tools/call")
        then tools_call lib o id params s
        else if beq m (bytes "resources/list")
        then resources_list id s
        else if beq m (bytes "resources/templates/list")
        then templates_list id s
        else if beq m (bytes "resources/read")
        then resources_read lib id params s
        else if beq m (bytes "prompts/list")
        then prompts_list id s
        else if beq m (bytes "prompts/get")
        then prompts_get lib id params s
        else answer s (error_reply lib id method_not_found (bytes "Method not found"))

    abbrev pub process_method : Option Bytes → Json N → Json N → McpServer W S N → Processed W S N
    process_method none id params s =
        if is_null id
        then silent s
        else responded (answer s (error_reply lib id invalid_request (bytes "Invalid Request")))
    process_method (some m) id params s =
        if starts_with (bytes "notifications/") m || is_null id
        then silent s
        else responded (method_answer m id params s)

    -- `processOne`
    unfoldable pub process_one : Json N → McpServer W S N → Processed W S N
    unfolding method_answer as_text
    process_one req s =
        process_method (as_text (get (bytes "method") req)) (get (bytes "id") req)
          (get (bytes "params") req) s

    -- The loop over a batch: the server behind it, the responses and the session.
    unfoldable pub process_batch :
        Items N → Option Bytes → McpServer W S N → McpServer W S N × (Items N × Option Bytes)
    unfolding process_one
    process_batch Items.no_items session s = (s, (Items.no_items, session))
    process_batch (Items.item req reqs) session s =
        let p = process_one req s in
        let (s', (rest, last)) = process_batch reqs (last_session session p.session) p.server in
        (s', (with_response p.response rest, last))

    abbrev pub post_batch : Items N → McpServer W S N → McpServer W S N × McpReply
    post_batch Items.no_items s = (s, rejection lib 400 invalid_request (bytes "Invalid Request"))
    post_batch (Items.item v vs) s =
        let (s', (responses, session)) = process_batch (Items.item v vs) none s in
        (s', session_reply session (body_reply lib (batch_response responses)))

    abbrev pub post_one : Json N → McpServer W S N → McpServer W S N × McpReply
    post_one req s =
        let p = process_one req s in (p.server, session_reply p.session (body_reply lib p.response))

    abbrev pub post_document : Option (Json N) → McpServer W S N → McpServer W S N × McpReply
    post_document none s = (s, rejection lib 400 parse_error (bytes "Parse error"))
    post_document (some (Json.array vs)) s = post_batch vs s
    post_document (some doc) s = post_one doc s

    unfoldable pub handle_post : Bytes → Bool → McpServer W S N → McpServer W S N × McpReply
    unfolding process_batch error_reply
    handle_post body authorized s =
        if auth_required s && not authorized
        then (s, rejection lib 401 unauthorized (bytes "Unauthorized"))
        else post_document (lib.deserialize body) s
