-- ===== src/Mcp/Server/Calls.antt =====
-- `initialize` and `tools/call` of src/mcp/McpServer.cpp, and `resources/list`, which reads the clock
-- of the store.
use edge_llm.Transport.Http.{is_some}
use edge_llm.Base.{
  ℕ, suc, ◌+◌, ◌%◌, ◌^◌, Bool, false, not, ◌&&◌, ◌||◌, Option, none, some, List, [], ◌∷◌, ◌++◌,
  Bytes, bytes, beq, if◌then◌else◌, map,
}
use edge_llm.Base.Map.{has}
use edge_llm.Core.{Status, Result, is_ok, error_string}
use edge_llm.Hal.Codec.{Kv}
use edge_llm.Hal.Secrets.{SecretStore}
use edge_llm.Llm.Messages.{ToolResult}
use edge_llm.Mcp.EdgeStore
use edge_llm.Mcp.EdgeStore.{EdgeStore, Expiry, live_keys}
use edge_llm.Mcp.Server.{
  JsonLib, McpServer, error_reply, result_reply, tool_reply, itos, invalid_params,
}
use edge_llm.Mcp.Server.Lists.{listed_resources, key_json, is_denied}
use edge_llm.Tools.Json.{Json, Members, get, is_null, obj, some_items}
use edge_llm.Tools.Args.{as_text, tool_call_args, has_arg, get_string}
use edge_llm.Tools.Registry.{Tool, ToolRegistry, find, dispatch}

-- A response, with the server behind it and the session that it starts.
pub record Answer (W S N : Type 0) : Type 0 where
  pub server : McpServer W S N
  pub response : Json N
  pub session : Option Bytes

-- How many keys have a deadline, which `keys` compares with the clock.
abbrev timed_keys : Kv → Expiry → ℕ
timed_keys [] e = 0
timed_keys ((k, v) ∷ m) e = if has k e then suc (timed_keys m e) else timed_keys m e

abbrev pub status_text : Status → Bytes
status_text Status.ok = bytes "stored"
status_text (Status.fail e) = error_string e

abbrev pub member_if : {N : Type 0} → Bool → Bytes → List (Bytes × Json N)
member_if b key = if b then (key, Json.object Members.no_members) ∷ [] else []

abbrev pub protocol : Option Bytes → Bytes → Bytes
protocol none own = own
protocol (some []) own = own
protocol (some (c ∷ s)) own = c ∷ s

-- The keys of the store, and the store with the readings of its clock.
abbrev pub listed_keys :
    {S N : Type 0} → Option (EdgeStore S) → Option (EdgeStore S) × List (Json N)
listed_keys none = (none, [])
listed_keys (some st) =
    let taken : ℕ = elim st.clock [ none ↦ 0 | some clock ↦ timed_keys st.values st.expiry ] in
    (some (record st { reads = st.reads + taken }), map key_json (live_keys st.reads st.values st))

-- The text of the arguments of a call.
unfoldable pub arguments_of : {N : Type 0} → JsonLib N → Json N → Bytes
arguments_of lib v = if is_null v then bytes "{}" else lib.serialize v

module _ {W S N : Type 0} where
  abbrev pub answer : McpServer W S N → Json N → Answer W S N
  answer s r = record { server = s; response = r; session = none }

  unfoldable pub initialize : Json N → Json N → McpServer W S N → Answer W S N
  unfolding result_reply itos as_text
  initialize id params s =
      let counter = (s.session_counter + 1) % 2 ^ 32 in
      let instructions : List (Bytes × Json N) = elim s.instructions [
        | [] ↦ []
        | c ∷ t ↦ (bytes "instructions", Json.text (c ∷ t)) ∷ []
      ] in
      record {
        server = record s { session_counter = counter };
        response = result_reply id (
            Json.object (
              obj (
                ((
                  bytes "protocolVersion",
                  Json.text (
                      protocol (as_text (get (bytes "protocolVersion") params)) s.protocol_version),
                )
                  ∷ (
                    bytes "capabilities",
                    Json.object (
                        obj (
                          member_if (is_some s.tools || is_some s.store) (bytes "tools")
                          ++ (member_if (is_some s.resources || is_some s.store) (bytes "resources")
                              ++ member_if (is_some s.prompts) (bytes "prompts")))),
                  )
                  ∷ (
                    bytes "serverInfo",
                    Json.object (
                        obj (
                          (bytes "name", Json.text s.name)
                          ∷ (bytes "version", Json.text s.version)
                          ∷ [])),
                  )
                  ∷ [])
                ++ instructions)));
        session = some (bytes "edgellm-" ++ itos counter);
      }

  unfoldable pub resources_list : Json N → McpServer W S N → Answer W S N
  unfolding result_reply live_keys
  resources_list id s =
      let (store, keys) = listed_keys s.store in
      answer (record s { store = store })
        (result_reply id (
          Json.object (
            obj (
              (bytes "resources", Json.array (some_items (listed_resources s.resources ++ keys)))
              ∷ []))))

  module _ (lib : JsonLib N) where
    unfoldable pub refuse : Json N → Bytes → McpServer W S N → Answer W S N
    unfolding error_reply
    refuse id message s = answer s (error_reply lib id invalid_params message)

    -- The answer of a tool of the registry.
    unfoldable pub tool_answer : Json N → McpServer W S N → Result ToolResult → Answer W S N
    unfolding tool_reply refuse error_string
    tool_answer id s (Result.ok r) = answer s (tool_reply id r.content r.is_error)
    tool_answer id s (Result.fail e) = refuse id (error_string e) s

    abbrev pub registry_found :
        Json N
        → ToolRegistry W N
        → Bytes
        → Bytes
        → Option (Tool W N)
        → McpServer W S N
        → Answer W S N
    registry_found id ts name args none s = refuse id (bytes "Unknown tool") s
    registry_found id ts name args (some t) s =
        let (w, r) = dispatch lib.is_long lib.deserialize ts name args s.world in
        if is_denied t
        then refuse id (bytes "Tool is a disabled write operation") s
        else tool_answer id (record s { world = w }) r

    -- A tool of the registry.
    unfoldable pub registry_call :
        Json N → Bytes → Bytes → Option (ToolRegistry W N) → McpServer W S N → Answer W S N
    unfolding find is_denied dispatch tool_answer
    registry_call id name args none s = refuse id (bytes "Unknown tool") s
    registry_call id name args (some ts) s = registry_found id ts name args (find name ts) s

    module _ (o : SecretStore S) where
      -- `kv_set` and `kv_delete`, on the store.
      unfoldable pub kv_set : Json N → Bytes → EdgeStore S → McpServer W S N → Answer W S N
      unfolding has_arg get_string tool_call_args EdgeStore.set error_string
      kv_set id args_json st s =
          let a = tool_call_args lib.deserialize args_json in
          let (st', status) =
            EdgeStore.set o (get_string a (bytes "key") []) (get_string a (bytes "value") []) st in
          if not (has_arg a (bytes "key")) || not (has_arg a (bytes "value"))
          then refuse id (bytes "kv_set requires key and value") s
          else answer (record s { store = some st' })
              (tool_reply id (status_text status) (not (is_ok status)))

      unfoldable pub kv_delete : Json N → Bytes → EdgeStore S → McpServer W S N → Answer W S N
      unfolding has_arg get_string tool_call_args EdgeStore.remove
      kv_delete id args_json st s =
          let a = tool_call_args lib.deserialize args_json in
          if not (has_arg a (bytes "key"))
          then refuse id (bytes "kv_delete requires key") s
          else answer
              (record s { store = some (EdgeStore.remove o (get_string a (bytes "key") []) st).0 })
              (tool_reply id (bytes "deleted") false)

      -- The tools of the store go before those of the registry.
      unfoldable pub named_call :
          Json N → Bytes → Bytes → Option (EdgeStore S) → McpServer W S N → Answer W S N
      unfolding kv_set kv_delete registry_call
      named_call id name args none s = registry_call id name args s.tools s
      named_call id name args (some st) s =
          if s.store_writes && beq name (bytes "kv_set")
          then kv_set id args st s
          else if s.store_writes && beq name (bytes "kv_delete")
          then kv_delete id args st s
          else registry_call id name args s.tools s

      abbrev pub tool_named : Json N → Json N → Option Bytes → McpServer W S N → Answer W S N
      tool_named id args none s = refuse id (bytes "Missing tool name") s
      tool_named id args (some name) s = named_call id name (arguments_of lib args) s.store s

      unfoldable pub tools_call : Json N → Json N → McpServer W S N → Answer W S N
      unfolding named_call arguments_of as_text refuse
      tools_call id params s =
          tool_named id (get (bytes "arguments") params) (as_text (get (bytes "name") params)) s
