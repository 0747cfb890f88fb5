-- ===== src/Mcp/Server/Safe.antt =====
-- Every method of src/mcp/McpServer.cpp has no effect but the permitted ones, and answers under the
-- id of its request.
use edge_llm.Base.{
  ◌≡◌, refl, ◌⊎◌, inl, inr, Bool, true, false, not, ◌&&◌, ◌||◌, Option, none, some, Bytes, bytes,
  beq, Bool-cases, [],
}
use edge_llm.Core.{Result, is_ok}
use edge_llm.Hal.Secrets.{SecretStore}
use edge_llm.Llm.Messages.{ToolResult}
use edge_llm.Mcp.EdgeStore.{EdgeStore}
use edge_llm.Mcp.Server.{JsonLib, McpServer, tool_reply}
use edge_llm.Mcp.Server.Lists.{is_denied}
use edge_llm.Mcp.Server.Calls.{
  initialize, resources_list, arguments_of, refuse, tool_answer, registry_found, registry_call,
  kv_set, kv_delete, named_call, tools_call, tool_named,
}
use edge_llm.Mcp.Server.Effects.{IsReply, Effect, Effects, once, Good, if-Good}
use edge_llm.Tools.Json.{Json, get}
use edge_llm.Tools.Args.{ToolCallArgs, tool_call_args, as_text, get_string, has_arg}
use edge_llm.Tools.Registry.{Tool, ToolRegistry, find, call_tool, dispatch, validate}

and_left : (a b : Bool) → (a && b) ≡ true → a ≡ true
and_left true b h = refl
and_left false b h = h

module _ {W S N : Type 0} (lib : JsonLib N) (o : SecretStore S) where
  pub refuse-Good :
      (id : Json N) (message : Bytes) (s : McpServer W S N)
      → Good lib o id s (refuse lib id message s)
  unfolding refuse
  refuse-Good id message s = record {
    effects = Effects.none_left;
    reply = IsReply.an_error _ message;
  }

  tool_answer-Good :
      (id : Json N) (s s' : McpServer W S N) (r : Result ToolResult)
      → Effects lib o s s'
      → Good lib o id s (tool_answer lib id s' r)
  unfolding tool_answer refuse tool_reply
  tool_answer-Good id s s' (Result.ok r) e = record { effects = e; reply = IsReply.a_result _ }
  tool_answer-Good id s s' (Result.fail x) e = record { effects = e; reply = IsReply.an_error _ _ }

  -- A call of a tool leaves the world alone or runs its handler once.
  call_tool-world :
      (name args : Bytes) (t : Tool W N) (h : Option (ToolCallArgs N → W → W × ToolResult)) (w : W)
      → ((call_tool lib.is_long lib.deserialize name args t h w).0 ≡ w)
        ⊎ ((handler : ToolCallArgs N → W → W × ToolResult) × ((h ≡ some handler)
              × ((call_tool lib.is_long lib.deserialize name args t h w).0
                  ≡ (handler (tool_call_args lib.deserialize args) w).0)))
  unfolding call_tool
  call_tool-world name args t none w = inl refl
  call_tool-world name args t (some handler) w =
      elim (Bool-cases (is_ok (validate lib.is_long lib.deserialize t args))) [
        | inl y ↦ inr (handler, (refl, rw y refl))
        | inr n ↦ inl (rw n refl)
      ]

  dispatch-Effects :
      (name args : Bytes) (ts : ToolRegistry W N) (t : Tool W N) (s : McpServer W S N)
      → s.tools ≡ some ts
      → find name ts ≡ some t
      → is_denied t ≡ false
      → Effects lib o s
          (record s { world = (dispatch lib.is_long lib.deserialize ts name args s.world).0 })
  unfolding dispatch
  dispatch-Effects name args ts t s q f d = elim (call_tool-world name args t t.handler s.world) [
    | inl e ↦ rw (f, e) Effects.none_left
    | inr (handler, (h, e)) ↦
        rw (f, e) (once lib o (Effect.runs_tool name (tool_call_args lib.deserialize args) q f d h))
  ]

  registry_found-Good :
      (id : Json N) (ts : ToolRegistry W N) (name args : Bytes) (f : Option (Tool W N))
      (s : McpServer W S N)
      → s.tools ≡ some ts
      → find name ts ≡ f
      → Good lib o id s (registry_found lib id ts name args f s)
  registry_found-Good id ts name args none s q f = refuse-Good id _ s
  registry_found-Good id ts name args (some t) s q f =
      if-Good lib o (is_denied t) (λ d. refuse-Good id _ s)
        (λ d. tool_answer-Good id s _ _ (dispatch-Effects name args ts t s q f d))

  registry_call-Good :
      (id : Json N) (name args : Bytes) (ts : Option (ToolRegistry W N)) (s : McpServer W S N)
      → s.tools ≡ ts
      → Good lib o id s (registry_call lib id name args ts s)
  unfolding registry_call
  registry_call-Good id name args none s q = refuse-Good id _ s
  registry_call-Good id name args (some ts) s q =
      registry_found-Good id ts name args (find name ts) s q refl

  kv_set-Good :
      (id : Json N) (args : Bytes) (st : EdgeStore S) (s : McpServer W S N)
      → s.store_writes ≡ true
      → s.store ≡ some st
      → Good lib o id s (kv_set lib o id args st s)
  unfolding kv_set tool_reply
  kv_set-Good id args st s w q =
      let a = tool_call_args lib.deserialize args in
      if-Good lib o (not (has_arg a (bytes "key")) || not (has_arg a (bytes "value")))
        (λ _. refuse-Good id _ s)
        (λ _. record {
          effects = once lib o (
              Effect.sets_store (get_string a (bytes "key") []) (get_string a (bytes "value") []) w
                q);
          reply = IsReply.a_result _;
        })

  kv_delete-Good :
      (id : Json N) (args : Bytes) (st : EdgeStore S) (s : McpServer W S N)
      → s.store_writes ≡ true
      → s.store ≡ some st
      → Good lib o id s (kv_delete lib o id args st s)
  unfolding kv_delete tool_reply
  kv_delete-Good id args st s w q =
      let a = tool_call_args lib.deserialize args in
      if-Good lib o (not (has_arg a (bytes "key"))) (λ _. refuse-Good id _ s)
        (λ _. record {
          effects = once lib o (Effect.removes_from_store (get_string a (bytes "key") []) w q);
          reply = IsReply.a_result _;
        })

  named_call-Good :
      (id : Json N) (name args : Bytes) (st : Option (EdgeStore S)) (s : McpServer W S N)
      → s.store ≡ st
      → Good lib o id s (named_call lib o id name args st s)
  unfolding named_call
  named_call-Good id name args none s q = registry_call-Good id name args s.tools s refl
  named_call-Good id name args (some st) s q =
      if-Good lib o (s.store_writes && beq name (bytes "kv_set"))
        (λ h. kv_set-Good id args st s (and_left s.store_writes _ h) q)
        (λ _.
          if-Good lib o (s.store_writes && beq name (bytes "kv_delete"))
            (λ h. kv_delete-Good id args st s (and_left s.store_writes _ h) q)
            (λ _. registry_call-Good id name args s.tools s refl))

  tool_named-Good :
      (id args : Json N) (name : Option Bytes) (s : McpServer W S N)
      → Good lib o id s (tool_named lib o id args name s)
  tool_named-Good id args none s = refuse-Good id _ s
  tool_named-Good id args (some name) s =
      named_call-Good id name (arguments_of lib args) s.store s refl

  pub tools_call-Good :
      (id params : Json N) (s : McpServer W S N) → Good lib o id s (tools_call lib o id params s)
  unfolding tools_call
  tools_call-Good id params s =
      tool_named-Good id (get (bytes "arguments") params) (as_text (get (bytes "name") params)) s

  pub initialize-Good :
      (id params : Json N) (s : McpServer W S N) → Good lib o id s (initialize id params s)
  unfolding initialize
  initialize-Good id params s = record {
    effects = once lib o Effect.starts_session;
    reply = IsReply.a_result _;
  }

  pub resources_list-Good :
      (id : Json N) (s : McpServer W S N) → Good lib o id s (resources_list id s)
  unfolding resources_list
  resources_list-Good id s = record {
    effects = once lib o Effect.reads_clock;
    reply = IsReply.a_result _;
  }
