-- ===== src/Mcp/Server/Effects.antt =====
-- What a request may do to the server of src/mcp/McpServer.cpp, and what its response is.
use edge_llm.Base.{ℕ, ◌+◌, ◌%◌, ◌^◌, ◌≡◌, refl, Bool, true, false, some, Bytes, if◌then◌else◌, List}
use edge_llm.Core.{Result}
use edge_llm.Hal.Secrets.{SecretStore}
use edge_llm.Llm.Messages.{ToolResult}
use edge_llm.Mcp.EdgeStore
use edge_llm.Mcp.EdgeStore.{EdgeStore}
use edge_llm.Mcp.Resources.{Resource, find_resource}
use edge_llm.Mcp.Prompts.{Prompt, find_prompt}
use edge_llm.Mcp.Server.{JsonLib, McpServer, error_reply, result_reply}
use edge_llm.Mcp.Server.Lists.{is_denied}
use edge_llm.Mcp.Server.Calls.{Answer, listed_keys}
use edge_llm.Tools.Json.{Json}
use edge_llm.Tools.Args.{ToolCallArgs}
use edge_llm.Tools.Registry.{Tool, ToolRegistry, find}

module _ {N : Type 0} (lib : JsonLib N) where
  -- A response to a request with an id: a result or an error, under that id.
  pub data IsReply (id : Json N) : Json N → Type 0 where
    a_result : (r : Json N) → IsReply id (result_reply id r)
    an_error : (code : ℕ) (message : Bytes) → IsReply id (error_reply lib id code message)

module _ {W S N : Type 0} (lib : JsonLib N) (o : SecretStore S) where
  -- One step: a handler that a host may reach, a session, a reading of the store, or a write to it
  -- where writes are enabled.
  pub data Effect (s : McpServer W S N) : McpServer W S N → Type 0 where
    runs_tool :
        {ts : ToolRegistry W N} {t : Tool W N} {handler : ToolCallArgs N → W → W × ToolResult}
        (name : Bytes) (args : ToolCallArgs N)
        → s.tools ≡ some ts
        → find name ts ≡ some t
        → is_denied t ≡ false
        → t.handler ≡ some handler
        → Effect s (record s { world = (handler args s.world).0 })
    reads_resource :
        {rs : List (Resource W)} {r : Resource W} {handler : Bytes → W → W × Result Bytes}
        (uri : Bytes)
        → s.resources ≡ some rs
        → find_resource uri rs ≡ some r
        → r.on_read ≡ some handler
        → Effect s (record s { world = (handler uri s.world).0 })
    gets_prompt :
        {ps : List (Prompt W N)} {p : Prompt W N} {handler : ToolCallArgs N → W → W × Result Bytes}
        (name : Bytes) (args : ToolCallArgs N)
        → s.prompts ≡ some ps
        → find_prompt name ps ≡ some p
        → p.on_get ≡ some handler
        → Effect s (record s { world = (handler args s.world).0 })
    starts_session : Effect s (record s { session_counter = (s.session_counter + 1) % 2 ^ 32 })
    reads_clock : Effect s (record s { store = (listed_keys {N = N} s.store).0 })
    reads_store :
        {st : EdgeStore S} (key : Bytes)
        → s.store ≡ some st
        → Effect s (record s { store = some (EdgeStore.get key st).0 })
    sets_store :
        {st : EdgeStore S} (key value : Bytes)
        → s.store_writes ≡ true
        → s.store ≡ some st
        → Effect s (record s { store = some (EdgeStore.set o key value st).0 })
    removes_from_store :
        {st : EdgeStore S} (key : Bytes)
        → s.store_writes ≡ true
        → s.store ≡ some st
        → Effect s (record s { store = some (EdgeStore.remove o key st).0 })

  -- Any number of steps.
  pub data Effects : McpServer W S N → McpServer W S N → Type 0 where
    none_left : {s : McpServer W S N} → Effects s s
    then : {s t u : McpServer W S N} → Effect s t → Effects t u → Effects s u

  pub Effects_trans : {s t u : McpServer W S N} → Effects s t → Effects t u → Effects s u
  Effects_trans Effects.none_left e = e
  Effects_trans (Effects.then x xs) e = Effects.then x (Effects_trans xs e)

  abbrev pub once : {s t : McpServer W S N} → Effect s t → Effects s t
  once e = Effects.then e Effects.none_left

  -- An answer with both.
  pub record Good (id : Json N) (s : McpServer W S N) (a : Answer W S N) : Type 0 where
    pub effects : Effects s a.server
    pub reply : IsReply lib id a.response

  pub if-Good :
      {id : Json N} {s : McpServer W S N} (b : Bool) {x y : Answer W S N}
      → (b ≡ true → Good id s x)
      → (b ≡ false → Good id s y)
      → Good id s (if b then x else y)
  if-Good true g h = g refl
  if-Good false g h = h refl
