-- ===== src/Mcp/Server/SafeFetch.antt =====
-- `resources/read` and `prompts/get` of src/mcp/McpServer.cpp have no effect but the permitted ones.
use edge_llm.Base.{
  ◌≡◌, refl, inl, inr, Bool, false, Option, none, some, Bytes, bytes, Bool-cases, List, starts_with,
  drop, [],
}
use edge_llm.Core.{Error, Result}
use edge_llm.Hal.Secrets.{SecretStore}
use edge_llm.Mcp.EdgeStore
use edge_llm.Mcp.EdgeStore.{EdgeStore}
use edge_llm.Mcp.Resources.{Resource, find_resource, read_resource, read_by}
use edge_llm.Mcp.Prompts.{Prompt, find_prompt, get_prompt, get_by, lacks_required, get_found}
use edge_llm.Mcp.Server.{JsonLib, McpServer}
use edge_llm.Mcp.Server.Calls.{arguments_of, refuse}
use edge_llm.Mcp.Server.Fetch.{
  contents, registered_resource, read_registered, read_uri, resources_read, prompt_answer,
  named_prompt, prompts_get, uri_named,
}
use edge_llm.Mcp.Server.Effects.{IsReply, Effect, Effects, once, Good, if-Good}
use edge_llm.Tools.Json.{Json, get}
use edge_llm.Tools.Args.{ToolCallArgs, tool_call_args, as_text}
use edge_llm.Mcp.Server.Safe.{refuse-Good}

module _ {W S N : Type 0} (lib : JsonLib N) (o : SecretStore S) where
  contents-Good :
      (id : Json N) (uri mime : Bytes) (b : Bool) (r : Result Bytes) (s s' : McpServer W S N)
      → Effects lib o s s'
      → Good lib o id s (contents lib id uri mime b r s')
  contents-Good id uri mime b (Result.ok c) s s' e = record {
    effects = e;
    reply = IsReply.a_result _;
  }
  contents-Good id uri mime b (Result.fail x) s s' e = record {
    effects = e;
    reply = IsReply.an_error _ _;
  }

  read_resource-Effects :
      (uri : Bytes) (rs : List (Resource W)) (r : Resource W)
      (h : Option (Bytes → W → W × Result Bytes)) (s : McpServer W S N)
      → s.resources ≡ some rs
      → find_resource uri rs ≡ some r
      → r.on_read ≡ h
      → Effects lib o s (record s { world = (read_by h uri s.world).0 })
  read_resource-Effects uri rs r none s q f e = Effects.none_left
  read_resource-Effects uri rs r (some handler) s q f e =
      once lib o (Effect.reads_resource uri q f e)

  registered_resource-Good :
      (id : Json N) (uri : Bytes) (rs : List (Resource W)) (f : Option (Resource W))
      (s : McpServer W S N)
      → s.resources ≡ some rs
      → find_resource uri rs ≡ f
      → Good lib o id s (registered_resource lib id uri rs f s)
  unfolding read_resource
  registered_resource-Good id uri rs none s q f =
      contents-Good id uri [] false (Result.fail Error.not_found) s s Effects.none_left
  registered_resource-Good id uri rs (some r) s q f = rw f (
      contents-Good id uri r.mime_type r.is_blob (read_by r.on_read uri s.world).1 s _
        (read_resource-Effects uri rs r r.on_read s q f refl))

  read_registered-Good :
      (id : Json N) (uri : Bytes) (rs : Option (List (Resource W))) (s : McpServer W S N)
      → s.resources ≡ rs
      → Good lib o id s (read_registered lib id uri rs s)
  read_registered-Good id uri none s q =
      contents-Good id uri [] false (Result.fail Error.not_found) s s Effects.none_left
  read_registered-Good id uri (some rs) s q =
      registered_resource-Good id uri rs (find_resource uri rs) s q refl

  read_uri-Good :
      (id : Json N) (uri : Bytes) (st : Option (EdgeStore S)) (s : McpServer W S N)
      → s.store ≡ st
      → Good lib o id s (read_uri lib id uri st s)
  unfolding read_uri
  read_uri-Good id uri none s q = read_registered-Good id uri s.resources s refl
  read_uri-Good id uri (some st) s q =
      if-Good lib o (starts_with (bytes "kv://") uri)
        (λ _.
          contents-Good id uri (bytes "text/plain") false (EdgeStore.get (drop 5 uri) st).1 s _
            (once lib o (Effect.reads_store (drop 5 uri) q)))
        (λ _. read_registered-Good id uri s.resources s refl)

  uri_named-Good :
      (id : Json N) (uri : Option Bytes) (s : McpServer W S N)
      → Good lib o id s (uri_named lib id uri s)
  uri_named-Good id none s = refuse-Good lib o id _ s
  uri_named-Good id (some uri) s = read_uri-Good id uri s.store s refl

  pub resources_read-Good :
      (id params : Json N) (s : McpServer W S N) → Good lib o id s (resources_read lib id params s)
  unfolding resources_read
  resources_read-Good id params s = uri_named-Good id (as_text (get (bytes "uri") params)) s

  prompt_answer-Good :
      (id : Json N) (r : Result Bytes) (s s' : McpServer W S N)
      → Effects lib o s s'
      → Good lib o id s (prompt_answer lib id r s')
  unfolding refuse
  prompt_answer-Good id (Result.ok c) s s' e = record { effects = e; reply = IsReply.a_result _ }
  prompt_answer-Good id (Result.fail x) s s' e = record {
    effects = e;
    reply = IsReply.an_error _ _;
  }

  get_by-Effects :
      (name : Bytes) (args : ToolCallArgs N) (ps : List (Prompt W N)) (p : Prompt W N)
      (h : Option (ToolCallArgs N → W → W × Result Bytes)) (s : McpServer W S N)
      → s.prompts ≡ some ps
      → find_prompt name ps ≡ some p
      → p.on_get ≡ h
      → Effects lib o s (record s { world = (get_by h args p.args s.world).0 })
  unfolding get_by
  get_by-Effects name args ps p none s q f e = Effects.none_left
  get_by-Effects name args ps p (some handler) s q f e =
      elim (Bool-cases (lacks_required args p.args)) [
        | inl y ↦ rw y Effects.none_left
        | inr n ↦ rw n (once lib o (Effect.gets_prompt name args q f e))
      ]

  get_prompt-Effects :
      (name : Bytes) (args : ToolCallArgs N) (ps : List (Prompt W N)) (f : Option (Prompt W N))
      (s : McpServer W S N)
      → s.prompts ≡ some ps
      → find_prompt name ps ≡ f
      → Effects lib o s (record s { world = (get_found f args s.world).0 })
  get_prompt-Effects name args ps none s q f = Effects.none_left
  get_prompt-Effects name args ps (some p) s q f = get_by-Effects name args ps p p.on_get s q f refl

  named_prompt-Good :
      (id args : Json N) (name : Option Bytes) (ps : Option (List (Prompt W N)))
      (s : McpServer W S N)
      → s.prompts ≡ ps
      → Good lib o id s (named_prompt lib id args name ps s)
  unfolding get_prompt
  named_prompt-Good id args (some name) (some ps) s q =
      prompt_answer-Good id
        (get_found (find_prompt name ps) (tool_call_args lib.deserialize (arguments_of lib args))
          s.world).1
        s _
        (get_prompt-Effects name (tool_call_args lib.deserialize (arguments_of lib args)) ps
          (find_prompt name ps) s q refl)
  named_prompt-Good id args none ps s q = refuse-Good lib o id _ s
  named_prompt-Good id args (some name) none s q = refuse-Good lib o id _ s

  pub prompts_get-Good :
      (id params : Json N) (s : McpServer W S N) → Good lib o id s (prompts_get lib id params s)
  unfolding prompts_get
  prompts_get-Good id params s =
      named_prompt-Good id (get (bytes "arguments") params) (as_text (get (bytes "name") params))
        s.prompts s refl
