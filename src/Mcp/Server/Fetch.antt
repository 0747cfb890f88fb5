-- ===== src/Mcp/Server/Fetch.antt =====
-- `resources/read` and `prompts/get` of src/mcp/McpServer.cpp.
use edge_llm.Base.{
  Bool, false, Option, none, some, List, [], ◌∷◌, Bytes, bytes, if◌then◌else◌, drop, starts_with,
}
use edge_llm.Core.{Error, Result}
use edge_llm.Mcp.EdgeStore
use edge_llm.Mcp.EdgeStore.{EdgeStore, Expiry, live_keys}
use edge_llm.Mcp.Resources.{Resource, find_resource, read_resource}
use edge_llm.Mcp.Prompts.{Prompt, get_prompt}
use edge_llm.Mcp.Server.{JsonLib, McpServer, error_reply, result_reply, resource_not_found}
use edge_llm.Tools.Json.{Json, Items, get, obj}
use edge_llm.Tools.Args.{as_text}
use edge_llm.Mcp.Server.Calls.{answer, Answer, arguments_of, refuse}

-- A refusal of `prompts/get`.
abbrev pub prompt_error : Error → Bytes
prompt_error Error.not_found = bytes "Unknown prompt"
prompt_error e = bytes "Invalid prompt arguments"

module _ {W S N : Type 0} (lib : JsonLib N) where
  -- The contents of a resource that was found, or the error.
  abbrev pub contents :
      Json N → Bytes → Bytes → Bool → Result Bytes → McpServer W S N → Answer W S N
  contents id uri mime is_blob (Result.fail e) s =
      answer s (error_reply lib id resource_not_found (bytes "Resource not found"))
  contents id uri mime is_blob (Result.ok content) s = answer s (
      result_reply id (
        Json.object (
          obj (
            (
              bytes "contents",
              Json.array (
                  Items.item
                    (Json.object (
                      obj (
                        (bytes "uri", Json.text uri)
                        ∷ (bytes "mimeType", Json.text mime)
                        ∷ (if is_blob then bytes "blob" else bytes "text", Json.text content)
                        ∷ [])))
                    Items.no_items),
            )
            ∷ []))))

  abbrev pub registered_resource :
      Json N → Bytes → List (Resource W) → Option (Resource W) → McpServer W S N → Answer W S N
  registered_resource id uri rs none s = contents id uri [] false (Result.fail Error.not_found) s
  registered_resource id uri rs (some res) s =
      let (w, r) = read_resource rs uri s.world in
      contents id uri res.mime_type res.is_blob r (record s { world = w })

  abbrev pub read_registered :
      Json N → Bytes → Option (List (Resource W)) → McpServer W S N → Answer W S N
  read_registered id uri none s = contents id uri [] false (Result.fail Error.not_found) s
  read_registered id uri (some rs) s = registered_resource id uri rs (find_resource uri rs) s

  -- A URI of the store, or of a resource.
  unfoldable pub read_uri : Json N → Bytes → Option (EdgeStore S) → McpServer W S N → Answer W S N
  unfolding error_reply result_reply find_resource read_resource EdgeStore.get
  read_uri id uri none s = read_registered id uri s.resources s
  read_uri id uri (some st) s =
      let (st', r) = EdgeStore.get (drop 5 uri) st in
      if starts_with (bytes "kv://") uri
      then contents id uri (bytes "text/plain") false r (record s { store = some st' })
      else read_registered id uri s.resources s

  abbrev pub uri_named : Json N → Option Bytes → McpServer W S N → Answer W S N
  uri_named id none s = refuse lib id (bytes "Missing uri") s
  uri_named id (some uri) s = read_uri id uri s.store s

  unfoldable pub resources_read : Json N → Json N → McpServer W S N → Answer W S N
  unfolding read_uri as_text refuse
  resources_read id params s = uri_named id (as_text (get (bytes "uri") params)) s

  abbrev pub prompt_answer : Json N → Result Bytes → McpServer W S N → Answer W S N
  prompt_answer id (Result.fail e) s = refuse lib id (prompt_error e) s
  prompt_answer id (Result.ok text) s = answer s (
      result_reply id (
        Json.object (
          obj (
            (
              bytes "messages",
              Json.array (
                  Items.item
                    (Json.object (
                      obj (
                        (bytes "role", Json.text (bytes "user"))
                        ∷ (
                          bytes "content",
                          Json.object (
                              obj (
                                (bytes "type", Json.text (bytes "text"))
                                ∷ (bytes "text", Json.text text)
                                ∷ [])),
                        )
                        ∷ [])))
                    Items.no_items),
            )
            ∷ []))))

  abbrev pub named_prompt :
      Json N → Json N → Option Bytes → Option (List (Prompt W N)) → McpServer W S N → Answer W S N
  named_prompt id args (some name) (some ps) s =
      let (w, r) = get_prompt lib.deserialize ps name (arguments_of lib args) s.world in
      prompt_answer id r (record s { world = w })
  named_prompt id args n ps s = refuse lib id (bytes "Unknown prompt") s

  unfoldable pub prompts_get : Json N → Json N → McpServer W S N → Answer W S N
  unfolding refuse result_reply get_prompt arguments_of as_text
  prompts_get id params s =
      named_prompt id (get (bytes "arguments") params) (as_text (get (bytes "name") params))
        s.prompts s
