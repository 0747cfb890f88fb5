-- ===== src/Mcp/Server/Lists.antt =====
-- The methods of src/mcp/McpServer.cpp that list: `tools/list`, `resources/list`,
-- `resources/templates/list` and `prompts/list`, and `initialize`.
use edge_llm.Base.{
  Bool, true, false, not, ◌&&◌, Option, none, some, List, [], ◌∷◌, ◌++◌, Bytes, bytes,
  if◌then◌else◌, map,
}
use edge_llm.Mcp.Resources.{Resource}
use edge_llm.Mcp.Prompts.{Prompt, PromptArg}
use edge_llm.Tools.Json.{Json, Members, obj, some_items}
use edge_llm.Tools.Write.{write_object_schema}
use edge_llm.Tools.Registry.{Tool, ToolRegistry}

module _ {N : Type 0} where
  abbrev pub hints : Bool → Bool → Json N
  hints read_only destructive = Json.object (
      obj (
        (bytes "readOnlyHint", Json.bool read_only)
        ∷ (bytes "destructiveHint", Json.bool destructive)
        ∷ []))

  abbrev of_type : Json N
  of_type = Json.object (obj ((bytes "type", Json.text (bytes "string")) ∷ []))

  -- `addKvTools`
  unfoldable pub kv_tools : List (Json N)
  kv_tools =
      Json.object (
        obj (
          (bytes "name", Json.text (bytes "kv_set"))
          ∷ (bytes "description", Json.text (bytes "Store a value in the device key-value store"))
          ∷ (
            bytes "inputSchema",
            Json.object (
                obj (
                  (bytes "type", Json.text (bytes "object"))
                  ∷ (
                    bytes "properties",
                    Json.object (obj ((bytes "key", of_type) ∷ (bytes "value", of_type) ∷ [])),
                  )
                  ∷ (
                    bytes "required",
                    Json.array
                        (some_items (Json.text (bytes "key") ∷ Json.text (bytes "value") ∷ [])),
                  )
                  ∷ [])),
          )
          ∷ (bytes "annotations", hints false false)
          ∷ []))
      ∷ Json.object (
          obj (
            (bytes "name", Json.text (bytes "kv_delete"))
            ∷ (
              bytes "description",
              Json.text (bytes "Delete a value from the device key-value store"),
            )
            ∷ (
              bytes "inputSchema",
              Json.object (
                  obj (
                    (bytes "type", Json.text (bytes "object"))
                    ∷ (bytes "properties", Json.object (obj ((bytes "key", of_type) ∷ [])))
                    ∷ (bytes "required", Json.array (some_items (Json.text (bytes "key") ∷ [])))
                    ∷ [])),
            )
            ∷ (bytes "annotations", hints false true)
            ∷ []))
      ∷ []

  unfoldable pub prompt_arg_json : PromptArg → Json N
  prompt_arg_json a = Json.object (
      obj (
        (bytes "name", Json.text a.name)
        ∷ (bytes "description", Json.text a.description)
        ∷ (bytes "required", Json.bool a.required)
        ∷ []))

  unfoldable pub key_json : Bytes → Json N
  key_json key = Json.object (
      obj (
        (bytes "uri", Json.text (bytes "kv://" ++ key))
        ∷ (bytes "name", Json.text key)
        ∷ (bytes "mimeType", Json.text (bytes "text/plain"))
        ∷ []))

  abbrev pub template_json : Json N
  template_json = Json.object (
      obj (
        (bytes "uriTemplate", Json.text (bytes "kv://{key}"))
        ∷ (bytes "name", Json.text (bytes "Key-value entry"))
        ∷ (bytes "mimeType", Json.text (bytes "text/plain"))
        ∷ []))

module _ {W N : Type 0} where
  unfoldable pub tool_json : Tool W N → Json N
  unfolding write_object_schema
  tool_json t = Json.object (
      obj (
        (bytes "name", Json.text t.name)
        ∷ (bytes "description", Json.text t.description)
        ∷ (bytes "inputSchema", Json.object (write_object_schema true t.params Members.no_members))
        ∷ (bytes "annotations", hints (not t.mutating) t.mutating)
        ∷ []))

  -- A tool that writes is denied by default.
  unfoldable pub is_denied : Tool W N → Bool
  is_denied t = t.mutating && not t.write_allowed

  unfoldable pub allowed_tools : ToolRegistry W N → ToolRegistry W N
  unfolding is_denied
  allowed_tools [] = []
  allowed_tools (t ∷ ts) = let rest = allowed_tools ts in if is_denied t then rest else t ∷ rest

  abbrev pub listed_tools : Option (ToolRegistry W N) → List (Json N)
  listed_tools none = []
  listed_tools (some ts) = map tool_json (allowed_tools ts)

  unfoldable pub resource_json : Resource W → Json N
  resource_json r =
      let named = (bytes "uri", Json.text r.uri) ∷ (bytes "name", Json.text r.name) ∷ [] in
      let described : List (Bytes × Json N) = elim r.description [
        | [] ↦ []
        | c ∷ s ↦ (bytes "description", Json.text (c ∷ s)) ∷ []
      ] in
      Json.object (obj (named ++ (described ++ ((bytes "mimeType", Json.text r.mime_type) ∷ []))))

  abbrev pub listed_resources : Option (List (Resource W)) → List (Json N)
  listed_resources none = []
  listed_resources (some rs) = map resource_json rs

  unfoldable pub prompt_json : Prompt W N → Json N
  unfolding prompt_arg_json
  prompt_json p =
      let named =
        (bytes "name", Json.text p.name) ∷ (bytes "description", Json.text p.description) ∷ [] in
      let args : List (Bytes × Json N) = elim p.args [
        | [] ↦ []
        | a ∷ l ↦ (bytes "arguments", Json.array (some_items (map prompt_arg_json (a ∷ l)))) ∷ []
      ] in
      Json.object (obj (named ++ args))

  abbrev pub listed_prompts : Option (List (Prompt W N)) → List (Json N)
  listed_prompts none = []
  listed_prompts (some ps) = map prompt_json ps
