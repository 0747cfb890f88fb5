-- ===== src/Mcp/Server/Tests.antt =====
-- Runs of the server on concrete input.
use edge_llm.Base.{
  ℕ, suc, ◌≡◌, refl, Bool, true, false, none, some, [], ◌∷◌, Bytes, bytes, beq, if◌then◌else◌,
  arith,
}
use edge_llm.Core.{Error, Status, Result}
use edge_llm.Hal.Secrets.{SecretStore}
use edge_llm.Llm.Messages.{ToolResult}
use edge_llm.Tools.Json.{Json, Items, Members, obj}
use edge_llm.Tools.Schema.{Params}
use edge_llm.Tools.Args.{ToolCallArgs}
use edge_llm.Tools.Registry.{Tool}
use edge_llm.Mcp.Server.{JsonLib, McpServer, check_auth, unauthorized}
use edge_llm.Mcp.Server.Post.{handle_post, rejection}
use edge_llm.Mcp.Server.Effects.{Effects}
use edge_llm.Mcp.Server.Outcomes.{RepliesTo, Carries}
use edge_llm.Mcp.Server.Batch.{handle_post-Effects, handle_post-RepliesTo}
use edge_llm.Mcp.Server.Gate.{handle_post_without_token}

-- A call of a tool.
abbrev tool_call : Bytes → ℕ → Json ℕ
tool_call name id = Json.object (
    obj (
      (bytes "id", Json.number id)
      ∷ (bytes "method", Json.text (bytes "tools/call"))
      ∷ (bytes "params", Json.object (obj ((bytes "name", Json.text name) ∷ [])))
      ∷ []))

abbrev notice : Json ℕ
notice = Json.object (obj ((bytes "method", Json.text (bytes "notifications/initialized")) ∷ []))

abbrev calls : Items ℕ
calls =
    Items.item (tool_call (bytes "write") 2)
      (Items.item notice (Items.item (tool_call (bytes "tick") 3) Items.no_items))

-- A library with one text that is a batch; a printed value is its kind.
abbrev lib : JsonLib ℕ
lib = record {
  deserialize = λ s.
      if beq s (bytes "batch")
      then some (Json.array calls)
      else some (Json.object Members.no_members);
  serialize = λ v. bytes "json";
  is_long = λ n. true;
  negative = λ n. n;
}

abbrev ticks : ToolCallArgs ℕ → ℕ → ℕ × ToolResult
ticks args n = (suc n, record { content = bytes "ok"; is_error = false })

abbrev tool : Bytes → Bool → Tool ℕ ℕ
tool name mutating = record {
  name = name;
  description = [];
  params = Params.no_params;
  mutating = mutating;
  write_allowed = false;
  handler = some ticks;
}

abbrev no_store : SecretStore (Unit {0})
no_store = record {
  set = λ k v s. (s, Status.ok);
  get = λ k s. Result.fail Error.secret_not_found;
  has = λ k s. false;
  remove = λ k s. (s, Status.ok);
  clear = λ s. (s, Status.ok);
}

abbrev server : McpServer ℕ (Unit {0}) ℕ
server = record {
  world = 0;
  name = bytes "device";
  version = bytes "1";
  instructions = [];
  protocol_version = bytes "2025-06-18";
  auth_token = bytes "k";
  tools = some (tool (bytes "write") true ∷ tool (bytes "tick") false ∷ []);
  resources = none;
  prompts = none;
  store = none;
  store_writes = false;
  session_counter = 0;
}

-- Of the two calls the denied one is refused and the other runs; the notification has no response.
batch_runs : (handle_post lib no_store (bytes "batch") true server).0.world ≡ 1
unfolding handle_post
batch_runs = refl

handle_post-Effects_example :
    Effects lib no_store server (handle_post lib no_store (bytes "batch") true server).0
handle_post-Effects_example = handle_post-Effects lib no_store (bytes "batch") true server

handle_post-RepliesTo_example :
    (rs : Items ℕ) × (RepliesTo calls rs
      × Carries lib rs (handle_post lib no_store (bytes "batch") true server).1)
handle_post-RepliesTo_example =
    handle_post-RepliesTo lib no_store (bytes "batch") true server (tool_call (bytes "write") 2)
      (Items.item notice (Items.item (tool_call (bytes "tick") 3) Items.no_items)) refl refl

handle_post_without_token_example :
    handle_post lib no_store (bytes "batch") (check_auth server (bytes "Bearer x")) server
    ≡ (server, rejection lib 401 unauthorized (bytes "Unauthorized"))
handle_post_without_token_example =
    handle_post_without_token lib no_store (bytes "batch") (bytes "Bearer x") server
      (λ e. ground (arith, e)) (λ e. ground (arith, e))
