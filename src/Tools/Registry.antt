-- ===== src/Tools/Registry.antt =====
-- src/tools/Tool.h and src/tools/ToolRegistry.{h,cpp}. A handler is a function of its arguments and
-- of the world of the device. A builder is the index of its tool.
pub mod Dispatch
pub mod Names
use edge_llm.Base.{
  ℕ, zero, suc, ◌+◌, Bool, true, false, not, Option, none, some, List, [], ◌∷◌, ◌++◌, Bytes, bytes,
  beq, if◌then◌else◌, length,
}
use edge_llm.Core.{Error, Status, Result, is_ok}
use edge_llm.Llm.Messages.{ToolResult}
use edge_llm.Tools.Json.{Json}
use edge_llm.Tools.Schema.{Params, ToolParam, push, validate_object}
use edge_llm.Tools.Args.{ToolCallArgs, tool_call_args}

pub record Tool (W N : Type 0) : Type 0 where
  pub name : Bytes
  pub description : Bytes
  pub params : Params
  pub mutating : Bool
  pub write_allowed : Bool
  pub handler : Option (ToolCallArgs N → W → W × ToolResult)

abbrev pub ToolRegistry : Type 0 → Type 0 → Type 0
ToolRegistry W N = List (Tool W N)

abbrev pub invalid_arguments : Bytes → ToolResult
invalid_arguments name = record {
  content = bytes "invalid arguments for tool '" ++ (name ++ bytes "'");
  is_error = true;
}

abbrev pub next : Option ℕ → Option ℕ
next none = none
next (some i) = some (suc i)

module _ {W N : Type 0} where
  -- A default `Tool` with a name and a description.
  abbrev pub new_tool : Bytes → Bytes → Tool W N
  new_tool name description = record {
    name = name;
    description = description;
    params = Params.no_params;
    mutating = false;
    write_allowed = false;
    handler = none;
  }

  -- The tool at an index is changed in place.
  abbrev pub edit : (Tool W N → Tool W N) → ℕ → ToolRegistry W N → ToolRegistry W N
  edit f i [] = []
  edit f zero (t ∷ ts) = f t ∷ ts
  edit f (suc i) (t ∷ ts) = t ∷ edit f i ts

  -- `param`, `paramEnum`, `paramObject` and both `paramArray`, with the parameter that they build.
  unfoldable pub with_param : ToolParam → Tool W N → Tool W N
  with_param p t = record t { params = push t.params p }

  unfoldable pub mutating : Bool → Tool W N → Tool W N
  mutating value t = record t { mutating = value }

  unfoldable pub allow_write : Bool → Tool W N → Tool W N
  allow_write value t = record t { write_allowed = value }

  unfoldable pub on_call : Option (ToolCallArgs N → W → W × ToolResult) → Tool W N → Tool W N
  on_call handler t = record t { handler = handler }

  -- The index of the first tool of a name.
  unfoldable pub index_of : Bytes → ToolRegistry W N → Option ℕ
  index_of name [] = none
  index_of name (t ∷ ts) =
      let rest = next (index_of name ts) in if beq t.name name then some zero else rest

  -- A known name is redefined in place, another one is added.
  abbrev pub place : Tool W N → Option ℕ → ToolRegistry W N → ToolRegistry W N × ℕ
  place t none ts = (ts ++ (t ∷ []), length ts)
  place t (some i) ts = (edit (λ _. t) i ts, i)

  unfoldable pub add_tool : Bytes → Bytes → ToolRegistry W N → ToolRegistry W N × ℕ
  unfolding index_of
  add_tool name description ts = place (new_tool name description) (index_of name ts) ts

  unfoldable pub find : Bytes → ToolRegistry W N → Option (Tool W N)
  find name [] = none
  find name (t ∷ ts) = let rest = find name ts in if beq t.name name then some t else rest

  module _ (is_long : N → Bool) (deserialize : Bytes → Option (Json N)) where
    unfoldable pub validate : Tool W N → Bytes → Status
    unfolding validate_object
    validate t args_json = validate_object is_long deserialize t.params args_json

    -- The call of a handler.
    abbrev pub called : W × ToolResult → W × Result ToolResult
    called (w, r) = (w, Result.ok r)

    unfoldable pub call_tool :
        Bytes
        → Bytes
        → Tool W N
        → Option (ToolCallArgs N → W → W × ToolResult)
        → W
        → W × Result ToolResult
    unfolding validate tool_call_args
    call_tool name args_json t none w = (w, Result.fail Error.invalid_state)
    call_tool name args_json t (some handler) w =
        if is_ok (validate t args_json)
        then called (handler (tool_call_args deserialize args_json) w)
        else (w, Result.ok (invalid_arguments name))

    abbrev pub dispatch_found : Bytes → Bytes → Option (Tool W N) → W → W × Result ToolResult
    dispatch_found name args_json none w = (w, Result.fail Error.not_found)
    dispatch_found name args_json (some t) w = call_tool name args_json t t.handler w

    unfoldable pub dispatch : ToolRegistry W N → Bytes → Bytes → W → W × Result ToolResult
    unfolding find call_tool
    dispatch ts name args_json w = dispatch_found name args_json (find name ts) w
