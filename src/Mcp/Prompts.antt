-- ===== src/Mcp/Prompts.antt =====
-- src/mcp/PromptRegistry.{h,cpp}. A handler is a function of its arguments and of the world.
use edge_llm.Base.{
  ℕ, zero, suc, Bool, true, false, not, ◌&&◌, Option, none, some, List, [], ◌∷◌, ◌++◌, Bytes, beq,
  if◌then◌else◌,
}
use edge_llm.Core.{Error, Result}
use edge_llm.Tools.Json.{Json}
use edge_llm.Tools.Args.{ToolCallArgs, tool_call_args, has_arg}

pub record PromptArg : Type 0 where
  pub name : Bytes
  pub description : Bytes
  pub required : Bool

pub record Prompt (W N : Type 0) : Type 0 where
  pub name : Bytes
  pub description : Bytes
  pub args : List PromptArg
  pub on_get : Option (ToolCallArgs N → W → W × Result Bytes)

-- The loop over the arguments: a required one is missing.
unfoldable pub lacks_required : {N : Type 0} → ToolCallArgs N → List PromptArg → Bool
unfolding has_arg
lacks_required args [] = false
lacks_required args (a ∷ l) =
    let rest = lacks_required args l in
    if a.required && not (has_arg args a.name) then true else rest

module _ {W N : Type 0} where
  abbrev pub new_prompt : Bytes → Bytes → Prompt W N
  new_prompt name description = record {
    name = name;
    description = description;
    args = [];
    on_get = none;
  }

  -- The methods of the builder, on its prompt.
  unfoldable pub with_arg : Bytes → Bytes → Bool → Prompt W N → Prompt W N
  with_arg name description required p =
      let a : PromptArg = record { name = name; description = description; required = required } in
      record p { args = p.args ++ (a ∷ []) }

  unfoldable pub set_on_get :
      Option (ToolCallArgs N → W → W × Result Bytes) → Prompt W N → Prompt W N
  set_on_get handler p = record p { on_get = handler }

  -- A known name is redefined in place, another one is added; the second result is the index.
  unfoldable pub add_prompt : Bytes → Bytes → List (Prompt W N) → List (Prompt W N) × ℕ
  add_prompt name description [] = (new_prompt name description ∷ [], zero)
  add_prompt name description (p ∷ ps) =
      let (rest, i) = add_prompt name description ps in
      if beq p.name name then (new_prompt name description ∷ ps, zero) else (p ∷ rest, suc i)

  unfoldable pub find_prompt : Bytes → List (Prompt W N) → Option (Prompt W N)
  find_prompt name [] = none
  find_prompt name (p ∷ ps) =
      let rest = find_prompt name ps in if beq p.name name then some p else rest

  unfoldable pub get_by :
      Option (ToolCallArgs N → W → W × Result Bytes)
      → ToolCallArgs N
      → List PromptArg
      → W
      → W × Result Bytes
  unfolding lacks_required
  get_by none args l w = (w, Result.fail Error.invalid_state)
  get_by (some handler) args l w =
      if lacks_required args l
      then (w, Result.fail Error.schema_validation_failed)
      else handler args w

  abbrev pub get_found : Option (Prompt W N) → ToolCallArgs N → W → W × Result Bytes
  get_found none args w = (w, Result.fail Error.not_found)
  get_found (some p) args w = get_by p.on_get args p.args w

  unfoldable pub get_prompt :
      (Bytes → Option (Json N)) → List (Prompt W N) → Bytes → Bytes → W → W × Result Bytes
  unfolding find_prompt get_by tool_call_args
  get_prompt deserialize ps name args_json w =
      get_found (find_prompt name ps) (tool_call_args deserialize args_json) w
