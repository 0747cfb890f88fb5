-- ===== src/Llm/Client/Agent.antt =====
-- `LLMClient::runImpl` and `LLMClient::run` of src/llm/LLMClient.cpp: the agent loop.
use edge_llm.Base.{
  if◌then◌else◌, ℕ, zero, suc, Bool, true, false, Option, none, some, List, [], ◌∷◌, ◌++◌, Bytes,
  bytes, map,
}
use edge_llm.Core.{Error, Result, error_string}
use edge_llm.Transport.Http.{HttpResponse, is_empty}
use edge_llm.Llm.Messages.{Message, Role, ToolCall, ToolResult, message, tool_result}
use edge_llm.Llm.Retry.Send.{Client}
use edge_llm.Llm.Client.{
  AgentTurn, Settings, Environment, request_round, count_tokens, finish_request_cycle,
}
use edge_llm.Llm.Client.Generate.{do_generate, finished}

-- What stands for an assistant turn.
abbrev pub spoken : List ToolCall → Message → Message
spoken [] m = m
spoken (call ∷ calls) m =
    message Role.assistant (if is_empty m.content then bytes "(requested tools)" else m.content)

abbrev pub flatten_as : Role → Message → Message
flatten_as Role.tool m =
    message Role.user (bytes "[tool " ++ (m.tool_name ++ (bytes " result] " ++ m.content)))
flatten_as Role.assistant m = spoken m.tool_calls m
flatten_as Role.system m = m
flatten_as Role.user m = m

-- A message of `flattenForStructured`: no tool protocol is left.
unfoldable pub flatten_message : Message → Message
flatten_message m = flatten_as m.role m

-- The transcript for the final call.
unfoldable pub flatten_for_structured : List Message → List Message
unfolding flatten_message
flatten_for_structured ms = map flatten_message ms

-- A failed dispatch is told to the model.
unfoldable pub result_of : ToolCall → Result ToolResult → ToolResult
unfolding error_string
result_of call (Result.ok r) = r
result_of call (Result.fail e) = record {
  content = bytes "tool '" ++ (call.name ++ (bytes "' failed: " ++ error_string e));
  is_error = true;
}

abbrev pub assistant_turn : AgentTurn → Message
assistant_turn turn = record (message Role.assistant turn.text) { tool_calls = turn.tool_calls }

module _ {W F S R : Type 0} (env : Environment W F S R) where
  -- The loop over the calls of a turn: the world behind the handlers, and a message for each call.
  unfoldable pub dispatch_calls : R → List ToolCall → W → W × List Message
  unfolding result_of tool_result
  dispatch_calls tools [] w = (w, [])
  dispatch_calls tools (call ∷ calls) w =
      let (w', r) = env.dispatch tools call.name call.arguments_json w in
      let (w'', ms) = dispatch_calls tools calls w' in
      (w'', tool_result call (result_of call r) ∷ ms)

  -- A turn that wants tools: the working list and the client behind them.
  abbrev pub turn_messages : R → AgentTurn → Client W → List Message
  turn_messages tools turn c =
      assistant_turn turn ∷ (dispatch_calls tools turn.tool_calls c.world).1

  abbrev pub turn_client : R → AgentTurn → Client W → Client W
  turn_client tools turn c = record c { world = (dispatch_calls tools turn.tool_calls c.world).0 }

  -- A settled loop gives the transcript; otherwise `more` is the next round.
  unfoldable pub after_turn :
      (List Message → Client W → Option (Client W × Result (List Message)))
      → R
      → List Message
      → AgentTurn
      → Client W
      → Option (Client W × Result (List Message))
  unfolding dispatch_calls
  after_turn more tools working turn c = elim turn.tool_calls [
    | [] ↦ some (c, Result.ok working)
    | call ∷ calls ↦ more (working ++ turn_messages tools turn c) (turn_client tools turn c)
  ]

  unfoldable pub after_tool_parse :
      (List Message → Client W → Option (Client W × Result (List Message)))
      → R
      → List Message
      → Client W
      → Result AgentTurn
      → Option (Client W × Result (List Message))
  unfolding count_tokens after_turn
  after_tool_parse more tools working c (Result.fail e) = some (c, Result.fail e)
  after_tool_parse more tools working c (Result.ok turn) =
      after_turn more tools working turn (count_tokens turn.input_tokens turn.output_tokens c)

  unfoldable pub after_tool_round :
      (List Message → Client W → Option (Client W × Result (List Message)))
      → R
      → List Message
      → Option (Client W × Result HttpResponse)
      → Option (Client W × Result (List Message))
  unfolding after_tool_parse
  after_tool_round more tools working none = none
  after_tool_round more tools working (some (c, Result.fail e)) = some (c, Result.fail e)
  after_tool_round more tools working (some (c, Result.ok resp)) =
      after_tool_parse more tools working c (env.provider.parse_tool_response resp)

  -- The loop, over the rounds that are left.
  unfoldable pub agent_loop :
      ℕ → Settings F → R → List Message → Client W → Option (Client W × Result (List Message))
  unfolding request_round after_tool_round
  agent_loop zero s tools working c = some (c, Result.fail Error.tool_iteration_limit)
  agent_loop (suc left) s tools working c =
      after_tool_round (agent_loop left s tools) tools working (
        request_round env s.retry_policy s.options.extra_headers
          (env.provider.build_tool_request working s.options tools) c)

  -- The final answer, as validated structured output.
  unfoldable pub after_agent :
      Settings F → S → Option (Client W × Result (List Message)) → Option (Client W × Result Bytes)
  unfolding do_generate flatten_for_structured
  after_agent s schema none = none
  after_agent s schema (some (c, Result.fail e)) = some (c, Result.fail e)
  after_agent s schema (some (c, Result.ok working)) =
      do_generate env schema s s.options (flatten_for_structured working) c

  -- A service without tools is refused.
  unfoldable pub when_supported :
      Bool → Client W → Option (Client W × Result Bytes) → Option (Client W × Result Bytes)
  when_supported false c o = some (c, Result.fail Error.not_implemented)
  when_supported true c o = o

  unfoldable pub run_impl :
      Settings F → S → R → List Message → Client W → Option (Client W × Result Bytes)
  unfolding agent_loop after_agent when_supported
  run_impl s schema tools messages c =
      when_supported env.provider.supports_tools c
        (after_agent s schema (agent_loop s.max_iterations s tools messages c))

  unfoldable pub run :
      Settings F → S → R → List Message → Client W → Option (Client W × Result Bytes)
  unfolding run_impl finish_request_cycle
  run s schema tools messages c = finished env schema s (run_impl s schema tools messages c)

  unfoldable pub run_prompt :
      Settings F → S → R → Bytes → Client W → Option (Client W × Result Bytes)
  unfolding run
  run_prompt s schema tools prompt c = run s schema tools (message Role.user prompt ∷ []) c
