-- ===== src/Llm/Client/Tests.antt =====
-- Runs of the client on concrete input.
use edge_llm.Base.{
  ℕ, suc, ◌+◌, ◌≡◌, refl, true, false, none, some, List, [], ◌∷◌, Bytes, bytes, arith, inr,
  if◌then◌else◌, ◌==◌, Option, ltb,
}
use edge_llm.Core.{Error, Status, Result}
use edge_llm.Transport.Http.{HttpRequest, no_response, is_success}
use edge_llm.Llm.Messages.{Message, Role, ToolCall, message, tool_result}
use edge_llm.Llm.Retry.Send.{Client, budget_spent, after_verdict, verdict, attempt_once}
use edge_llm.Llm.Client.{Provider, Settings, Environment}
use edge_llm.Llm.Client.Agent.{agent_loop, run}
use edge_llm.Llm.Client.Transcript.{IsTranscript, agent_loop-IsTranscript}
use edge_llm.Llm.Client.Answers.{wired, answers_fit}
use edge_llm.Llm.Schema.{ResponseSchema, schema_field, validate_response}
use edge_llm.Tools.Json.{Json, Members}
use edge_llm.Tools.Schema.{ParamType, Params, document}
use edge_llm.Tools.Schema.Conform.{Fits}
use edge_llm.Tools.Registry.{ToolRegistry, add_tool, dispatch}
use edge_llm.Llm.Client.Budget.{Spends, attempts, run-Spends}

abbrev call : ToolCall
call = record { id = bytes "c1"; name = bytes "t"; arguments_json = bytes "{}" }

-- The service asks for one tool in its first answer.
abbrev asks : Bytes → List ToolCall
asks [] = []
asks (n ∷ s) = if n == 0 then call ∷ [] else []

abbrev get : HttpRequest
get = record { method = []; host = []; port = 80; path = []; headers = []; body = [] }

abbrev service : (S R : Type 0) → Provider (Unit {0}) S R
service S R = record {
  supports_tools = true;
  build_structured_request = λ ms o s. Result.ok get;
  parse_structured_response = λ r.
      Result.ok (bytes "{}", record { finish_reason = []; input_tokens = 1; output_tokens = 1 });
  build_tool_request = λ ms o tools. Result.ok get;
  parse_tool_response = λ r. Result.ok (record {
    text = [];
    tool_calls = asks r.body;
    finish_reason = [];
    input_tokens = 1;
    output_tokens = 1;
  });
}

-- A world that counts the requests.
abbrev env : Environment ℕ (Unit {0}) (Unit {0}) (Unit {0})
env = record {
  provider = service (Unit {0}) (Unit {0});
  send = λ req n. (suc n, (Status.ok, record no_response { status = 200; body = n ∷ [] }));
  wait = λ ms n. n;
  clock = none;
  stop = λ n. n;
  validate = λ s json. Status.ok;
  dispatch = λ tools name args n. (n, Result.fail Error.not_found);
}

abbrev settings : Settings (Unit {0})
settings = record {
  retry_policy = record {
    max_retries = 2;
    initial_backoff_ms = 500;
    max_backoff_ms = 8000;
    respect_retry_after = true;
    jitter = false;
  };
  structured_retries = 1;
  max_iterations = 6;
  persistent_connection = true;
  options = record {
    model = [];
    system = [];
    max_tokens = 1024;
    temperature = tt;
    top_p = tt;
    stop_sequences = [];
    extra_headers = [];
  };
}

abbrev client : Client ℕ
client = record {
  world = 0;
  meter = none;
  metrics = record {
    requests = 0;
    retries = 0;
    transport_errors = 0;
    http_errors = 0;
    schema_retries = 0;
    input_tokens = 0;
    output_tokens = 0;
    last_latency_ms = 0;
    total_latency_ms = 0;
  };
  jitter_state = 7;
}

abbrev hello : List Message
hello = message Role.user (bytes "hi") ∷ []

-- The assistant's turn, and the error that the failed dispatch is told as.
abbrev transcript : List Message
transcript =
    message Role.user (bytes "hi")
    ∷ record (message Role.assistant []) { tool_calls = call ∷ [] }
    ∷ tool_result call (record { content = bytes "tool 't' failed: not found"; is_error = true })
    ∷ []

agent_runs :
    (c : Client ℕ) × (agent_loop env 6 settings tt hello client ≡ some (c, Result.ok transcript))
unfolding agent_loop tool_result budget_spent after_verdict verdict is_success attempt_once
agent_runs = (_, refl)

agent_loop-IsTranscript_example : IsTranscript env 6 hello transcript
agent_loop-IsTranscript_example =
    agent_loop-IsTranscript env settings tt hello transcript client agent_runs.0 agent_runs.1

run_runs : (c : Client ℕ) × (run env settings tt tt hello client ≡ some (c, Result.ok (bytes "{}")))
unfolding run budget_spent after_verdict verdict is_success attempt_once
run_runs = (_, refl)

-- The client with a schema of one field that may be missing, and a tool of that name.
abbrev parse : Bytes → Option (Json ℕ)
parse s = some (Json.object Members.no_members)

abbrev schema : ResponseSchema
schema =
    schema_field (bytes "a") ParamType.integer [] false
      (record { name = bytes "response"; spec = Params.no_params })

abbrev tools : ToolRegistry ℕ ℕ
tools = (add_tool (bytes "t") [] []).0

abbrev device : Environment ℕ (Unit {0}) ResponseSchema (ToolRegistry ℕ ℕ)
device =
    wired (λ n. ltb n 100) parse (service ResponseSchema (ToolRegistry ℕ ℕ)) env.send env.wait none
      env.stop

device_runs :
    (c : Client ℕ) × (run device settings schema tools hello client
      ≡ some (c, Result.ok (bytes "{}")))
unfolding run budget_spent after_verdict verdict is_success attempt_once schema_field add_tool
    dispatch validate_response
device_runs = (_, refl)

answers_fit_example :
    (doc : Json ℕ) × ((document parse (bytes "{}") ≡ some doc)
      × Fits (λ n. ltb n 100) schema.spec doc)
answers_fit_example =
    answers_fit (λ n. ltb n 100) parse (service ResponseSchema (ToolRegistry ℕ ℕ)) env.send env.wait
      none env.stop schema settings settings.options tools hello client device_runs.0 (bytes "{}")
      (inr device_runs.1)

run-Spends_example :
    Spends
      (attempts env settings 6 + attempts env settings 2)
      client
      (run env settings tt tt hello client)
run-Spends_example = run-Spends env settings tt tt hello client (omega arith) tt
