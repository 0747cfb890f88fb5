-- ===== src/Llm/Providers/Tests/Loop.antt =====
-- The agent loop of src/llm/LLMClient.cpp over Anthropic and Gemini.
use edge_llm.Llm.Providers.Tests.{call, lib}
use edge_llm.Llm.Providers.Answered.{
  use_ids, result_ids, call_names, response_names, anthropic_turns-IsAnswered,
  gemini_turns-IsAnswered, IsAnswered,
}
use edge_llm.Base.{ℕ, ◌+◌, ◌+◌, ◌≡◌, refl, true, false, none, some, List, [], ◌∷◌, ◌++◌, map, bytes}
use edge_llm.Core.{Error, Status, Result}
use edge_llm.Transport.Http.{no_response, is_success}
use edge_llm.Llm.Messages.{Message, Role, ToolCall, message, tool_result}
use edge_llm.Llm.Client.{Settings, Environment, Provider}
use edge_llm.Llm.Client.Agent.{agent_loop}
use edge_llm.Llm.Retry.Send.{Client, budget_spent, after_verdict, verdict, attempt_once}
use edge_llm.Llm.Schema.{ResponseSchema}
use edge_llm.Tools.Schema.{c_string}
use edge_llm.Tools.Registry.{ToolRegistry}
use edge_llm.Llm.Providers.Anthropic.{anthropic_build_tool, anthropic_provider}
use edge_llm.Llm.Providers.Anthropic.Turns.{anthropic_turns}
use edge_llm.Llm.Providers.Anthropic.Replies.{is_type, anthropic_block, anthropic_read_turn}
use edge_llm.Llm.Providers.Gemini.{gemini_build_tool, gemini_provider}
use edge_llm.Llm.Providers.Gemini.Turns.{gemini_turns}
use edge_llm.Llm.Providers.Gemini.Replies.{gemini_part, gemini_read_turn}

-- A world that counts the requests.
abbrev env :
    Provider (Unit {0}) ResponseSchema (ToolRegistry ℕ ℕ)
    → Environment ℕ (Unit {0}) ResponseSchema (ToolRegistry ℕ ℕ)
env provider = record {
  provider = provider;
  send = λ req n. (n + 1, (Status.ok, record no_response { status = 200; body = n ∷ [] }));
  wait = λ ms n. n;
  clock = none;
  stop = λ n. n;
  validate = λ s json. Status.ok;
  dispatch = λ tools name args n. (n, Result.fail Error.not_found);
}

abbrev claude : Environment ℕ (Unit {0}) ResponseSchema (ToolRegistry ℕ ℕ)
unfolding anthropic_provider
claude = env (
    anthropic_provider lib
      (record { api_key = bytes "k"; default_model = bytes "m"; api_version = bytes "2023-06-01" }))

abbrev google : Environment ℕ (Unit {0}) ResponseSchema (ToolRegistry ℕ ℕ)
unfolding gemini_provider
google = env (gemini_provider lib (record { api_key = bytes "k"; default_model = bytes "m" }))

abbrev settings : Settings (Unit {0})
settings = record {
  retry_policy = record {
    max_retries = 2;
    initial_backoff_ms = 500;
    max_backoff_ms = 8000;
    respect_retry_after = true;
    jitter = false;
  };
  structured_retries = 1;
  max_iterations = 6;
  persistent_connection = true;
  options = record {
    model = [];
    system = bytes "be brief";
    max_tokens = 1024;
    temperature = tt;
    top_p = tt;
    stop_sequences = [];
    extra_headers = [];
  };
}

abbrev client : Client ℕ
client = record {
  world = 0;
  meter = none;
  metrics = record {
    requests = 0;
    retries = 0;
    transport_errors = 0;
    http_errors = 0;
    schema_retries = 0;
    input_tokens = 0;
    output_tokens = 0;
    last_latency_ms = 0;
    total_latency_ms = 0;
  };
  jitter_state = 7;
}

abbrev hello : List Message
hello = message Role.user (bytes "hi") ∷ []

-- The transcript of calls that no handler answers.
abbrev transcript : List ToolCall → List Message
unfolding tool_result
transcript calls =
    hello
    ++ (record (message Role.assistant []) { tool_calls = calls }
        ∷ map
            (λ c.
              tool_result c
                (record { content = bytes "tool 't' failed: not found"; is_error = true }))
            calls)

abbrev claude_call : ToolCall
claude_call = record call { id = bytes "c1" }

claude_runs :
    (c : Client ℕ) × (agent_loop claude 6 settings [] hello client
      ≡ some (c, Result.ok (transcript (claude_call ∷ claude_call ∷ []))))
unfolding agent_loop tool_result budget_spent after_verdict verdict is_success attempt_once
    anthropic_provider anthropic_build_tool anthropic_read_turn anthropic_block is_type c_string
claude_runs = (_, refl)

anthropic_turns-IsAnswered_example :
    IsAnswered
      (λ calls results. use_ids calls ≡ result_ids results)
      6
      (anthropic_turns lib hello)
      (anthropic_turns lib (transcript (claude_call ∷ claude_call ∷ [])))
anthropic_turns-IsAnswered_example =
    anthropic_turns-IsAnswered lib claude settings [] hello _ client claude_runs.0 claude_runs.1

abbrev gemini_transcript : List Message
gemini_transcript = transcript (record call { arguments_json = [] } ∷ [])

google_runs :
    (c : Client ℕ) × (agent_loop google 6 settings [] hello client
      ≡ some (c, Result.ok gemini_transcript))
unfolding agent_loop tool_result budget_spent after_verdict verdict is_success attempt_once
    gemini_provider gemini_build_tool gemini_read_turn gemini_part c_string
google_runs = (_, refl)

gemini_turns-IsAnswered_example :
    IsAnswered
      (λ calls results. call_names calls ≡ response_names results)
      6
      (gemini_turns lib hello)
      (gemini_turns lib gemini_transcript)
gemini_turns-IsAnswered_example =
    gemini_turns-IsAnswered lib google settings [] hello _ client google_runs.0 google_runs.1
