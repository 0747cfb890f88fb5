-- ===== src/Llm/Retry/Tests.antt =====
-- Runs of the retries on concrete input.
use edge_llm.Base.{
  ℕ, suc, ◌+◌, ◌*◌, ◌%◌, ◌^◌, ◌≡◌, refl, true, false, none, some, ◌++◌, bytes, arith, inr,
}
use edge_llm.Core.{Status}
use edge_llm.Transport.Http.{HttpResponse, no_response}
use edge_llm.Llm.Retry.{RetryPolicy, parse_retry_after_ms, capped_backoff}
use edge_llm.Llm.Retry.Send.{Client, send_with_retry}
use edge_llm.Llm.Retry.Waits.{parse_retry_after_wraps}
use edge_llm.Llm.Retry.Loop.{EndsWith, send_with_retry-EndsWith}

abbrev policy : RetryPolicy
policy = record {
  max_retries = 2;
  initial_backoff_ms = 500;
  max_backoff_ms = 8000;
  respect_retry_after = true;
  jitter = false;
}

parse_wrapped : parse_retry_after_ms (bytes "4294968") ≡ 704
unfolding parse_retry_after_ms
parse_wrapped = refl

backoff_third : capped_backoff policy 2 ≡ 2000
unfolding capped_backoff
backoff_third = refl

parse_retry_after_wraps_example :
    parse_retry_after_ms (bytes "429496" ++ bytes "8") ≡ (10 * 429496 + 8) * 1000 % 2 ^ 32
parse_retry_after_wraps_example =
    parse_retry_after_wraps (bytes "429496") 429496 8 refl (omega arith) (omega arith)

-- A world that counts the sends, each of which finds the server too busy.
abbrev busy : ℕ → ℕ × (Status × HttpResponse)
busy n = (suc n, (Status.ok, record no_response { status = 503 }))

abbrev client : Client ℕ
client = record {
  world = 0;
  meter = some (record {
    max_requests = 5;
    max_total_tokens = 0;
    requests = 0;
    input_tokens = 0;
    output_tokens = 0;
  });
  metrics = record {
    requests = 0;
    retries = 0;
    transport_errors = 0;
    http_errors = 0;
    schema_retries = 0;
    input_tokens = 0;
    output_tokens = 0;
    last_latency_ms = 0;
    total_latency_ms = 0;
  };
  jitter_state = 7;
}

send_with_retry-EndsWith_example :
    EndsWith 3 client (send_with_retry busy (λ ms n. n) none policy client no_response)
send_with_retry-EndsWith_example =
    send_with_retry-EndsWith busy (λ ms n. n) none policy client no_response (omega arith)
      (inr (omega arith))
