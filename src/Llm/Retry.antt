-- ===== src/Llm/Retry.antt =====
-- src/llm/LLMClient.cpp, the retries: which failures are tried again, after which wait, and the loop
-- `sendWithRetry`. The send of the HTTP client and the wait are operations on a world of type `W`.
pub mod Waits
pub mod Send
pub mod Loop
mod Tests
use edge_llm.Base.{
  ℕ, zero, suc, ◌+◌, ◌-◌, ◌*◌, ◌/◌, ◌%◌, ◌^◌, Bool, true, false, not, ◌&&◌, ◌||◌, Option, none,
  some, List, [], ◌∷◌, Bytes, bytes, ◌==◌, ltb, leb, if◌then◌else◌,
}
use edge_llm.Core.{Error, Status, is_ok}
use edge_llm.Transport.Http.{HttpResponse, no_response, is_success, header}
use edge_llm.Llm.UsageMeter
use edge_llm.Llm.UsageMeter.{UsageMeter, allow_request, record_request}

pub record RetryPolicy : Type 0 where
  pub max_retries : ℕ
  pub initial_backoff_ms : ℕ
  pub max_backoff_ms : ℕ
  pub respect_retry_after : Bool
  pub jitter : Bool

-- The counters have 32 bits.
pub record ClientMetrics : Type 0 where
  pub requests : ℕ
  pub retries : ℕ
  pub transport_errors : ℕ
  pub http_errors : ℕ
  pub schema_retries : ℕ
  pub input_tokens : ℕ
  pub output_tokens : ℕ
  pub last_latency_ms : ℕ
  pub total_latency_ms : ℕ

unfoldable pub is_transient_transport_error : Error → Bool
is_transient_transport_error Error.connect_failed = true
is_transient_transport_error Error.dns_failed = true
is_transient_transport_error Error.tls_handshake_failed = true
is_transient_transport_error Error.timeout = true
is_transient_transport_error Error.connection_closed = true
is_transient_transport_error Error.read_failed = true
is_transient_transport_error Error.write_failed = true
is_transient_transport_error _ = false

unfoldable pub is_retryable_status : ℕ → Bool
is_retryable_status s = s == 429 || s == 500 || s == 502 || s == 503 || s == 504

-- The loop over the digits.
unfoldable pub parse_seconds : ℕ → Bytes → Option ℕ
parse_seconds seconds [] = some seconds
parse_seconds seconds (c ∷ s) =
    let rest = parse_seconds ((seconds * 10 + (c - b'0')) % 2 ^ 32) s in
    if ltb c b'0' || ltb b'9' c then none else if ltb 4000000 seconds then none else rest

unfoldable pub parse_retry_after_ms : Bytes → ℕ
unfolding parse_seconds
parse_retry_after_ms value = elim (parse_seconds 0 value) [
  | none ↦ 0
  | some seconds ↦ seconds * 1000 % 2 ^ 32
]

-- The loop that doubles the wait.
unfoldable pub double_backoff : ℕ → ℕ → ℕ → ℕ
double_backoff zero cap backoff = backoff
double_backoff (suc attempt) cap backoff =
    let more = double_backoff attempt cap (backoff * 2 % 2 ^ 32) in
    if ltb backoff cap then more else backoff

-- The wait that the server asks for; 0 for none.
unfoldable pub server_wait : RetryPolicy → HttpResponse → Bool → ℕ
unfolding parse_retry_after_ms header
server_wait p resp have_response =
    if have_response && p.respect_retry_after
    then elim (header resp.headers (bytes "Retry-After")) [
      | none ↦ 0
      | some value ↦ parse_retry_after_ms value
    ]
    else 0

unfoldable pub capped_backoff : RetryPolicy → ℕ → ℕ
unfolding double_backoff
capped_backoff p attempt =
    let backoff = double_backoff attempt p.max_backoff_ms p.initial_backoff_ms in
    if ltb p.max_backoff_ms backoff then p.max_backoff_ms else backoff

unfoldable pub next_jitter : ℕ → ℕ
next_jitter state = (state * 1664525 + 1013904223) % 2 ^ 32

-- The wait, and the state of the jitter behind it.
unfoldable pub backoff_for : RetryPolicy → ℕ → HttpResponse → Bool → ℕ → ℕ × ℕ
backoff_for p attempt resp have_response jitter_state =
    let ms = server_wait p resp have_response in
    let backoff = capped_backoff p attempt in
    let half = backoff / 2 in
    let state = next_jitter jitter_state in
    if ltb 0 ms
    then ((if ltb ms p.max_backoff_ms then ms else p.max_backoff_ms), jitter_state)
    else if p.jitter && ltb 1 backoff
    then (half + state % (backoff - half + 1), state)
    else (backoff, jitter_state)
