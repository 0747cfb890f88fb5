-- ===== src/Core.antt =====
-- src/core: the error codes of core/Errors.h and the result values of core/Result.h.
pub mod Logger
use edge_llm.Base.{Bytes, bytes, ◌≡◌, refl, ◌⊎◌, inl, inr, Bool, true, false}

-- Every code but `Ok`, which is `Status.ok` and `Result.ok` below.
pub data Error : Type 0 where
  invalid_argument invalid_state not_implemented out_of_memory timeout : Error
  not_found already_exists capacity : Error
  not_connected connect_failed dns_failed tls_handshake_failed cert_verify_failed : Error
  write_failed read_failed connection_closed : Error
  http_malformed http_status_error http_body_too_large http_unsupported_transfer : Error
  json_parse_error sse_malformed schema_validation_failed : Error
  unauthorized forbidden secret_not_found secret_store_error : Error
  provider_error rate_limited context_overflow tool_iteration_limit budget_exceeded : Error
  mcp_protocol_error mcp_method_not_found mcp_tool_not_found mcp_write_not_allowed : Error

-- An `Error` value with `Ok` apart from the failures.
pub data Status : Type 0 where
  ok : Status
  fail : Error → Status

abbrev pub is_ok : Status → Bool
is_ok Status.ok = true
is_ok (Status.fail e) = false

pub data Result {ℓ} (A : Type ℓ) : Type ℓ where
  ok : A → Result A
  fail : Error → Result A

pub Status-cases : (s : Status) → (s ≡ Status.ok) ⊎ ((e : Error) × (s ≡ Status.fail e))
Status-cases Status.ok = inl refl
Status-cases (Status.fail e) = inr (e, refl)

unfoldable pub error_string : Error → Bytes
error_string invalid_argument = bytes "invalid argument"
error_string invalid_state = bytes "invalid state"
error_string not_implemented = bytes "not implemented"
error_string out_of_memory = bytes "out of memory"
error_string timeout = bytes "timeout"
error_string not_found = bytes "not found"
error_string already_exists = bytes "already exists"
error_string capacity = bytes "capacity exceeded"
error_string not_connected = bytes "not connected"
error_string connect_failed = bytes "connect failed"
error_string dns_failed = bytes "dns resolution failed"
error_string tls_handshake_failed = bytes "tls handshake failed"
error_string cert_verify_failed = bytes "certificate verification failed"
error_string write_failed = bytes "socket write failed"
error_string read_failed = bytes "socket read failed"
error_string connection_closed = bytes "connection closed"
error_string http_malformed = bytes "malformed http response"
error_string http_status_error = bytes "http status error"
error_string http_body_too_large = bytes "http body too large"
error_string http_unsupported_transfer = bytes "unsupported transfer encoding"
error_string json_parse_error = bytes "json parse error"
error_string sse_malformed = bytes "malformed sse stream"
error_string schema_validation_failed = bytes "schema validation failed"
error_string unauthorized = bytes "unauthorized"
error_string forbidden = bytes "forbidden"
error_string secret_not_found = bytes "secret not found"
error_string secret_store_error = bytes "secret store error"
error_string provider_error = bytes "provider error"
error_string rate_limited = bytes "rate limited"
error_string context_overflow = bytes "context window overflow"
error_string tool_iteration_limit = bytes "tool iteration limit reached"
error_string budget_exceeded = bytes "usage budget exceeded"
error_string mcp_protocol_error = bytes "mcp protocol error"
error_string mcp_method_not_found = bytes "mcp method not found"
error_string mcp_tool_not_found = bytes "mcp tool not found"
error_string mcp_write_not_allowed = bytes "mcp write not allowed"
