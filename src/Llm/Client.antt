-- ===== src/Llm/Client.antt =====
-- src/llm/LLMClient.{h,cpp}: structured generation (Generate) and the agent loop (Agent), over the
-- retries of Llm/Retry.antt. src/llm/Provider.h and src/llm/ChatTypes.h are here. A `float` is a
-- value of a type `F`, which the client only passes on; the log lines are left out.
pub mod Generate
pub mod Agent
pub mod Transcript
pub mod Validated
pub mod Budget
pub mod Answers
mod Tests
use edge_llm.Base.{
  ℕ, ◌+◌, ◌%◌, ◌^◌, Bool, Option, none, some, List, [], ◌∷◌, Bytes, ◌==◌, if◌then◌else◌,
}
use edge_llm.Core.{Error, Status, Result}
use edge_llm.Transport.Http.{Header, HttpRequest, HttpResponse, set_header, is_success, no_response}
use edge_llm.Llm.Messages.{Message, ToolCall, ToolResult}
use edge_llm.Llm.UsageMeter.{UsageMeter, record_tokens}
use edge_llm.Llm.Retry.{RetryPolicy, ClientMetrics}
use edge_llm.Llm.Retry.Send.{Client, send_with_retry}

pub record ChatOptions (F : Type 0) : Type 0 where
  pub model : Bytes
  pub system : Bytes
  pub max_tokens : ℕ
  pub temperature : F
  pub top_p : F
  pub stop_sequences : List Bytes
  pub extra_headers : List Header

pub record ChatResult : Type 0 where
  pub finish_reason : Bytes
  pub input_tokens : ℕ
  pub output_tokens : ℕ

pub record AgentTurn : Type 0 where
  pub text : Bytes
  pub tool_calls : List ToolCall
  pub finish_reason : Bytes
  pub input_tokens : ℕ
  pub output_tokens : ℕ

-- The interface of a service, for a schema of type `S` and a registry of type `R`.
pub record Provider (F S R : Type 0) : Type 0 where
  pub supports_tools : Bool
  pub build_structured_request : List Message → ChatOptions F → S → Result HttpRequest
  pub parse_structured_response : HttpResponse → Result (Bytes × ChatResult)
  pub build_tool_request : List Message → ChatOptions F → R → Result HttpRequest
  pub parse_tool_response : HttpResponse → Result AgentTurn

-- The settings of the client. `max_iterations` and `structured_retries` have 8 bits.
pub record Settings (F : Type 0) : Type 0 where
  pub retry_policy : RetryPolicy
  pub structured_retries : ℕ
  pub max_iterations : ℕ
  pub persistent_connection : Bool
  pub options : ChatOptions F

unfoldable pub map_status : ℕ → Error
map_status s =
    if s == 400
    then Error.invalid_argument
    else if s == 401
    then Error.unauthorized
    else if s == 403
    then Error.forbidden
    else if s == 404
    then Error.not_found
    else if s == 429
    then Error.rate_limited
    else Error.provider_error

-- The loop over the extra headers.
unfoldable pub add_extra_headers : List Header → HttpRequest → HttpRequest
unfolding set_header
add_extra_headers [] req = req
add_extra_headers (h ∷ hs) req =
    add_extra_headers hs (record req { headers = set_header req.headers h.0 h.1 })

-- A successful response, or the error of an attempt that survived the retries.
unfoldable pub answered : Status → HttpResponse → Result HttpResponse
unfolding map_status
answered (Status.fail e) resp = Result.fail e
answered Status.ok resp =
    if is_success resp then Result.ok resp else Result.fail (map_status resp.status)

-- Tokens are counted by the metrics and by the meter, if there is one.
abbrev pub metered_tokens : ℕ → ℕ → Option UsageMeter → Option UsageMeter
metered_tokens input output none = none
metered_tokens input output (some m) = some (record_tokens input output m)

unfoldable pub count_tokens : {W : Type 0} → ℕ → ℕ → Client W → Client W
unfolding record_tokens
count_tokens input output c = record c {
  metrics = record c.metrics {
    input_tokens = (c.metrics.input_tokens + input) % 2 ^ 32;
    output_tokens = (c.metrics.output_tokens + output) % 2 ^ 32;
  };
  meter = metered_tokens input output c.meter;
}

-- What the client uses: the service, the send of the HTTP client, the wait between attempts, the
-- clock, the close of the connection, the validation of src/tools/SchemaUtil.cpp and the dispatch
-- of src/tools/ToolRegistry.cpp, whose handlers run on the device.
pub record Environment (W F S R : Type 0) : Type 0 where
  pub provider : Provider F S R
  pub send : HttpRequest → W → W × (Status × HttpResponse)
  pub wait : ℕ → W → W
  pub clock : Option (W → ℕ)
  pub stop : W → W
  pub validate : S → Bytes → Status
  pub dispatch : R → Bytes → Bytes → W → W × Result ToolResult

module _ {W F S R : Type 0} (env : Environment W F S R) where
  abbrev pub round_result :
      Option (Client W × (Status × HttpResponse)) → Option (Client W × Result HttpResponse)
  round_result none = none
  round_result (some (c, (s, resp))) = some (c, answered s resp)

  -- One request: what was built, with the extra headers, sent under the retry policy. `none` means
  -- that the fuel of the retries ran out.
  unfoldable pub request_round :
      RetryPolicy
      → List Header
      → Result HttpRequest
      → Client W
      → Option (Client W × Result HttpResponse)
  unfolding add_extra_headers answered send_with_retry
  request_round policy extra (Result.fail e) c = some (c, Result.fail e)
  request_round policy extra (Result.ok req) c = round_result (
      send_with_retry (env.send (add_extra_headers extra req)) env.wait env.clock policy c
        no_response)

  -- `finishRequestCycle`
  unfoldable pub finish_request_cycle : Settings F → Client W → Client W
  finish_request_cycle s c = record c {
    world = if s.persistent_connection then c.world else env.stop c.world;
  }
