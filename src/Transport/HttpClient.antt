-- ===== src/Transport/HttpClient.antt =====
-- src/transport/HttpClient.{h,cpp}: the blocking HTTP/1.1 client. Heads has the pure parsing of a
-- response head, Reading the loops over the connection, Sending the calls of the client.
pub mod Heads
pub mod Reading
pub mod Sending
pub mod Streaming
mod Rules
mod Calls
pub mod Bounds
pub mod Conserve
pub mod Framing
pub mod Dropped
mod Ends
pub mod Deadline
pub mod HeadRoundTrip
mod StreamLoops
pub mod StreamCap
mod Tests
use edge_llm.Base.{ℕ, ◌+◌, ◌-◌, ◌%◌, ◌^◌, Bool, false, Option, none, some, Bytes, leb}
use edge_llm.Core.{Status}
use edge_llm.Transport.Http.{HttpResponse}

-- The fields of the class, with the world of its connection. `timeout_ms` and `max_response_body`
-- have 32 bits, `recv_buffer_size` has 16 bits.
pub record HttpClient (W : Type 0) : Type 0 where
  pub world : W
  pub timeout_ms : ℕ
  pub max_response_body : ℕ
  pub recv_buffer_size : ℕ
  pub keep_alive : Bool
  pub reusable : Bool
  pub saw_response_bytes : Bool
  pub pending : Bytes

-- The client, the response and the status after a step of an exchange.
pub record Reply (W : Type 0) : Type 0 where
  pub client : HttpClient W
  pub out : HttpResponse
  pub status : Status

abbrev pub reply : {W : Type 0} → HttpClient W → HttpResponse → Status → Reply W
reply c out s = record { client = c; out = out; status = s }

-- `now`: 0 without a clock.
abbrev pub reading : {W : Type 0} → Option (W → ℕ) → W → ℕ
reading none w = 0
reading (some clock) w = clock w

abbrev pub timed_out : {W : Type 0} → Option (W → ℕ) → ℕ → ℕ → W → Bool
timed_out none timeout start w = false
timed_out (some clock) timeout start w = leb timeout ((clock w + (2 ^ 32 - start)) % 2 ^ 32)
