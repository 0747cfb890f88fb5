-- ===== src/Transport/Chunked.antt =====
-- src/transport/ChunkedDecoder.{h,cpp}: the incremental decoder of chunked transfer encoding.
-- `size_t` has 32 bits, as on every board that the library names.
pub mod Bytewise
pub mod Split
pub mod Wire
mod SizeLines
pub mod RoundTrip
mod Tests
use edge_llm.Base.{
  ℕ, zero, suc, ◌+◌, ◌-◌, ◌*◌, ◌%◌, ◌^◌, min, Bool, true, false, not, ◌&&◌, Option, none, some, [],
  ◌∷◌, ◌++◌, Bytes, ◌==◌, leb, if◌then◌else◌, length, take, drop,
}
use edge_llm.Core.{Status, http_malformed}

abbrev pub size_mod : ℕ
size_mod = 2 ^ 32

pub data State : Type 0 where
  size size_ext chunk_data data_cr data_lf trailer done : State

pub record ChunkedDecoder : Type 0 where
  pub state : State
  pub remaining : ℕ
  pub chunk_size : ℕ
  pub saw_size_digit : Bool
  pub trailer_line_len : ℕ

-- A decoder as `reset` leaves it.
abbrev pub reset : ChunkedDecoder
reset = record {
  state = State.size;
  remaining = 0;
  chunk_size = 0;
  saw_size_digit = false;
  trailer_line_len = 0;
}

-- `none` is the -1 of the source.
unfoldable pub hex_value : ℕ → Option ℕ
hex_value c =
    if leb b'0' c && leb c b'9'
    then some (c - b'0')
    else if leb b'a' c && leb c b'f'
    then some (c - b'a' + 10)
    else if leb b'A' c && leb c b'F'
    then some (c - b'A' + 10)
    else none

-- What one byte does: go on in the next state, refuse, return at the end of the body, or begin a
-- copy of chunk data, which takes more of the input at once.
pub data Step : Type 0 where
  next : ChunkedDecoder → Step
  malformed : Step
  finish : ChunkedDecoder → Step
  copy : Step

-- `(chunkSize_ << 4) | hv`: the low four bits of the shifted size are clear, so `|` adds.
abbrev add_digit : ChunkedDecoder → ℕ → ChunkedDecoder
add_digit d hv = record d {
  chunk_size = (d.chunk_size * 16 + hv) % size_mod;
  saw_size_digit = true;
}

-- The end of a size line, after its test on the digits.
abbrev pub begin_chunk : ChunkedDecoder → ChunkedDecoder
begin_chunk d =
    if d.chunk_size == 0
    then record d {
      state = State.trailer;
      trailer_line_len = 0;
      chunk_size = 0;
      saw_size_digit = false;
    }
    else record d {
      state = State.chunk_data;
      remaining = d.chunk_size;
      chunk_size = 0;
      saw_size_digit = false;
    }

size_step : ChunkedDecoder → ℕ → Step
size_step d c = elim (hex_value c) [
  | some hv ↦ next (add_digit d hv)
  | none ↦
      if c == b';'
      then next (record d { state = State.size_ext })
      else if c == b'\r'
      then next d
      else if c == b'\n'
      then (if d.saw_size_digit then next (begin_chunk d) else malformed)
      else malformed
]

size_ext_step : ChunkedDecoder → ℕ → Step
size_ext_step d c =
    if c == b'\n'
    then (if d.chunk_size == 0 && not d.saw_size_digit then malformed else next (begin_chunk d))
    else next d

data_cr_step : ChunkedDecoder → ℕ → Step
data_cr_step d c =
    if c == b'\n'
    then next (record d { state = State.size })
    else if c == b'\r'
    then next (record d { state = State.data_lf })
    else malformed

data_lf_step : ChunkedDecoder → ℕ → Step
data_lf_step d c = if c == b'\n' then next (record d { state = State.size }) else malformed

trailer_step : ChunkedDecoder → ℕ → Step
trailer_step d c =
    if c == b'\n'
    then (if d.trailer_line_len == 0
        then finish (record d { state = State.done })
        else next (record d { trailer_line_len = 0 }))
    else if c == b'\r'
    then next d
    else next (record d { trailer_line_len = (d.trailer_line_len + 1) % size_mod })

-- The bookkeeping of a copy of `n` bytes of chunk data.
abbrev pub copied : ChunkedDecoder → ℕ → ChunkedDecoder
copied d n = record d {
  remaining = d.remaining - n;
  state = if d.remaining - n == 0 then State.data_cr else State.chunk_data;
}

-- The decoder, `out`, `done` and the status after a call.
pub record Fed : Type 0 where
  pub decoder : ChunkedDecoder
  pub out : Bytes
  pub done : Bool
  pub status : Status

abbrev pub is_done : State → Bool
is_done State.done = true
is_done _ = false

-- The `switch` on the state.
unfoldable pub step_in : State → ChunkedDecoder → ℕ → Step
unfolding hex_value size_step size_ext_step data_cr_step data_lf_step trailer_step
step_in State.size d c = size_step d c
step_in State.size_ext d c = size_ext_step d c
step_in State.chunk_data d c = copy
step_in State.data_cr d c = data_cr_step d c
step_in State.data_lf d c = data_lf_step d c
step_in State.trailer d c = trailer_step d c
step_in State.done d c = finish d

abbrev pub ended : ChunkedDecoder → Bytes → Bool → Status → Fed
ended d out fin s = record { decoder = d; out = out; done = fin; status = s }

-- The loop of `feed` on fuel; `none` means that the fuel ran out.
unfoldable pub feed_loop : ℕ → ChunkedDecoder → Bytes → Bool → Bytes → Option Fed
feed_loop fuel d out fin [] = some (ended d out (is_done d.state) Status.ok)
feed_loop zero d out fin (c ∷ cs) = none
feed_loop (suc fuel) d out fin (c ∷ cs) = elim (step_in d.state d c) [
  | next d' ↦ feed_loop fuel d' out fin cs
  | malformed ↦ some (ended d out fin (Status.fail http_malformed))
  | finish d' ↦ some (ended d' out true Status.ok)
  | copy ↦
      let n = min (length (c ∷ cs)) d.remaining in
      feed_loop fuel (copied d n) (out ++ take n (c ∷ cs)) fin (drop n (c ∷ cs))
]

-- Each round takes a byte at least, so the length of the input is fuel enough.
unfoldable pub feed : ChunkedDecoder → Bytes → Bool → Bytes → Option Fed
unfolding feed_loop
feed d out fin cs = feed_loop (length cs) d out fin cs
