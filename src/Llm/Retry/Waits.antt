-- ===== src/Llm/Retry/Waits.antt =====
-- The waits of src/llm/LLMClient.cpp are bounded, and what a Retry-After header is read as.
use edge_llm.Base.{
  ℕ, ◌+◌, ◌-◌, ◌*◌, ◌/◌, ◌%◌, ◌^◌, ◌≤◌, ◌≡◌, Bool, ◌||◌, Option, none, some, [], ◌∷◌, ◌++◌, Bytes,
  arith, ltb, if◌then◌else◌,
}
use native.Mathlib.Nat.{mod-lt}
use edge_llm.Transport.Http.{HttpResponse}
use edge_llm.Llm.Retry.{
  RetryPolicy, parse_seconds, parse_retry_after_ms, capped_backoff, next_jitter, backoff_for,
}

capped_bound : (p : RetryPolicy) (attempt : ℕ) → capped_backoff p attempt ≤ p.max_backoff_ms
unfolding capped_backoff
capped_bound p attempt = ground arith

mod_bound : (a k : ℕ) → a % (k + 1) ≤ k
mod_bound a k = omega (arith, mod-lt a {m = k + 1} (omega arith))

jitter_bound : (b x : ℕ) → b / 2 + x % (b - b / 2 + 1) ≤ b
jitter_bound b x = let m = mod_bound x (b - b / 2) in omega (arith, m)

-- A wait is never above the policy's cap, whatever the server asks for, whichever attempt it is
-- and whatever the jitter.
pub backoff_for_bound :
    (p : RetryPolicy) (attempt : ℕ) (resp : HttpResponse) (have : Bool) (state : ℕ)
    → (backoff_for p attempt resp have state).0 ≤ p.max_backoff_ms
unfolding backoff_for
backoff_for_bound p attempt resp have state =
    ground
      (arith, capped_bound p attempt, jitter_bound (capped_backoff p attempt) (next_jitter state))

-- The number that a string of digits writes, behind the digits read so far.
abbrev pub decimal : ℕ → Bytes → Option ℕ
decimal n [] = some n
decimal n (c ∷ s) = if ltb c b'0' || ltb b'9' c then none else decimal (10 * n + (c - b'0')) s

decimal_grows : (s : Bytes) (n v : ℕ) → decimal n s ≡ some v → n ≤ v
decimal_grows [] n v h = ground (arith, h)
decimal_grows (c ∷ s) n v h = ground (arith, decimal_grows s (10 * n + (c - b'0')) v, h)

parse_seconds_last :
    (s : Bytes) (n v c : ℕ)
    → decimal n s ≡ some v
    → v ≤ 4000000
    → c ≤ 9
    → parse_seconds n (s ++ ((b'0' + c) ∷ [])) ≡ some (10 * v + c)
unfolding parse_seconds
parse_seconds_last [] n v c h l d = ground (arith, h)
parse_seconds_last (x ∷ s) n v c h l d = ground (
  arith,
  parse_seconds_last s (10 * n + (x - b'0')) v c,
  decimal_grows s (10 * n + (x - b'0')) v,
  h,
)

-- A value of digits that without its last digit writes a number up to 4000000 passes the test on
-- the size, and its milliseconds are cut to 32 bits.
pub parse_retry_after_wraps :
    (s : Bytes) (v c : ℕ)
    → decimal 0 s ≡ some v
    → v ≤ 4000000
    → c ≤ 9
    → parse_retry_after_ms (s ++ ((b'0' + c) ∷ [])) ≡ (10 * v + c) * 1000 % 2 ^ 32
unfolding parse_retry_after_ms
parse_retry_after_wraps s v c h l d = ground (arith, parse_seconds_last s 0 v c h l d)
