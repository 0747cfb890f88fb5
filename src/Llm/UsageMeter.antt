-- ===== src/Llm/UsageMeter.antt =====
-- src/llm/UsageMeter.h: caps on requests and tokens. The counters are `uint32_t`.
use edge_llm.Base.{
  ℕ, ◌+◌, ◌%◌, ◌^◌, Bool, true, false, not, ◌&&◌, ◌==◌, leb, if◌then◌else◌, ◌≡◌, ◌≤◌, ◌⊎◌, inl, inr,
  Bool-cases, arith,
}

pub record UsageMeter : Type 0 where
  pub max_requests : ℕ
  pub max_total_tokens : ℕ
  pub requests : ℕ
  pub input_tokens : ℕ
  pub output_tokens : ℕ

unfoldable pub total_tokens : UsageMeter → ℕ
total_tokens m = (m.input_tokens + m.output_tokens) % 2 ^ 32

unfoldable pub allow_request : UsageMeter → Bool
unfolding total_tokens
allow_request m =
    if not (m.max_requests == 0) && leb m.max_requests m.requests
    then false
    else not (not (m.max_total_tokens == 0) && leb m.max_total_tokens (total_tokens m))

unfoldable pub record_request : UsageMeter → UsageMeter
record_request m = record m { requests = (m.requests + 1) % 2 ^ 32 }

unfoldable pub record_tokens : ℕ → ℕ → UsageMeter → UsageMeter
record_tokens input output m = record m {
  input_tokens = (m.input_tokens + input) % 2 ^ 32;
  output_tokens = (m.output_tokens + output) % 2 ^ 32;
}

unfoldable pub reset : UsageMeter → UsageMeter
reset m = record m { requests = 0; input_tokens = 0; output_tokens = 0 }

-- The cap on requests, where there is one, is kept.
abbrev pub IsWithin : UsageMeter → Type 0
IsWithin m = (m.max_requests ≡ 0) ⊎ (m.requests ≤ m.max_requests)

pub record_request-IsWithin :
    (m : UsageMeter) → allow_request m ≡ true → IsWithin (record_request m)
unfolding allow_request record_request
record_request-IsWithin m a = elim (Bool-cases (m.max_requests == 0)) [
  | inl y ↦ inl (ground (arith, y))
  | inr n ↦ inr (ground (arith, n, a))
]
