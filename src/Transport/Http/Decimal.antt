-- ===== src/Transport/Http/Decimal.antt =====
-- Decimal numbers in the text of a message: RFC 7230 §3.3.2, for src/transport/.
use edge_llm.Base.{ℕ, Bytes, [], ◌∷◌, ◌+◌, ◌*◌, ◌-◌, ◌≤◌, ltb, ◌||◌, if◌then◌else◌}

-- `0` to `9`.
abbrev pub IsDigit : ℕ → Type 0
IsDigit c = (b'0' ≤ c) × (c ≤ b'9')

-- The number that digits write behind those of `n`.
abbrev pub number : ℕ → Bytes → ℕ
number n [] = n
number n (c ∷ s) = number (10 * n + (c - b'0')) s

-- The digits among the bytes.
abbrev pub digits_of : Bytes → Bytes
digits_of [] = []
digits_of (c ∷ s) = if ltb c b'0' || ltb b'9' c then digits_of s else c ∷ digits_of s
