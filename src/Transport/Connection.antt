-- ===== src/Transport/Connection.antt =====
-- src/transport/IConnection.h: a byte stream to a peer. A connection stands in a world of type `W`,
-- with everything that its calls may change; `connected` and `available` only look at it.
use edge_llm.Base.{ℕ, Bool, Option, Bytes, ◌≡◌, refl, ◌⊎◌, inl, inr, ◌∷◌, if◌then◌else◌, ◌==◌, []}
use edge_llm.Core.{Status}

-- What `read` returns: the bytes placed in the buffer, 0, or a negative value.
pub data Received : Type 0 where
  got : ℕ → Bytes → Received
  idle : Received
  closed : Received

-- `available w` stands for `available() > 0`; `none` is the negative value of `write`.
pub record Connection (W : Type 0) : Type 0 where
  pub connect : Bytes → ℕ → W → W × Status
  pub connected : W → Bool
  pub available : W → Bool
  pub write : Bytes → W → W × Option ℕ
  pub read : ℕ → W → W × Received
  pub stop : W → W

pub Received-cases :
    (r : Received) → ((x : ℕ) × ((xs : Bytes) × (r ≡ got x xs))) ⊎ ((r ≡ idle) ⊎ (r ≡ closed))
Received-cases (got x xs) = inl (x, (xs, refl))
Received-cases idle = inr (inl refl)
Received-cases closed = inr (inr refl)

-- `host.c_str()`: a string of C ends at its first zero byte.
abbrev pub host_name : Bytes → Bytes
host_name [] = []
host_name (c ∷ s) = if c == 0 then [] else c ∷ host_name s
