-- ===== src/Llm/Conversation/Trim.antt =====
-- Which messages src/llm/Conversation.cpp keeps.
use edge_llm.Base.{
  ℕ, ◌≤◌, ◌<◌, ◌≡◌, refl, sym, ap, List, [], ◌∷◌, ◌++◌, arith, ltb, length, ◌⊎◌, inl, inr,
  Bool-cases,
}
use edge_llm.Llm.Messages.{Message}
use edge_llm.Llm.Conversation.{Conversation, approx_bytes, trim_messages, trim, add}

-- Each end that begins in `dropped` is too large.
abbrev pub AreTooLarge : ℕ → List Message → List Message → Type 0
AreTooLarge budget [] kept = Unit
AreTooLarge budget (m ∷ ms) kept =
    (budget < approx_bytes ((m ∷ ms) ++ kept)) × AreTooLarge budget ms kept

-- `kept` is the longest end of `all` that fits in the budget, or its last message.
pub record IsTrimmed (budget : ℕ) (all kept : List Message) : Type 0 where
  pub dropped : List Message
  pub split : all ≡ dropped ++ kept
  pub fits : (approx_bytes kept ≤ budget) ⊎ (length kept ≤ 1)
  pub nonempty : (length all ≡ 0) ⊎ (0 < length kept)
  pub too_large : AreTooLarge budget dropped kept

IsTrimmed-more :
    (budget : ℕ) (m : Message) (ms kept : List Message)
    → 0 < length ms
    → budget < approx_bytes (m ∷ ms)
    → IsTrimmed budget ms kept
    → IsTrimmed budget (m ∷ ms) kept
IsTrimmed-more budget m ms kept n b t = record {
  dropped = m ∷ t.dropped;
  split = ap (◌∷◌ m) t.split;
  fits = t.fits;
  nonempty = inr (ground (arith, t.nonempty, n));
  too_large = (rw (sym t.split) b, t.too_large);
}

pub trim_messages-IsTrimmed :
    (budget : ℕ) (ms : List Message) → IsTrimmed budget ms (trim_messages budget ms)
unfolding trim_messages
trim_messages-IsTrimmed budget [] = record {
  dropped = [];
  split = refl;
  fits = inr (omega arith);
  nonempty = inl refl;
  too_large = tt;
}
trim_messages-IsTrimmed budget (m ∷ []) = record {
  dropped = [];
  split = refl;
  fits = inr (omega arith);
  nonempty = inr (omega arith);
  too_large = tt;
}
trim_messages-IsTrimmed budget (m ∷ n ∷ ms) =
    elim (Bool-cases (ltb budget (approx_bytes (m ∷ n ∷ ms)))) [
      | inl y ↦
          rw (y, trim_messages)
            (IsTrimmed-more budget m (n ∷ ms) (trim_messages budget (n ∷ ms)) (omega arith)
              (ground (arith, y)) (trim_messages-IsTrimmed budget (n ∷ ms)))
      | inr k ↦
          rw (k, trim_messages)
            (record {
              dropped = [];
              split = refl;
              fits = inl (ground (arith, k));
              nonempty = inr (omega arith);
              too_large = tt;
            })
    ]

-- After a message is added, the conversation is the longest end of the messages that fits in the
-- budget, or the new message alone.
pub add-IsTrimmed :
    (msg : Message) (c : Conversation)
    → IsTrimmed c.budget (c.messages ++ (msg ∷ [])) (add msg c).messages
unfolding add trim
add-IsTrimmed msg c = trim_messages-IsTrimmed c.budget (c.messages ++ (msg ∷ []))
