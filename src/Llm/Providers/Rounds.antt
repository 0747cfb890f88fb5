-- ===== src/Llm/Providers/Rounds.antt =====
-- The rounds of the agent loop in the requests of Anthropic and Gemini, which write the results of a
-- round as one message.
use edge_llm.Base.{
  ℕ, zero, suc, ◌<◌, ◌≡◌, refl, sym, ap, ◌∙◌, ◌⊎◌, inl, inr, List, [], ◌∷◌, ◌++◌, map, append-nil,
  append_assoc, length, arith, All,
}
use edge_llm.Llm.Messages.{Message, Role, ToolCall}
use edge_llm.Llm.Client.{AgentTurn}
use edge_llm.Llm.Client.Agent.{assistant_turn}
use edge_llm.Llm.Client.Transcript.{Answers, IsTool, Rounds, done, round, IsTool}
use edge_llm.Llm.Providers.{flush, grouped}

-- Pairs that follow each other in a list.
pub data Paired {A : Type 0} (P : A → A → Type 0) : ℕ → List A → Type 0 where
  no_pairs : Paired P zero []
  pair : {n : ℕ} {a b : A} {l : List A} → P a b → Paired P n l → Paired P (suc n) (a ∷ b ∷ l)

role-cases :
    (r : Role) → (r ≡ Role.tool) ⊎ ((r ≡ Role.system) ⊎ ((r ≡ Role.user) ⊎ (r ≡ Role.assistant)))
role-cases Role.tool = inl refl
role-cases Role.system = inr (inl refl)
role-cases Role.user = inr (inr (inl refl))
role-cases Role.assistant = inr (inr (inr refl))

no_answers :
    (calls : List ToolCall) → 0 < length calls → ¬ ([] ≡ map (λ (c : ToolCall). c.id) calls)
no_answers [] pos e = omega (arith, pos)
no_answers (c ∷ calls) pos e = ground arith

module _ {A : Type 0} (results : List Message → A) (one : Message → A) where
  -- What is pending is flushed in front of these messages.
  abbrev Flushes : List Message → Type 0
  Flushes ms =
      (pending : List Message)
      → grouped results one pending ms ≡ flush results one pending ++ grouped results one [] ms

  Rounds-Flushes : {n : ℕ} {ms : List Message} → Rounds n ms → Flushes ms
  unfolding grouped
  Rounds-Flushes done pending = sym (append-nil _)
  Rounds-Flushes (round turn answers rest all pos h r e) pending = rw e refl

  next_one :
      (pending l ms : List Message) (x : Message)
      → grouped results one [] (l ++ ms) ≡ grouped results one [] l ++ grouped results one [] ms
      → flush results one pending ++ (one x ∷ grouped results one [] (l ++ ms))
        ≡ (flush results one pending ++ (one x ∷ grouped results one [] l))
          ++ grouped results one [] ms
  next_one pending l ms x e = rw e (sym (append_assoc (flush results one pending) _ _))

  grouped-append :
      (pending l ms : List Message)
      → Flushes ms
      → grouped results one pending (l ++ ms)
        ≡ grouped results one pending l ++ grouped results one [] ms
  unfolding grouped
  grouped-append pending [] ms h = h pending
  grouped-append pending (x ∷ l) ms h = elim (role-cases x.role) [
    | inl q ↦ rw q (grouped-append (pending ++ (x ∷ [])) l ms h)
    | inr (inl q) ↦
        rw (q, grouped-append [] l ms h) (sym (append_assoc (flush results one pending) _ _))
    | inr (inr (inl q)) ↦ rw q (next_one pending l ms x (grouped-append [] l ms h))
    | inr (inr (inr q)) ↦ rw q (next_one pending l ms x (grouped-append [] l ms h))
  ]

  grouped-tool :
      (pending : List Message) (m : Message) (ms : List Message)
      → m.role ≡ Role.tool
      → grouped results one pending (m ∷ ms) ≡ grouped results one (pending ++ (m ∷ [])) ms
  unfolding grouped
  grouped-tool pending m ms e = simp e

  grouped-tools :
      (pending answers rest : List Message)
      → All IsTool answers
      → grouped results one pending (answers ++ rest)
        ≡ grouped results one (pending ++ answers) rest
  unfolding grouped
  grouped-tools pending [] rest h = rw (append-nil pending) refl
  grouped-tools pending (m ∷ ms) rest (e, h) =
      grouped-tool pending m (ms ++ rest) e
      ∙ (grouped-tools (pending ++ (m ∷ [])) ms rest h
          ∙ ap (λ l. grouped results one l rest) (append_assoc pending (m ∷ []) ms))

  flush-some :
      (turn : AgentTurn) (answers : List Message)
      → 0 < length turn.tool_calls
      → Answers turn.tool_calls answers
      → flush results one answers ≡ results answers ∷ []
  flush-some turn [] pos h = absurd (no_answers _ pos h.ids)
  flush-some turn (m ∷ ms) pos h = refl

  -- Every turn of an assistant that calls tools is written in front of the one message of its
  -- answers.
  pub grouped-Paired :
      (P : A → A → Type 0)
      → ((turn : AgentTurn) (answers : List Message)
          → 0 < length turn.tool_calls
          → Answers turn.tool_calls answers
          → P (one (assistant_turn turn)) (results answers))
      → {n : ℕ} {ms : List Message} → Rounds n ms
      → Paired P n (grouped results one [] ms)
  unfolding grouped
  grouped-Paired P h done = Paired.no_pairs
  grouped-Paired P h (round turn answers rest all pos a r e) =
      rw
        (
          e,
          grouped-tools [] answers rest a.roles,
          Rounds-Flushes r answers,
          flush-some turn answers pos a,
        )
        (Paired.pair (h turn answers pos a) (grouped-Paired P h r))

  pub grouped-append-Rounds :
      (working result : List Message) {n : ℕ} {added : List Message}
      → Rounds n added
      → result ≡ working ++ added
      → grouped results one [] result
        ≡ grouped results one [] working ++ grouped results one [] added
  grouped-append-Rounds working result r e = rw e (grouped-append [] _ _ (Rounds-Flushes r))
