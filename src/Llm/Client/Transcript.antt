-- ===== src/Llm/Client/Transcript.antt =====
-- The transcript of the agent loop, and what is left of it for the final call:
-- src/llm/LLMClient.cpp.
use edge_llm.Base.{
  ℕ, zero, suc, ◌<◌, ◌≡◌, refl, ap, sym, ◌∙◌, ◌⊎◌, inl, inr, Option, none, some, List, [], ◌∷◌,
  ◌++◌, Bytes, arith, All, length, map, append_assoc, append-nil,
}
use edge_llm.Core.{Result}
use edge_llm.Transport.Http.{HttpResponse}
use edge_llm.Llm.Messages.{Message, Role, ToolCall, tool_result}
use edge_llm.Llm.Retry.Send.{Client}
use edge_llm.Llm.Client.{AgentTurn, Settings, Environment}
use edge_llm.Llm.Client.Agent.{
  dispatch_calls, assistant_turn, turn_messages, after_turn, after_tool_parse, after_tool_round,
  agent_loop,
}

abbrev pub IsTool : Message → Type 0
IsTool m = m.role ≡ Role.tool

-- The answers to some calls: one tool message for each, in order, with the id and the name of its
-- call.
pub record Answers (calls : List ToolCall) (ms : List Message) : Type 0 where
  pub ids : map (λ (m : Message). m.tool_call_id) ms ≡ map (λ (c : ToolCall). c.id) calls
  pub names : map (λ (m : Message). m.tool_name) ms ≡ map (λ (c : ToolCall). c.name) calls
  pub roles : All IsTool ms

-- `n` rounds of a transcript, each the turn of an assistant that calls tools and the answers to its
-- calls.
pub data Rounds : ℕ → List Message → Type 0 where
  done : Rounds zero []
  round :
      (turn : AgentTurn) (answers rest all : List Message) {n : ℕ}
      → 0 < length turn.tool_calls
      → Answers turn.tool_calls answers
      → Rounds n rest
      → all ≡ (assistant_turn turn ∷ answers) ++ rest
      → Rounds (suc n) all

pub calls-cases :
    (l : List ToolCall)
    → (l ≡ []) ⊎ ((call : ToolCall) × ((calls : List ToolCall) × (l ≡ call ∷ calls)))
calls-cases [] = inl refl
calls-cases (call ∷ calls) = inr (call, (calls, refl))

module _ {W F S R : Type 0} (env : Environment W F S R) where
  dispatch_calls-Answers :
      (tools : R) (calls : List ToolCall) (w : W)
      → Answers calls (dispatch_calls env tools calls w).1
  unfolding dispatch_calls tool_result
  dispatch_calls-Answers tools [] w = record { ids = refl; names = refl; roles = tt }
  dispatch_calls-Answers tools (call ∷ calls) w =
      let rest =
        dispatch_calls-Answers tools calls (env.dispatch tools call.name call.arguments_json w).0 in
      record {
        ids = ap (λ (l : List Bytes). call.id ∷ l) rest.ids;
        names = ap (λ (l : List Bytes). call.name ∷ l) rest.names;
        roles = (refl, rest.roles);
      }

  -- A transcript that the loop may give when `left` rounds are left.
  pub record IsTranscript (left : ℕ) (working result : List Message) : Type 0 where
    pub count : ℕ
    pub added : List Message
    pub rounds : Rounds count added
    pub split : result ≡ working ++ added
    pub few : count < left

  abbrev pub Transcript : ℕ → List Message → Option (Client W × Result (List Message)) → Type 0
  Transcript left working none = Unit
  Transcript left working (some (c, Result.fail e)) = Unit
  Transcript left working (some (c, Result.ok ms)) = IsTranscript left working ms

  after_more-IsTranscript :
      (left : ℕ) (tools : R) (working : List Message) (turn : AgentTurn) (c : Client W)
      (o : Option (Client W × Result (List Message)))
      → 0 < length turn.tool_calls
      → Transcript left (working ++ turn_messages env tools turn c) o
      → Transcript (suc left) working o
  after_more-IsTranscript left tools working turn c none pos t = tt
  after_more-IsTranscript left tools working turn c (some (c', Result.fail e)) pos t = tt
  after_more-IsTranscript left tools working turn c (some (c', Result.ok ms)) pos t = record {
    count = suc t.count;
    added = turn_messages env tools turn c ++ t.added;
    rounds =
        round turn _ t.added _ pos (dispatch_calls-Answers tools turn.tool_calls c.world) t.rounds
          refl;
    split = t.split ∙ append_assoc working (turn_messages env tools turn c) t.added;
    few = omega (arith, t.few);
  }

  after_turn-Transcript :
      (left : ℕ) (tools : R) (working : List Message)
      (more : List Message → Client W → Option (Client W × Result (List Message)))
      → ((ms : List Message) (c : Client W) → Transcript left ms (more ms c))
      → (turn : AgentTurn) (c : Client W)
      → Transcript (suc left) working (after_turn env more tools working turn c)
  unfolding after_turn
  after_turn-Transcript left tools working more h turn c = elim (calls-cases turn.tool_calls) [
    | inl e ↦
        rw (e, after_turn)
          (record {
            count = zero;
            added = [];
            rounds = done;
            split = sym (append-nil working);
            few = omega arith;
          })
    | inr (call, (calls, e)) ↦
        rw (e, after_turn)
          (after_more-IsTranscript left tools working turn c _ (omega (arith, ap length e)) (h _ _))
  ]

  after_tool_parse-Transcript :
      (left : ℕ) (tools : R) (working : List Message)
      (more : List Message → Client W → Option (Client W × Result (List Message)))
      → ((ms : List Message) (c : Client W) → Transcript left ms (more ms c))
      → (c : Client W) (r : Result AgentTurn)
      → Transcript (suc left) working (after_tool_parse env more tools working c r)
  unfolding after_tool_parse
  after_tool_parse-Transcript left tools working more h c (Result.fail e) = tt
  after_tool_parse-Transcript left tools working more h c (Result.ok turn) =
      after_turn-Transcript left tools working more h turn _

  after_tool_round-Transcript :
      (left : ℕ) (tools : R) (working : List Message)
      (more : List Message → Client W → Option (Client W × Result (List Message)))
      → ((ms : List Message) (c : Client W) → Transcript left ms (more ms c))
      → (o : Option (Client W × Result HttpResponse))
      → Transcript (suc left) working (after_tool_round env more tools working o)
  unfolding after_tool_round
  after_tool_round-Transcript left tools working more h none = tt
  after_tool_round-Transcript left tools working more h (some (c, Result.fail e)) = tt
  after_tool_round-Transcript left tools working more h (some (c, Result.ok resp)) =
      after_tool_parse-Transcript left tools working more h c _

  agent_loop-Transcript :
      (left : ℕ) (s : Settings F) (tools : R) (working : List Message) (c : Client W)
      → Transcript left working (agent_loop env left s tools working c)
  unfolding agent_loop
  agent_loop-Transcript zero s tools working c = tt
  agent_loop-Transcript (suc left) s tools working c =
      after_tool_round-Transcript left tools working _ (agent_loop-Transcript left s tools) _

  -- When the agent loop settles, its transcript is the messages that it was given and fewer rounds
  -- than `max_iterations`: in each, the model asked for one tool or more, and every call is answered
  -- by one tool message with its id and name, in the order of the calls.
  pub agent_loop-IsTranscript :
      (s : Settings F) (tools : R) (messages result : List Message) (c c' : Client W)
      → agent_loop env s.max_iterations s tools messages c ≡ some (c', Result.ok result)
      → IsTranscript s.max_iterations messages result
  agent_loop-IsTranscript s tools messages result c c' e =
      rw e at (agent_loop-Transcript s.max_iterations s tools messages c)
