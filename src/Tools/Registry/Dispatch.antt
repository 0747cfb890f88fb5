-- ===== src/Tools/Registry/Dispatch.antt =====
-- What a call of a tool does: `dispatch` of src/tools/ToolRegistry.cpp.
use edge_llm.Base.{
  ◌≡◌, refl, Bool, Option, none, some, [], ◌∷◌, Bytes, beq, beq_iff, arith, inl, inr, Bool-cases,
  Option-cases,
}
use edge_llm.Core.{Error, Result, Status-cases}
use edge_llm.Llm.Messages.{ToolResult}
use edge_llm.Tools.Json.{Json}
use edge_llm.Tools.Schema.{document, validate_object}
use edge_llm.Tools.Schema.Conform.{Fits}
use edge_llm.Tools.Schema.Decide.{validate_object_iff}
use edge_llm.Tools.Args.{ToolCallArgs, tool_call_args}
use edge_llm.Tools.Registry.{
  Tool, ToolRegistry, find, validate, call_tool, dispatch, invalid_arguments,
}

module _ {W N : Type 0} (is_long : N → Bool) (deserialize : Bytes → Option (Json N)) where
  -- A tool that stands in a registry, behind tools of other names.
  pub data Registered (name : Bytes) (t : Tool W N) : ToolRegistry W N → Type 0 where
    here :
        {u : Tool W N} {ts : ToolRegistry W N} → u ≡ t → u.name ≡ name → Registered name t (u ∷ ts)
    behind :
        {u : Tool W N} {ts : ToolRegistry W N}
        → (u.name ≡ name → ⊥)
        → Registered name t ts
        → Registered name t (u ∷ ts)

  -- The texts that are documents that fit the parameters of a tool.
  abbrev pub Accepts : Tool W N → Bytes → Type 0
  Accepts t json =
      (doc : Json N) × ((document deserialize json ≡ some doc) × Fits is_long t.params doc)

  -- What a dispatch may do to the world, and its answer.
  pub data Dispatched (ts : ToolRegistry W N) (name json : Bytes) (w : W)
      : W × Result ToolResult → Type 0 where
    unknown :
        ((t : Tool W N) → Registered name t ts → ⊥)
        → Dispatched ts name json w (w, Result.fail Error.not_found)
    without_handler :
        {t : Tool W N}
        → Registered name t ts
        → t.handler ≡ none
        → Dispatched ts name json w (w, Result.fail Error.invalid_state)
    refused :
        {t : Tool W N}
        → Registered name t ts
        → (Accepts t json → ⊥)
        → Dispatched ts name json w (w, Result.ok (invalid_arguments name))
    runs :
        {t : Tool W N} {handler : ToolCallArgs N → W → W × ToolResult}
        → Registered name t ts
        → t.handler ≡ some handler
        → Accepts t json
        → Dispatched ts name json w (
          (handler (tool_call_args deserialize json) w).0,
          Result.ok (handler (tool_call_args deserialize json) w).1,
        )

  find-Registered :
      (name : Bytes) (ts : ToolRegistry W N) (t : Tool W N)
      → find name ts ≡ some t
      → Registered name t ts
  unfolding find
  find-Registered name [] t h = ground (arith, h)
  find-Registered name (u ∷ ts) t h = elim (Bool-cases (beq u.name name)) [
    | inl y ↦ Registered.here (ground (arith, h, y)) ((beq_iff u.name name).0 y)
    | inr n ↦
        Registered.behind (λ e. ground (arith, n, (beq_iff u.name name).1 e))
          (find-Registered name ts t (ground (arith, h, n)))
  ]

  find-none :
      (name : Bytes) (ts : ToolRegistry W N)
      → find name ts ≡ none
      → (t : Tool W N) → Registered name t ts
      → ⊥
  unfolding find
  find-none name [] h t r = elim r [ ]
  find-none name (u ∷ ts) h t (Registered.here q e) = ground (arith, h, (beq_iff u.name name).1 e)
  find-none name (u ∷ ts) h t (Registered.behind n r) = elim (Bool-cases (beq u.name name)) [
    | inl y ↦ n ((beq_iff u.name name).0 y)
    | inr m ↦ find-none name ts (ground (arith, h, m)) t r
  ]

  call_tool-Dispatched :
      (ts : ToolRegistry W N) (name json : Bytes) (w : W) (t : Tool W N)
      → Registered name t ts
      → (o : Option (ToolCallArgs N → W → W × ToolResult)) → t.handler ≡ o
      → Dispatched ts name json w (call_tool is_long deserialize name json t o w)
  unfolding call_tool validate
  call_tool-Dispatched ts name json w t r none e = Dispatched.without_handler r e
  call_tool-Dispatched ts name json w t r (some handler) e =
      elim (Status-cases (validate_object is_long deserialize t.params json)) [
        | inl y ↦
            rw y (Dispatched.runs r e ((validate_object_iff is_long deserialize t.params json).0 y))
        | inr (err, n) ↦ rw n (
            Dispatched.refused r
              (λ a. ground (arith, n, (validate_object_iff is_long deserialize t.params json).1 a)))
      ]

  -- A dispatch does one of four things. If no tool has the name, or the first one that has it has no
  -- handler, it fails, and if the arguments are not a document that fits its parameters, the model is
  -- told so; in all three the world is left alone. Otherwise the handler is called once.
  pub dispatch-Dispatched :
      (ts : ToolRegistry W N) (name json : Bytes) (w : W)
      → Dispatched ts name json w (dispatch is_long deserialize ts name json w)
  unfolding dispatch
  dispatch-Dispatched ts name json w = elim (Option-cases (find name ts)) [
    | inl e ↦ rw e (Dispatched.unknown (find-none name ts e))
    | inr (t, e) ↦
        rw e (call_tool-Dispatched ts name json w t (find-Registered name ts t e) t.handler refl)
  ]
