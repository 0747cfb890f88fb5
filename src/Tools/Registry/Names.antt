-- ===== src/Tools/Registry/Names.antt =====
-- The names in a registry stay unique: `addTool` and the builder of src/tools/ToolRegistry.cpp.
use edge_llm.Base.{
  ℕ, zero, suc, ◌≡◌, ◌≢◌, refl, sym, ap, Bool, Option, none, some, List, [], ◌∷◌, ◌++◌, Bytes, beq,
  beq_iff, arith, inl, inr, Bool-cases, Option-cases, map, All, All-append,
}
use edge_llm.Llm.Messages.{ToolResult}
use edge_llm.Tools.Schema.{ToolParam}
use edge_llm.Tools.Args.{ToolCallArgs}
use edge_llm.Tools.Registry.{
  Tool, ToolRegistry, new_tool, edit, with_param, mutating, allow_write, on_call, next, index_of,
  add_tool,
}

abbrev pub Distinct : List Bytes → Type 0
Distinct [] = Unit
Distinct (x ∷ l) = All (λ y. y ≢ x) l × Distinct l

Distinct-append :
    (l : List Bytes) (x : Bytes) → Distinct l → All (λ y. y ≢ x) l → Distinct (l ++ (x ∷ []))
Distinct-append [] x d a = (tt, tt)
Distinct-append (y ∷ l) x d a =
    (All-append (λ z. z ≢ y) l (x ∷ []) d.0 ((λ e. a.0 (sym e)), tt), Distinct-append l x d.1 a.1)

next-none : (o : Option ℕ) → next o ≡ none → o ≡ none
next-none none h = refl
next-none (some i) h = ground (arith, h)

next-zero : (o : Option ℕ) → next o ≡ some zero → ⊥
next-zero none h = ground (arith, h)
next-zero (some i) h = ground (arith, h)

next-suc : (o : Option ℕ) (i : ℕ) → next o ≡ some (suc i) → o ≡ some i
next-suc none i h = ground (arith, h)
next-suc (some j) i h = ground (arith, h)

module _ {W N : Type 0} where
  abbrev pub names : ToolRegistry W N → List Bytes
  names ts = map (λ (t : Tool W N). t.name) ts

  -- What the methods of a builder do to its tool.
  pub data Configures : (Tool W N → Tool W N) → Type 0 where
    adds_param : (p : ToolParam) → Configures (with_param p)
    sets_mutating : (value : Bool) → Configures (mutating value)
    sets_allow_write : (value : Bool) → Configures (allow_write value)
    sets_handler :
        (handler : Option (ToolCallArgs N → W → W × ToolResult)) → Configures (on_call handler)

  -- The registries that a program can build.
  pub data Built : ToolRegistry W N → Type 0 where
    empty : Built []
    add :
        {ts : ToolRegistry W N} (name description : Bytes)
        → Built ts
        → Built (add_tool name description ts).0
    configure :
        {ts : ToolRegistry W N} {f : Tool W N → Tool W N} (i : ℕ)
        → Configures f
        → Built ts
        → Built (edit f i ts)

  index_of_fresh :
      (name : Bytes) (ts : ToolRegistry W N)
      → index_of name ts ≡ none
      → All (λ y. y ≢ name) (names ts)
  unfolding index_of
  index_of_fresh name [] h = tt
  index_of_fresh name (t ∷ ts) h = elim (Bool-cases (beq t.name name)) [
    | inl y ↦ ground (arith, h, y)
    | inr n ↦ (
      (λ e. ground (arith, n, (beq_iff t.name name).1 e)),
      index_of_fresh name ts (next-none (index_of name ts) (ground (arith, h, n))),
    )
  ]

  names-edit :
      (f : Tool W N → Tool W N) (i : ℕ) (ts : ToolRegistry W N)
      → ((t : Tool W N) → (f t).name ≡ t.name)
      → names (edit f i ts) ≡ names ts
  names-edit f i [] h = refl
  names-edit f zero (t ∷ ts) h = ap (λ x. x ∷ names ts) (h t)
  names-edit f (suc i) (t ∷ ts) h = ap (λ l. t.name ∷ l) (names-edit f i ts h)

  names_redefined :
      (name description : Bytes) (ts : ToolRegistry W N) (i : ℕ)
      → index_of name ts ≡ some i
      → names (edit (λ _. new_tool name description) i ts) ≡ names ts
  unfolding index_of
  names_redefined name description [] i h = refl
  names_redefined name description (t ∷ ts) zero h = elim (Bool-cases (beq t.name name)) [
    | inl y ↦ ap (λ x. x ∷ names ts) (sym ((beq_iff t.name name).0 y))
    | inr n ↦ absurd (next-zero (index_of name ts) (ground (arith, h, n)))
  ]
  names_redefined name description (t ∷ ts) (suc i) h = elim (Bool-cases (beq t.name name)) [
    | inl y ↦ ground (arith, h, y)
    | inr n ↦
        ap (λ l. t.name ∷ l)
          (names_redefined name description ts i
            (next-suc (index_of name ts) i (ground (arith, h, n))))
  ]

  names-append :
      (ts : ToolRegistry W N) (t : Tool W N) → names (ts ++ (t ∷ [])) ≡ names ts ++ (t.name ∷ [])
  names-append [] t = refl
  names-append (u ∷ ts) t = ap (λ l. u.name ∷ l) (names-append ts t)

  add_tool-Distinct :
      (name description : Bytes) (ts : ToolRegistry W N)
      → Distinct (names ts)
      → Distinct (names (add_tool name description ts).0)
  unfolding add_tool
  add_tool-Distinct name description ts d = elim (Option-cases (index_of name ts)) [
    | inl e ↦
        rw (e, names-append ts (new_tool name description))
          (Distinct-append (names ts) name d (index_of_fresh name ts e))
    | inr (i, e) ↦ rw (e, names_redefined name description ts i e) d
  ]

  keeps_name : {f : Tool W N → Tool W N} → Configures f → (t : Tool W N) → (f t).name ≡ t.name
  unfolding with_param mutating allow_write on_call
  keeps_name (Configures.adds_param p) t = refl
  keeps_name (Configures.sets_mutating v) t = refl
  keeps_name (Configures.sets_allow_write v) t = refl
  keeps_name (Configures.sets_handler h) t = refl

  -- However a registry is built, with tools added under any names, known or not, and each method of a
  -- builder used on any of them, no two of its tools have the same name.
  pub built-Distinct : (ts : ToolRegistry W N) → Built ts → Distinct (names ts)
  built-Distinct _ Built.empty = tt
  built-Distinct _ (Built.add {ts = ts} name description b) =
      add_tool-Distinct name description ts (built-Distinct ts b)
  built-Distinct _ (Built.configure {ts = ts} {f = f} i c b) =
      rw (names-edit f i ts (keeps_name c)) (built-Distinct ts b)
