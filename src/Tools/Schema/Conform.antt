-- ===== src/Tools/Schema/Conform.antt =====
-- What it means for a JSON document to fit a list of fields, apart from the check of
-- src/tools/SchemaUtil.cpp.
use edge_llm.Base.{
  ◌≡◌, refl, Bool, true, false, List, [], ◌∷◌, Bytes, beq, beq_iff, inl, inr, arith, Bool-cases,
  beq_refl,
}
use edge_llm.Tools.Json.{Json, Items, Members, get, is_null}
use edge_llm.Tools.Schema.{
  ParamType, ParamHead, ToolParam, Params, head, c_string, is_allowed, type_matches,
}

-- A value in a list, at some place.
pub data Among (a : Bytes) : List Bytes → Type 0 where
  first : {l : List Bytes} → Among a (a ∷ l)
  later : {b : Bytes} {l : List Bytes} → Among a l → Among a (b ∷ l)

module _ {N : Type 0} (is_long : N → Bool) where
  -- The values of a type.
  pub data HasType : ParamType → Json N → Type 0 where
    a_string : (s : Bytes) → HasType ParamType.string (Json.text s)
    a_number : (n : N) → HasType ParamType.number (Json.number n)
    an_integer : (n : N) → is_long n ≡ true → HasType ParamType.integer (Json.number n)
    a_boolean : (b : Bool) → HasType ParamType.boolean (Json.bool b)
    an_object : (ms : Members N) → HasType ParamType.object (Json.object ms)
    an_array : (vs : Items N) → HasType ParamType.array (Json.array vs)

  abbrev pub IsPlain : ParamType → Type 0
  IsPlain ParamType.number = Unit
  IsPlain ParamType.integer = Unit
  IsPlain ParamType.boolean = Unit
  IsPlain t = ⊥

  -- `Fits` is for a list of fields and the object that has them, `FitsField` for one field and the
  -- value under its name, `FitsValue` for a value that is there.
  mutual
    pub data Fits : Params → Json N → Type 0 where
      no_field : {v : Json N} → Fits Params.no_params v
      fields :
          {p : ToolParam} {ps : Params} {v : Json N}
          → FitsField p (get (head p).name v)
          → Fits ps v
          → Fits (Params.param p ps) v

    pub data FitsField : ToolParam → Json N → Type 0 where
      missing :
          {p : ToolParam} {v : Json N}
          → is_null v ≡ true
          → (head p).required ≡ false
          → FitsField p v
      present : {p : ToolParam} {v : Json N} → is_null v ≡ false → FitsValue p v → FitsField p v

    pub data FitsValue : ToolParam → Json N → Type 0 where
      free_string :
          {p : ParamHead} {children : Params} (s : Bytes)
          → p.type ≡ ParamType.string
          → p.enum_values ≡ []
          → FitsValue (ToolParam.tool_param p children) (Json.text s)
      choice :
          {p : ParamHead} {children : Params} (s : Bytes)
          → p.type ≡ ParamType.string
          → Among (c_string s) p.enum_values
          → FitsValue (ToolParam.tool_param p children) (Json.text s)
      plain :
          {p : ParamHead} {children : Params} {v : Json N} {t : ParamType}
          → IsPlain t
          → p.type ≡ t
          → HasType t v
          → FitsValue (ToolParam.tool_param p children) v
      shaped :
          {p : ParamHead} {children : Params} (ms : Members N)
          → p.type ≡ ParamType.object
          → Fits children (Json.object ms)
          → FitsValue (ToolParam.tool_param p children) (Json.object ms)
      any_array :
          {p : ParamHead} {children : Params} (vs : Items N)
          → p.type ≡ ParamType.array
          → p.has_items ≡ false
          → FitsValue (ToolParam.tool_param p children) (Json.array vs)
      array_of :
          {p : ParamHead} {children : Params} (vs : Items N)
          → p.type ≡ ParamType.array
          → p.has_items ≡ true
          → FitsItems p.item_type children vs
          → FitsValue (ToolParam.tool_param p children) (Json.array vs)

    pub data FitsItems : ParamType → Params → Items N → Type 0 where
      no_item : {t : ParamType} {children : Params} → FitsItems t children Items.no_items
      items :
          {t : ParamType} {children : Params} {v : Json N} {vs : Items N}
          → HasType t v
          → (t ≡ ParamType.object → Fits children v)
          → FitsItems t children vs
          → FitsItems t children (Items.item v vs)

  pub type_matches-HasType :
      (t : ParamType) (v : Json N) → type_matches is_long t v ≡ true → HasType t v
  unfolding type_matches
  type_matches-HasType ParamType.string (Json.text s) h = HasType.a_string s
  type_matches-HasType ParamType.number (Json.number n) h = HasType.a_number n
  type_matches-HasType ParamType.integer (Json.number n) h = HasType.an_integer n h
  type_matches-HasType ParamType.boolean (Json.bool b) h = HasType.a_boolean b
  type_matches-HasType ParamType.object (Json.object ms) h = HasType.an_object ms
  type_matches-HasType ParamType.array (Json.array vs) h = HasType.an_array vs
  type_matches-HasType _ _ h = ground (arith, h)

  pub type_matches_of_HasType :
      {t : ParamType} {v : Json N} → HasType t v → type_matches is_long t v ≡ true
  unfolding type_matches
  type_matches_of_HasType (HasType.a_string s) = refl
  type_matches_of_HasType (HasType.a_number n) = refl
  type_matches_of_HasType (HasType.an_integer n h) = h
  type_matches_of_HasType (HasType.a_boolean b) = refl
  type_matches_of_HasType (HasType.an_object ms) = refl
  type_matches_of_HasType (HasType.an_array vs) = refl

  pub is_allowed-Among : (s : Bytes) (l : List Bytes) → is_allowed s l ≡ true → Among s l
  unfolding is_allowed
  is_allowed-Among s [] h = ground (arith, h)
  is_allowed-Among s (a ∷ l) h = elim (Bool-cases (beq a s)) [
    | inl y ↦ rw ((beq_iff a s).0 y) Among.first
    | inr n ↦ Among.later (is_allowed-Among s l (ground (arith, h, n)))
  ]

  pub is_allowed_of_Among : {s : Bytes} {l : List Bytes} → Among s l → is_allowed s l ≡ true
  unfolding is_allowed
  is_allowed_of_Among {s} Among.first = rw (beq_refl s) refl
  is_allowed_of_Among (Among.later m) = ground (arith, is_allowed_of_Among m)
