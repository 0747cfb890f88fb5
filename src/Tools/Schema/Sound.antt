-- ===== src/Tools/Schema/Sound.antt =====
-- What the check of src/tools/SchemaUtil.cpp lets through fits the fields.
use edge_llm.Base.{
  ◌≡◌, refl, Bool, true, false, List, [], ◌∷◌, Bytes, inl, inr, arith, Bool-cases, if◌then◌else◌,
  not, ◌&&◌,
}
use edge_llm.Tools.Json.{Json, Items, get, is_null, every}
use edge_llm.Tools.Schema.{
  ParamType, ParamHead, ToolParam, Params, head, no_children, c_string, enum_matches, item_matches,
  nested_matches, validate_fields, validate_value, is_string_type,
}
use edge_llm.Tools.Schema.Conform.{
  HasType, Fits, FitsField, FitsValue, FitsItems, type_matches-HasType, is_allowed-Among,
}

module _ {N : Type 0} (is_long : N → Bool) where
  enum_matches-FitsValue :
      (p : ParamHead) (children : Params) (s : Bytes)
      → p.type ≡ ParamType.string
      → enum_matches {N = N} p (Json.text s) ≡ true
      → (l : List Bytes) → p.enum_values ≡ l
      → FitsValue is_long (ToolParam.tool_param p children) (Json.text s)
  unfolding enum_matches
  enum_matches-FitsValue p children s e h [] q = FitsValue.free_string s e q
  enum_matches-FitsValue p children s e h (a ∷ l) q =
      FitsValue.choice s e
        (rw q (is_allowed-Among is_long (c_string s) (a ∷ l) (ground (arith, h, q))))

  module _ (p : ParamHead) (children : Params) (inner : Json N → Bool)
      (sound : (w : Json N) → inner w ≡ true → Fits is_long children w) where
    inner-Fits :
        (v : Json N) (l : Params)
        → children ≡ l
        → (if not (no_children children) then inner v else true) ≡ true
        → Fits is_long children v
    inner-Fits v Params.no_params q h = rw q Fits.no_field
    inner-Fits v (Params.param c cs) q h = sound v (ground (arith, h, q))

    every-FitsItems :
        (vs : Items N)
        → every (item_matches is_long p children inner) vs ≡ true
        → FitsItems is_long p.item_type children vs
    unfolding item_matches
    every-FitsItems Items.no_items h = FitsItems.no_item
    every-FitsItems (Items.item v vs) h =
        FitsItems.items (type_matches-HasType is_long p.item_type v (ground (arith, h)))
          (λ e. inner-Fits v children refl (ground (arith, h, e)))
          (every-FitsItems vs (ground (arith, h)))

    nested_matches-FitsValue :
        {t : ParamType} {v : Json N}
        → p.type ≡ t
        → HasType is_long t v
        → (if is_string_type p.type && not (enum_matches p v)
            then false
            else nested_matches is_long p children inner v)
          ≡ true
        → FitsValue is_long (ToolParam.tool_param p children) v
    unfolding nested_matches
    nested_matches-FitsValue e (HasType.a_string s) h =
        enum_matches-FitsValue p children s e (ground (arith, h, e)) p.enum_values refl
    nested_matches-FitsValue e (HasType.a_number n) h = FitsValue.plain tt e (HasType.a_number n)
    nested_matches-FitsValue e (HasType.an_integer n l) h =
        FitsValue.plain tt e (HasType.an_integer n l)
    nested_matches-FitsValue e (HasType.a_boolean b) h = FitsValue.plain tt e (HasType.a_boolean b)
    nested_matches-FitsValue e (HasType.an_object ms) h =
        FitsValue.shaped ms e (inner-Fits (Json.object ms) children refl (ground (arith, h, e)))
    nested_matches-FitsValue e (HasType.an_array vs) h = elim (Bool-cases p.has_items) [
      | inl y ↦ FitsValue.array_of vs e y (every-FitsItems vs (ground (arith, h, e, y)))
      | inr n ↦ FitsValue.any_array vs e n
    ]

  field-FitsField :
      (p : ToolParam) (v : Json N)
      → (validate_value is_long p v ≡ true → FitsValue is_long p v)
      → (if is_null v then not (head p).required else validate_value is_long p v) ≡ true
      → FitsField is_long p v
  field-FitsField p v sound h = elim (Bool-cases (is_null v)) [
    | inl y ↦ FitsField.missing y (ground (arith, h, y))
    | inr n ↦ FitsField.present n (sound (ground (arith, h, n)))
  ]

  mutual
    unfolding validate_fields

    pub validate_fields-Fits :
        (ps : Params) (v : Json N) → validate_fields is_long ps v ≡ true → Fits is_long ps v
    validate_fields-Fits Params.no_params v h = Fits.no_field
    validate_fields-Fits (Params.param p ps) v h =
        Fits.fields
          (field-FitsField p (get (head p).name v)
            (validate_value-FitsValue p (get (head p).name v)) (ground (arith, h)))
          (validate_fields-Fits ps v (ground (arith, h)))

    validate_value-FitsValue :
        (p : ToolParam) (v : Json N) → validate_value is_long p v ≡ true → FitsValue is_long p v
    validate_value-FitsValue (ToolParam.tool_param p children) v h =
        nested_matches-FitsValue p children (λ w. validate_fields is_long children w)
          (validate_fields-Fits children) refl
          (type_matches-HasType is_long p.type v (ground (arith, h))) (ground (arith, h))
