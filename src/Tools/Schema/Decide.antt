-- ===== src/Tools/Schema/Decide.antt =====
-- The check of src/tools/SchemaUtil.cpp decides whether a document fits the fields.
use edge_llm.Base.{
  ◌≡◌, refl, ◌↔◌, Bool, true, false, Option, none, some, List, [], ◌∷◌, Bytes, arith, if◌then◌else◌,
  not, ◌&&◌,
}
use edge_llm.Core.{Status}
use edge_llm.Tools.Json.{Json, Items, get, every}
use edge_llm.Tools.Schema.{
  ParamType, ParamHead, ToolParam, Params, head, no_children, c_string, is_allowed, type_matches,
  enum_matches, item_matches, nested_matches, validate_fields, validate_value, validate_object,
  is_string_type, is_object_type, document,
}
use edge_llm.Tools.Schema.Conform.{
  HasType, Fits, FitsField, FitsValue, FitsItems, type_matches_of_HasType, is_allowed_of_Among,
}
use edge_llm.Tools.Schema.Sound.{validate_fields-Fits}
use edge_llm.Tools.Schema.{check, document}

module _ {N : Type 0} (is_long : N → Bool) where
  enum_of_allowed :
      (p : ParamHead) (s : Bytes) (l : List Bytes)
      → p.enum_values ≡ l
      → is_allowed (c_string s) l ≡ true
      → enum_matches {N = N} p (Json.text s) ≡ true
  unfolding enum_matches is_allowed
  enum_of_allowed p s [] q h = ground (arith, q)
  enum_of_allowed p s (a ∷ l) q h = ground (arith, q, h)

  guarded :
      (t : ParamType) (b c : Bool)
      → (t ≡ ParamType.object → c ≡ true)
      → (if is_object_type t && b then c else true) ≡ true
  guarded ParamType.object b c h = ground (arith, h refl)
  guarded _ b c h = refl

  module _ (p : ParamHead) (children : Params) (inner : Json N → Bool)
      (complete : (w : Json N) → Fits is_long children w → inner w ≡ true) where
    every_of_FitsItems :
        {vs : Items N}
        → FitsItems is_long p.item_type children vs
        → every (item_matches is_long p children inner) vs ≡ true
    unfolding item_matches
    every_of_FitsItems FitsItems.no_item = refl
    every_of_FitsItems (FitsItems.items {v = v} {vs = vs} t f r) =
        let ty = type_matches_of_HasType is_long t in
        let g =
          guarded p.item_type (not (no_children children)) (inner v) (λ e. complete v (f e)) in
        let rest = every_of_FitsItems r in ground (arith, ty, g, rest)

    validate_of_FitsValue :
        {v : Json N}
        → FitsValue is_long (ToolParam.tool_param p children) v
        → (if not (type_matches is_long p.type v)
            then false
            else if is_string_type p.type && not (enum_matches p v)
            then false
            else nested_matches is_long p children inner v)
          ≡ true
    unfolding nested_matches enum_matches type_matches
    validate_of_FitsValue (FitsValue.free_string s e q) = rw (e, q) refl
    validate_of_FitsValue (FitsValue.choice s e m) =
        rw (e, enum_of_allowed p s p.enum_values refl (is_allowed_of_Among is_long m)) refl
    validate_of_FitsValue (FitsValue.plain pl e (HasType.a_number n)) = rw e refl
    validate_of_FitsValue (FitsValue.plain pl e (HasType.an_integer n l)) = rw (e, l) refl
    validate_of_FitsValue (FitsValue.plain pl e (HasType.a_boolean b)) = rw e refl
    validate_of_FitsValue (FitsValue.plain pl e _) = absurd pl
    validate_of_FitsValue (FitsValue.shaped ms e d) = rw e (
        guarded ParamType.object (not (no_children children)) (inner (Json.object ms))
          (λ _. complete (Json.object ms) d))
    validate_of_FitsValue (FitsValue.any_array vs e h) = rw (e, h) refl
    validate_of_FitsValue (FitsValue.array_of vs e h d) = rw (e, h) (every_of_FitsItems d)

  mutual
    unfolding validate_fields

    validate_fields_of_Fits :
        (ps : Params) (v : Json N) → Fits is_long ps v → validate_fields is_long ps v ≡ true
    validate_fields_of_Fits Params.no_params v d = refl
    validate_fields_of_Fits (Params.param p ps) v (Fits.fields (FitsField.missing n q) r) =
        let rest = validate_fields_of_Fits ps v r in ground (arith, n, q, rest)
    validate_fields_of_Fits (Params.param p ps) v (Fits.fields (FitsField.present n f) r) =
        let ok = validate_value_of_FitsValue p (get (head p).name v) f in
        let rest = validate_fields_of_Fits ps v r in ground (arith, n, ok, rest)

    validate_value_of_FitsValue :
        (p : ToolParam) (v : Json N) → FitsValue is_long p v → validate_value is_long p v ≡ true
    validate_value_of_FitsValue (ToolParam.tool_param p children) v f =
        validate_of_FitsValue p children (λ w. validate_fields is_long children w)
          (validate_fields_of_Fits children) f

  check-Fits :
      (ps : Params) (o : Option (Json N))
      → check is_long ps o ≡ Status.ok
      → (doc : Json N) × ((o ≡ some doc) × Fits is_long ps doc)
  check-Fits ps none h = ground (arith, h)
  check-Fits ps (some doc) h =
      (doc, (refl, validate_fields-Fits is_long ps doc (ground (arith, h))))

  check_of_Fits :
      (ps : Params) (o : Option (Json N))
      → (doc : Json N) × ((o ≡ some doc) × Fits is_long ps doc)
      → check is_long ps o ≡ Status.ok
  check_of_Fits ps o (doc, (e, d)) = rw (e, validate_fields_of_Fits ps doc d) refl

  -- The check of a text against some fields succeeds just when the text is a JSON document, or empty,
  -- that fits them.
  pub validate_object_iff :
      (deserialize : Bytes → Option (Json N)) (ps : Params) (json : Bytes)
      → (validate_object is_long deserialize ps json ≡ Status.ok)
        ↔ ((doc : Json N) × ((document deserialize json ≡ some doc) × Fits is_long ps doc))
  unfolding validate_object
  validate_object_iff deserialize ps json =
      (check-Fits ps (document deserialize json), check_of_Fits ps (document deserialize json))
