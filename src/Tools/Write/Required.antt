-- ===== src/Tools/Write/Required.antt =====
-- The schema that src/tools/SchemaUtil.cpp writes for fields that are all required, in the sense of
-- `allFieldsRequired`.
use edge_llm.Base.{
  ◌≡◌, refl, sym, subst, ◌∙◌, inl, inr, Bool, true, false, not, ◌&&◌, List, [], ◌∷◌, Bytes, bytes,
  beq, beq_refl, if◌then◌else◌, arith, Bool-cases,
}
use edge_llm.Tools.Json.{Json, Items, Members, at, put}
use edge_llm.Tools.Schema.{
  ParamHead, ToolParam, Params, head, no_children, is_object_type, is_array_type, items_of,
}
use edge_llm.Tools.Write.{
  all_fields_required, param_required, any_required, required_names, object_schema,
  write_description, write_enum, write_head, write_nested, write_fields, write_param_schema,
  write_object_schema,
}
use edge_llm.Tools.Write.Strict.{
  lists, IsStrict, AreStrict, plain, list, no_props, at-put, at-put_other, put-AreStrict,
  put-IsStrict,
}

if_true : {A : Type 0} (b : Bool) (x y : A) → b ≡ true → (if b then x else y) ≡ x
if_true b x y e = rw e refl

required_of : (p : ToolParam) → param_required p ≡ true → (head p).required ≡ true
unfolding param_required
required_of (ToolParam.tool_param p children) h = ground (arith, h)

module _ {N : Type 0} where
  -- The names of some fields are all in an array.
  abbrev Named : Items N → Params → Type 0
  Named required Params.no_params = Unit
  Named required (Params.param p ps) = (lists (head p).name required ≡ true) × Named required ps

  item-Named :
      (v : Json N) (required : Items N) (ps : Params)
      → Named required ps
      → Named (Items.item v required) ps
  item-Named v required Params.no_params h = tt
  item-Named v required (Params.param p ps) (e, h) = (ground (arith, e), item-Named v required ps h)

  Named-cons :
      (p : ToolParam) (ps : Params) (required : Items N)
      → (head p).required ≡ true
      → Named required ps
      → Named
          (if (head p).required then Items.item (Json.text (head p).name) required else required)
          (Params.param p ps)
  Named-cons p ps required r h =
      subst (λ q. Named q (Params.param p ps)) (sym (if_true _ _ _ r))
        (
          (ground (arith, beq_refl (head p).name)),
          item-Named (Json.text (head p).name) required ps h,
        )

required_names-Named :
    (N : Type 0) (ps : Params)
    → all_fields_required ps ≡ true
    → Named (required_names {N = N} ps) ps
unfolding all_fields_required required_names
required_names-Named N Params.no_params h = tt
required_names-Named N (Params.param p ps) h =
    let a : param_required p ≡ true = ground (arith, h) in
    let b : all_fields_required ps ≡ true = ground (arith, h) in
    Named-cons p ps _ (required_of p a) (required_names-Named N ps b)

any_required_of :
    (p : ToolParam) (ps : Params)
    → all_fields_required (Params.param p ps) ≡ true
    → any_required (Params.param p ps) ≡ true
unfolding all_fields_required any_required
any_required_of p ps h =
    let a : param_required p ≡ true = ground (arith, h) in rw (required_of p a) refl

module _ {N : Type 0} where
  object_schema-IsStrict :
      (ps : Params) (props out : Members N)
      → all_fields_required ps ≡ true
      → AreStrict (required_names ps) props
      → (ps ≡ Params.no_params → props ≡ Members.no_members)
      → IsStrict (object_schema true ps props out)
  unfolding object_schema any_required
  object_schema-IsStrict Params.no_params props out h r e =
      let typed = put (bytes "type") (Json.text (bytes "object")) out in
      put-IsStrict (put (bytes "properties") (Json.object props) typed) props
        (at-put (bytes "properties") (Json.object props) typed) (rw (e refl) no_props)
  object_schema-IsStrict (Params.param p ps) props out h r e =
      let typed = put (bytes "type") (Json.text (bytes "object")) out in
      let shaped = put (bytes "properties") (Json.object props) typed in
      let all : Json N = Json.array (required_names (Params.param p ps)) in
      rw (any_required_of p ps h, object_schema)
        (put-IsStrict (put (bytes "required") all shaped) props
          (at-put_other (bytes "properties") (bytes "required") all shaped refl
            ∙ at-put (bytes "properties") (Json.object props) typed)
          (subst (λ v. AreStrict (items_of v) props) (sym (at-put (bytes "required") all shaped))
            r))

  described_at :
      (k d : Bytes) (es : List Bytes) (t : Json N)
      → beq (bytes "type") k ≡ false
      → beq (bytes "description") k ≡ false
      → beq (bytes "enum") k ≡ false
      → at k (write_enum es (write_description d (put (bytes "type") t Members.no_members)))
        ≡ Json.null
  described_at k [] [] t a b c = rw a refl
  described_at k [] (e ∷ es) t a b c = rw (a, c) refl
  described_at k (x ∷ d) [] t a b c = rw (a, b) refl
  described_at k (x ∷ d) (e ∷ es) t a b c = rw (a, b, c) refl

  -- What a head writes has no properties and no items.
  write_head_plain :
      (p : ParamHead)
      → (at (bytes "properties") (write_head {N = N} p) ≡ Json.null)
        × (at (bytes "items") (write_head {N = N} p) ≡ Json.null)
  unfolding write_head
  write_head_plain p = (
    described_at (bytes "properties") p.description p.enum_values _ refl refl refl,
    described_at (bytes "items") p.description p.enum_values _ refl refl refl,
  )

  type_only : (t : Bytes) → IsStrict {N = N} (put (bytes "type") (Json.text t) Members.no_members)
  type_only t = plain refl refl

  list-IsStrict :
      (p : ParamHead) (item : Members N)
      → IsStrict item
      → IsStrict (put (bytes "items") (Json.object item) (write_head p))
  list-IsStrict p item h =
      list
        (at-put_other (bytes "properties") (bytes "items") _ (write_head p) refl
          ∙ (write_head_plain p).0)
        (at-put (bytes "items") (Json.object item) (write_head p)) h

  write_nested-IsStrict :
      (p : ParamHead) (children : Params) (inner : Members N → Members N)
      → ((out : Members N) → no_children children ≡ false → IsStrict (inner out))
      → IsStrict (write_nested p children inner (write_head p))
  unfolding write_nested
  write_nested-IsStrict p children inner h =
      elim (Bool-cases (is_object_type p.type && not (no_children children))) [
        | inl y ↦ rw (y, write_nested) (h (write_head p) (ground (arith, y)))
        | inr n ↦ elim (Bool-cases (is_array_type p.type && p.has_items)) [
          | inr m ↦ rw (n, m, write_nested) (plain (write_head_plain p).0 (write_head_plain p).1)
          | inl y ↦ elim (Bool-cases (is_object_type p.item_type && not (no_children children))) [
            | inl z ↦
                rw (n, y, z, write_nested)
                  (list-IsStrict p _ (h Members.no_members (ground (arith, z))))
            | inr o ↦ rw (n, y, o, write_nested) (list-IsStrict p _ (type_only _))
          ]
        ]
      ]

  first_written :
      (ps : Params)
      → ps ≡ Params.no_params
      → write_fields {N = N} true ps Members.no_members ≡ Members.no_members
  unfolding write_fields
  first_written ps e = rw e refl

  -- The loop over the fields adds properties that are all required.
  mutual
    unfolding write_fields write_param_schema all_fields_required param_required

    write_fields-AreStrict :
        (ps : Params) (required : Items N) (props : Members N)
        → all_fields_required ps ≡ true
        → Named required ps
        → AreStrict required props
        → AreStrict required (write_fields true ps props)
    write_fields-AreStrict Params.no_params required props h n r = r
    write_fields-AreStrict (Params.param p ps) required props h n r =
        write_fields-AreStrict ps required _ (ground (arith, h)) n.1 (
          put-AreStrict (head p).name (write_param_schema true p) props required n.0
            (write_param_schema-IsStrict p (ground (arith, h))) r)

    write_param_schema-IsStrict :
        (p : ToolParam) → param_required p ≡ true → IsStrict (write_param_schema {N = N} true p)
    write_param_schema-IsStrict (ToolParam.tool_param p children) h =
        write_nested-IsStrict p children _ (λ out n.
          let a : all_fields_required children ≡ true = ground (arith, h, n) in
          object_schema-IsStrict children _ out a
            (write_fields-AreStrict children _ _ a (required_names-Named N children a) no_props)
            (first_written children))

  -- The schema of fields that are all required, and so are those below them, is strict: each object in
  -- it that has properties requires all of them and allows no others.
  pub write_object_schema-IsStrict :
      (ps : Params) (out : Members N)
      → all_fields_required ps ≡ true
      → IsStrict (write_object_schema true ps out)
  unfolding write_object_schema
  write_object_schema-IsStrict ps out h =
      object_schema-IsStrict ps _ out h
        (write_fields-AreStrict ps _ _ h (required_names-Named N ps h) no_props) (first_written ps)
