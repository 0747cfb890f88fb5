-- ===== src/Tools/Write/Strict.antt =====
-- Schemas of objects that require all of their properties, as src/tools/SchemaUtil.cpp writes them with
-- `additionalProperties` set to false.
use edge_llm.Base.{
  ◌≡◌, refl, sym, subst, ◌∙◌, inl, inr, Bool, true, false, ◌||◌, Bytes, bytes, beq, beq_refl,
  beq_iff, arith, Bool-cases,
}
use edge_llm.Tools.Json.{Json, Items, Members, at, put}
use edge_llm.Tools.Schema.{items_of}

module _ {N : Type 0} where
  abbrev names : Bytes → Json N → Bool
  names k (Json.text s) = beq s k
  names k v = false

  -- Whether a text is in an array.
  abbrev pub lists : Bytes → Items N → Bool
  lists k Items.no_items = false
  lists k (Items.item v vs) = names k v || lists k vs

mutual
  -- An object with properties allows no others and requires all of its own, and so does every object
  -- below it, also in arrays.
  pub data IsStrict {N : Type 0} : Members N → Type 0 where
    plain :
        {ms : Members N}
        → at (bytes "properties") ms ≡ Json.null
        → at (bytes "items") ms ≡ Json.null
        → IsStrict ms
    list :
        {ms item : Members N}
        → at (bytes "properties") ms ≡ Json.null
        → at (bytes "items") ms ≡ Json.object item
        → IsStrict item
        → IsStrict ms
    shape :
        {ms props : Members N}
        → at (bytes "properties") ms ≡ Json.object props
        → at (bytes "additionalProperties") ms ≡ Json.bool false
        → AreStrict (items_of (at (bytes "required") ms)) props
        → IsStrict ms

  -- Properties that are all required.
  pub data AreStrict {N : Type 0} : Items N → Members N → Type 0 where
    no_props : {required : Items N} → AreStrict required Members.no_members
    prop :
        {required : Items N} {k : Bytes} {s ms : Members N}
        → lists k required ≡ true
        → IsStrict s
        → AreStrict required ms
        → AreStrict required (Members.member k (Json.object s) ms)

module _ {N : Type 0} where
  pub at-put : (k : Bytes) (v : Json N) (ms : Members N) → at k (put k v ms) ≡ v
  at-put k v Members.no_members = rw (beq_refl k) refl
  at-put k v (Members.member j w ms) = ground (arith, at-put k v ms)

  pub at-put_other :
      (k j : Bytes) (v : Json N) (ms : Members N) → beq j k ≡ false → at k (put j v ms) ≡ at k ms
  at-put_other k j v Members.no_members d = rw d refl
  at-put_other k j v (Members.member i w ms) d = elim (Bool-cases (beq i j)) [
    | inl y ↦ let e = (beq_iff i j).0 y in rw (y, e, d) refl
    | inr n ↦ rw (n, at-put_other k j v ms d) refl
  ]

  pub put-AreStrict :
      (k : Bytes) (s ms : Members N) (required : Items N)
      → lists k required ≡ true
      → IsStrict s
      → AreStrict required ms
      → AreStrict required (put k (Json.object s) ms)
  put-AreStrict k s _ required l h no_props = prop l h no_props
  put-AreStrict k s _ required l h (prop {k = j} {ms = ms} l' h' r) = elim (Bool-cases (beq j k)) [
    | inl y ↦ rw y (prop l' h r)
    | inr n ↦ rw n (prop l' h' (put-AreStrict k s ms required l h r))
  ]

  pub put-IsStrict :
      (ms props : Members N)
      → at (bytes "properties") ms ≡ Json.object props
      → AreStrict (items_of (at (bytes "required") ms)) props
      → IsStrict (put (bytes "additionalProperties") (Json.bool false) ms)
  put-IsStrict ms props e r =
      shape {props = props}
        (at-put_other (bytes "properties") (bytes "additionalProperties") _ ms refl ∙ e)
        (at-put (bytes "additionalProperties") (Json.bool false) ms)
        (subst (λ v. AreStrict (items_of v) props)
          (sym (
            at-put_other (bytes "required") (bytes "additionalProperties") (Json.bool false) ms
              refl))
          r)
