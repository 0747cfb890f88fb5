-- ===== src/Tools/Json.antt =====
-- A JSON document, as src/tools and src/mcp see it through ArduinoJson. A number is a value of a
-- type `N`; the parser and the printer of texts are parameters of what uses them.
use edge_llm.Base.{Bool, true, false, Bytes, beq, if◌then◌else◌, List, [], ◌∷◌}

-- `Items` and `Members` are the lists in an array and in an object.
mutual
  pub data Json (N : Type 0) : Type 0 where
    null : Json N
    bool : Bool → Json N
    number : N → Json N
    text : Bytes → Json N
    array : Items N → Json N
    object : Members N → Json N

  pub data Items (N : Type 0) : Type 0 where
    no_items : Items N
    item : Json N → Items N → Items N

  pub data Members (N : Type 0) : Type 0 where
    no_members : Members N
    member : Bytes → Json N → Members N → Members N

module _ {N : Type 0} where
  -- `obj[key]`, which is null for a key that is not there.
  abbrev pub at : Bytes → Members N → Json N
  at key no_members = Json.null
  at key (member k v ms) = if beq k key then v else at key ms

  -- A value that is no object gives null for every key.
  abbrev pub get : Bytes → Json N → Json N
  get key (Json.object ms) = at key ms
  get key v = Json.null

  -- `obj[key] = value`, which keeps the place of a key that is there.
  abbrev pub put : Bytes → Json N → Members N → Members N
  put key value no_members = member key value no_members
  put key value (member k v ms) =
      let rest = put key value ms in if beq k key then member k value ms else member k v rest

  abbrev pub is_null : Json N → Bool
  is_null Json.null = true
  is_null v = false

  abbrev pub every : (Json N → Bool) → Items N → Bool
  every test no_items = true
  every test (item v vs) = if test v then every test vs else false

  -- An object of the members that are written in turn, under names that differ.
  abbrev pub obj : List (Bytes × Json N) → Members N
  obj [] = Members.no_members
  obj ((k, v) ∷ l) = Members.member k v (obj l)

  -- An array.
  abbrev pub some_items : List (Json N) → Items N
  some_items [] = Items.no_items
  some_items (v ∷ vs) = Items.item v (some_items vs)
