-- ===== src/Mcp/EdgeStore/Shape.antt =====
-- The shape that src/mcp/EdgeStore.cpp keeps its two maps in, and what changes of them keep it.
use edge_llm.Base.{
  ◌⊎◌, ℕ, ◌≤◌, ◌<◌, ◌≡◌, true, false, List, [], ◌∷◌, Bytes, beq, beq_iff, length, All, arith, inl,
  inr, not, ◌&&◌, ◌||◌,
}
use edge_llm.Base.Map.{insert, erase, has, lookup}
use edge_llm.Base.Map.Laws.{lookup-insert, lookup-erase}
use edge_llm.Base.Map.Sorted.{
  IsSorted, insert-IsSorted, erase-IsSorted, length-insert, length-erase,
}
use edge_llm.Core.{Error, Status, Status-cases}
use edge_llm.Hal.Codec.{Kv}
use edge_llm.Mcp.EdgeStore.{
  EdgeStore, Expiry, manifest_key, has_newline, due_keys, notify, evict_keys, evict_expired,
  validate_and_store, get,
}

-- What `validateAndStore` accepts of an entry.
pub record IsStorable (max_key max_value : ℕ) (e : Bytes × Bytes) : Type 0 where
  pub nonempty : 0 < length e.0
  pub key_fits : length e.0 ≤ max_key
  pub one_line : has_newline e.0 ≡ false
  pub unreserved : beq e.0 manifest_key ≡ false
  pub value_fits : length e.1 ≤ max_value

-- The caps hold, both maps are in order, and only stored keys have a deadline; an entry that was not
-- checked is one of `Loaded`.
pub record HasShape (Loaded : Bytes × Bytes → Type 0) (max_keys max_value max_key : ℕ) (values : Kv)
    (expiry : Expiry) : Type 0 where
  pub ordered : IsSorted values
  pub expiry_ordered : IsSorted expiry
  pub count : length values ≤ max_keys
  pub fields : All (λ e. IsStorable max_key max_value e ⊎ Loaded e) values
  pub timed : (k : Bytes) → has k expiry ≡ true → has k values ≡ true

abbrev pub IsShapedBy : {S : Type 0} → (Bytes × Bytes → Type 0) → EdgeStore S → Type 0
IsShapedBy Loaded s = HasShape Loaded s.max_keys s.max_value_len s.max_key_len s.values s.expiry

abbrev pub IsShaped : {S : Type 0} → EdgeStore S → Type 0
IsShaped s = IsShapedBy (λ e. ⊥) s

All-checked : (P : Bytes × Bytes → Type 0) (m : Kv) → All (λ e. P e ⊎ ⊥) m → All P m
All-checked P [] h = tt
All-checked P (e ∷ m) (inl p, h) = (p, All-checked P m h)
All-checked P (e ∷ m) (inr q, h) = absurd q

pub fields-IsStorable :
    {S : Type 0} (s : EdgeStore S)
    → IsShaped s
    → All (IsStorable s.max_key_len s.max_value_len) s.values
fields-IsStorable s h = All-checked (IsStorable s.max_key_len s.max_value_len) s.values h.fields

pub has-insert {ℓ} :
    {V : Type ℓ} (m : List (Bytes × V)) (k j : Bytes) (v : V)
    → has j (insert k v m) ≡ (beq j k || has j m)
unfolding has
has-insert m k j v = ground (arith, lookup-insert m k j v)

pub has-erase {ℓ} :
    {V : Type ℓ} (m : List (Bytes × V)) (k j : Bytes)
    → has j (erase k m) ≡ (not (beq j k) && has j m)
unfolding has
has-erase m k j = ground (arith, lookup-erase m k j)

All-insert :
    (P : Bytes × Bytes → Type 0) (m : Kv) (k v : Bytes) → All P m → P (k, v) → All P (insert k v m)
unfolding insert
All-insert P [] k v a p = (p, tt)
All-insert P ((j, w) ∷ m) k v a p = ground (arith, All-insert P m k v)

All-erase : (P : Bytes × Bytes → Type 0) (m : Kv) (k : Bytes) → All P m → All P (erase k m)
unfolding erase
All-erase P [] k a = tt
All-erase P ((j, w) ∷ m) k a = ground (arith, All-erase P m k a.1)

pub nothing-HasShape : {L : Bytes × Bytes → Type 0} (mk mv ml : ℕ) → HasShape L mk mv ml [] []
unfolding has lookup
nothing-HasShape mk mv ml = record {
  ordered = tt;
  expiry_ordered = tt;
  count = omega arith;
  fields = tt;
  timed = λ k h. ground arith;
}

pub erase-HasShape :
    {L : Bytes × Bytes → Type 0} (mk mv ml : ℕ) (k : Bytes) (values : Kv) (expiry : Expiry)
    → HasShape L mk mv ml values expiry
    → HasShape L mk mv ml (erase k values) (erase k expiry)
erase-HasShape mk mv ml k values expiry h = record {
  ordered = erase-IsSorted values k h.ordered;
  expiry_ordered = erase-IsSorted expiry k h.expiry_ordered;
  count = omega (arith, h.count, length-erase values k);
  fields = All-erase _ values k h.fields;
  timed = λ j t. ground (arith, has-erase values k j, has-erase expiry k j, h.timed j);
}

pub insert-HasShape :
    {L : Bytes × Bytes → Type 0} (mk mv ml : ℕ) (k v : Bytes) (values : Kv) (expiry : Expiry)
    → IsStorable ml mv (k, v) ⊎ L (k, v)
    → length (insert k v values) ≤ mk
    → HasShape L mk mv ml values expiry
    → HasShape L mk mv ml (insert k v values) expiry
insert-HasShape mk mv ml k v values expiry i l h = record {
  ordered = insert-IsSorted values k v h.ordered;
  expiry_ordered = h.expiry_ordered;
  count = l;
  fields = All-insert _ values k v h.fields i;
  timed = λ j t. ground (arith, has-insert values k j v, h.timed j);
}

-- A key becomes durable.
pub untimed-HasShape :
    {L : Bytes × Bytes → Type 0} (mk mv ml : ℕ) (k : Bytes) (values : Kv) (expiry : Expiry)
    → HasShape L mk mv ml values expiry
    → HasShape L mk mv ml values (erase k expiry)
untimed-HasShape mk mv ml k values expiry h = record {
  ordered = h.ordered;
  expiry_ordered = erase-IsSorted expiry k h.expiry_ordered;
  count = h.count;
  fields = h.fields;
  timed = λ j t. ground (arith, has-erase expiry k j, h.timed j);
}

-- A stored key gets a deadline.
pub timed-HasShape :
    {L : Bytes × Bytes → Type 0} (mk mv ml : ℕ) (k : Bytes) (d : ℕ) (values : Kv) (expiry : Expiry)
    → has k values ≡ true
    → HasShape L mk mv ml values expiry
    → HasShape L mk mv ml values (insert k d expiry)
timed-HasShape mk mv ml k d values expiry i h = record {
  ordered = h.ordered;
  expiry_ordered = insert-IsSorted expiry k d h.expiry_ordered;
  count = h.count;
  fields = h.fields;
  timed = λ j t. ground (arith, has-insert expiry k j d, h.timed j, beq_iff j k);
}

module _ {S : Type 0} where
  -- An entry that is accepted is storable, and leaves the map within its bound.
  pub record IsAccepted (k v : Bytes) (s : EdgeStore S) : Type 0 where
    pub storable : IsStorable s.max_key_len s.max_value_len (k, v)
    pub room : length (insert k v s.values) ≤ s.max_keys
    pub stored : validate_and_store k v s ≡ (record s { values = insert k v s.values }, Status.ok)

  validate_and_store_refuses :
      (k v : Bytes) (s : EdgeStore S) (e : Error)
      → (validate_and_store k v s).1 ≡ Status.fail e
      → validate_and_store k v s ≡ (s, Status.fail e)
  unfolding validate_and_store
  validate_and_store_refuses k v s e h = ground arith

module _ {S : Type 0} {L : Bytes × Bytes → Type 0} where
  evict_keys-IsShaped :
      (dead : List Bytes) (s : EdgeStore S) → IsShapedBy L s → IsShapedBy L (evict_keys dead s)
  unfolding evict_keys notify
  evict_keys-IsShaped [] s h = h
  evict_keys-IsShaped (k ∷ dead) s h =
      evict_keys-IsShaped dead
        (notify k true (record s { values = erase k s.values; expiry = erase k s.expiry }))
        (erase-HasShape s.max_keys s.max_value_len s.max_key_len k s.values s.expiry h)

  pub evict_expired-IsShaped : (s : EdgeStore S) → IsShapedBy L s → IsShapedBy L (evict_expired s)
  unfolding evict_expired
  evict_expired-IsShaped s h = evict_keys-IsShaped (due_keys s) (record s { reads = _ }) h

  pub get-IsShaped : (k : Bytes) (s : EdgeStore S) → IsShapedBy L s → IsShapedBy L (get k s).0
  unfolding get
  get-IsShaped k s h = ground (arith, evict_expired-IsShaped s h)

  validate_and_store_accepts :
      (k v : Bytes) (s : EdgeStore S)
      → IsShapedBy L s
      → (validate_and_store k v s).1 ≡ Status.ok
      → IsAccepted k v s
  unfolding validate_and_store
  validate_and_store_accepts k v s h ok = record {
    storable = record {
      nonempty = ground arith;
      key_fits = ground arith;
      one_line = ground arith;
      unreserved = ground arith;
      value_fits = ground arith;
    };
    room = ground (arith, length-insert s.values k v h.ordered, h.count);
    stored = ground arith;
  }

  pub validate_and_store_cases :
      (k v : Bytes) (s : EdgeStore S)
      → IsShapedBy L s
      → IsAccepted k v s ⊎ ((e : Error) × (validate_and_store k v s ≡ (s, Status.fail e)))
  validate_and_store_cases k v s h = elim (Status-cases (validate_and_store k v s).1) [
    | inl ok ↦ inl (validate_and_store_accepts k v s h ok)
    | inr (e, f) ↦ inr (e, validate_and_store_refuses k v s e f)
  ]
