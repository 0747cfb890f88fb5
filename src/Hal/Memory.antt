-- ===== src/Hal/Memory.antt =====
-- src/hal/MemorySecretStore.{h,cpp}: the store in RAM, whose state is its map `items_`.
use edge_llm.Base.{
  ◌≡◌, refl, Bool, false, none, some, [], ◌∷◌, Bytes, beq, beq_iff, arith, if◌then◌else◌,
}
use edge_llm.Base.Map.{lookup, insert, erase, has}
use edge_llm.Base.Map.Laws.{lookup-insert, lookup-erase}
use edge_llm.Base.Map.Sorted.{IsSorted, insert-IsSorted, erase-IsSorted}
use edge_llm.Core.{Error, Status, Result}
use edge_llm.Hal.Codec.{Kv}
use edge_llm.Hal.Secrets.{SecretStore, IsSecretStore, is_found}

unfoldable pub set_item : Bytes → Bytes → Kv → Kv × Status
set_item [] value items = (items, Status.fail Error.invalid_argument)
set_item (c ∷ key) value items = (insert (c ∷ key) value items, Status.ok)

-- Also the `get` of the EEPROM's store, whose map it reads in the same way.
unfoldable pub get_item : Bytes → Kv → Result Bytes
unfolding lookup
get_item key items = elim (lookup key items) [
  | none ↦ Result.fail Error.secret_not_found
  | some value ↦ Result.ok value
]

unfoldable pub has_item : Bytes → Kv → Bool
has_item key items = has key items

unfoldable pub remove_item : Bytes → Kv → Kv × Status
remove_item key items = (erase key items, Status.ok)

unfoldable pub clear_items : Kv → Kv × Status
clear_items items = ([], Status.ok)

abbrev pub memory_store : SecretStore Kv
memory_store = record {
  set = set_item;
  get = get_item;
  has = has_item;
  remove = remove_item;
  clear = clear_items;
}

pub get_item-insert :
    (k v j : Bytes) (m : Kv)
    → get_item j (insert k v m) ≡ (if beq j k then Result.ok v else get_item j m)
unfolding get_item
get_item-insert k v j m = ground (arith, lookup-insert m k j v)

pub get_item-erase :
    (k j : Bytes) (m : Kv)
    → get_item j (erase k m)
      ≡ (if beq j k then Result.fail Error.secret_not_found else get_item j m)
unfolding get_item
get_item-erase k j m = ground (arith, lookup-erase m k j)

pub get_item_missing :
    (k j : Bytes) (m : Kv)
    → has k m ≡ false
    → (if beq j k then Result.fail Error.secret_not_found else get_item j m) ≡ get_item j m
unfolding get_item has
get_item_missing k j m h = ground (arith, beq_iff j k)

set_item_valid : (k v : Bytes) (m : Kv) → IsSorted m → IsSorted (set_item k v m).0
unfolding set_item
set_item_valid [] v m s = s
set_item_valid (c ∷ k) v m s = insert-IsSorted m (c ∷ k) v s

get_item-set_item :
    (k v j : Bytes) (m : Kv)
    → (set_item k v m).1 ≡ Status.ok
    → get_item j (set_item k v m).0 ≡ (if beq j k then Result.ok v else get_item j m)
unfolding set_item
get_item-set_item [] v j m h = cc
get_item-set_item (c ∷ k) v j m h = get_item-insert (c ∷ k) v j m

set_item_failed :
    (k v : Bytes) (m : Kv) (e : Error) → (set_item k v m).1 ≡ Status.fail e → (set_item k v m).0 ≡ m
unfolding set_item
set_item_failed [] v m e h = refl
set_item_failed (c ∷ k) v m e h = cc

pub has_item_iff : (k : Bytes) (m : Kv) → has k m ≡ is_found (get_item k m)
unfolding has get_item
has_item_iff k m = ground arith

-- The store in RAM keeps the contract of a secret store, with the order of its keys for the valid
-- states.
pub memory_store-IsSecretStore : IsSecretStore IsSorted memory_store
unfolding remove_item clear_items has_item get_item
memory_store-IsSecretStore = record {
  set_valid = set_item_valid;
  remove_valid = λ k m s. erase-IsSorted m k s;
  clear_valid = λ m s. tt;
  get-set = get_item-set_item;
  set_failed = set_item_failed;
  get-remove = λ k j m h. get_item-erase k j m;
  remove_failed = λ k m e h. cc;
  get-clear = λ j m. refl;
  has_iff = has_item_iff;
}
