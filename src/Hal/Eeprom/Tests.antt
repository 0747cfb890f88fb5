-- ===== src/Hal/Eeprom/Tests.antt =====
-- The stores on a concrete EEPROM: a list of cells.
use edge_llm.Base.{
  ℕ, zero, suc, ◌≡◌, ◌<◌, refl, [], ◌∷◌, Bytes, bytes, arith, length, if◌then◌else◌, ◌==◌,
}
use edge_llm.Core.{Error, Status, Result}
use edge_llm.Hal.Secrets.{IsSecretStore}
use edge_llm.Hal.Codec.{encode_kv, decode_kv}
use edge_llm.Base.Map.{insert}
use edge_llm.Hal.Memory.{get_item}
use edge_llm.Hal.Eeprom.{Eeprom, IsEeprom, EepromStore, begin, set_entry, get_entry, eeprom_store}
use edge_llm.Hal.Eeprom.Store.{eeprom_store-IsSecretStore, IsStored}

abbrev cell : ℕ → Bytes → ℕ
cell i [] = 255
cell zero (b ∷ e) = b
cell (suc i) (b ∷ e) = cell i e

abbrev put_cell : ℕ → ℕ → Bytes → Bytes
put_cell i b [] = []
put_cell zero b (c ∷ e) = b ∷ e
put_cell (suc i) b (c ∷ e) = c ∷ put_cell i b e

abbrev cells : Eeprom Bytes
cells = record { size = length; read = cell; write = put_cell; commit = λ e. e }

cell-put_cell :
    (e : Bytes) (i j b : ℕ)
    → i < length e
    → cell j (put_cell i b e) ≡ (if j == i then b else cell j e)
cell-put_cell [] i j b h = ground arith
cell-put_cell (c ∷ e) zero zero b h = refl
cell-put_cell (c ∷ e) zero (suc j) b h = ground arith
cell-put_cell (c ∷ e) (suc i) zero b h = ground arith
cell-put_cell (c ∷ e) (suc i) (suc j) b h = ground (arith, cell-put_cell e i j b)

length-put_cell : (e : Bytes) (i b : ℕ) → length (put_cell i b e) ≡ length e
length-put_cell [] i b = refl
length-put_cell (c ∷ e) zero b = refl
length-put_cell (c ∷ e) (suc i) b = ground (arith, length-put_cell e i b)

cells-IsEeprom : IsEeprom cells
cells-IsEeprom = record {
  read-write = λ i j b e h. cell-put_cell e i j b h;
  size-write = λ i b e. length-put_cell e i b;
  read-commit = λ j e. refl;
  size-commit = λ e. refl;
}

abbrev erased : EepromStore Bytes
erased = record {
  entries = [];
  capacity = 0;
  eeprom = 255 ∷ 255 ∷ 255 ∷ 255 ∷ 255 ∷ 255 ∷ 255 ∷ 255 ∷ 255 ∷ 255 ∷ 255 ∷ 255 ∷ 255 ∷ [];
}

set_then_reboot :
    get_entry cells (bytes "ab") (begin cells (set_entry cells (bytes "ab") (bytes "x") erased).0)
    ≡ Result.ok (bytes "x")
unfolding get_entry begin set_entry get_item decode_kv encode_kv insert
set_then_reboot = refl

set_too_long : (set_entry cells (bytes "ab") (bytes "xyz") erased).1 ≡ Status.fail Error.capacity
unfolding set_entry encode_kv insert
set_too_long = refl

eeprom_store-IsSecretStore_example : IsSecretStore (IsStored cells) (eeprom_store cells)
eeprom_store-IsSecretStore_example = eeprom_store-IsSecretStore cells cells-IsEeprom
