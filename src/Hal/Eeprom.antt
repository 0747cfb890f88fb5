-- ===== src/Hal/Eeprom.antt =====
-- src/hal/EepromSecretStore.{h,cpp}: the store that rewrites its whole blob at each mutation. The
-- EEPROM object of the board's library is a parameter.
pub mod Cells
pub mod Store
mod Tests
use edge_llm.Base.{
  ℕ, zero, suc, ◌+◌, ◌≤◌, ◌<◌, ◌≡◌, Bool, true, false, Option, none, some, List, [], ◌∷◌, Bytes,
  ◌==◌, ltb, if◌then◌else◌,
}
use edge_llm.Base.Map.{insert, erase, has}
use edge_llm.Core.{Error, Status, Result}
use edge_llm.Hal.Codec.{Kv, encode_kv, decode_kv}
use edge_llm.Hal.Memory.{get_item, has_item}
use edge_llm.Hal.Secrets.{SecretStore}

-- The library's object with the state `E`. On a board without a commit, `commit` is the identity.
pub record Eeprom (E : Type 0) : Type 0 where
  pub size : E → ℕ
  pub read : ℕ → E → ℕ
  pub write : ℕ → ℕ → E → E
  pub commit : E → E

-- What the library documents: a cell keeps the byte that was written last.
pub record IsEeprom {E : Type 0} (o : Eeprom E) : Type 0 where
  pub read-write :
      (i j b : ℕ) (e : E)
      → i < o.size e
      → o.read j (o.write i b e) ≡ (if j == i then b else o.read j e)
  pub size-write : (i b : ℕ) (e : E) → o.size (o.write i b e) ≡ o.size e
  pub read-commit : (j : ℕ) (e : E) → o.read j (o.commit e) ≡ o.read j e
  pub size-commit : (e : E) → o.size (o.commit e) ≡ o.size e

pub record EepromStore (E : Type 0) : Type 0 where
  pub entries : Kv
  pub capacity : ℕ
  pub eeprom : E

module _ {E : Type 0} (o : Eeprom E) where
  unfoldable pub capacity_bytes : EepromStore E → ℕ
  capacity_bytes s =
      if s.capacity == 0
      then o.size s.eeprom
      else if ltb s.capacity (o.size s.eeprom)
      then s.capacity
      else o.size s.eeprom

  -- The loop of `writeBlob` from the index `i` on.
  unfoldable pub write_from : ℕ → Bytes → E → E
  write_from i [] e = e
  write_from i (b ∷ blob) e = write_from (suc i) blob (o.write i b e)

  unfoldable pub write_blob : Bytes → E → E
  unfolding write_from
  write_blob blob e = o.commit (write_from 0 blob e)

  -- The loop of `begin`: `n` bytes from the index `i` on.
  unfoldable pub read_from : ℕ → ℕ → E → Bytes
  read_from i zero e = []
  read_from i (suc n) e = o.read i e ∷ read_from (suc i) n e

  -- The answer of `decodeKv` is not used.
  unfoldable pub begin : EepromStore E → EepromStore E
  unfolding capacity_bytes read_from
  begin s = record s { entries = (decode_kv (read_from 0 (capacity_bytes s) s.eeprom)).1 }

  -- The last lines of `set` and of `remove`: the candidate takes effect if its blob fits.
  unfoldable pub replace : Kv → EepromStore E → EepromStore E × Status
  unfolding capacity_bytes write_blob
  replace candidate s = elim (encode_kv candidate (capacity_bytes s)) [
    | none ↦ (s, Status.fail Error.capacity)
    | some blob ↦ (record s { entries = candidate; eeprom = write_blob blob s.eeprom }, Status.ok)
  ]

  unfoldable pub set_entry : Bytes → Bytes → EepromStore E → EepromStore E × Status
  unfolding replace
  set_entry [] value s = (s, Status.fail Error.invalid_argument)
  set_entry (c ∷ key) value s = replace (insert (c ∷ key) value s.entries) s

  unfoldable pub get_entry : Bytes → EepromStore E → Result Bytes
  get_entry key s = get_item key s.entries

  unfoldable pub has_entry : Bytes → EepromStore E → Bool
  has_entry key s = has_item key s.entries

  unfoldable pub remove_entry : Bytes → EepromStore E → EepromStore E × Status
  unfolding replace
  remove_entry key s = if has key s.entries then replace (erase key s.entries) s else (s, Status.ok)

  -- A blob that does not fit is left empty by `encodeKv`, and nothing is written.
  unfoldable pub clear_entries : EepromStore E → EepromStore E × Status
  unfolding capacity_bytes write_blob
  clear_entries s =
      let blob : Bytes = elim (encode_kv [] (capacity_bytes s)) [ none ↦ [] | some b ↦ b ] in
      (record s { entries = []; eeprom = write_blob blob s.eeprom }, Status.ok)

  abbrev pub eeprom_store : SecretStore (EepromStore E)
  eeprom_store = record {
    set = set_entry;
    get = get_entry;
    has = has_entry;
    remove = remove_entry;
    clear = clear_entries;
  }
