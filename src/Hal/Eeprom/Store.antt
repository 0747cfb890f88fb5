-- ===== src/Hal/Eeprom/Store.antt =====
-- What a reboot finds in the EEPROM, and the contract of a secret store, for
-- src/hal/EepromSecretStore.cpp.
use edge_llm.Base.{
  ◌≤◌, ◌<◌, ◌≡◌, refl, none, some, [], ◌∷◌, Bytes, arith, beq, if◌then◌else◌, Option-cases, inl,
  inr, Bool-cases,
}
use edge_llm.Base.Map.{insert, erase, has, lookup}
use edge_llm.Base.Map.Sorted.{IsSorted, insert-IsSorted, erase-IsSorted}
use edge_llm.Core.{Error, Status, Result}
use edge_llm.Hal.Codec.{Kv, encode_kv}
use edge_llm.Hal.Codec.Encode.{length_of_encode_kv, encode_empty_full}
use edge_llm.Hal.Codec.RoundTrip.{decode_kv-encode_kv, decode_kv_tiny}
use edge_llm.Hal.Memory.{
  get_item, has_item, get_item-insert, get_item-erase, has_item_iff, get_item_missing,
}
use edge_llm.Hal.Secrets.{IsSecretStore}
use edge_llm.Hal.Eeprom.{
  Eeprom, IsEeprom, EepromStore, capacity_bytes, write_blob, read_from, begin, replace, set_entry,
  get_entry, has_entry, remove_entry, clear_entries, eeprom_store,
}
use edge_llm.Hal.Eeprom.Cells.{size-write_blob, read_from-write_blob, length-read_from}

module _ {E : Type 0} (o : Eeprom E) where
  -- The map is in order, and a reboot reads it again.
  pub record IsStored (s : EepromStore E) : Type 0 where
    pub sorted : IsSorted s.entries
    pub kept : (begin o s).entries ≡ s.entries

  capacity_bytes_bound : (s : EepromStore E) → capacity_bytes o s ≤ o.size s.eeprom
  unfolding capacity_bytes
  capacity_bytes_bound s = ground arith

module _ {E : Type 0} (o : Eeprom E) (law : IsEeprom o) where
  capacity_bytes-write_blob :
      (s : EepromStore E) (m : Kv) (blob : Bytes)
      → capacity_bytes o (record s { entries = m; eeprom = write_blob o blob s.eeprom })
        ≡ capacity_bytes o s
  unfolding capacity_bytes
  capacity_bytes-write_blob s m blob = rw (size-write_blob o law blob s.eeprom)

  begin-write_blob :
      (s : EepromStore E) (m : Kv) (blob : Bytes)
      → IsSorted m
      → encode_kv m (capacity_bytes o s) ≡ some blob
      → (begin o (record s { entries = m; eeprom = write_blob o blob s.eeprom })).entries ≡ m
  unfolding begin
  begin-write_blob s m blob h e =
      let (junk, eq) =
        read_from-write_blob o law blob (capacity_bytes o s) s.eeprom
          (length_of_encode_kv m (capacity_bytes o s) blob e) (capacity_bytes_bound o s) in
      rw (
        capacity_bytes-write_blob s m blob,
        eq,
        decode_kv-encode_kv m (capacity_bytes o s) blob junk h e,
      )

  replace_full :
      (m : Kv) (s : EepromStore E)
      → encode_kv m (capacity_bytes o s) ≡ none
      → replace o m s ≡ (s, Status.fail Error.capacity)
  unfolding replace
  replace_full m s e = rw (e, replace) refl

  replace_fits :
      (m : Kv) (s : EepromStore E) (blob : Bytes)
      → encode_kv m (capacity_bytes o s) ≡ some blob
      → replace o m s ≡ (record s { entries = m; eeprom = write_blob o blob s.eeprom }, Status.ok)
  unfolding replace
  replace_fits m s blob e = rw (e, replace) refl

  replace-IsStored :
      (m : Kv) (s : EepromStore E) → IsSorted m → IsStored o s → IsStored o (replace o m s).0
  replace-IsStored m s h i = elim (Option-cases (encode_kv m (capacity_bytes o s))) [
    | inl e ↦ rw (replace_full m s e) i
    | inr (blob, e) ↦
        rw (replace_fits m s blob e) (record { sorted = h; kept = begin-write_blob s m blob h e })
  ]

  set_entry-IsStored :
      (k v : Bytes) (s : EepromStore E) → IsStored o s → IsStored o (set_entry o k v s).0
  unfolding set_entry
  set_entry-IsStored [] v s i = i
  set_entry-IsStored (c ∷ k) v s i =
      replace-IsStored (insert (c ∷ k) v s.entries) s (insert-IsSorted s.entries (c ∷ k) v i.sorted)
        i

  remove_entry-IsStored :
      (k : Bytes) (s : EepromStore E) → IsStored o s → IsStored o (remove_entry o k s).0
  unfolding remove_entry
  remove_entry-IsStored k s i =
      ground
        (arith, replace-IsStored (erase k s.entries) s (erase-IsSorted s.entries k i.sorted) i, i)

  -- A store too small for a blob reads as empty.
  begin_tiny :
      (s : EepromStore E) (blob : Bytes)
      → capacity_bytes o s < 7
      → (begin o (record s { entries = []; eeprom = write_blob o blob s.eeprom })).entries ≡ []
  unfolding begin
  begin_tiny s blob h =
      let e = write_blob o blob s.eeprom in
      let n = capacity_bytes o s in
      rw
        (
          capacity_bytes-write_blob s [] blob,
          decode_kv_tiny (read_from o 0 n e) (rw (length-read_from o n 0 e) h),
        )
        refl

  clear_entries-IsStored : (s : EepromStore E) → IsStored o s → IsStored o (clear_entries o s).0
  unfolding clear_entries
  clear_entries-IsStored s i = elim (Option-cases (encode_kv [] (capacity_bytes o s))) [
    | inl e ↦
        rw (e, clear_entries)
          (record {
            sorted = tt;
            kept = begin_tiny s [] (encode_empty_full (capacity_bytes o s) e);
          })
    | inr (blob, e) ↦
        rw (e, clear_entries) (record { sorted = tt; kept = begin-write_blob s [] blob tt e })
  ]

  -- An answer `ok` of the last lines means that the candidate is the map now.
  entries-replace :
      (m : Kv) (s : EepromStore E) → (replace o m s).1 ≡ Status.ok → (replace o m s).0.entries ≡ m
  entries-replace m s h = elim (Option-cases (encode_kv m (capacity_bytes o s))) [
    | inl e ↦ ground (arith, replace_full m s e)
    | inr (blob, e) ↦ rw (replace_fits m s blob e) refl
  ]

  replace_failed :
      (m : Kv) (s : EepromStore E) (e : Error)
      → (replace o m s).1 ≡ Status.fail e
      → (replace o m s).0 ≡ s
  replace_failed m s e h = elim (Option-cases (encode_kv m (capacity_bytes o s))) [
    | inl n ↦ rw (replace_full m s n) refl
    | inr (blob, f) ↦ ground (arith, replace_fits m s blob f)
  ]

  get_entry-set_entry :
      (k v j : Bytes) (s : EepromStore E)
      → (set_entry o k v s).1 ≡ Status.ok
      → get_entry o j (set_entry o k v s).0 ≡ (if beq j k then Result.ok v else get_entry o j s)
  unfolding set_entry get_entry
  get_entry-set_entry [] v j s h = ground arith
  get_entry-set_entry (c ∷ k) v j s h =
      rw (entries-replace (insert (c ∷ k) v s.entries) s h) (get_item-insert (c ∷ k) v j s.entries)

  set_entry_failed :
      (k v : Bytes) (s : EepromStore E) (e : Error)
      → (set_entry o k v s).1 ≡ Status.fail e
      → (set_entry o k v s).0 ≡ s
  unfolding set_entry
  set_entry_failed [] v s e h = refl
  set_entry_failed (c ∷ k) v s e h = replace_failed (insert (c ∷ k) v s.entries) s e h

  get_entry-remove_entry :
      (k j : Bytes) (s : EepromStore E)
      → (remove_entry o k s).1 ≡ Status.ok
      → get_entry o j (remove_entry o k s).0
        ≡ (if beq j k then Result.fail Error.secret_not_found else get_entry o j s)
  unfolding remove_entry get_entry
  get_entry-remove_entry k j s h = elim (Bool-cases (has k s.entries)) [
    | inl t ↦ ground (arith, entries-replace (erase k s.entries) s, get_item-erase k j s.entries)
    | inr f ↦ ground (arith, get_item_missing k j s.entries f)
  ]

  remove_entry_failed :
      (k : Bytes) (s : EepromStore E) (e : Error)
      → (remove_entry o k s).1 ≡ Status.fail e
      → (remove_entry o k s).0 ≡ s
  unfolding remove_entry
  remove_entry_failed k s e h = ground (arith, replace_failed (erase k s.entries) s e)

  -- Over an EEPROM whose cells keep the byte that was written last, the store keeps the contract of
  -- a secret store, and its valid states are those that a reboot gives again: after every mutation,
  -- one that fails included, `begin` reads the entries back.
  pub eeprom_store-IsSecretStore : IsSecretStore (IsStored o) (eeprom_store o)
  unfolding get_entry has_entry clear_entries get_item lookup has_item
  eeprom_store-IsSecretStore = record {
    set_valid = set_entry-IsStored;
    remove_valid = remove_entry-IsStored;
    clear_valid = clear_entries-IsStored;
    get-set = get_entry-set_entry;
    set_failed = set_entry_failed;
    get-remove = get_entry-remove_entry;
    remove_failed = remove_entry_failed;
    get-clear = λ j s. refl;
    has_iff = λ k s. has_item_iff k s.entries;
  }
