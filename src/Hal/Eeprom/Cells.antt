-- ===== src/Hal/Eeprom/Cells.antt =====
-- A blob that `writeBlob` of src/hal/EepromSecretStore.cpp wrote is read again.
use edge_llm.Base.{
  ℕ, zero, suc, ◌+◌, ◌≤◌, ◌<◌, ◌≡◌, refl, ap, ◌∙◌, [], ◌∷◌, ◌++◌, Bytes, length, arith,
}
use edge_llm.Hal.Eeprom.{Eeprom, IsEeprom, write_from, write_blob, read_from}

pub length-read_from :
    {E : Type 0} (o : Eeprom E) (n i : ℕ) (e : E) → length (read_from o i n e) ≡ n
unfolding read_from
length-read_from o zero i e = refl
length-read_from o (suc n) i e = ap suc (length-read_from o n (suc i) e)

module _ {E : Type 0} (o : Eeprom E) (law : IsEeprom o) where
  size-write_from : (blob : Bytes) (i : ℕ) (e : E) → o.size (write_from o i blob e) ≡ o.size e
  unfolding write_from
  size-write_from [] i e = refl
  size-write_from (b ∷ blob) i e =
      size-write_from blob (suc i) (o.write i b e) ∙ law.size-write i b e

  -- The cells in front of the index keep their bytes.
  read-write_from :
      (blob : Bytes) (i j : ℕ) (e : E)
      → j < i
      → i + length blob ≤ o.size e
      → o.read j (write_from o i blob e) ≡ o.read j e
  unfolding write_from
  read-write_from [] i j e h l = refl
  read-write_from (b ∷ blob) i j e h l = ground (
    arith,
    read-write_from blob (suc i) j (o.write i b e),
    law.size-write i b e,
    law.read-write i j b e,
  )

  -- What is read from the index on is the blob and what the cells behind it held.
  abbrev Reads : Bytes → ℕ → ℕ → E → Type 0
  Reads blob i n e = (junk : Bytes) × (read_from o i n e ≡ blob ++ junk)

  read_from-write_from :
      (blob : Bytes) (i n : ℕ) (e : E)
      → length blob ≤ n
      → i + n ≤ o.size e
      → Reads blob i n (write_from o i blob e)
  unfolding write_from read_from
  read_from-write_from [] i n e l h = (read_from o i n e, refl)
  read_from-write_from (b ∷ blob) i zero e l h = ground arith
  read_from-write_from (b ∷ blob) i (suc n) e l h =
      let written = o.write i b e in
      let same : o.size written ≡ o.size e = law.size-write i b e in
      let (junk, eq) = read_from-write_from blob (suc i) n written (omega arith) (omega arith) in
      let first : o.read i written ≡ b = ground (arith, law.read-write i i b e) in
      let kept = read-write_from blob (suc i) i written (omega arith) (omega arith) in
      (junk, rw (eq, kept, first))

  read_from-commit : (n i : ℕ) (e : E) → read_from o i n (o.commit e) ≡ read_from o i n e
  unfolding read_from
  read_from-commit zero i e = refl
  read_from-commit (suc n) i e = rw (read_from-commit n (suc i) e, law.read-commit i e)

  pub size-write_blob : (blob : Bytes) (e : E) → o.size (write_blob o blob e) ≡ o.size e
  unfolding write_blob
  size-write_blob blob e = law.size-commit (write_from o 0 blob e) ∙ size-write_from blob 0 e

  pub read_from-write_blob :
      (blob : Bytes) (n : ℕ) (e : E)
      → length blob ≤ n
      → n ≤ o.size e
      → (junk : Bytes) × (read_from o 0 n (write_blob o blob e) ≡ blob ++ junk)
  unfolding write_blob
  read_from-write_blob blob n e l h =
      let (junk, eq) = read_from-write_from blob 0 n e l (omega arith) in
      (junk, read_from-commit n 0 (write_from o 0 blob e) ∙ eq)
