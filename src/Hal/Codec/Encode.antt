-- ===== src/Hal/Codec/Encode.antt =====
-- When `encodeKv` of src/hal/EepromCodec.cpp succeeds, and with which bytes.
use edge_llm.Base.{
  ℕ, ◌+◌, ◌≤◌, ◌<◌, ◌≡◌, refl, sym, ap, ◌∙◌, false, ◌↔◌, none, some, [], ◌∷◌, ◌++◌, append-nil,
  append_assoc, arith, Bytes, ltb, if◌then◌else◌, length, length-append, All,
}
use edge_llm.Hal.Codec.{
  Kv, put_u16, any_oversized, put_entry, encode_entries, put_header, encode_kv,
}

-- The entries' bytes, one after another.
abbrev pub put_entries : Kv → Bytes
put_entries [] = []
put_entries (e ∷ m) = put_entry e ++ put_entries m

-- The bytes that an encoded map takes.
abbrev pub encoded_size : Kv → ℕ
encoded_size [] = 7
encoded_size ((k, v) ∷ m) = 3 + length k + length v + encoded_size m

-- Each field has a length that its prefix can write, and so has the map.
abbrev pub HasShortFields : Kv → Type 0
HasShortFields = All (λ (e : Bytes × Bytes). (length e.0 ≤ 255) × (length e.1 ≤ 65535))

encode_entries_lem :
    (max : ℕ) (m : Kv) (buf : Bytes)
    → encode_entries max buf m
      ≡ (if ltb max (length (buf ++ put_entries m)) then none else some (buf ++ put_entries m))
unfolding encode_entries
encode_entries_lem max [] buf = rw append-nil
encode_entries_lem max (e ∷ m) buf = ground (
  arith,
  encode_entries_lem max m (buf ++ put_entry e),
  append_assoc buf (put_entry e) (put_entries m),
  length-append buf (put_entry e ++ put_entries m),
  length-append buf (put_entry e),
  length-append (put_entry e) (put_entries m),
)

length-put_header : (n : ℕ) → length (put_header n) ≡ 7
unfolding put_header
length-put_header n = refl

length-put_entry : (k v : Bytes) → length (put_entry (k, v)) ≡ 3 + length k + length v
unfolding put_entry
length-put_entry k v = omega (arith, length-append k (put_u16 (length v) ++ v))

length-put_entries : (m : Kv) → 7 + length (put_entries m) ≡ encoded_size m
length-put_entries [] = refl
length-put_entries ((k, v) ∷ m) = omega (
  arith,
  length-append (put_entry (k, v)) (put_entries m),
  length-put_entry k v,
  length-put_entries m,
)

oversized_iff :
    (m : Kv)
    → (any_oversized m ≡ false → HasShortFields m) × (HasShortFields m → any_oversized m ≡ false)
unfolding any_oversized
oversized_iff [] = (λ h. tt, λ h. refl)
oversized_iff ((k, v) ∷ m) = ground (arith, (oversized_iff m).0, (oversized_iff m).1)

pub record Fits (kv : Kv) (max : ℕ) : Type 0 where
  pub count : length kv ≤ 65535
  pub fields : HasShortFields kv
  pub size : encoded_size kv ≤ max

-- The blob of the header's comment.
abbrev pub image : Kv → Bytes
image kv = put_header (length kv) ++ put_entries kv

length-image : (kv : Kv) → length (image kv) ≡ encoded_size kv
length-image kv = omega (
  arith,
  length-append (put_header (length kv)) (put_entries kv),
  length-put_header (length kv),
  length-put_entries kv,
)

encode_kv_complete : (kv : Kv) (max : ℕ) → Fits kv max → encode_kv kv max ≡ some (image kv)
unfolding encode_kv
encode_kv_complete kv max f = ground (
  arith,
  encode_entries_lem max kv (put_header (length kv)),
  (oversized_iff kv).1 f.fields,
  length-image kv,
)

encode_kv_sound :
    (kv : Kv) (max : ℕ) (blob : Bytes)
    → encode_kv kv max ≡ some blob
    → Fits kv max × (blob ≡ image kv)
unfolding encode_kv
encode_kv_sound kv max blob h = ground (
  arith,
  encode_entries_lem max kv (put_header (length kv)),
  (oversized_iff kv).0,
  length-image kv,
)

-- The encoder succeeds exactly when the map and its fields are short enough for their prefixes and
-- the whole fits in `max` bytes, and its blob is then the header and the entries in order.
pub encode_kv_iff :
    (kv : Kv) (max : ℕ) (blob : Bytes)
    → (encode_kv kv max ≡ some blob) ↔ (Fits kv max × (blob ≡ image kv))
encode_kv_iff kv max blob =
    (encode_kv_sound kv max blob, λ f. encode_kv_complete kv max f.0 ∙ ap some (sym f.1))

pub length_of_encode_kv :
    (kv : Kv) (max : ℕ) (blob : Bytes) → encode_kv kv max ≡ some blob → length blob ≤ max
length_of_encode_kv kv max blob h =
    let (f, e) = encode_kv_sound kv max blob h in rw (e, length-image kv) f.size

pub encode_empty_full : (max : ℕ) → encode_kv [] max ≡ none → max < 7
unfolding encode_kv encode_entries put_header put_u16
encode_empty_full max h = ground arith
