-- ===== src/Hal/Codec/RoundTrip.antt =====
-- `decodeKv` of src/hal/EepromCodec.cpp reads what `encodeKv` wrote.
use edge_llm.Base.{
  ℕ, zero, suc, ◌%◌, ◌≤◌, ◌<◌, ◌≡◌, refl, sym, ap, true, false, subst, some, [], ◌∷◌, ◌++◌,
  append-nil, append_assoc, arith, Bytes, length, length-append, take, drop, take-length_append,
  drop-length_append,
}
use edge_llm.Base.Map.{insert}
use edge_llm.Base.Map.Sorted.{IsSorted, insert-IsSorted, insert_last, IsSorted-Below}
use edge_llm.Hal.Codec.{
  Kv, put_u16, get_u16, put_entry, put_header, encode_kv, decode_entries, decode_kv,
}
use edge_llm.Hal.Codec.Encode.{put_entries, HasShortFields, encode_kv_iff}

get_u16-put_u16 : (n : ℕ) (s : Bytes) → n ≤ 65535 → get_u16 (put_u16 n ++ s) ≡ n
unfolding get_u16 put_u16
get_u16-put_u16 n s h = omega arith

drop-put_u16 : (n : ℕ) (s : Bytes) → drop 2 (put_u16 n ++ s) ≡ s
unfolding put_u16
drop-put_u16 n s = refl

put_entry-append :
    (k v rest : Bytes)
    → length k ≤ 255
    → put_entry (k, v) ++ rest ≡ length k ∷ (k ++ (put_u16 (length v) ++ (v ++ rest)))
unfolding put_entry
put_entry-append k v rest h =
    let e : length k % 256 ≡ length k = omega arith in
    rw e (ap (◌∷◌ (length k)) (append_assoc k (put_u16 (length v) ++ v) rest))

-- The fields of an entry, cut off one after another.
decode_entries-fields :
    (n : ℕ) (k u v rest : Bytes) (out : Kv)
    → length u ≡ 2
    → get_u16 (u ++ (v ++ rest)) ≡ length v
    → drop 2 (u ++ (v ++ rest)) ≡ v ++ rest
    → decode_entries (suc n) (length k ∷ (k ++ (u ++ (v ++ rest)))) out
      ≡ decode_entries n rest (insert k v out)
unfolding decode_entries
decode_entries-fields n k u v rest out hu hv hd =
    simp
      (
        take-length_append k (u ++ (v ++ rest)),
        drop-length_append k (u ++ (v ++ rest)),
        hv,
        hd,
        take-length_append v rest,
        drop-length_append v rest,
      )
      (ground (
        arith,
        length-append k (u ++ (v ++ rest)),
        length-append u (v ++ rest),
        length-append v rest,
      ))

-- One entry, with anything behind it.
decode_entries-put_entry :
    (n : ℕ) (k v rest : Bytes) (out : Kv)
    → length k ≤ 255
    → length v ≤ 65535
    → decode_entries (suc n) (put_entry (k, v) ++ rest) out ≡ decode_entries n rest (insert k v out)
unfolding put_u16
decode_entries-put_entry n k v rest out hk hv = rw (put_entry-append k v rest hk) (
    decode_entries-fields n k (put_u16 (length v)) v rest out refl
      (get_u16-put_u16 (length v) (v ++ rest) hv) (drop-put_u16 (length v) (v ++ rest)))

-- All the entries, with anything behind them.
decode_entries-put_entries :
    (m out : Kv) (junk : Bytes)
    → HasShortFields m
    → IsSorted (out ++ m)
    → decode_entries (length m) (put_entries m ++ junk) out ≡ (true, out ++ m)
unfolding decode_entries
decode_entries-put_entries [] out junk h s = rw append-nil
decode_entries-put_entries ((k, v) ∷ m) out junk h s =
    let last = insert_last out k v (IsSorted-Below out m k v s) in
    let ih =
      decode_entries-put_entries m (out ++ ((k, v) ∷ [])) junk h.1
        (subst IsSorted (sym (append_assoc out ((k, v) ∷ []) m)) s) in
    rw (
      append_assoc (put_entry (k, v)) (put_entries m) junk,
      decode_entries-put_entry (length m) k v (put_entries m ++ junk) out h.0.0 h.0.1,
      last,
      ih,
      append_assoc out ((k, v) ∷ []) m,
    )

-- The tests on the header pass on a blob of the encoder, and the loop reads the entries.
decode_kv-header :
    (n : ℕ) (rest : Bytes) → n ≤ 65535 → decode_kv (put_header n ++ rest) ≡ decode_entries n rest []
unfolding decode_kv put_header put_u16 get_u16
decode_kv-header n rest h = ground arith

-- What the encoder writes for a map in the order of its keys is read back as that map, with
-- success, whatever bytes follow the blob.
pub decode_kv-encode_kv :
    (kv : Kv) (max : ℕ) (blob junk : Bytes)
    → IsSorted kv
    → encode_kv kv max ≡ some blob
    → decode_kv (blob ++ junk) ≡ (true, kv)
decode_kv-encode_kv kv max blob junk s h =
    let (f, e) = (encode_kv_iff kv max blob).0 h in
    rw
      (
        e,
        append_assoc (put_header (length kv)) (put_entries kv) junk,
        decode_kv-header (length kv) (put_entries kv ++ junk) f.count,
      )
      (decode_entries-put_entries kv [] junk f.fields s)

-- The bytes of the entries end before the loop does.
decode_entries_short :
    (m out : Kv) (n : ℕ)
    → HasShortFields m
    → IsSorted (out ++ m)
    → length m < n
    → decode_entries n (put_entries m) out ≡ (false, out ++ m)
unfolding decode_entries
decode_entries_short m out zero h s l = ground arith
decode_entries_short [] out (suc n) h s l = rw append-nil refl
decode_entries_short ((k, v) ∷ m) out (suc n) h s l =
    let last = insert_last out k v (IsSorted-Below out m k v s) in
    let ih =
      decode_entries_short m (out ++ ((k, v) ∷ [])) n h.1
        (subst IsSorted (sym (append_assoc out ((k, v) ∷ []) m)) s) (omega arith) in
    rw (
      decode_entries-put_entry n k v (put_entries m) out h.0.0 h.0.1,
      last,
      ih,
      append_assoc out ((k, v) ∷ []) m,
    )

-- A blob whose header counts more entries, up to 65535, than follow it, for a map in order with
-- fields short enough for their prefixes, is refused, and the entries that it does hold are left in
-- `out`.
pub decode_kv_truncated :
    (m : Kv) (n : ℕ)
    → n ≤ 65535
    → length m < n
    → HasShortFields m
    → IsSorted m
    → decode_kv (put_header n ++ put_entries m) ≡ (false, m)
decode_kv_truncated m n h l f s =
    rw (decode_kv-header n (put_entries m) h) (decode_entries_short m [] n f s l)

decode_entries-IsSorted :
    (n : ℕ) (rest : Bytes) (out : Kv) → IsSorted out → IsSorted (decode_entries n rest out).1
unfolding decode_entries
decode_entries-IsSorted zero rest out s = s
decode_entries-IsSorted (suc n) [] out s = s
decode_entries-IsSorted (suc n) (l ∷ rest) out s =
    let val_len = get_u16 (drop l rest) in
    let tail = drop 2 (drop l rest) in
    let more = insert (take l rest) (take val_len tail) out in
    let ih =
      decode_entries-IsSorted n (drop val_len tail) more
        (insert-IsSorted out (take l rest) (take val_len tail) s) in
    ground (arith, ih)

-- Whatever the blob, the map that it is read into is in order.
pub decode_kv-IsSorted : (blob : Bytes) → IsSorted (decode_kv blob).1
unfolding decode_kv
decode_kv-IsSorted blob =
    ground (arith, decode_entries-IsSorted (get_u16 (drop 5 blob)) (drop 7 blob) [] tt)

pub decode_kv_tiny : (blob : Bytes) → length blob < 7 → decode_kv blob ≡ (false, [])
unfolding decode_kv
decode_kv_tiny blob h = ground arith
