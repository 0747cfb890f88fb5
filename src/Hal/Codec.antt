-- ===== src/Hal/Codec.antt =====
-- src/hal/EepromCodec.{h,cpp}: a map of strings as one blob. A position in the blob is the list of
-- the bytes from there on.
pub mod Encode
pub mod RoundTrip
mod Tests
use edge_llm.Base.{
  ℕ, zero, suc, ◌+◌, ◌*◌, ◌/◌, ◌%◌, Bool, true, false, ◌&&◌, ◌||◌, not, Option, none, some, List,
  [], ◌∷◌, ◌++◌, Bytes, bytes, beq, ◌==◌, ltb, if◌then◌else◌, length, take, drop,
}
use edge_llm.Base.Map
use edge_llm.Base.Map.{insert}

-- `std::map<std::string, std::string>`
abbrev pub Kv : Type 0
Kv = List (Bytes × Bytes)

abbrev pub magic : Bytes
magic = bytes "ELKV"

abbrev pub version : ℕ
version = 1

abbrev pub header_size : ℕ
header_size = 7

abbrev pub max_key_len : ℕ
max_key_len = 255

abbrev pub max_val_len : ℕ
max_val_len = 65535

-- The argument is a `uint16_t`, so a larger number is cut first.
unfoldable pub put_u16 : ℕ → Bytes
put_u16 v = (v % 256) ∷ (v / 256 % 256) ∷ []

unfoldable pub get_u16 : Bytes → ℕ
get_u16 (a ∷ b ∷ s) = a + 256 * b
get_u16 _ = 0

-- The test of all fields that comes before any byte is written.
unfoldable pub any_oversized : Kv → Bool
any_oversized [] = false
any_oversized ((k, v) ∷ m) =
    (ltb max_key_len (length k) || ltb max_val_len (length v)) || any_oversized m

unfoldable pub put_entry : Bytes × Bytes → Bytes
unfolding put_u16
put_entry (k, v) = (length k % 256) ∷ (k ++ (put_u16 (length v) ++ v))

unfoldable pub encode_entries : ℕ → Bytes → Kv → Option Bytes
unfolding put_entry
encode_entries max_bytes buf [] = if ltb max_bytes (length buf) then none else some buf
encode_entries max_bytes buf (e ∷ m) =
    let longer = buf ++ put_entry e in
    let rest = encode_entries max_bytes longer m in
    if ltb max_bytes (length longer) then none else rest

unfoldable pub put_header : ℕ → Bytes
unfolding put_u16
put_header count = magic ++ (version ∷ put_u16 count)

-- `none` is the answer `false`, which leaves `out` empty.
unfoldable pub encode_kv : Kv → ℕ → Option Bytes
unfolding put_header any_oversized encode_entries
encode_kv kv max_bytes =
    if ltb 0xffff (length kv) || any_oversized kv
    then none
    else encode_entries max_bytes (put_header (length kv)) kv

-- The loop over `count` entries: the answer, and `out` as it stands then.
unfoldable pub decode_entries : ℕ → Bytes → Kv → Bool × Kv
unfolding get_u16
decode_entries zero rest out = (true, out)
decode_entries (suc n) [] out = (false, out)
decode_entries (suc n) (key_len ∷ rest) out =
    let key = take key_len rest in
    let behind = drop key_len rest in
    let val_len = get_u16 behind in
    let tail = drop 2 behind in
    let more = decode_entries n (drop val_len tail) (insert key (take val_len tail) out) in
    if ltb (length rest) (key_len + 2)
    then (false, out)
    else if ltb (length tail) val_len
    then (false, out)
    else more

unfoldable pub decode_kv : Bytes → Bool × Kv
unfolding decode_entries
decode_kv blob =
    if ltb (length blob) header_size
    then (false, [])
    else if not (beq (take 4 blob) magic)
    then (false, [])
    else if not (beq (take 1 (drop 4 blob)) (version ∷ []))
    then (false, [])
    else decode_entries (get_u16 (drop 5 blob)) (drop 7 blob) []
