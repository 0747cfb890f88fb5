-- ===== src/Hal/Preferences.antt =====
-- src/hal/PreferencesSecretStore.{h,cpp}: the store in the NVS partition of the ESP32. The
-- Preferences object of the board's library is a parameter.
pub mod Names
mod Tests
use Prim.Native.Nat.{bit_xor}
use edge_llm.Base.{
  ℕ, zero, suc, ◌+◌, ◌*◌, ◌/◌, ◌%◌, ◌^◌, ◌≡◌, refl, ◌∙◌, Bool, true, false, not, ◌&&◌, List, [],
  ◌∷◌, Bytes, bytes, beq, beq_refl, ◌==◌, ltb, ◌-◌, if◌then◌else◌, length, arith, Bool-cases, inl,
  inr,
}
use edge_llm.Core.{Error, Status, Result}

-- The operations of an opened object on the namespace's state `P`; `begin` is whether it opens.
pub record Preferences (P : Type 0) : Type 0 where
  pub begin : P → Bool
  pub put_string : Bytes → Bytes → P → P × ℕ
  pub get_string : Bytes → P → Bytes
  pub is_key : Bytes → P → Bool
  pub remove : Bytes → P → P
  pub clear : P → P

-- `value.c_str()`: a string of C ends at its first zero byte.
unfoldable pub c_str : Bytes → Bytes
c_str [] = []
c_str (c ∷ s) = if c == 0 then [] else c ∷ c_str s

-- The loop over the bytes.
unfoldable pub fnv1a_loop : ℕ → Bytes → ℕ
fnv1a_loop h [] = h
fnv1a_loop h (c ∷ s) = fnv1a_loop (bit_xor h c * 16777619 % 2 ^ 32) s

unfoldable pub fnv1a : Bytes → ℕ
unfolding fnv1a_loop
fnv1a s = fnv1a_loop 2166136261 s

abbrev pub hex_digit : ℕ → ℕ
hex_digit n = if ltb n 10 then b'0' + n else b'a' + (n - 10)

-- The digits, from the one of the weight `16 ^ n` on.
unfoldable pub hex_digits : ℕ → ℕ → Bytes
hex_digits zero h = []
hex_digits (suc n) h = hex_digit (h / 16 ^ n % 16) ∷ hex_digits n h

unfoldable pub short_key : Bytes → Bytes
unfolding fnv1a hex_digits
short_key key = b'k' ∷ hex_digits 8 (fnv1a key)

module _ {P : Type 0} (o : Preferences P) where
  unfoldable pub set : Bytes → Bytes → P → P × Status
  set [] value p = (p, Status.fail Error.invalid_argument)
  set (c ∷ key) value p =
      let (after, written) = o.put_string (short_key (c ∷ key)) (c_str value) p in
      if o.begin p
      then (
        after,
        if written == 0 && not (length value == 0)
            then Status.fail Error.secret_store_error
            else Status.ok,
      )
      else (p, Status.fail Error.secret_store_error)

  unfoldable pub get : Bytes → P → Result Bytes
  get key p =
      if o.begin p
      then if o.is_key (short_key key) p
        then Result.ok (c_str (o.get_string (short_key key) p))
        else Result.fail Error.secret_not_found
      else Result.fail Error.secret_store_error

  unfoldable pub has : Bytes → P → Bool
  has key p = o.begin p && o.is_key (short_key key) p

  unfoldable pub remove : Bytes → P → P × Status
  remove key p =
      if o.begin p
      then (o.remove (short_key key) p, Status.ok)
      else (p, Status.fail Error.secret_store_error)

  unfoldable pub clear : P → P × Status
  clear p = if o.begin p then (o.clear p, Status.ok) else (p, Status.fail Error.secret_store_error)
