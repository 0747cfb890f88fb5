-- ===== src/Hal/Preferences/Names.antt =====
-- What src/hal/PreferencesSecretStore.cpp keeps, under names that NVS accepts.
use edge_llm.Base.{
  ℕ, zero, suc, ◌<◌, ◌≡◌, refl, ap, true, false, [], ◌∷◌, Bytes, beq, length, arith,
}
use edge_llm.Core.{Status, Result}
use edge_llm.Hal.Preferences.{Preferences, c_str, hex_digits, short_key, set, get}

-- What the library documents: a write that reports bytes is read back, and it touches no other name.
pub record IsPreferences {P : Type 0} (o : Preferences P) : Type 0 where
  pub get_string-put_string :
      (k v : Bytes) (p : P) → 0 < (o.put_string k v p).1 → o.get_string k (o.put_string k v p).0 ≡ v
  pub is_key-put_string :
      (k v : Bytes) (p : P) → 0 < (o.put_string k v p).1 → o.is_key k (o.put_string k v p).0 ≡ true
  pub get_string_other :
      (k j v : Bytes) (p : P)
      → beq j k ≡ false
      → o.get_string j (o.put_string k v p).0 ≡ o.get_string j p
  pub is_key_other :
      (k j v : Bytes) (p : P) → beq j k ≡ false → o.is_key j (o.put_string k v p).0 ≡ o.is_key j p

length-hex_digits : (n h : ℕ) → length (hex_digits n h) ≡ n
unfolding hex_digits
length-hex_digits zero h = refl
length-hex_digits (suc n) h = ap suc (length-hex_digits n h)

-- The name of every key has nine bytes, within the fifteen of NVS.
pub length-short_key : (key : Bytes) → length (short_key key) ≡ 9
unfolding short_key
length-short_key key = refl

c_str_idem : (s : Bytes) → c_str (c_str s) ≡ c_str s
unfolding c_str
c_str_idem [] = refl
c_str_idem (c ∷ s) = ground (arith, c_str_idem s)

module _ {P : Type 0} (o : Preferences P) (law : IsPreferences o) where
  -- Over a Preferences object that keeps its law, a value that is not empty and was set with
  -- success is read back up to its first zero byte, if the namespace opens.
  pub get-set_nvs :
      (k v : Bytes) (p : P)
      → 0 < length v
      → (set o k v p).1 ≡ Status.ok
      → o.begin (set o k v p).0 ≡ true
      → get o k (set o k v p).0 ≡ Result.ok (c_str v)
  unfolding set get
  get-set_nvs [] v p n h b = ground (arith, h)
  get-set_nvs (c ∷ k) v p n h b = ground (
    arith,
    law.get_string-put_string (short_key (c ∷ k)) (c_str v) p,
    law.is_key-put_string (short_key (c ∷ k)) (c_str v) p,
    c_str_idem v,
    n,
    h,
    b,
  )
