-- ===== src/Hal/Preferences/Tests.antt =====
-- The store over a namespace that is a map.
use edge_llm.Base.{◌≡◌, refl, true, Option, none, some, [], Bytes, bytes, length}
use edge_llm.Base.Map.{lookup, insert, erase, has}
use edge_llm.Core.{Status}
use edge_llm.Hal.Codec.{Kv}
use edge_llm.Hal.Preferences.{Preferences, short_key, c_str, set}

abbrev found : Option Bytes → Bytes
found none = []
found (some v) = v

abbrev namespace : Preferences Kv
namespace = record {
  begin = λ p. true;
  put_string = λ k v p. (insert k v p, length v);
  get_string = λ k p. found (lookup k p);
  is_key = has;
  remove = erase;
  clear = λ p. [];
}

short_key_a : short_key (bytes "a") ≡ bytes "ke40c292c"
unfolding short_key
short_key_a = refl

set_a_ok : (set namespace (bytes "a") (bytes "v") []).1 ≡ Status.ok
unfolding set c_str
set_a_ok = refl
