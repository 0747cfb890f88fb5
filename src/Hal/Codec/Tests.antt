-- ===== src/Hal/Codec/Tests.antt =====
-- Runs of the codec on concrete input.
use edge_llm.Base.{◌≡◌, refl, true, none, some, [], ◌∷◌, ◌++◌, bytes, Bytes}
use edge_llm.Base.Map.{cmp}
use edge_llm.Hal.Codec.{Kv, encode_kv, decode_kv}
use edge_llm.Hal.Codec.Encode.{image}
use edge_llm.Hal.Codec.RoundTrip.{decode_kv-encode_kv}

abbrev two_secrets : Kv
two_secrets = (bytes "api", bytes "sk-1") ∷ (bytes "wifi", bytes "pw") ∷ []

abbrev blob : Bytes
blob = image two_secrets

encode_two_secrets : encode_kv two_secrets 26 ≡ some blob
unfolding encode_kv
encode_two_secrets = refl

encode_too_large : encode_kv two_secrets 25 ≡ none
unfolding encode_kv
encode_too_large = refl

decode_kv-encode_kv_example : decode_kv (blob ++ bytes "old") ≡ (true, two_secrets)
unfolding cmp
decode_kv-encode_kv_example =
    decode_kv-encode_kv two_secrets 26 blob (bytes "old") ((refl, tt), (tt, tt)) encode_two_secrets
