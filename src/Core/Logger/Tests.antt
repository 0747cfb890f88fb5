-- ===== src/Core/Logger/Tests.antt =====
-- Runs of the logger on concrete input.
use edge_llm.Base.{◌≡◌, refl, some, [], ◌∷◌, bytes, arith, All, cut_at}
use edge_llm.Core.Logger.{LogLevel, Logger, redact, mask_token}
use edge_llm.Core.Logger.Redact.{IsAbsent, redact-IsAbsent}

abbrev logger : Logger
logger = record {
  sink = some [];
  level = LogLevel.info;
  secrets = bytes "sk-1" ∷ bytes "pass" ∷ [];
}

redact_both : redact logger (bytes "key sk-1 pass sk-1") ≡ bytes "key *** *** ***"
unfolding redact cut_at
redact_both = refl

mask_token_tail : mask_token (bytes "sk-abcd1234") 4 ≡ bytes "***1234"
unfolding mask_token
mask_token_tail = refl

-- A secret that starts with one that was registered before it is masked in part.
redact_prefix :
    redact (record logger { secrets = bytes "pass" ∷ bytes "password" ∷ [] }) (bytes "is password")
    ≡ bytes "is ***word"
unfolding redact cut_at
redact_prefix = refl

redact-IsAbsent_example :
    All (λ q. IsAbsent q (redact logger (bytes "key sk-1"))) (bytes "sk-1" ∷ bytes "pass" ∷ [])
redact-IsAbsent_example =
    redact-IsAbsent logger (bytes "key sk-1")
      ((omega arith, omega arith), ((omega arith, omega arith), tt))
