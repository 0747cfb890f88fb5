-- ===== src/Core/Logger.antt =====
-- src/core/Logger.{h,cpp}: log lines without the secrets that were registered. The sink is the list
-- of the lines that were written to it.
pub mod Redact
mod Tests
use edge_llm.Base.{
  ℕ, zero, suc, ◌+◌, ◌-◌, Bool, true, false, ◌||◌, Option, none, some, List, [], ◌∷◌, ◌++◌, Bytes,
  bytes, beq, ltb, leb, if◌then◌else◌, length, drop, cut_at,
}

-- `off` is `LogLevel::None`.
pub data LogLevel : Type 0 where
  debug info warn error off : LogLevel

-- The value of the enumerator.
abbrev pub rank : LogLevel → ℕ
rank LogLevel.debug = 0
rank LogLevel.info = 1
rank LogLevel.warn = 2
rank LogLevel.error = 3
rank LogLevel.off = 4

abbrev pub log_level_name : LogLevel → Bytes
log_level_name LogLevel.debug = bytes "DEBUG"
log_level_name LogLevel.info = bytes "INFO"
log_level_name LogLevel.warn = bytes "WARN"
log_level_name LogLevel.error = bytes "ERROR"
log_level_name LogLevel.off = bytes "NONE"

pub record Logger : Type 0 where
  pub sink : Option (List (LogLevel × Bytes))
  pub level : LogLevel
  pub secrets : List Bytes

abbrev pub mask : Bytes
mask = bytes "***"

abbrev pub min_secret_len : ℕ
min_secret_len = 4

abbrev pub is_member : Bytes → List Bytes → Bool
is_member s [] = false
is_member s (t ∷ ts) = beq t s || is_member s ts

unfoldable pub register_secret : Bytes → Logger → Logger
register_secret secret l =
    if ltb (length secret) min_secret_len
    then l
    else if is_member secret l.secrets
    then l
    else record l { secrets = l.secrets ++ secret ∷ [] }

-- The loop over the places of one secret: `text` is `out` from `pos` on.
unfoldable pub redact_loop : ℕ → Bytes → Bytes → Bytes
unfolding cut_at
redact_loop zero secret text = text
redact_loop (suc fuel) secret text = elim (cut_at secret text) [
  | none ↦ text
  | some p ↦ p.0 ++ (mask ++ redact_loop fuel secret p.1)
]

-- Each round takes a byte at least, so the length of the text is fuel enough.
unfoldable pub redact_all : List Bytes → Bytes → Bytes
unfolding redact_loop
redact_all [] text = text
redact_all (secret ∷ secrets) text = redact_all secrets (redact_loop (length text) secret text)

unfoldable pub redact : Logger → Bytes → Bytes
unfolding redact_all
redact l text = redact_all l.secrets text

unfoldable pub mask_token : Bytes → ℕ → Bytes
mask_token token keep =
    if leb (length token) keep then mask else mask ++ drop (length token - keep) token

unfoldable pub log : LogLevel → Bytes → Logger → Logger
unfolding redact
log level message l =
    if ltb (rank level) (rank l.level) || leb 4 (rank l.level) then l else elim l.sink [
      | none ↦ l
      | some lines ↦ record l {
        sink = some (
            lines
            ++ (level, bytes "[" ++ (log_level_name level ++ (bytes "] " ++ redact l message)))
              ∷ []);
      }
    ]
