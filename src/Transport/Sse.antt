-- ===== src/Transport/Sse.antt =====
-- src/transport/SseParser.{h,cpp}: the incremental parser of server-sent events. The handler's calls
-- are the list of events, in the order in which they are made.
pub mod Feed
pub mod Format
mod Fields
pub mod RoundTrip
mod Tests
use edge_llm.Base.{
  ℕ, Bool, true, false, Option, none, some, List, [], ◌∷◌, ◌++◌, Bytes, bytes, beq, cut, ◌==◌,
  if◌then◌else◌,
}

-- `data` of the source is `payload`.
pub record SseEvent : Type 0 where
  pub event : Bytes
  pub payload : Bytes
  pub id : Bytes

pub record SseParser : Type 0 where
  pub line_buf : Bytes
  pub event_type : Bytes
  pub data_buf : Bytes
  pub last_id : Bytes
  pub saw_data : Bool

abbrev pub reset : SseParser
reset = record { line_buf = []; event_type = []; data_buf = []; last_id = []; saw_data = false }

-- `if (!s.empty() && s.back() == b) s.pop_back();`
unfoldable pub drop_back : ℕ → Bytes → Bytes
drop_back b [] = []
drop_back b (c ∷ []) = if c == b then [] else c ∷ []
drop_back b (c ∷ d ∷ s) = c ∷ drop_back b (d ∷ s)

abbrev pub is_empty : Bytes → Bool
is_empty [] = true
is_empty (c ∷ s) = false

unfoldable pub dispatch : SseParser → SseParser × List SseEvent
unfolding drop_back
dispatch p =
    if p.saw_data
    then (
      record p { event_type = []; data_buf = []; saw_data = false },
      record {
        event = if is_empty p.event_type then bytes "message" else p.event_type;
        payload = drop_back b'\n' p.data_buf;
        id = p.last_id;
      }
          ∷ [],
    )
    else (record p { event_type = [] }, [])

-- `if (!value.empty() && value[0] == ' ') value.erase(0, 1);`
abbrev drop_space : Bytes → Bytes
drop_space [] = []
drop_space (c ∷ s) = if c == b' ' then s else c ∷ s

abbrev pub has_nul : Bytes → Bool
has_nul [] = false
has_nul (c ∷ s) = if c == 0 then true else has_nul s

-- The test on the field's name.
unfoldable pub set_field : SseParser → Bytes → Bytes → SseParser
set_field p field value =
    if beq field (bytes "event")
    then record p { event_type = value }
    else if beq field (bytes "data")
    then record p { data_buf = p.data_buf ++ (value ++ b'\n' ∷ []); saw_data = true }
    else if beq field (bytes "id")
    then (if has_nul value then p else record p { last_id = value })
    else p

-- A line with no colon is a field with an empty value.
unfoldable pub split_field : Bytes → Bytes × Bytes
split_field line = elim (cut b':' line) [
  | none ↦ (line, [])
  | some (field, value) ↦ (field, drop_space value)
]

unfoldable pub process_line : SseParser → Bytes → SseParser × List SseEvent
unfolding dispatch set_field split_field
process_line p [] = dispatch p
process_line p (c ∷ s) =
    if c == b':'
    then (p, [])
    else (let (field, value) = split_field (c ∷ s) in (set_field p field value, []))

-- One byte.
unfoldable pub step : SseParser → ℕ → SseParser × List SseEvent
unfolding process_line drop_back
step p c =
    if c == b'\n'
    then (let (q, events) = process_line p (drop_back b'\r' p.line_buf) in
        (record q { line_buf = [] }, events))
    else (record p { line_buf = p.line_buf ++ c ∷ [] }, [])

unfoldable pub feed : SseParser → Bytes → SseParser × List SseEvent
unfolding step
feed p [] = (p, [])
feed p (c ∷ cs) = let (q, events) = step p c in let (r, more) = feed q cs in (r, events ++ more)
