-- ===== src/Transport/Sse/Format.antt =====
-- The event-stream format as a server writes it, apart from src/transport/SseParser.cpp.
use edge_llm.Base.{
  ◌≡◌, ◌≢◌, Bool, true, false, Option, none, some, List, [], ◌∷◌, ◌++◌, Bytes, bytes, Lacks, All,
  if◌then◌else◌,
}
use edge_llm.Transport.Sse.{SseEvent, is_empty, has_nul}

-- One event as a server means it: data lines, a type that may be empty, and perhaps an id.
pub record Sent : Type 0 where
  pub event : Bytes
  pub lines : List Bytes
  pub id : Option Bytes

abbrev pub eol : Bool → Bytes
eol true = b'\r' ∷ b'\n' ∷ []
eol false = b'\n' ∷ []

-- The line `name: value`, with `rest` behind it.
abbrev pub field : Bool → Bytes → Bytes → Bytes → Bytes
field cr name value rest = name ++ b':' ∷ b' ' ∷ (value ++ (eol cr ++ rest))

abbrev pub print_data : Bool → List Bytes → Bytes → Bytes
print_data cr [] rest = rest
print_data cr (l ∷ ls) rest = field cr (bytes "data") l (print_data cr ls rest)

abbrev pub print_type : Bool → Bytes → Bytes → Bytes
print_type cr [] rest = rest
print_type cr (c ∷ t) rest = field cr (bytes "event") (c ∷ t) rest

abbrev pub print_id : Bool → Option Bytes → Bytes → Bytes
print_id cr none rest = rest
print_id cr (some id) rest = field cr (bytes "id") id rest

abbrev pub print : Bool → List Sent → Bytes → Bytes
print cr [] rest = rest
print cr (e ∷ es) rest =
    print_type cr e.event (print_data cr e.lines (print_id cr e.id (eol cr ++ print cr es rest)))

-- No line break, and no byte that the parser refuses in an id.
abbrev pub IsText : Bytes → Type 0
IsText s = Lacks b'\n' s × Lacks b'\r' s

abbrev pub IsId : Option Bytes → Type 0
IsId none = Unit
IsId (some id) = IsText id × (has_nul id ≡ false)

pub record IsSent (e : Sent) : Type 0 where
  pub event : IsText e.event
  pub lines : All IsText e.lines
  pub nonempty : e.lines ≢ []
  pub id : IsId e.id

-- Data lines joined by line feeds.
abbrev pub join : List Bytes → Bytes
join [] = []
join (l ∷ []) = l
join (l ∷ k ∷ ls) = l ++ b'\n' ∷ join (k ∷ ls)

abbrev pub next_id : Bytes → Option Bytes → Bytes
next_id last none = last
next_id last (some id) = id

-- The events that a client should see, with the last id carried on.
abbrev pub seen : Bytes → List Sent → List SseEvent
seen last [] = []
seen last (e ∷ es) =
    record {
      event = if is_empty e.event then bytes "message" else e.event;
      payload = join e.lines;
      id = next_id last e.id;
    }
    ∷ seen (next_id last e.id) es

abbrev pub final_id : Bytes → List Sent → Bytes
final_id last [] = last
final_id last (e ∷ es) = final_id (next_id last e.id) es
