-- ===== src/Transport/Sse/RoundTrip.antt =====
-- A stream written by the rules of the event-stream format, read by src/transport/SseParser.cpp.
use edge_llm.Base.{
  ◌≡◌, ◌≢◌, refl, ap, ◌∙◌, Bool, true, false, Option, none, some, List, [], ◌∷◌, ◌++◌, append-nil,
  append_assoc, arith, Bytes, bytes, All, if◌then◌else◌,
}
use edge_llm.Transport.Sse.{
  SseEvent, SseParser, reset, drop_back, is_empty, has_nul, dispatch, set_field, process_line, feed,
}
use edge_llm.Transport.Sse.Feed.{drop_back-append}
use edge_llm.Transport.Sse.Format.{
  Sent, eol, print_data, print_type, print_id, print, IsText, IsId, IsSent, join, next_id, seen,
  final_id,
}
use edge_llm.Transport.Sse.Fields.{idle, feed-eol, feed-field, data-IsName, event-IsName, id-IsName}

feed-type :
    (type buf id rest : Bytes) (saw cr : Bool)
    → IsText type
    → feed (idle [] buf id saw) (print_type cr type rest) ≡ feed (idle type buf id saw) rest
unfolding set_field
feed-type [] buf id rest saw cr h = refl
feed-type (c ∷ t) buf id rest saw cr h =
    feed-field (idle [] buf id saw) (bytes "event") (c ∷ t) rest cr event-IsName h

set_id :
    (type buf last id : Bytes) (saw : Bool)
    → has_nul id ≡ false
    → set_field (idle type buf last saw) (bytes "id") id ≡ idle type buf id saw
unfolding set_field
set_id type buf last id saw h = rw h

feed-id :
    (type buf last rest : Bytes) (id : Option Bytes) (saw cr : Bool)
    → IsId id
    → feed (idle type buf last saw) (print_id cr id rest)
      ≡ feed (idle type buf (next_id last id) saw) rest
feed-id type buf last rest none saw cr h = refl
feed-id type buf last rest (some id) saw cr h =
    feed-field (idle type buf last saw) (bytes "id") id rest cr id-IsName h.0
    ∙ ap (λ p. feed p rest) (set_id type buf last id saw h.1)

-- What the data lines leave in the buffer.
abbrev data_lines : List Bytes → Bytes
data_lines [] = []
data_lines (l ∷ ls) = (l ++ b'\n' ∷ []) ++ data_lines ls

feed-data :
    (type buf id rest : Bytes) (ls : List Bytes) (cr : Bool)
    → All IsText ls
    → feed (idle type buf id true) (print_data cr ls rest)
      ≡ feed (idle type (buf ++ data_lines ls) id true) rest
unfolding set_field
feed-data type buf id rest [] cr h = rw append-nil
feed-data type buf id rest (l ∷ ls) cr h =
    feed-field (idle type buf id true) (bytes "data") l (print_data cr ls rest) cr data-IsName h.0
    ∙ feed-data type (buf ++ (l ++ b'\n' ∷ [])) id rest ls cr h.1
    ∙ rw append_assoc

feed-first_data :
    (type id rest : Bytes) (ls : List Bytes) (cr : Bool)
    → ls ≢ []
    → All IsText ls
    → feed (idle type [] id false) (print_data cr ls rest)
      ≡ feed (idle type (data_lines ls) id true) rest
unfolding set_field
feed-first_data type id rest [] cr ne h = absurd (ne refl)
feed-first_data type id rest (l ∷ ls) cr ne h =
    feed-field (idle type [] id false) (bytes "data") l (print_data cr ls rest) cr data-IsName h.0
    ∙ feed-data type (l ++ b'\n' ∷ []) id rest ls cr h.1

data_lines-join : (ls : List Bytes) → ls ≢ [] → data_lines ls ≡ join ls ++ b'\n' ∷ []
data_lines-join [] ne = absurd (ne refl)
data_lines-join (l ∷ []) ne = append-nil _
data_lines-join (l ∷ k ∷ ls) ne =
    ap (λ s. (l ++ b'\n' ∷ []) ++ s) (data_lines-join (k ∷ ls) (ground arith)) ∙ simp append_assoc

drop_back-data_lines : (ls : List Bytes) → ls ≢ [] → drop_back b'\n' (data_lines ls) ≡ join ls
drop_back-data_lines ls ne = rw (data_lines-join ls ne) (drop_back-append b'\n' (join ls))

abbrev with_event : SseEvent → SseParser × List SseEvent → SseParser × List SseEvent
with_event e r = (r.0, e ∷ r.1)

-- A blank line sends the event.
feed-blank :
    (type id rest : Bytes) (ls : List Bytes) (cr : Bool)
    → ls ≢ []
    → feed (idle type (data_lines ls) id true) (eol cr ++ rest)
      ≡ with_event
          (record {
            event = if is_empty type then bytes "message" else type;
            payload = join ls;
            id = id;
          })
          (feed (idle [] [] id false) rest)
unfolding process_line dispatch
feed-blank type id rest ls cr ne =
    feed-eol (idle type (data_lines ls) id true) [] rest cr (tt, tt)
    ∙ rw (← drop_back-data_lines ls ne)

abbrev after_events : List SseEvent → SseParser × List SseEvent → SseParser × List SseEvent
after_events es r = (r.0, es ++ r.1)

feed-print_from :
    (cr : Bool) (es : List Sent) (last rest : Bytes)
    → All IsSent es
    → feed (idle [] [] last false) (print cr es rest)
      ≡ after_events (seen last es) (feed (idle [] [] (final_id last es) false) rest)
feed-print_from cr [] last rest h = refl
feed-print_from cr (e ∷ es) last rest h =
    let blank = eol cr ++ print cr es rest in
    let id = next_id last e.id in
    feed-type e.event [] last (print_data cr e.lines (print_id cr e.id blank)) false cr h.0.event
    ∙ feed-first_data e.event last (print_id cr e.id blank) e.lines cr h.0.nonempty h.0.lines
    ∙ feed-id e.event (data_lines e.lines) last blank e.id true cr h.0.id
    ∙ feed-blank e.event id (print cr es rest) e.lines cr h.0.nonempty
    ∙ ap (with_event _) (feed-print_from cr es id rest h.1)

-- A stream of events with data, in either line ending, gives each event once and in order, with
-- its data lines joined by line feeds, the type `message` where it names none, and the last id
-- that was sent so far; the parser is then between two events.
pub feed-print_stream :
    (cr : Bool) (es : List Sent)
    → All IsSent es
    → feed reset (print cr es []) ≡ (record reset { last_id = final_id [] es }, seen [] es)
unfolding feed
feed-print_stream cr es h =
    feed-print_from cr es [] [] h
    ∙ ap (λ s. (idle [] [] (final_id [] es) false, s)) (append-nil (seen [] es))
