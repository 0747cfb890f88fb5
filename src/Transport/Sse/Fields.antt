-- ===== src/Transport/Sse/Fields.antt =====
-- `processLine` of src/transport/SseParser.cpp on the field lines that a server writes.
use edge_llm.Base.{
  ℕ, ◌≡◌, ◌≢◌, refl, sym, ap, ◌∙◌, Bool, true, false, List, [], ◌∷◌, ◌++◌, append_assoc, arith,
  Bytes, bytes, Lacks, cut-append,
}
use edge_llm.Transport.Sse.{SseEvent, SseParser, drop_back, set_field, process_line, step, feed}
use edge_llm.Transport.Sse.Feed.{and_then, feed-line, drop_back-Lacks, drop_back-append}
use edge_llm.Transport.Sse.Format.{eol, field, IsText}

-- The parser between two lines.
abbrev pub idle : Bytes → Bytes → Bytes → Bool → SseParser
idle type buf id saw = record {
  line_buf = [];
  event_type = type;
  data_buf = buf;
  last_id = id;
  saw_data = saw;
}

-- A field's name: not empty, and no colon or line break.
pub record IsName (name : Bytes) : Type 0 where
  pub nonempty : name ≢ []
  pub colon : Lacks b':' name
  pub text : IsText name

Lacks-append : (b : ℕ) (xs ys : Bytes) → Lacks b xs → Lacks b ys → Lacks b (xs ++ ys)
Lacks-append b [] ys h k = k
Lacks-append b (x ∷ xs) ys h k = (h.0, Lacks-append b xs ys h.1 k)

abbrev pub clear : SseParser → SseParser
clear p = record p { line_buf = [] }

abbrev cleared : SseParser × List SseEvent → SseParser × List SseEvent
cleared r = (clear r.0, r.1)

-- What a line does leaves the line buffer out of account.
cleared-process_line :
    (p : SseParser) (l : Bytes) → cleared (process_line p l) ≡ process_line (clear p) l
unfolding process_line
cleared-process_line p [] = ground arith
cleared-process_line p (c ∷ l) = ground arith

step-line :
    (p : SseParser) (l l' : Bytes)
    → drop_back b'\r' l' ≡ l
    → step (record p { line_buf = l' }) b'\n' ≡ process_line (clear p) l
unfolding step
step-line p l l' h =
    ap (λ s. cleared (process_line (record p { line_buf = l' }) s)) h
    ∙ cleared-process_line (record p { line_buf = l' }) l

-- A line break of either kind ends the line.
pub feed-eol :
    (p : SseParser) (l rest : Bytes) (cr : Bool)
    → IsText l
    → feed (clear p) (l ++ (eol cr ++ rest)) ≡ and_then (process_line (clear p) l) rest
feed-eol p l rest true h =
    ap (feed (clear p)) (sym (append_assoc l (b'\r' ∷ []) (b'\n' ∷ rest)))
    ∙ feed-line (clear p) (l ++ b'\r' ∷ []) rest (Lacks-append b'\n' l _ h.0 (omega arith))
    ∙ ap (λ r. and_then r rest) (step-line p l (l ++ b'\r' ∷ []) (drop_back-append b'\r' l))
feed-eol p l rest false h =
    feed-line (clear p) l rest h.0
    ∙ ap (λ r. and_then r rest) (step-line p l l (drop_back-Lacks b'\r' l h.1))

-- A field's name begins with no colon, so its line is no comment.
process_line-field :
    (p : SseParser) (name value : Bytes)
    → name ≢ []
    → Lacks b':' name
    → process_line p (name ++ b':' ∷ b' ' ∷ value) ≡ (set_field p name value, [])
unfolding process_line
process_line-field p [] value ne h = absurd (ne refl)
process_line-field p (c ∷ name) value ne h =
    ground (arith, cut-append b':' (c ∷ name) (b' ' ∷ value) h)

pub feed-field :
    (p : SseParser) (name value rest : Bytes) (cr : Bool)
    → IsName name
    → IsText value
    → feed (clear p) (field cr name value rest) ≡ feed (set_field (clear p) name value) rest
feed-field p name value rest cr n h =
    ap (feed (clear p)) (sym (append_assoc name (b':' ∷ b' ' ∷ value) (eol cr ++ rest)))
    ∙ feed-eol p (name ++ b':' ∷ b' ' ∷ value) rest cr (
      Lacks-append b'\n' name _ n.text.0 (omega arith, (omega arith, h.0)),
      Lacks-append b'\r' name _ n.text.1 (omega arith, (omega arith, h.1)),
    )
    ∙ ap (λ r. and_then r rest) (process_line-field (clear p) name value n.nonempty n.colon)

pub data-IsName : IsName (bytes "data")
data-IsName = record { nonempty = ground arith; colon = omega arith; text = omega arith }

pub event-IsName : IsName (bytes "event")
event-IsName = record { nonempty = ground arith; colon = omega arith; text = omega arith }

pub id-IsName : IsName (bytes "id")
id-IsName = record { nonempty = ground arith; colon = omega arith; text = omega arith }
