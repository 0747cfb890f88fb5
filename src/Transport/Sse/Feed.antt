-- ===== src/Transport/Sse/Feed.antt =====
-- `SseParser::feed` on input that arrives in pieces, and on whole lines.
use edge_llm.Base.{
  ℕ, ◌≡◌, ◌≢◌, refl, sym, ap, ◌∙◌, List, [], ◌∷◌, ◌++◌, append-nil, append_assoc, arith, Bytes,
  Lacks,
}
use edge_llm.Transport.Sse.{SseEvent, SseParser, drop_back, step, feed}

-- What a call returned, followed by a call on further input.
abbrev pub and_then : SseParser × List SseEvent → Bytes → SseParser × List SseEvent
and_then r ys = let (q, more) = feed r.0 ys in (q, r.1 ++ more)

feed-cons : (p : SseParser) (c : ℕ) (cs : Bytes) → feed p (c ∷ cs) ≡ and_then (step p c) cs
unfolding feed
feed-cons p c cs = refl

-- The parser's state and the events, and their order, do not depend on where the network cuts the
-- stream.
pub feed-append_stream :
    (p : SseParser) (xs ys : Bytes) → feed p (xs ++ ys) ≡ and_then (feed p xs) ys
unfolding feed
feed-append_stream p [] ys = refl
feed-append_stream p (c ∷ xs) ys =
    ap (λ (r : SseParser × List SseEvent). (r.0, (step p c).1 ++ r.1))
      (feed-append_stream (step p c).0 xs ys)
    ∙ ap (λ (es : List SseEvent). ((feed (feed (step p c).0 xs).0 ys).0, es))
        (sym
          (append_assoc (step p c).1 (feed (step p c).0 xs).1 (feed (feed (step p c).0 xs).0 ys).1))

step-plain :
    (p : SseParser) (c : ℕ)
    → c ≢ b'\n'
    → step p c ≡ (record p { line_buf = p.line_buf ++ c ∷ [] }, [])
unfolding step
step-plain p c h = ground arith

-- The bytes of a line are collected until its end.
pub feed-line :
    (p : SseParser) (l rest : Bytes)
    → Lacks b'\n' l
    → feed p (l ++ b'\n' ∷ rest)
      ≡ and_then (step (record p { line_buf = p.line_buf ++ l }) b'\n') rest
feed-line p [] rest h = feed-cons p b'\n' rest ∙ rw append-nil
feed-line p (c ∷ l) rest h =
    feed-cons p c (l ++ b'\n' ∷ rest)
    ∙ rw (step-plain p c h.0)
        (feed-line (record p { line_buf = p.line_buf ++ c ∷ [] }) l rest h.1 ∙ rw append_assoc)

pub drop_back-Lacks : (b : ℕ) (s : Bytes) → Lacks b s → drop_back b s ≡ s
unfolding drop_back
drop_back-Lacks b [] h = refl
drop_back-Lacks b (c ∷ []) h = ground arith
drop_back-Lacks b (c ∷ d ∷ s) h = ap (◌∷◌ c) (drop_back-Lacks b (d ∷ s) h.1)

pub drop_back-append : (b : ℕ) (s : Bytes) → drop_back b (s ++ b ∷ []) ≡ s
unfolding drop_back
drop_back-append b [] = ground arith
drop_back-append b (c ∷ []) = ap (◌∷◌ c) (drop_back-append b [])
drop_back-append b (c ∷ d ∷ s) = ap (◌∷◌ c) (drop_back-append b (d ∷ s))
