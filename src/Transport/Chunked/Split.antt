-- ===== src/Transport/Chunked/Split.antt =====
-- The input of src/transport/ChunkedDecoder.cpp arrives in pieces that the network cuts.
use edge_llm.Base.{
  ℕ, suc, ◌≤◌, ◌≡◌, refl, sym, ap, ◌∙◌, Bool, true, false, Option, none, some, [], ◌∷◌, ◌++◌,
  append_assoc, append-nil, arith, Bytes, if◌then◌else◌, length,
}
use edge_llm.Core.{Status, is_ok}
use edge_llm.Transport.Chunked.{
  State, ChunkedDecoder, Step, next, malformed, finish, copy, step_in, copied, Fed, is_done, ended,
  feed,
}
use edge_llm.Transport.Chunked.Bytewise.{IsValid, step_in-IsValid, copied-IsValid, run, feed-eq-run}

-- A further call with what the call before it left; its caller stops at an error.
abbrev pub resume : Bytes → Fed → Option Fed
resume ys f = if is_ok f.status then feed f.decoder f.out f.done ys else some f

infixl 5 ◌>>=◌
abbrev pub ◌>>=◌ : Option Fed → (Fed → Option Fed) → Option Fed
none >>= k = none
some f >>= k = k f

abbrev run_on : Bytes → Fed → Fed
run_on ys f = if is_ok f.status then run f.decoder f.out f.done ys else f

state_of_finish :
    (s : State) (d d' : ChunkedDecoder) (c : ℕ)
    → d.state ≡ s
    → step_in s d c ≡ finish d'
    → d'.state ≡ State.done
unfolding step_in
state_of_finish State.size d d' c e h = ground arith
state_of_finish _ d d' c e h = ground arith

-- Behind the last chunk nothing more is read.
run_done :
    (d : ChunkedDecoder) (out : Bytes) (fin : Bool) (cs : Bytes)
    → d.state ≡ State.done
    → run d out fin cs ≡ ended d out true Status.ok
unfolding run step_in
run_done d out fin [] e = rw e
run_done d out fin (c ∷ cs) e = rw e

run-is_done :
    (s : State) (d : ChunkedDecoder) (out ys : Bytes)
    → d.state ≡ s
    → run d out (is_done s) ys ≡ run d out false ys
run-is_done State.done d out ys e = run_done d out true ys e ∙ sym (run_done d out false ys e)
run-is_done _ d out ys e = refl

abbrev Splits : Bytes → Bytes → Type 0
Splits xs ys =
    (d : ChunkedDecoder) (out : Bytes) → run d out false (xs ++ ys) ≡ run_on ys (run d out false xs)

run-append_step :
    (xs ys : Bytes)
    → Splits xs ys
    → (c : ℕ) (d : ChunkedDecoder) (out : Bytes) (s : Step) → step_in d.state d c ≡ s
    → run d out false (c ∷ xs ++ ys) ≡ run_on ys (run d out false (c ∷ xs))
unfolding run
run-append_step xs ys ih c d out (next d') h = rw (h, run) (ih d' out)
run-append_step xs ys ih c d out malformed h = rw (h, run)
run-append_step xs ys ih c d out (finish d') h =
    rw (h, run) (sym (run_done d' out true ys (state_of_finish d.state d d' c refl h)))
run-append_step xs ys ih c d out copy h = rw (h, run) (ih (copied d 1) (out ++ c ∷ []))

run-append : (xs ys : Bytes) → Splits xs ys
unfolding run
run-append [] ys d out = sym (run-is_done d.state d out ys refl)
run-append (c ∷ xs) ys d out = run-append_step xs ys (run-append xs ys) c d out _ refl

abbrev KeepsValid : Bytes → Type 0
KeepsValid cs =
    (d : ChunkedDecoder) (out : Bytes) (fin : Bool) → IsValid d → IsValid (run d out fin cs).decoder

run-IsValid_step :
    (cs : Bytes)
    → KeepsValid cs
    → (c : ℕ) (d : ChunkedDecoder) (out : Bytes) (fin : Bool) → IsValid d
    → (s : Step) → step_in d.state d c ≡ s
    → IsValid (run d out fin (c ∷ cs)).decoder
unfolding run
run-IsValid_step cs ih c d out fin v (next d') h =
    rw (h, run) (ih d' out fin (rw h at (step_in-IsValid d.state d c refl v)))
run-IsValid_step cs ih c d out fin v malformed h = rw (h, run) v
run-IsValid_step cs ih c d out fin v (finish d') h =
    rw (h, run) (rw h at (step_in-IsValid d.state d c refl v))
run-IsValid_step cs ih c d out fin v copy h =
    rw (h, run) (ih (copied d 1) (out ++ c ∷ []) fin (copied-IsValid d 1))

run-IsValid : (cs : Bytes) → KeepsValid cs
unfolding run
run-IsValid [] d out fin v = v
run-IsValid (c ∷ cs) d out fin v = run-IsValid_step cs (run-IsValid cs) c d out fin v _ refl

resume-run : (ys : Bytes) (f : Fed) → IsValid f.decoder → resume ys f ≡ some (run_on ys f)
resume-run ys f v = ground (arith, feed-eq-run f.decoder f.out f.done ys)

-- From a valid state, one call on a joined input, and two calls on its parts, end in the same
-- decoder, output, flag and status, wherever the input is cut, also behind an error and behind
-- the end of the body.
pub feed-append :
    (d : ChunkedDecoder) (out xs ys : Bytes)
    → IsValid d
    → feed d out false (xs ++ ys) ≡ (feed d out false xs >>= resume ys)
feed-append d out xs ys v =
    feed-eq-run d out false (xs ++ ys) v
    ∙ ap some (run-append xs ys d out)
    ∙ sym (resume-run ys (run d out false xs) (run-IsValid xs d out false v))
    ∙ ap (λ o. o >>= resume ys) (sym (feed-eq-run d out false xs v))

-- The run's output is `out` with at most `n` bytes behind it.
record Grows (out : Bytes) (n : ℕ) (out' : Bytes) : Type 0 where
  added : Bytes
  behind : out' ≡ out ++ added
  few : length added ≤ n

Grows-refl : (out : Bytes) (n : ℕ) → Grows out n out
Grows-refl out n = record { added = []; behind = sym (append-nil out); few = omega arith }

Grows-cons :
    (out : Bytes) (c n : ℕ) (out' : Bytes) → Grows (out ++ c ∷ []) n out' → Grows out (suc n) out'
Grows-cons out c n out' g = record {
  added = c ∷ g.added;
  behind = g.behind ∙ append_assoc out (c ∷ []) g.added;
  few = omega (arith, g.few);
}

Grows-suc : (out : Bytes) (n : ℕ) (out' : Bytes) → Grows out n out' → Grows out (suc n) out'
Grows-suc out n out' g = record { added = g.added; behind = g.behind; few = omega (arith, g.few) }

abbrev RunGrows : Bytes → Type 0
RunGrows cs =
    (d : ChunkedDecoder) (out : Bytes) (fin : Bool) → Grows out (length cs) (run d out fin cs).out

run-Grows_step :
    (cs : Bytes)
    → RunGrows cs
    → (c : ℕ) (d : ChunkedDecoder) (out : Bytes) (fin : Bool) (s : Step) → step_in d.state d c ≡ s
    → Grows out (suc (length cs)) (run d out fin (c ∷ cs)).out
unfolding run
run-Grows_step cs ih c d out fin (next d') h = rw (h, run) (Grows-suc out _ _ (ih d' out fin))
run-Grows_step cs ih c d out fin malformed h = rw (h, run) (Grows-refl out _)
run-Grows_step cs ih c d out fin (finish d') h = rw (h, run) (Grows-refl out _)
run-Grows_step cs ih c d out fin copy h =
    rw (h, run) (Grows-cons out c _ _ (ih (copied d 1) (out ++ c ∷ []) fin))

run-Grows : (cs : Bytes) → RunGrows cs
unfolding run
run-Grows [] d out fin = Grows-refl out _
run-Grows (c ∷ cs) d out fin = run-Grows_step cs (run-Grows cs) c d out fin _ refl

-- From a valid state every call ends, with or without an error, in a valid decoder, and adds at
-- most one byte of output for each byte of input, behind the output that was there.
pub feed_bounds :
    (d : ChunkedDecoder) (out : Bytes) (fin : Bool) (cs : Bytes)
    → IsValid d
    → (f : Fed) × (body : Bytes) × (feed d out fin cs ≡ some f)
      × (f.out ≡ out ++ body)
      × (length body ≤ length cs)
      × IsValid f.decoder
feed_bounds d out fin cs v =
    let g = run-Grows cs d out fin in
    (
      run d out fin cs,
      g.added,
      feed-eq-run d out fin cs v,
      g.behind,
      g.few,
      run-IsValid cs d out fin v,
    )
