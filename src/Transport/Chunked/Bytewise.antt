-- ===== src/Transport/Chunked/Bytewise.antt =====
-- `feed` of src/transport/ChunkedDecoder.cpp against a decoder that takes one byte at a time, and the
-- termination of its loop.
use edge_llm.Base.{
  ℕ, zero, suc, ◌-◌, ◌≤◌, ◌<◌, min, ◌≡◌, refl, sym, ap, ◌∙◌, Bool, true, some, [], ◌∷◌, ◌++◌,
  append_assoc, arith, Bytes, length, take, drop, length-drop,
}
use edge_llm.Core.{Status, http_malformed}
use edge_llm.Transport.Chunked.{
  State, ChunkedDecoder, Step, next, malformed, finish, copy, step_in, copied, Fed, is_done, ended,
  feed_loop, feed,
}

-- Inside a chunk there are bytes left to copy; otherwise the copy would take none and the loop
-- would stay where it is.
abbrev pub Ready : State → ℕ → Type 0
Ready State.chunk_data r = 0 < r
Ready _ _ = Unit

abbrev pub IsValid : ChunkedDecoder → Type 0
IsValid d = Ready d.state d.remaining

abbrev pub StepIsValid : Step → Type 0
StepIsValid (next d) = IsValid d
StepIsValid (finish d) = IsValid d
StepIsValid _ = Unit

pub step_in-IsValid :
    (s : State) (d : ChunkedDecoder) (c : ℕ) → d.state ≡ s → IsValid d → StepIsValid (step_in s d c)
unfolding step_in
step_in-IsValid State.size d c e v = ground arith
step_in-IsValid _ d c e v = ground arith

-- The decoder without the block copy.
unfoldable pub run : ChunkedDecoder → Bytes → Bool → Bytes → Fed
run d out fin [] = ended d out (is_done d.state) Status.ok
run d out fin (c ∷ cs) = elim (step_in d.state d c) [
  | next d' ↦ run d' out fin cs
  | malformed ↦ ended d out fin (Status.fail http_malformed)
  | finish d' ↦ ended d' out true Status.ok
  | copy ↦ run (copied d 1) (out ++ c ∷ []) fin cs
]

module _ (d : ChunkedDecoder) (out : Bytes) (fin : Bool) (c : ℕ) (cs : Bytes) where
  pub run-next :
      (d' : ChunkedDecoder)
      → step_in d.state d c ≡ next d'
      → run d out fin (c ∷ cs) ≡ run d' out fin cs
  unfolding run
  run-next d' h = rw (h, run)

copied-copied : (d : ChunkedDecoder) (m : ℕ) → copied (copied d 1) (suc m) ≡ copied d (suc (suc m))
copied-copied d m = ground arith

pub copied-IsValid : (d : ChunkedDecoder) (n : ℕ) → IsValid (copied d n)
copied-IsValid d n = ground arith

state-copied : (d : ChunkedDecoder) → 1 < d.remaining → (copied d 1).state ≡ State.chunk_data
state-copied d h = ground arith

-- A block of `n` bytes is `n` single bytes.
pub run-copied :
    (n : ℕ) (d : ChunkedDecoder) (out : Bytes) (fin : Bool) (cs : Bytes)
    → d.state ≡ State.chunk_data
    → suc n ≤ d.remaining
    → suc n ≤ length cs
    → run d out fin cs ≡ run (copied d (suc n)) (out ++ take (suc n) cs) fin (drop (suc n) cs)
unfolding run step_in
run-copied n d out fin [] e r l = absurd (omega arith)
run-copied zero d out fin (c ∷ cs) e r l = rw e refl
run-copied (suc n) d out fin (c ∷ cs) e r l = rw e (
    run-copied n (copied d 1) (out ++ c ∷ []) fin cs (state-copied d (omega arith)) (omega arith)
      (omega arith)
    ∙ rw (copied-copied d n, append_assoc))

eq-chunk_data_of_copy :
    (s : State) (d : ChunkedDecoder) (c : ℕ) → step_in s d c ≡ copy → s ≡ State.chunk_data
unfolding step_in
eq-chunk_data_of_copy State.chunk_data d c h = refl
eq-chunk_data_of_copy _ d c h = ground arith

abbrev AgreesOn : ℕ → Type 0
AgreesOn fuel =
    (d : ChunkedDecoder) (out : Bytes) (fin : Bool) (cs : Bytes)
    → length cs ≤ fuel
    → IsValid d
    → feed_loop fuel d out fin cs ≡ some (run d out fin cs)

feed_loop-copy :
    (fuel : ℕ) (d : ChunkedDecoder) (out : Bytes) (fin : Bool) (c : ℕ) (cs : Bytes) (n : ℕ)
    → step_in d.state d c ≡ copy
    → min (length (c ∷ cs)) d.remaining ≡ n
    → feed_loop (suc fuel) d out fin (c ∷ cs)
      ≡ feed_loop fuel (copied d n) (out ++ take n (c ∷ cs)) fin (drop n (c ∷ cs))
unfolding feed_loop
feed_loop-copy fuel d out fin c cs n h e = rw (h, feed_loop) (rw e)

copy-agrees :
    (fuel : ℕ)
    → AgreesOn fuel
    → (d : ChunkedDecoder) (out : Bytes) (fin : Bool) (c : ℕ) (cs : Bytes) (n : ℕ)
    → length cs ≤ fuel
    → step_in d.state d c ≡ copy
    → min (length (c ∷ cs)) d.remaining ≡ suc n
    → feed_loop (suc fuel) d out fin (c ∷ cs) ≡ some (run d out fin (c ∷ cs))
copy-agrees fuel ih d out fin c cs n l h e =
    feed_loop-copy fuel d out fin c cs (suc n) h e
    ∙ ih (copied d (suc n)) (out ++ take (suc n) (c ∷ cs)) fin (drop (suc n) (c ∷ cs))
        (omega (arith, length-drop n cs)) (copied-IsValid d (suc n))
    ∙ ap some (
        sym (
          run-copied n d out fin (c ∷ cs) (eq-chunk_data_of_copy d.state d c h) (omega arith)
            (omega arith)))

Ready-pos : (d : ChunkedDecoder) → d.state ≡ State.chunk_data → IsValid d → 0 < d.remaining
Ready-pos d e v = ground arith

-- One round, by what the byte does.
round-agrees :
    (fuel : ℕ)
    → AgreesOn fuel
    → (d : ChunkedDecoder) (out : Bytes) (fin : Bool) (c : ℕ) (cs : Bytes) → length cs ≤ fuel
    → IsValid d
    → (s : Step) → step_in d.state d c ≡ s
    → feed_loop (suc fuel) d out fin (c ∷ cs) ≡ some (run d out fin (c ∷ cs))
unfolding feed_loop run
round-agrees fuel ih d out fin c cs l v (next d') h =
    rw (h, feed_loop, run) (ih d' out fin cs l (rw h at (step_in-IsValid d.state d c refl v)))
round-agrees fuel ih d out fin c cs l v malformed h = rw (h, feed_loop, run)
round-agrees fuel ih d out fin c cs l v (finish d') h = rw (h, feed_loop, run)
round-agrees fuel ih d out fin c cs l v copy h =
    let pos = Ready-pos d (eq-chunk_data_of_copy d.state d c h) v in
    copy-agrees fuel ih d out fin c cs (min (length (c ∷ cs)) d.remaining - 1) l h (omega arith)

feed_loop-eq-run : (fuel : ℕ) → AgreesOn fuel
unfolding feed_loop run
feed_loop-eq-run zero d out fin [] l v = refl
feed_loop-eq-run zero d out fin (c ∷ cs) l v = absurd (omega arith)
feed_loop-eq-run (suc fuel) d out fin [] l v = refl
feed_loop-eq-run (suc fuel) d out fin (c ∷ cs) l v =
    round-agrees fuel (feed_loop-eq-run fuel) d out fin c cs (omega arith) v _ refl

-- From a valid state, `feed` ends within its fuel, and its block copies have the effect of taking
-- the input one byte at a time.
pub feed-eq-run :
    (d : ChunkedDecoder) (out : Bytes) (fin : Bool) (cs : Bytes)
    → IsValid d
    → feed d out fin cs ≡ some (run d out fin cs)
unfolding feed
feed-eq-run d out fin cs v = feed_loop-eq-run (length cs) d out fin cs (omega arith) v
