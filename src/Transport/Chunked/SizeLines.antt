-- ===== src/Transport/Chunked/SizeLines.antt =====
-- The size lines of src/transport/ChunkedDecoder.cpp.
use edge_llm.Base.{
  ℕ, ◌+◌, ◌*◌, ◌%◌, ◌≡◌, ◌≢◌, refl, ap, ◌∙◌, Bool, true, false, some, [], ◌∷◌, ◌++◌, arith, Bytes,
  All,
}
use edge_llm.Transport.Chunked.{
  State, ChunkedDecoder, Step, hex_value, step_in, begin_chunk, reset, size_mod,
}
use edge_llm.Transport.Chunked.Bytewise.{run, run-next}
use edge_llm.Transport.Chunked.Wire.{crlf, HexDigit, HexNumber, SizeLine, IsExt, Writes, print_line}

-- The decoder in state `s`, with the size `n` read so far.
abbrev pub at : State → ℕ → Bool → ChunkedDecoder
at s n saw = record {
  state = s;
  remaining = 0;
  chunk_size = n;
  saw_size_digit = saw;
  trailer_line_len = 0;
}

step_digit :
    (c hv n : ℕ) (saw : Bool)
    → hex_value c ≡ some hv
    → step_in State.size (at State.size n saw) c
      ≡ Step.next (at State.size ((n * 16 + hv) % size_mod) true)
unfolding step_in
step_digit c hv n saw h = ground arith

wrapped_digit : (acc hv : ℕ) → (acc % size_mod * 16 + hv) % size_mod ≡ (acc * 16 + hv) % size_mod
wrapped_digit acc hv = omega arith

-- The first digit decides nothing but that there is one.
run-digit :
    (acc hv c : ℕ) (saw : Bool) (out rest : Bytes) (fin : Bool)
    → hex_value c ≡ some hv
    → run (at State.size (acc % size_mod) saw) out fin (c ∷ rest)
      ≡ run (at State.size ((acc * 16 + hv) % size_mod) true) out fin rest
run-digit acc hv c saw out rest fin e =
    run-next (at State.size (acc % size_mod) saw) out fin c rest _
      (step_digit c hv (acc % size_mod) saw e)
    ∙ ap (λ n. run (at State.size n true) out fin rest) (wrapped_digit acc hv)

hex_value-HexDigit : {c d : ℕ} → HexDigit c d → hex_value c ≡ some d
unfolding hex_value
hex_value-HexDigit (HexDigit.decimal l) = ground (arith, l)
hex_value-HexDigit (HexDigit.lower l) = ground (arith, l)
hex_value-HexDigit (HexDigit.upper l) = ground (arith, l)

run-digits :
    (acc v : ℕ) (ds out rest : Bytes) (fin : Bool)
    → HexNumber acc ds v
    → run (at State.size (acc % size_mod) true) out fin (ds ++ rest)
      ≡ run (at State.size (v % size_mod) true) out fin rest
run-digits acc v [] out rest fin h = rw h refl
run-digits acc v (c ∷ ds) out rest fin (hv, (e, e')) =
    run-digit acc hv c true out (ds ++ rest) fin (hex_value-HexDigit e)
    ∙ run-digits (acc * 16 + hv) v ds out rest fin e'

-- The digits of a size line leave its value, modulo the range of `size_t`.
pub run-size :
    (v : ℕ) (ds out rest : Bytes) (fin : Bool)
    → ds ≢ []
    → HexNumber 0 ds v
    → run reset out fin (ds ++ rest) ≡ run (at State.size (v % size_mod) true) out fin rest
run-size v [] out rest fin ne h = absurd (ne refl)
run-size v (c ∷ ds) out rest fin ne (hv, (e, e')) =
    run-digit 0 hv c false out (ds ++ rest) fin (hex_value-HexDigit e)
    ∙ run-digits (0 * 16 + hv) v ds out rest fin e'

-- A CR is passed over, and the LF ends the line.
run-crlf :
    (n : ℕ) (out rest : Bytes) (fin : Bool)
    → run (at State.size n true) out fin (crlf ++ rest)
      ≡ run (begin_chunk (at State.size n true)) out fin rest
unfolding run step_in
run-crlf n out rest fin = refl

run-ext :
    (n : ℕ) (e out rest : Bytes) (fin : Bool)
    → All (λ x. x ≢ b'\n') e
    → run (at State.size_ext n true) out fin (e ++ (crlf ++ rest))
      ≡ run (begin_chunk (at State.size n true)) out fin rest
unfolding run step_in
run-ext n [] out rest fin h = ground arith
run-ext n (c ∷ e) out rest fin h = ground (arith, run-ext n e out rest fin h.1)

step_semicolon :
    (n c : ℕ)
    → c ≡ b';'
    → step_in State.size (at State.size n true) c ≡ Step.next (at State.size_ext n true)
unfolding step_in
step_semicolon n c h = ground arith

run_after_digits :
    (n : ℕ) (e out rest : Bytes) (fin : Bool)
    → IsExt e
    → run (at State.size n true) out fin (e ++ (crlf ++ rest))
      ≡ run (begin_chunk (at State.size n true)) out fin rest
run_after_digits n [] out rest fin h = run-crlf n out rest fin
run_after_digits n (c ∷ e) out rest fin h =
    run-next (at State.size n true) out fin c (e ++ (crlf ++ rest)) _ (step_semicolon n c h.0)
    ∙ run-ext n e out rest fin h.1

-- A size line begins a chunk of the size that it writes, modulo the range of `size_t`.
pub run-line :
    (l : SizeLine) (n : ℕ) (out rest : Bytes) (fin : Bool)
    → Writes l n
    → run reset out fin (print_line l rest)
      ≡ run (begin_chunk (at State.size (n % size_mod) true)) out fin rest
run-line l n out rest fin w =
    run-size n l.digits out (l.ext ++ (crlf ++ rest)) fin w.nonempty w.value
    ∙ run_after_digits (n % size_mod) l.ext out rest fin w.ext
