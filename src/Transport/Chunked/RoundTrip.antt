-- ===== src/Transport/Chunked/RoundTrip.antt =====
-- What the wire format prints, src/transport/ChunkedDecoder.cpp decodes.
use edge_llm.Base.{
  ℕ, suc, ◌+◌, ◌%◌, ◌<◌, ◌≡◌, ◌≢◌, refl, ap, ◌∙◌, Bool, true, false, some, List, [], ◌∷◌, ◌++◌,
  append_assoc, append-nil, arith, Bytes, length, length-append, All, take-length_append,
  drop-length_append,
}
use edge_llm.Core.{Status}
use edge_llm.Transport.Chunked.{
  State, ChunkedDecoder, Step, step_in, begin_chunk, copied, reset, ended, feed, size_mod,
}
use edge_llm.Transport.Chunked.Bytewise.{run, run-next, run-copied, feed-eq-run}
use edge_llm.Transport.Chunked.Wire.{
  crlf, SizeLine, Writes, Chunk, IsChunk, IsTrailer, Message, IsMessage, print_line, print_chunks,
  print_trailers, print, body,
}
use edge_llm.Transport.Chunked.SizeLines.{at, run-line}

abbrev in_chunk : ℕ → ChunkedDecoder
in_chunk n = record (at State.chunk_data 0 false) { remaining = n }

begin_chunk_lem :
    (n : ℕ) → 0 < n → n < size_mod → begin_chunk (at State.size (n % size_mod) true) ≡ in_chunk n
begin_chunk_lem n h l = let e : n % size_mod ≡ n = omega arith in rw e (ground arith)

copied_all : (n : ℕ) → copied (in_chunk (suc n)) (suc n) ≡ at State.data_cr 0 false
copied_all n = ground arith

run-payload :
    (p out rest : Bytes) (fin : Bool)
    → p ≢ []
    → run (in_chunk (length p)) out fin (p ++ rest)
      ≡ run (at State.data_cr 0 false) (out ++ p) fin rest
run-payload [] out rest fin h = absurd (h refl)
run-payload (c ∷ p) out rest fin h =
    run-copied (length p) (in_chunk (suc (length p))) out fin (c ∷ (p ++ rest)) refl (omega arith)
      (omega (arith, length-append p rest))
    ∙ rw (copied_all (length p), take-length_append p rest, drop-length_append p rest)

run_after_payload :
    (out rest : Bytes) (fin : Bool)
    → run (at State.data_cr 0 false) out fin (crlf ++ rest) ≡ run reset out fin rest
unfolding run step_in
run_after_payload out rest fin = refl

run-chunk :
    (c : Chunk) (out rest : Bytes) (fin : Bool)
    → IsChunk c
    → run reset out fin (print_line c.line (c.payload ++ (crlf ++ rest)))
      ≡ run reset (out ++ c.payload) fin rest
run-chunk c out rest fin h =
    run-line c.line (length c.payload) out (c.payload ++ (crlf ++ rest)) fin h.line
    ∙ ap (λ d. run d out fin (c.payload ++ (crlf ++ rest)))
        (begin_chunk_lem (length c.payload) (pos c.payload h.nonempty) h.fits)
    ∙ run-payload c.payload out (crlf ++ rest) fin h.nonempty
    ∙ run_after_payload (out ++ c.payload) rest fin
  where
    pos : (p : Bytes) → p ≢ [] → 0 < length p
    pos [] h = absurd (h refl)
    pos (x ∷ p) h = omega arith

run-chunks :
    (cs : List Chunk) (out rest : Bytes) (fin : Bool)
    → All IsChunk cs
    → run reset out fin (print_chunks cs rest) ≡ run reset (out ++ body cs) fin rest
run-chunks [] out rest fin h = rw append-nil
run-chunks (c ∷ cs) out rest fin h =
    run-chunk c out (print_chunks cs rest) fin h.0
    ∙ run-chunks cs (out ++ c.payload) rest fin h.1
    ∙ rw append_assoc

abbrev in_trailer : ℕ → ChunkedDecoder
in_trailer n = record (at State.trailer 0 false) { trailer_line_len = n }

step_trailer :
    (n c : ℕ)
    → n + 1 < size_mod
    → (c ≢ b'\r') × (c ≢ b'\n')
    → step_in State.trailer (in_trailer n) c ≡ Step.next (in_trailer (n + 1))
unfolding step_in
step_trailer n c l h = let e : (n + 1) % size_mod ≡ n + 1 = omega arith in ground (arith, e)

run-trailer_bytes :
    (l : Bytes) (n m : ℕ) (out rest : Bytes) (fin : Bool)
    → All (λ x. (x ≢ b'\r') × (x ≢ b'\n')) l
    → n + length l ≡ m
    → m < size_mod
    → run (in_trailer n) out fin (l ++ rest) ≡ run (in_trailer m) out fin rest
run-trailer_bytes [] n m out rest fin h e lt = let e' : n ≡ m = omega arith in rw e'
run-trailer_bytes (c ∷ l) n m out rest fin h e lt =
    run-next (in_trailer n) out fin c (l ++ rest) _ (step_trailer n c (omega arith) h.0)
    ∙ run-trailer_bytes l (n + 1) m out rest fin h.1 (omega arith) lt

-- The end of a trailer line that is not blank.
run-trailer_end :
    (n : ℕ) (out rest : Bytes) (fin : Bool)
    → 0 < n
    → run (in_trailer n) out fin (crlf ++ rest) ≡ run (in_trailer 0) out fin rest
unfolding run step_in
run-trailer_end n out rest fin h = ground arith

run-trailers :
    (ls : List Bytes) (out rest : Bytes) (fin : Bool)
    → All IsTrailer ls
    → run (in_trailer 0) out fin (print_trailers ls rest) ≡ run (in_trailer 0) out fin rest
run-trailers [] out rest fin h = refl
run-trailers ([] ∷ ls) out rest fin h = absurd (h.0.nonempty refl)
run-trailers ((c ∷ l) ∷ ls) out rest fin h =
    run-trailer_bytes (c ∷ l) 0 (suc (length l)) out (crlf ++ print_trailers ls rest) fin h.0.plain
      (omega arith) h.0.fits
    ∙ run-trailer_end (suc (length l)) out (print_trailers ls rest) fin (omega arith)
    ∙ run-trailers ls out rest fin h.1

run-blank :
    (out rest : Bytes) (fin : Bool)
    → run (in_trailer 0) out fin (crlf ++ rest) ≡ ended (at State.done 0 false) out true Status.ok
unfolding run step_in
run-blank out rest fin = refl

run-print :
    (m : Message) (out rest : Bytes) (fin : Bool)
    → IsMessage m
    → run reset out fin (print m rest)
      ≡ ended (at State.done 0 false) (out ++ body m.chunks) true Status.ok
run-print m out rest fin h =
    run-chunks m.chunks out (print_line m.last (print_trailers m.trailers (crlf ++ rest))) fin
      h.chunks
    ∙ run-line m.last 0 (out ++ body m.chunks) (print_trailers m.trailers (crlf ++ rest)) fin h.last
    ∙ run-trailers m.trailers (out ++ body m.chunks) (crlf ++ rest) fin h.trailers
    ∙ run-blank (out ++ body m.chunks) rest fin

-- A well-formed body, in chunks of any sizes, with extensions and trailers, decodes to the joined
-- payloads with `done` set, and the bytes `rest` behind it do not count.
pub feed-print :
    (m : Message) (rest : Bytes)
    → IsMessage m
    → feed reset [] false (print m rest)
      ≡ some (ended (at State.done 0 false) (body m.chunks) true Status.ok)
feed-print m rest h =
    feed-eq-run reset [] false (print m rest) tt ∙ ap some (run-print m [] rest false h)

-- The size of a chunk is kept modulo 2 ^ 32 with no test for overflow: a size line that writes a
-- larger multiple of 2 ^ 32 ends the body with success, as the last chunk does.
pub feed_wrapped_size :
    (l : SizeLine) (n : ℕ) (rest : Bytes)
    → Writes l n
    → 0 < n
    → n % size_mod ≡ 0
    → feed reset [] false (print_line l (crlf ++ rest))
      ≡ some (ended (at State.done 0 false) [] true Status.ok)
feed_wrapped_size l n rest w pos wraps =
    feed-eq-run reset [] false (print_line l (crlf ++ rest)) tt
    ∙ ap some (run-line l n [] (crlf ++ rest) false w ∙ rw wraps (run-blank [] rest false))
