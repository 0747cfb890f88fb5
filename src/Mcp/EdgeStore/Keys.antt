-- ===== src/Mcp/EdgeStore/Keys.antt =====
-- The durable entries of src/mcp/EdgeStore.cpp, and the manifest that lists their keys.
use edge_llm.Base.{
  ℕ, zero, suc, ◌≤◌, ◌<◌, ◌≡◌, refl, false, List, [], ◌∷◌, ◌++◌, append-nil, append_assoc, Bytes,
  arith, if◌then◌else◌, length, length-append, All, cut, cut-append, cut-Lacks, Lacks,
}
use edge_llm.Base.Map.{has, keys}
use edge_llm.Hal.Codec.{Kv}
use edge_llm.Mcp.EdgeStore.{Expiry, split_loop, split_lines, join_keys, has_newline}

-- The entries without a deadline.
abbrev pub durable : Kv → Expiry → Kv
durable [] e = []
durable ((k, v) ∷ m) e = if has k e then durable m e else (k, v) ∷ durable m e

-- A key that a line of the manifest can hold.
abbrev pub IsLine : Bytes → Type 0
IsLine k = (0 < length k) × (has_newline k ≡ false)

abbrev lines_after : List Bytes → Bytes
lines_after [] = []
lines_after (k ∷ ks) = 10 ∷ (k ++ lines_after ks)

abbrev lines : List Bytes → Bytes
lines [] = []
lines (k ∷ ks) = k ++ lines_after ks

Lacks-has_newline : (k : Bytes) → has_newline k ≡ false → Lacks 10 k
unfolding has_newline
Lacks-has_newline [] h = tt
Lacks-has_newline (c ∷ k) h = ground (arith, Lacks-has_newline k)

join_keys_after :
    (m : Kv) (e : Expiry) (c : ℕ) (s : Bytes)
    → join_keys (c ∷ s) m e ≡ (c ∷ s) ++ lines_after (keys (durable m e))
unfolding join_keys
join_keys_after [] e c s = rw append-nil refl
join_keys_after ((k, v) ∷ m) e c s = ground (
  arith,
  join_keys_after m e c s,
  join_keys_after m e c (s ++ (10 ∷ k)),
  append_assoc (c ∷ s) (10 ∷ k) (lines_after (keys (durable m e))),
)

join_keys_lines :
    (m : Kv) (e : Expiry) → All IsLine (keys m) → join_keys [] m e ≡ lines (keys (durable m e))
unfolding join_keys
join_keys_lines [] e h = refl
join_keys_lines (([], v) ∷ m) e h = ground arith
join_keys_lines ((c ∷ k, v) ∷ m) e h = ground (arith, join_keys_lines m e, join_keys_after m e c k)

length-lines_after : (ks : List Bytes) → length ks ≤ length (lines_after ks)
length-lines_after [] = omega arith
length-lines_after (k ∷ ks) = omega (arith, length-lines_after ks, length-append k (lines_after ks))

split_loop_last : (k : Bytes) (fuel : ℕ) → IsLine k → split_loop (suc fuel) k ≡ k ∷ []
unfolding split_loop
split_loop_last [] fuel h = ground arith
split_loop_last (c ∷ k) fuel h =
    rw (cut-Lacks 10 (c ∷ k) (Lacks-has_newline (c ∷ k) h.1), split_loop) refl

split_loop-lines :
    (ks : List Bytes) (k : Bytes) (fuel : ℕ)
    → IsLine k
    → All IsLine ks
    → length ks < fuel
    → split_loop fuel (k ++ lines_after ks) ≡ k ∷ ks
unfolding split_loop
split_loop-lines ks [] fuel h a f = ground arith
split_loop-lines ks k zero h a f = ground arith
split_loop-lines [] (c ∷ k) (suc fuel) h a f = rw append-nil (split_loop_last (c ∷ k) fuel h)
split_loop-lines (j ∷ ks) (c ∷ k) (suc fuel) h a f =
    rw
      (
        cut-append 10 (c ∷ k) (j ++ lines_after ks) (Lacks-has_newline (c ∷ k) h.1),
        split_loop,
        split_loop-lines ks j fuel a.0 a.1 (omega arith),
      )
      refl

split_lines-lines : (ks : List Bytes) → All IsLine ks → split_lines (lines ks) ≡ ks
unfolding split_lines split_loop cut
split_lines-lines [] h = refl
split_lines-lines (k ∷ ks) h =
    split_loop-lines ks k (suc (length (k ++ lines_after ks))) h.0 h.1
      (omega (arith, length-lines_after ks, length-append k (lines_after ks)))

durable_lines : (m : Kv) (e : Expiry) → All IsLine (keys m) → All IsLine (keys (durable m e))
durable_lines [] e h = tt
durable_lines ((k, v) ∷ m) e h = ground (arith, durable_lines m e)

-- The manifest that `persistManifest` writes reads as the durable keys, in order.
pub split_lines-join_keys :
    (m : Kv) (e : Expiry)
    → All IsLine (keys m)
    → split_lines (join_keys [] m e) ≡ keys (durable m e)
split_lines-join_keys m e h =
    rw (join_keys_lines m e h) (split_lines-lines (keys (durable m e)) (durable_lines m e h))
