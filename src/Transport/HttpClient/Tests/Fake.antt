-- ===== src/Transport/HttpClient/Tests/Fake.antt =====
-- A connection that answers from a list.
use edge_llm.Base.{
  ℕ, zero, suc, ◌≤◌, ◌<◌, ◌≡◌, refl, Bool, true, false, Option, none, some, List, [], ◌∷◌, ◌++◌,
  Bytes, arith, length, take, drop, length-take, take-append-drop, append_assoc,
}
use edge_llm.Core.{Status}
use edge_llm.Transport.Connection.{Connection, Received, got, idle, closed}
use edge_llm.Transport.HttpClient.Rules.{Quiet}
use edge_llm.Transport.HttpClient.Conserve.{Delivers}
use edge_llm.Transport.HttpClient.Ends.{Paces}

pub record Script : Type 0 where
  pub answers : List Received
  pub up : Bool

abbrev pub packet : Bytes → Received
packet [] = idle
packet (x ∷ xs) = got x xs

-- What is left of a packet stands before the answers to come.
abbrev put_back : Bytes → List Received → List Received
put_back [] rs = rs
put_back (x ∷ xs) rs = got x xs ∷ rs

abbrev script_read : ℕ → List Received → List Received × Received
script_read n [] = ([], closed)
script_read n (idle ∷ rs) = (rs, idle)
script_read n (closed ∷ rs) = (closed ∷ rs, closed)
script_read zero (got x xs ∷ rs) = (got x xs ∷ rs, closed)
script_read (suc n) (got x xs ∷ rs) = (put_back (drop n xs) rs, got x (take n xs))

abbrev script_write : Bytes → Option ℕ
script_write [] = none
script_write (x ∷ s) = some (length (x ∷ s))

abbrev has_answers : List Received → Bool
has_answers [] = false
has_answers (r ∷ rs) = true

abbrev pub script : Connection Script
script = record {
  connect = λ host port w. (record w { up = true }, Status.ok);
  connected = λ w. w.up;
  available = λ w. has_answers w.answers;
  write = λ s w. (w, script_write s);
  read = λ n w. let (rs, r) = script_read n w.answers in (record w { answers = rs }, r);
  stop = λ w. record w { up = false };
}

abbrev bytes_of : List Received → Bytes
bytes_of [] = []
bytes_of (got x xs ∷ rs) = x ∷ xs ++ bytes_of rs
bytes_of (idle ∷ rs) = bytes_of rs
bytes_of (closed ∷ rs) = []

abbrev pub script_input : Script → Bytes
script_input w = bytes_of w.answers

bytes_of-put_back : (s : Bytes) (rs : List Received) → bytes_of (put_back s rs) ≡ s ++ bytes_of rs
bytes_of-put_back [] rs = refl
bytes_of-put_back (x ∷ xs) rs = refl

read_bounded :
    (n : ℕ) (rs : List Received) (x : ℕ) (xs : Bytes)
    → (script_read n rs).1 ≡ got x xs
    → length (x ∷ xs) ≤ n
read_bounded n [] x xs e = cc
read_bounded n (idle ∷ rs) x xs e = cc
read_bounded n (closed ∷ rs) x xs e = cc
read_bounded zero (got y ys ∷ rs) x xs e = cc
read_bounded (suc n) (got y ys ∷ rs) x xs e = ground (arith, length-take n ys)

read_in_order :
    (n : ℕ) (rs : List Received) (x : ℕ) (xs : Bytes)
    → (script_read n rs).1 ≡ got x xs
    → bytes_of rs ≡ (x ∷ xs) ++ bytes_of (script_read n rs).0
read_in_order n [] x xs e = cc
read_in_order n (idle ∷ rs) x xs e = cc
read_in_order n (closed ∷ rs) x xs e = cc
read_in_order zero (got y ys ∷ rs) x xs e = cc
read_in_order (suc n) (got y ys ∷ rs) x xs e = cc (
  bytes_of-put_back (drop n ys) rs,
  take-append-drop n ys,
  append_assoc (take n ys) (drop n ys) (bytes_of rs),
)

read-Quiet :
    (n : ℕ) (rs : List Received)
    → Quiet (script_read n rs).1
    → bytes_of (script_read n rs).0 ≡ bytes_of rs
read-Quiet n [] q = refl
read-Quiet n (idle ∷ rs) q = refl
read-Quiet n (closed ∷ rs) q = refl
read-Quiet zero (got y ys ∷ rs) q = refl
read-Quiet (suc n) (got y ys ∷ rs) q = ground arith

pub script-Delivers : Delivers script script_input
script-Delivers = record {
  bounded = λ n w x xs e. read_bounded n w.answers x xs e;
  in_order = λ n w x xs e. read_in_order n w.answers x xs e;
  quiet = λ n w q. read-Quiet n w.answers q;
}

put_back_le : (s : Bytes) (rs : List Received) → length (put_back s rs) ≤ suc (length rs)
put_back_le [] rs = omega arith
put_back_le (x ∷ xs) rs = omega arith

read_shrinks : (n : ℕ) (rs : List Received) → length (script_read n rs).0 ≤ length rs
read_shrinks n [] = omega arith
read_shrinks n (idle ∷ rs) = omega arith
read_shrinks n (closed ∷ rs) = omega arith
read_shrinks zero (got y ys ∷ rs) = omega arith
read_shrinks (suc n) (got y ys ∷ rs) = put_back_le (drop n ys) rs

idle_shrinks :
    (n : ℕ) (rs : List Received)
    → (script_read n rs).1 ≡ idle
    → length (script_read n rs).0 < length rs
idle_shrinks n [] e = cc
idle_shrinks n (idle ∷ rs) e = omega arith
idle_shrinks n (closed ∷ rs) e = cc
idle_shrinks zero (got y ys ∷ rs) e = cc
idle_shrinks (suc n) (got y ys ∷ rs) e = cc

never_stalls : (s : Bytes) → script_write s ≡ some 0 → ⊥
never_stalls [] e = cc
never_stalls (x ∷ s) e = ground arith

pub script-Paces :
    (clock : Option (Script → ℕ)) (limit start : ℕ)
    → Paces script clock limit start (λ w. length w.answers)
script-Paces clock limit start = record {
  read_keeps = λ n w. read_shrinks n w.answers;
  idle_costs = λ n w e l. idle_shrinks n w.answers e;
  write_keeps = λ s w. omega arith;
  stall_costs = λ s w e l. absurd (never_stalls s e);
}
