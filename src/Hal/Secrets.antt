-- ===== src/Hal/Secrets.antt =====
-- src/hal/ISecretStore.h: what the clients of a secret store call, and what they rely on.
use edge_llm.Base.{◌≡◌, Bool, true, false, Bytes, beq, if◌then◌else◌}
use edge_llm.Core.{Error, Status, Result}

-- The virtual functions of `ISecretStore`, on a store with the state `S`.
pub record SecretStore (S : Type 0) : Type 0 where
  pub set : Bytes → Bytes → S → S × Status
  pub get : Bytes → S → Result Bytes
  pub has : Bytes → S → Bool
  pub remove : Bytes → S → S × Status
  pub clear : S → S × Status

abbrev pub is_found : Result Bytes → Bool
is_found (Result.ok v) = true
is_found (Result.fail e) = false

-- The contract: a mutation that succeeds changes what `get` answers for its key and for no other,
-- one that fails changes nothing, and `has` is whether `get` finds the key. It holds in the states
-- that `Valid` describes, which every operation keeps.
pub record IsSecretStore {S : Type 0} (Valid : S → Type 0) (o : SecretStore S) : Type 0 where
  pub set_valid : (k v : Bytes) (s : S) → Valid s → Valid (o.set k v s).0
  pub remove_valid : (k : Bytes) (s : S) → Valid s → Valid (o.remove k s).0
  pub clear_valid : (s : S) → Valid s → Valid (o.clear s).0
  pub get-set :
      (k v j : Bytes) (s : S)
      → (o.set k v s).1 ≡ Status.ok
      → o.get j (o.set k v s).0 ≡ (if beq j k then Result.ok v else o.get j s)
  pub set_failed :
      (k v : Bytes) (s : S) (e : Error) → (o.set k v s).1 ≡ Status.fail e → (o.set k v s).0 ≡ s
  pub get-remove :
      (k j : Bytes) (s : S)
      → (o.remove k s).1 ≡ Status.ok
      → o.get j (o.remove k s).0
        ≡ (if beq j k then Result.fail Error.secret_not_found else o.get j s)
  pub remove_failed :
      (k : Bytes) (s : S) (e : Error) → (o.remove k s).1 ≡ Status.fail e → (o.remove k s).0 ≡ s
  pub get-clear : (j : Bytes) (s : S) → o.get j (o.clear s).0 ≡ Result.fail Error.secret_not_found
  pub has_iff : (k : Bytes) (s : S) → o.has k s ≡ is_found (o.get k s)
