-- ===== src/Mcp/EdgeStore/Tests.antt =====
-- Runs of the store over the store in RAM, on concrete input.
use edge_llm.Base.{
  ℕ, ◌*◌, ◌<◌, ◌≡◌, refl, true, none, some, List, [], ◌∷◌, Bytes, bytes, arith, ◌≤◌, length,
}
use edge_llm.Base.Map.{lookup, insert, erase, has, cmp}
use edge_llm.Core.{Status}
use edge_llm.Hal.Codec.{Kv}
use edge_llm.Hal.Memory.{memory_store, memory_store-IsSecretStore, set_item, get_item, remove_item}
use edge_llm.Mcp.EdgeStore.{EdgeStore, manifest_key, set, set_persistence, set_with_ttl, load}
use edge_llm.Mcp.EdgeStore.Shape.{IsShaped, HasShape}
use edge_llm.Mcp.EdgeStore.Keys.{durable}
use edge_llm.Mcp.EdgeStore.Mirror.{IsReliable}
use edge_llm.Mcp.EdgeStore.Durable.{IsMirrored}
use edge_llm.Mcp.EdgeStore.Bounds.{Operation, apply_all}
use edge_llm.Mcp.EdgeStore.Calls.{Call, Gives, call_all, call_all-HasShape}
use edge_llm.Mcp.EdgeStore.Steps.{apply_all-IsMirrored}
use edge_llm.Mcp.EdgeStore.Restore.{set_persistence-apply_all}

set_item_ok : (k v : Bytes) (b : Kv) → 0 < length k → (set_item k v b).1 ≡ Status.ok
unfolding set_item
set_item_ok [] v b h = ground arith
set_item_ok (c ∷ k) v b h = refl

memory_store-IsReliable : IsReliable memory_store
unfolding set_item remove_item
memory_store-IsReliable = record { set_ok = set_item_ok; remove_ok = λ k b. refl }

-- A clock that goes on by 40 at each reading.
abbrev steady : ℕ → ℕ
steady n = 40 * n

abbrev empty_store : EdgeStore Kv
empty_store = record {
  values = [];
  expiry = [];
  max_keys = 3;
  max_value_len = 8;
  max_key_len = 8;
  backend = some [];
  on_change = true;
  changes = [];
  clock = some steady;
  reads = 0;
}

abbrev calls : List Operation
calls =
    Operation.put (bytes "led") (bytes "on")
    ∷ Operation.put_with_ttl (bytes "temp") (bytes "21") 100
    ∷ Operation.put (bytes "led") (bytes "off")
    ∷ Operation.put (bytes "mode") (bytes "eco")
    ∷ []

empty_store-IsShaped : IsShaped empty_store
unfolding has lookup
empty_store-IsShaped = record {
  ordered = tt;
  expiry_ordered = tt;
  count = omega arith;
  fields = tt;
  timed = λ k h. ground arith;
}

empty_store-IsMirrored : IsMirrored memory_store empty_store
unfolding lookup get_item
empty_store-IsMirrored = record { kept = λ k v l h. ground arith; listed = refl }

-- A backend whose value is longer than the cap of the store.
abbrev long_kept : Kv
long_kept = (manifest_key, bytes "k") ∷ (bytes "k", bytes "longer than it may be") ∷ []

abbrev owner_calls : List (Call Kv)
owner_calls =
    Call.operate (Operation.put (bytes "led") (bytes "on"))
    ∷ Call.attach (some long_kept)
    ∷ Call.operate (Operation.put_with_ttl (bytes "temp") (bytes "21") 100)
    ∷ []

call_all-HasShape_example :
    HasShape
      (Gives memory_store owner_calls)
      3
      8
      8
      (call_all memory_store owner_calls empty_store).values
      (call_all memory_store owner_calls empty_store).expiry
call_all-HasShape_example = call_all-HasShape memory_store owner_calls empty_store refl refl

-- It is loaded, whatever its length.
loads_long :
    lookup (bytes "k") (call_all memory_store owner_calls empty_store).values
    ≡ some (bytes "longer than it may be")
unfolding set set_with_ttl set_persistence set_item get_item insert cmp erase lookup load
loads_long = refl

apply_all-IsMirrored_example : IsMirrored memory_store (apply_all memory_store calls empty_store)
apply_all-IsMirrored_example =
    apply_all-IsMirrored memory_store memory_store-IsSecretStore memory_store-IsReliable calls
      empty_store empty_store-IsShaped empty_store-IsMirrored

abbrev one_call : List Operation
one_call = Operation.put (bytes "k") (bytes "v") ∷ []

abbrev quiet_store : EdgeStore Kv
quiet_store = record empty_store { clock = none }

run_backend :
    (apply_all memory_store one_call quiet_store).backend
    ≡ some ((manifest_key, bytes "k") ∷ (bytes "k", bytes "v") ∷ [])
unfolding set set_item insert cmp erase
run_backend = refl

one_value : length (apply_all memory_store one_call quiet_store).values ≤ 3
unfolding set insert set_item
one_value = omega arith

set_persistence-apply_all_example :
    (set_persistence memory_store
      (some ((manifest_key, bytes "k") ∷ (bytes "k", bytes "v") ∷ []))
      empty_store).values
    ≡ durable
        (apply_all memory_store one_call quiet_store).values
        (apply_all memory_store one_call quiet_store).expiry
set_persistence-apply_all_example =
    set_persistence-apply_all memory_store memory_store-IsSecretStore memory_store-IsReliable
      one_call quiet_store empty_store ((manifest_key, bytes "k") ∷ (bytes "k", bytes "v") ∷ [])
      empty_store-IsShaped empty_store-IsMirrored run_backend refl one_value
