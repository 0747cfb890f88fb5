-- ===== src/Provisioning/Tests.antt =====
-- Runs of the commands over the store in RAM.
use edge_llm.Base.{
  ◌≡◌, refl, true, false, List, [], ◌∷◌, Bytes, bytes, beq, Bool-cases, inl, inr, arith,
}
use edge_llm.Base.Map.{insert, has, lookup}
use edge_llm.Hal.Codec.{Kv}
use edge_llm.Hal.Memory.{memory_store, set_item, has_item}
use edge_llm.Provisioning.{Field, ProvisioningService, handle_command}
use edge_llm.Provisioning.Declared.{Provisioned, handle_command-Provisioned}
use edge_llm.Provisioning.Echo.{handle_command_alike}

abbrev fields : List Field
fields =
    record { key = bytes "wifi"; description = bytes "network"; secret = false }
    ∷ record { key = bytes "key"; description = bytes "API key"; secret = true }
    ∷ []

abbrev service : ProvisioningService Kv
service = record { store = []; fields = fields }

abbrev set_key : Bytes
set_key = bytes " set key  sk-1 \r"

sets_key :
    handle_command memory_store set_key service
    ≡ (record service { store = (bytes "key", bytes "sk-1") ∷ [] }, bytes "ok: key set")
unfolding handle_command set_item insert
sets_key = refl

handle_command-Provisioned_example :
    Provisioned memory_store service (handle_command memory_store set_key service)
handle_command-Provisioned_example = handle_command-Provisioned memory_store set_key service

-- Two values of one key.
abbrev one : Kv
one = (bytes "key", bytes "sk-1") ∷ []

abbrev other : Kv
other = (bytes "key", bytes "sk-2") ∷ []

set_item_alike : (k v : Bytes) → (set_item k v one).1 ≡ (set_item k v other).1
unfolding set_item
set_item_alike [] v = refl
set_item_alike (c ∷ k) v = refl

has_item_alike : (k : Bytes) → has_item k one ≡ has_item k other
unfolding has_item has lookup
has_item_alike k = elim (Bool-cases (beq k (bytes "key"))) [
  | inl y ↦ ground (arith, y)
  | inr n ↦ ground (arith, n)
]

handle_command_alike_example :
    (handle_command memory_store (bytes "status") (record service { store = one })).1
    ≡ (handle_command memory_store (bytes "status") (record service { store = other })).1
handle_command_alike_example =
    handle_command_alike memory_store fields one other
      (record { same_keys = has_item_alike; same_writes = set_item_alike }) (bytes "status")
