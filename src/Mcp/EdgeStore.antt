-- ===== src/Mcp/EdgeStore.antt =====
-- src/mcp/EdgeStore.{h,cpp}: the key/value store. The clock is the sequence of its readings, of which
-- `reads` have been taken; the hook's calls are kept in a list; the backend that the pointer names
-- is held with its state.
pub mod Keys
pub mod Changes
pub mod Mirror
pub mod Shape
pub mod Bounds
mod Caps
pub mod Calls
pub mod Durable
pub mod Steps
pub mod Restore
pub mod Reads
mod Tests
use edge_llm.Base.{
  ℕ, zero, suc, ◌+◌, ◌-◌, ◌%◌, ◌^◌, Bool, true, false, ◌&&◌, ◌||◌, not, Option, none, some, List,
  [], ◌∷◌, ◌++◌, Bytes, bytes, beq, ◌==◌, ltb, if◌then◌else◌, length, cut,
}
use edge_llm.Base.Map.{lookup, insert, erase, has}
use edge_llm.Core.{Error, Status, Result}
use edge_llm.Hal.Codec.{Kv}
use edge_llm.Hal.Secrets.{SecretStore}

abbrev pub manifest_key : Bytes
manifest_key = bytes "__edgestore_manifest__"

abbrev pub Expiry : Type 0
Expiry = List (Bytes × ℕ)

-- A call `onChange_(key, removed)`.
pub record Change : Type 0 where
  pub key : Bytes
  pub removed : Bool

pub record EdgeStore (S : Type 0) : Type 0 where
  pub values : Kv
  pub expiry : Expiry
  pub max_keys : ℕ
  pub max_value_len : ℕ
  pub max_key_len : ℕ
  pub backend : Option S
  pub on_change : Bool
  pub changes : List Change
  pub clock : Option (ℕ → ℕ)
  pub reads : ℕ

-- `s.find('\n', start)` and what follows it; the loop ends at the last line.
unfoldable pub split_loop : ℕ → Bytes → List Bytes
unfolding cut
split_loop zero s = []
split_loop (suc fuel) s = elim (cut 10 s) [
  | none ↦ (elim s [ [] ↦ [] | c ∷ t ↦ (c ∷ t) ∷ [] ])
  | some p ↦ let rest = split_loop fuel p.1 in (elim p.0 [ [] ↦ rest | c ∷ t ↦ (c ∷ t) ∷ rest ])
]

unfoldable pub split_lines : Bytes → List Bytes
unfolding split_loop
split_lines s = split_loop (suc (length s)) s

-- The list that `persistManifest` joins.
unfoldable pub join_keys : Bytes → Kv → Expiry → Bytes
unfolding has
join_keys joined [] expiry = joined
join_keys joined ((k, v) ∷ m) expiry =
    let next : Bytes = elim joined [ [] ↦ k | c ∷ t ↦ (c ∷ t) ++ (10 ∷ k) ] in
    if has k expiry then join_keys joined m expiry else join_keys next m expiry

-- `key.find('\n') != std::string::npos`
unfoldable pub has_newline : Bytes → Bool
has_newline [] = false
has_newline (c ∷ s) = c == 10 || has_newline s

-- `static_cast<int32_t>(now - deadline) >= 0`
unfoldable pub is_past : ℕ → ℕ → Bool
is_past now deadline = ltb ((now + (2 ^ 32 - deadline)) % 2 ^ 32) (2 ^ 31)

-- The first loop of `evictExpired`, with one reading of the clock for each entry.
unfoldable pub dead_keys : (ℕ → ℕ) → ℕ → Expiry → List Bytes
unfolding is_past
dead_keys clock n [] = []
dead_keys clock n ((k, deadline) ∷ m) =
    let rest = dead_keys clock (suc n) m in if is_past (clock n) deadline then k ∷ rest else rest

module _ {S : Type 0} where
  unfoldable pub notify : Bytes → Bool → EdgeStore S → EdgeStore S
  notify key removed s =
      let change : Change = record { key = key; removed = removed } in
      record s { changes = if s.on_change then s.changes ++ (change ∷ []) else s.changes }

  -- The second loop of `evictExpired`.
  unfoldable pub evict_keys : List Bytes → EdgeStore S → EdgeStore S
  unfolding notify
  evict_keys [] s = s
  evict_keys (k ∷ dead) s =
      evict_keys dead
        (notify k true (record s { values = erase k s.values; expiry = erase k s.expiry }))

  unfoldable pub due_keys : EdgeStore S → List Bytes
  unfolding dead_keys
  due_keys s = elim s.clock [ none ↦ [] | some clock ↦ dead_keys clock s.reads s.expiry ]

  -- Without a clock nothing is due; an empty `expiry_` takes no reading.
  unfoldable pub evict_expired : EdgeStore S → EdgeStore S
  unfolding due_keys evict_keys
  evict_expired s =
      let taken : ℕ = elim s.clock [ none ↦ 0 | some clock ↦ length s.expiry ] in
      evict_keys (due_keys s) (record s { reads = s.reads + taken })

  unfoldable pub validate_and_store : Bytes → Bytes → EdgeStore S → EdgeStore S × Status
  unfolding has_newline has
  validate_and_store key value s =
      if length key == 0 || ltb s.max_key_len (length key)
      then (s, Status.fail Error.invalid_argument)
      else if has_newline key
      then (s, Status.fail Error.invalid_argument)
      else if beq key manifest_key
      then (s, Status.fail Error.invalid_argument)
      else if ltb s.max_value_len (length value)
      then (s, Status.fail Error.capacity)
      else if not (has key s.values) && not (ltb (length s.values) s.max_keys)
      then (s, Status.fail Error.capacity)
      else (record s { values = insert key value s.values }, Status.ok)

  -- The `n`th reading of the clock is the one that is compared, if the key has a deadline.
  unfoldable pub expired_now : Bytes → ℕ → EdgeStore S → Bool
  unfolding lookup is_past
  expired_now key n s = elim s.clock [
    | none ↦ false
    | some clock ↦ elim (lookup key s.expiry) [
      | none ↦ false
      | some deadline ↦ is_past (clock n) deadline
    ]
  ]

  unfoldable pub has_live : Bytes → EdgeStore S → Bool
  unfolding expired_now
  has_live key s = has key s.values && not (expired_now key s.reads s)

  -- The loop of `keys`.
  unfoldable pub live_keys : ℕ → Kv → EdgeStore S → List Bytes
  unfolding expired_now
  live_keys n [] s = []
  live_keys n ((k, v) ∷ m) s =
      let rest = live_keys (if has k s.expiry then suc n else n) m s in
      if expired_now k n s then rest else k ∷ rest

  unfoldable pub get : Bytes → EdgeStore S → EdgeStore S × Result Bytes
  unfolding evict_expired lookup
  get key s =
      let s = evict_expired s in
      elim (lookup key s.values) [
        | none ↦ (s, Result.fail Error.not_found)
        | some value ↦ (s, Result.ok value)
      ]

  unfoldable pub load_value : Bytes → Result Bytes → EdgeStore S → EdgeStore S
  load_value key (Result.fail e) s = s
  load_value key (Result.ok v) s =
      if ltb (length s.values) s.max_keys then record s { values = insert key v s.values } else s

-- The operations that reach the backend, whose operations are a parameter.
module _ {S : Type 0} (o : SecretStore S) where
  -- The answer of the backend is not used.
  unfoldable pub persist_manifest : EdgeStore S → EdgeStore S
  unfolding join_keys
  persist_manifest s =
      let joined = join_keys [] s.values s.expiry in
      let kept : Option S = elim s.backend [
        | none ↦ none
        | some b ↦ some (o.set manifest_key joined b).0
      ] in
      record s { backend = kept }

  -- Only a change of the keys is written to the manifest.
  unfoldable pub update_manifest : Bool → EdgeStore S → EdgeStore S
  unfolding persist_manifest
  update_manifest true s = persist_manifest s
  update_manifest false s = s

  -- `set` behind the backend's answer.
  unfoldable pub set_kept : Bytes → Bool → EdgeStore S → Status → EdgeStore S × Status
  unfolding update_manifest notify
  set_kept key changed s (Status.fail e) = (s, Status.fail e)
  set_kept key changed s Status.ok = (notify key false (update_manifest changed s), Status.ok)

  unfoldable pub set_durable : Bytes → Bytes → Bool → EdgeStore S → Option S → EdgeStore S × Status
  unfolding set_kept notify
  set_durable key value changed s none = (notify key false s, Status.ok)
  set_durable key value changed s (some b) =
      set_kept key changed (record s { backend = some (o.set key value b).0 }) (o.set key value b).1

  -- `set` behind `validateAndStore`.
  unfoldable pub set_stored : Bytes → Bytes → Bool → EdgeStore S × Status → EdgeStore S × Status
  unfolding set_durable
  set_stored key value changed (s, Status.fail e) = (s, Status.fail e)
  set_stored key value changed (s, Status.ok) =
      set_durable key value changed (record s { expiry = erase key s.expiry }) s.backend

  unfoldable pub set : Bytes → Bytes → EdgeStore S → EdgeStore S × Status
  unfolding evict_expired validate_and_store set_stored
  set key value before =
      let s = evict_expired before in
      let was_ttl = has key s.expiry in
      let is_new = not (has key s.values) in
      set_stored key value (is_new || was_ttl) (validate_and_store key value s)

  -- `backend_->remove(key)` and the manifest, where there is a backend.
  unfoldable pub forget : Bytes → EdgeStore S → EdgeStore S
  unfolding persist_manifest
  forget key s =
      let kept : Option S = elim s.backend [ none ↦ none | some b ↦ some (o.remove key b).0 ] in
      persist_manifest (record s { backend = kept })

  -- The persisted copy of an entry that was durable goes.
  unfoldable pub drop_persisted : Bool → Bytes → EdgeStore S → EdgeStore S
  unfolding forget
  drop_persisted true key s = forget key s
  drop_persisted false key s = s

  -- `setWithTtl` behind `validateAndStore`.
  unfoldable pub ttl_stored :
      Bytes → ℕ → (ℕ → ℕ) → Bool → EdgeStore S × Status → EdgeStore S × Status
  unfolding drop_persisted notify
  ttl_stored key ttl_ms clock was_durable (s, Status.fail e) = (s, Status.fail e)
  ttl_stored key ttl_ms clock was_durable (s, Status.ok) =
      let deadline = (clock s.reads + ttl_ms) % 2 ^ 32 in
      let timed : EdgeStore S = record s {
        expiry = insert key deadline s.expiry;
        reads = suc s.reads;
      } in
      (notify key false (drop_persisted was_durable key timed), Status.ok)

  unfoldable pub set_with_ttl : Bytes → Bytes → ℕ → EdgeStore S → EdgeStore S × Status
  unfolding evict_expired validate_and_store ttl_stored
  set_with_ttl key value ttl_ms before =
      let s = evict_expired before in
      let was_durable = has key s.values && not (has key s.expiry) in
      elim before.clock [
        | none ↦ (before, Status.fail Error.invalid_state)
        | some clock ↦ ttl_stored key ttl_ms clock was_durable (validate_and_store key value s)
      ]

  unfoldable pub remove : Bytes → EdgeStore S → EdgeStore S × Status
  unfolding evict_expired forget notify
  remove key before =
      let s = evict_expired before in
      let gone = record s { values = erase key s.values; expiry = erase key s.expiry } in
      if beq key manifest_key
      then (before, Status.ok)
      else if has key s.values
      then (notify key true (forget key gone), Status.ok)
      else (s, Status.ok)

  -- The loop of `setPersistence` over the lines of the manifest.
  unfoldable pub load : List Bytes → S → EdgeStore S → EdgeStore S
  unfolding load_value
  load [] b s = s
  load (key ∷ lines) b s = load lines b (load_value key (o.get key b) s)

  unfoldable pub load_manifest : Result Bytes → S → EdgeStore S → EdgeStore S
  unfolding load split_lines
  load_manifest (Result.fail e) b s = s
  load_manifest (Result.ok manifest) b s = load (split_lines manifest) b s

  unfoldable pub set_persistence : Option S → EdgeStore S → EdgeStore S
  unfolding load_manifest
  set_persistence none s = record s { backend = none }
  set_persistence (some b) s =
      load_manifest (o.get manifest_key b) b (record s { backend = some b })
