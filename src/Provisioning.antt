-- ===== src/Provisioning.antt =====
-- src/provisioning/ProvisioningService.{h,cpp}: text commands that write declared fields to a secret
-- store.
pub mod Declared
pub mod Echo
mod Tests
use edge_llm.Base.{
  Bool, true, false, ◌&&◌, ◌||◌, Option, none, some, List, [], ◌∷◌, ◌++◌, Bytes, bytes, beq, ◌==◌,
  if◌then◌else◌, cut, ℕ,
}
use edge_llm.Core.{Status, error_string}
use edge_llm.Hal.Secrets.{SecretStore}
use edge_llm.Transport.Http.{is_empty}

pub record Field : Type 0 where
  pub key : Bytes
  pub description : Bytes
  pub secret : Bool

pub record ProvisioningService (S : Type 0) : Type 0 where
  pub store : S
  pub fields : List Field

abbrev pub blank : ℕ → Bool
blank c = c == b' ' || (c == b'\t' || (c == b'\r' || c == b'\n'))

-- The two loops of `trim`.
unfoldable pub trim_front : Bytes → Bytes
trim_front [] = []
trim_front (c ∷ s) = let rest = trim_front s in if blank c then rest else c ∷ s

unfoldable pub trim_back : Bytes → Bytes
trim_back [] = []
trim_back (c ∷ s) = let rest = trim_back s in if is_empty rest && blank c then [] else c ∷ rest

unfoldable pub trim : Bytes → Bytes
unfolding trim_front trim_back
trim s = trim_back (trim_front s)

unfoldable pub find_field : Bytes → List Field → Option Field
find_field key [] = none
find_field key (f ∷ fs) = let rest = find_field key fs in if beq f.key key then some f else rest

-- A line up to its first blank, and what follows it.
abbrev pub split_word : Option (Bytes × Bytes) → Bytes → Bytes × Bytes
split_word none line = (line, [])
split_word (some (a, b)) line = (a, trim b)

unfoldable pub help_fields : List Field → Bytes
help_fields [] = []
help_fields (f ∷ fs) =
    bytes "\n  "
    ++ (f.key
        ++ (bytes " - "
            ++ (f.description ++ ((if f.secret then bytes " (secret)" else []) ++ help_fields fs))))

abbrev pub set_text : Bytes → Status → Bytes
set_text key Status.ok = bytes "ok: " ++ (key ++ bytes " set")
set_text key (Status.fail e) = bytes "error: " ++ error_string e

module _ {S : Type 0} where
  unfoldable pub add_field : Bytes → Bytes → Bool → ProvisioningService S → ProvisioningService S
  add_field key description secret p =
      let f : Field = record { key = key; description = description; secret = secret } in
      record p { fields = p.fields ++ (f ∷ []) }

  module _ (o : SecretStore S) where
    unfoldable pub status_fields : S → List Field → Bytes
    status_fields s [] = []
    status_fields s (f ∷ fs) =
        bytes "\n  "
        ++ (f.key
            ++ (bytes ": "
                ++ ((if o.has f.key s then bytes "set" else bytes "unset") ++ status_fields s fs)))

    abbrev pub set_known :
        Option Field → Bytes → Bytes → ProvisioningService S → ProvisioningService S × Bytes
    set_known none key value p = (p, bytes "unknown field: " ++ key)
    set_known (some f) key value p =
        let (s, status) = o.set key value p.store in (record p { store = s }, set_text key status)

    -- `set`, on what follows the word.
    abbrev pub set_split :
        Option (Bytes × Bytes) → ProvisioningService S → ProvisioningService S × Bytes
    set_split none p = (p, bytes "usage: set <key> <value>")
    set_split (some (key, value)) p =
        if is_empty (trim value)
        then (p, bytes "usage: set <key> <value>")
        else set_known (find_field key p.fields) key (trim value) p

    abbrev pub clear_known :
        Option Field → Bytes → ProvisioningService S → ProvisioningService S × Bytes
    clear_known none key p = (p, bytes "unknown field: " ++ key)
    clear_known (some f) key p =
        (record p { store = (o.remove key p.store).0 }, bytes "cleared: " ++ key)

    unfoldable pub run_command :
        Bytes → Bytes → ProvisioningService S → ProvisioningService S × Bytes
    unfolding cut trim find_field help_fields status_fields error_string
    run_command cmd rest p =
        if beq cmd (bytes "help")
        then (
          p,
          bytes "commands: help | set <key> <value> | status | clear <key> | done\nfields:"
              ++ help_fields p.fields,
        )
        else if beq cmd (bytes "status")
        then (p, bytes "field status:" ++ status_fields p.store p.fields)
        else if beq cmd (bytes "set")
        then set_split (cut b' ' rest) p
        else if beq cmd (bytes "clear")
        then (if is_empty rest
            then (p, bytes "usage: clear <key>")
            else clear_known (find_field rest p.fields) rest p)
        else if beq cmd (bytes "done")
        then (p, bytes "provisioning complete")
        else (p, bytes "unknown command: " ++ (cmd ++ bytes " (try help)"))

    unfoldable pub handle_command : Bytes → ProvisioningService S → ProvisioningService S × Bytes
    unfolding run_command
    handle_command line_in p =
        let line = trim line_in in
        let (cmd, rest) = split_word (cut b' ' line) line in
        if is_empty line then (p, []) else run_command cmd rest p
