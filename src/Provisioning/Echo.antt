-- ===== src/Provisioning/Echo.antt =====
-- No stored value is told: src/provisioning/ProvisioningService.cpp.
use edge_llm.Base.{
  ◌≡◌, refl, Bool, true, false, Option, none, some, List, [], ◌∷◌, ◌++◌, ap, Bytes, bytes, beq,
  if◌then◌else◌, cut,
}
use edge_llm.Hal.Secrets.{SecretStore}
use edge_llm.Transport.Http.{is_empty}
use edge_llm.Provisioning.{
  Field, ProvisioningService, trim, find_field, split_word, set_known, set_split, set_text,
  clear_known, status_fields, run_command, handle_command,
}

module _ {S : Type 0} (o : SecretStore S) where
  -- Two stores that have the same keys and take the same writes, with whatever values.
  pub record Alike (s t : S) : Type 0 where
    pub same_keys : (k : Bytes) → o.has k s ≡ o.has k t
    pub same_writes : (k v : Bytes) → (o.set k v s).1 ≡ (o.set k v t).1

  -- The responses are the same.
  record SameText (x y : ProvisioningService S × Bytes) : Type 0 where
    pub text : x.1 ≡ y.1

  module _ (fields : List Field) (s t : S) (h : Alike s t) where
    abbrev with : S → ProvisioningService S
    with x = record { store = x; fields = fields }

    status_fields_alike : (fs : List Field) → status_fields o s fs ≡ status_fields o t fs
    unfolding status_fields
    status_fields_alike [] = refl
    status_fields_alike (f ∷ fs) = rw (h.same_keys f.key, status_fields_alike fs) refl

    same : {x y : ProvisioningService S} {text : Bytes} → SameText (x, text) (y, text)
    same = record { text = refl }

    if_alike :
        (b : Bool) {w x y z : ProvisioningService S × Bytes}
        → SameText w y
        → SameText x z
        → SameText (if b then w else x) (if b then y else z)
    if_alike true p q = p
    if_alike false p q = q

    set_known_alike :
        (f : Option Field) (key value : Bytes)
        → SameText (set_known o f key value (with s)) (set_known o f key value (with t))
    set_known_alike none key value = record { text = refl }
    set_known_alike (some f) key value = record {
      text = ap (set_text key) (h.same_writes key value);
    }

    set_split_alike :
        (w : Option (Bytes × Bytes)) → SameText (set_split o w (with s)) (set_split o w (with t))
    set_split_alike none = record { text = refl }
    set_split_alike (some (key, value)) =
        if_alike (is_empty (trim value)) same
          (set_known_alike (find_field key fields) key (trim value))

    clear_known_alike :
        (f : Option Field) (key : Bytes)
        → SameText (clear_known o f key (with s)) (clear_known o f key (with t))
    clear_known_alike none key = record { text = refl }
    clear_known_alike (some f) key = record { text = refl }

    run_command_alike :
        (cmd rest : Bytes)
        → SameText (run_command o cmd rest (with s)) (run_command o cmd rest (with t))
    unfolding run_command
    run_command_alike cmd rest = if_alike (beq cmd (bytes "help")) same (
        if_alike (beq cmd (bytes "status"))
          (record { text = ap (λ l. bytes "field status:" ++ l) (status_fields_alike fields) })
          (if_alike (beq cmd (bytes "set")) (set_split_alike (cut b' ' rest)) (
            if_alike (beq cmd (bytes "clear"))
              (if_alike (is_empty rest) same (clear_known_alike (find_field rest fields) rest))
              (if_alike (beq cmd (bytes "done")) same same))))

    -- If two stores have the same keys and take the same writes, a command line has the same response
    -- over both: no response depends on a stored value.
    pub handle_command_alike :
        (line : Bytes) → (handle_command o line (with s)).1 ≡ (handle_command o line (with t)).1
    unfolding handle_command
    handle_command_alike line =
        let (cmd, rest) = split_word (cut b' ' (trim line)) (trim line) in
        (if_alike (is_empty (trim line)) same (run_command_alike cmd rest)).text
