-- ===== src/Provisioning/Declared.antt =====
-- A command writes declared fields only: src/provisioning/ProvisioningService.cpp.
use edge_llm.Base.{
  ◌≡◌, ◌⊎◌, inl, inr, refl, arith, beq_iff, Bool-cases, [], ◌∷◌, Bool, true, false, Option, none,
  some, List, Bytes, bytes, beq, if◌then◌else◌, cut,
}
use edge_llm.Hal.Secrets.{SecretStore}
use edge_llm.Transport.Http.{is_empty}
use edge_llm.Provisioning.{
  Field, ProvisioningService, trim, find_field, split_word, set_known, set_split, clear_known,
  run_command, handle_command,
}

-- Some field of the service has the key.
abbrev pub IsDeclared : Bytes → List Field → Type 0
IsDeclared key [] = ⊥
IsDeclared key (f ∷ fs) = (f.key ≡ key) ⊎ IsDeclared key fs

find_field-IsDeclared :
    (key : Bytes) (fs : List Field) (f : Field) → find_field key fs ≡ some f → IsDeclared key fs
unfolding find_field
find_field-IsDeclared key [] f e = cc
find_field-IsDeclared key (g ∷ fs) f e = elim (Bool-cases (beq g.key key)) [
  | inl y ↦ inl ((beq_iff g.key key).0 y)
  | inr n ↦ inr (find_field-IsDeclared key fs f (ground (arith, e, n)))
]

module _ {S : Type 0} (o : SecretStore S) where
  -- What a command may do to the service, whatever its response.
  pub data Provisioned (p : ProvisioningService S) : ProvisioningService S × Bytes → Type 0 where
    untouched : {text : Bytes} → Provisioned p (p, text)
    set_declared :
        {text : Bytes} (key value : Bytes)
        → IsDeclared key p.fields
        → is_empty value ≡ false
        → Provisioned p (record p { store = (o.set key value p.store).0 }, text)
    cleared_declared :
        {text : Bytes} (key : Bytes)
        → IsDeclared key p.fields
        → Provisioned p (record p { store = (o.remove key p.store).0 }, text)

  if-Provisioned :
      (b : Bool) (p : ProvisioningService S) {x y : ProvisioningService S × Bytes}
      → (b ≡ true → Provisioned p x)
      → (b ≡ false → Provisioned p y)
      → Provisioned p (if b then x else y)
  if-Provisioned true p h k = h refl
  if-Provisioned false p h k = k refl

  set_known-Provisioned :
      (f : Option Field) (key value : Bytes) (p : ProvisioningService S)
      → find_field key p.fields ≡ f
      → is_empty value ≡ false
      → Provisioned p (set_known o f key value p)
  set_known-Provisioned none key value p e v = Provisioned.untouched
  set_known-Provisioned (some f) key value p e v =
      Provisioned.set_declared key value (find_field-IsDeclared key p.fields f e) v

  set_split-Provisioned :
      (w : Option (Bytes × Bytes)) (p : ProvisioningService S) → Provisioned p (set_split o w p)
  set_split-Provisioned none p = Provisioned.untouched
  set_split-Provisioned (some (key, value)) p =
      if-Provisioned (is_empty (trim value)) p (λ _. Provisioned.untouched)
        (λ v. set_known-Provisioned (find_field key p.fields) key (trim value) p refl v)

  clear_known-Provisioned :
      (f : Option Field) (key : Bytes) (p : ProvisioningService S)
      → find_field key p.fields ≡ f
      → Provisioned p (clear_known o f key p)
  clear_known-Provisioned none key p e = Provisioned.untouched
  clear_known-Provisioned (some f) key p e =
      Provisioned.cleared_declared key (find_field-IsDeclared key p.fields f e)

  run_command-Provisioned :
      (cmd rest : Bytes) (p : ProvisioningService S) → Provisioned p (run_command o cmd rest p)
  unfolding run_command
  run_command-Provisioned cmd rest p =
      if-Provisioned (beq cmd (bytes "help")) p (λ _. Provisioned.untouched)
        λ _.
          if-Provisioned (beq cmd (bytes "status")) p (λ _. Provisioned.untouched)
            λ _.
              if-Provisioned (beq cmd (bytes "set")) p
                (λ _. set_split-Provisioned (cut b' ' rest) p)
                λ _.
                  if-Provisioned (beq cmd (bytes "clear")) p
                    (λ _.
                      if-Provisioned (is_empty rest) p (λ _. Provisioned.untouched)
                        (λ _. clear_known-Provisioned (find_field rest p.fields) rest p refl))
                    λ _.
                      if-Provisioned (beq cmd (bytes "done")) p (λ _. Provisioned.untouched)
                        (λ _. Provisioned.untouched)

  -- Whatever the line, a command leaves the service alone, or sets a declared field to a value that is
  -- not empty, or removes a declared field.
  pub handle_command-Provisioned :
      (line : Bytes) (p : ProvisioningService S) → Provisioned p (handle_command o line p)
  unfolding handle_command
  handle_command-Provisioned line p =
      let (cmd, rest) = split_word (cut b' ' (trim line)) (trim line) in
      if-Provisioned (is_empty (trim line)) p (λ _. Provisioned.untouched)
        (λ _. run_command-Provisioned cmd rest p)
