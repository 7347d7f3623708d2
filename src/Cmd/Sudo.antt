-- ===== src/Cmd/Sudo.antt =====
-- cmd/sudo.go: how `edward` starts itself again so that sudo has been asked for.
use edward.Base.{
  ◌≡◌, refl, Bool, true, false, ◌||◌, Option, none, some, List, [], ◌∷◌, ◌++◌, Result, ok, err,
  if◌then◌else◌, any,
}
use edward.Base.Text.{Text, codes, text_eq}
use edward.Services.{is_sudo, is_nonempty, OperationConfig}
use edward.Groups.{Member, service, group, is_sudo_group}
use edward.Generators.Matches.{join_texts}

-- The id of the user, the environment's ISCHILD, the arguments of the process, writing a file and
-- making it executable, and `syscall.Exec`, which returns only with an error: `none` is the script in
-- place of this process.
pub record Process : Type 0 where
  pub user_id : Result Text Text
  pub is_child : Text
  pub args : List Text
  pub create_script_file : Text → Text → Result Text Text
  pub exec : Text → Option Text

-- What a step comes to: the command goes on, an error, or the script that has replaced the process.
pub data Prepared : Type 0 where
  goes_on : Prepared
  failed : Text → Prepared
  replaced : Text → Prepared

abbrev pub no_options : OperationConfig
no_options = record {
  edward_executable = [];
  exclusions = [];
  no_watch = false;
  skip_build = false;
}

unfoldable pub needs_sudo : Member → Bool
unfolding is_sudo is_sudo_group
needs_sudo (service s) = is_sudo no_options s
needs_sudo (group g) = is_sudo_group no_options g

module _ (process : Process) where
  abbrev pub script_text : Text
  script_text =
      codes "#!/bin/bash"
      ++ 10 ∷ codes "sudo echo Test > /dev/null"
      ++ 10 ∷ codes "ISCHILD=YES "
      ++ join_texts (codes " ") process.args
      ++ 10 ∷ []

  abbrev pub executed : Text → Option Text → Prepared
  executed file none = replaced file
  executed file (some e) = failed e

  unfoldable pub ensure_sudo_able : Prepared
  unfolding join_texts
  ensure_sudo_able = elim (process.create_script_file (codes "sudoAbility") script_text) [
    | ok file ↦ executed file (process.exec file)
    | err e ↦ failed e
  ]

  unfoldable pub check_not_sudo : Option Text
  unfolding text_eq
  check_not_sudo = elim process.user_id [
    | ok id ↦
        if text_eq id (codes "0") then some (codes "edward should not be fun with sudo") else none
    | err e ↦ some e
  ]

  unfoldable pub prepare_for_sudo : Prepared
  unfolding check_not_sudo ensure_sudo_able is_nonempty
  prepare_for_sudo = elim check_not_sudo [
    | some e ↦ failed e
    | none ↦ if is_nonempty process.is_child then goes_on else ensure_sudo_able
  ]

  -- `sudoIfNeeded`, the checks of the client.
  unfoldable pub sudo_if_needed : List Member → Prepared
  unfolding needs_sudo prepare_for_sudo
  sudo_if_needed [] = goes_on
  sudo_if_needed (m ∷ ms) =
      let rest = sudo_if_needed ms in if needs_sudo m then prepare_for_sudo else rest

  -- Sudo is prepared for if one of the services and groups needs it, and only then; it is prepared for
  -- once.
  pub sudo_if_needed-any :
      (ms : List Member)
      → sudo_if_needed ms ≡ (if any needs_sudo ms then prepare_for_sudo else goes_on)
  unfolding sudo_if_needed
  sudo_if_needed-any [] = refl
  sudo_if_needed-any (m ∷ ms) =
      elim (needs_sudo m)
        as (λ b.
          (if b then prepare_for_sudo else sudo_if_needed ms)
          ≡ (if b || any needs_sudo ms then prepare_for_sudo else goes_on)) [
            | true ↦ refl
            | false ↦ sudo_if_needed-any ms
          ]
