-- ===== src/Cmd/Dispatch.antt =====
-- What the commands of cmd/ do with their flags and arguments, completion in cmd/autocomplete.go, and
-- `Execute` of cmd/root.go. What the package for command lines does with a command is an argument.
use edward.Base.{
  ℕ, ◌≡◌, refl, Bool, ◌||◌, Option, none, some, List, [], ◌∷◌, ◌++◌, Result, ok, err, if◌then◌else◌,
  any, arith,
}
use edward.Base.Text.{Text, codes, text_eq}
use edward.Config.{LoadError}
use edward.Config.Load.{Machine}
use edward.Config.Shared.{
  Shared, load_shared_config, init_empty_config, get_all_group_names, get_all_service_names,
}
use edward.Client
use edward.Client.{Session, Client}

-- The flags of `edward start` and `edward restart`; the former has no `force`.
pub record LaunchFlags : Type 0 where
  pub force : Bool
  pub skip_build : Bool
  pub no_watch : Bool
  pub tail : Bool
  pub exclude : List Text
  pub timeout : ℕ

pub record StopFlags : Type 0 where
  pub exclude : List Text
  pub force : Bool

pub record GenerateFlags : Type 0 where
  pub force : Bool
  pub no_prompt : Bool
  pub group : Text
  pub targets : List Text

module _ {W : Type 0} (session : Session W) (c : Client W) where
  unfoldable pub start_with_flags : LaunchFlags → List Text → W → Client.Outcome W
  unfolding Client.start
  start_with_flags f args = Client.start session c args f.skip_build f.tail f.no_watch f.exclude

  -- The lines are those that the user answers with.
  unfoldable pub restart_with_flags : LaunchFlags → List Text → List Text → W → Client.Outcome W
  unfolding Client.restart
  restart_with_flags f args lines =
      Client.restart session c args f.force f.skip_build f.tail f.no_watch f.exclude lines

  unfoldable pub stop_with_flags : StopFlags → List Text → List Text → W → Client.Outcome W
  unfolding Client.stop
  stop_with_flags f args lines = Client.stop session c args f.force f.exclude lines

-- `generateCmd`, on the client's Generate.
unfoldable pub generate_with_flags :
    {R : Type 0} → (List Text → Bool → Text → List Text → R) → GenerateFlags → List Text → R
generate_with_flags generate f args = generate args (f.force || f.no_prompt) f.group f.targets

-- `statusCmd`: what it prints, and its error.
unfoldable pub status_command : Result Text Text → Option Text × Text
status_command (ok output) = (none, output)
status_command (err e) = (some e, [])

-- `runCmd` drops the error of Run.
unfoldable pub run_command : {W : Type 0} → Option Text × W → Option Text × W
run_command (e, w) = (none, w)

-- A command with those below it.
mutual
  pub data CommandTree : Type 0 where
    command : Text → CommandTrees → CommandTree

  pub data CommandTrees : Type 0 where
    no_commands : CommandTrees
    and_command : CommandTree → CommandTrees → CommandTrees

-- `printCommandChildren`, with what it prints as a list.
unfoldable mutual
  pub command_children : CommandTree → List Text
  command_children (command usage cs) = each_command cs

  pub each_command : CommandTrees → List Text
  each_command no_commands = []
  each_command (and_command (command usage cs) rest) =
      (usage ∷ each_command cs) ++ each_command rest

module _ (m : Machine) (fuel : ℕ) (path version : Text) (root : CommandTree) where
  -- `autocompleteServicesAndGroups`; an error of loading the configuration is written to the log.
  unfoldable pub autocomplete : Shared → List Text
  unfolding command_children load_shared_config get_all_group_names get_all_service_names
  autocomplete sh =
      let (loaded, e) = load_shared_config m fuel path version sh in
      command_children root ++ (get_all_group_names loaded ++ get_all_service_names loaded)

-- What `Execute` comes to: what is printed for completion, or the exit status.
pub data Exit : Type 0 where
  completed : List Text → Exit
  exit_status : ℕ → Exit

abbrev pub exit_on : Option Text → Exit
exit_on none = exit_status 0
exit_on (some e) = exit_status 1

-- `Execute`, on the arguments, the completion, and the error of the command that is executed.
unfoldable pub execute : List Text → List Text → Option Text → Exit
unfolding text_eq
execute args names error =
    if any (λ arg. text_eq arg (codes "--generate-bash-completion")) args
    then completed names
    else exit_on error

-- Where the configuration cannot be loaded, completion offers the commands and no names, whatever was
-- loaded before.
autocomplete-error :
    (m : Machine) (fuel : ℕ) (path version : Text) (root : CommandTree) (sh : Shared)
    (e : LoadError)
    → (load_shared_config m fuel path version sh).1 ≡ err e
    → autocomplete m fuel path version root sh ≡ command_children root ++ []
unfolding autocomplete load_shared_config init_empty_config get_all_group_names
    get_all_service_names
autocomplete-error m fuel [] version root sh e h = refl
autocomplete-error m fuel (p ∷ ps) version root sh e h = ground arith
