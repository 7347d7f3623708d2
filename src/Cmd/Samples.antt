-- ===== src/Cmd/Samples.antt =====
-- A start of the program in a directory below the one of its configuration, and the theorems at it.
use edward.Base.{ℕ, some, ◌≡◌, refl, true, none, List, [], ◌∷◌, ◌++◌, ok, if◌then◌else◌, ◌||◌}
use edward.Base.Text.{codes, text_eq, has_prefix}
use edward.Services.{ServiceConfig, is_nonempty}
use edward.Services.Fixtures.{a_service}
use edward.Config.{FilePath}
use edward.Groups.{service}
use edward.Cmd.{
  Places, get_config_path, Startup, pre_run, older_version, load_config, post_run,
  check_update_available,
}
use edward.Cmd.Dispatch.{
  CommandTree, command, no_commands, and_command, command_children, run_command, execute, completed,
  exit_status,
}
use edward.Cmd.Sudo.{Process, replaced, sudo_if_needed}

program : Unit {0}
unfolding text_eq get_config_path pre_run load_config post_run check_update_available sudo_if_needed
    is_nonempty command_children execute run_command
program = tt

abbrev file_path : FilePath
file_path = record {
  is_abs = λ p. has_prefix p (codes "/");
  join = λ p q. p ++ codes "/" ++ q;
  dir = λ p. p;
  abs = λ p. ok p;
  rel = λ base p. ok p;
}

abbrev places : Places
places = record {
  edward_dir = codes "/home/me/.edward";
  getwd = ok (codes "/a/b/c");
  parent_dir = λ p.
      if text_eq p (codes "/a/b/c")
      then codes "/a/b"
      else if text_eq p (codes "/a/b")
      then codes "/a"
      else codes "/";
  can_stat = λ p. text_eq p (codes "/a/edward.json") || text_eq p (codes "//edward.json");
}

nearest : get_config_path file_path places 5 ≡ codes "/a/edward.json"
unfolding program
nearest = refl

-- The world is the services of the configuration.
abbrev startup : Startup (List ServiceConfig)
startup = record {
  load_shared_config = λ path w. (none, a_service path ∷ w);
  chdir_to_base = λ w. (none, w);
  init_empty_config = λ w. [];
  service_map = λ w. w;
  has_legacy_pid = λ w s. text_eq s.name (codes "old");
  look_for_update = λ w. w;
}

let_through : (pre_run startup [] (codes "f") (codes "start") []).0 ≡ none
unfolding program
let_through = refl

refused : (pre_run startup [] (codes "old") (codes "start") []).0 ≡ some (older_version startup)
unfolding program
refused = refl

abbrev process : Process
process = record {
  user_id = ok (codes "501");
  is_child = [];
  args = codes "edward" ∷ codes "start" ∷ codes "my service" ∷ [];
  create_script_file = λ name text. ok text;
  exec = λ file. none;
}

abbrev root_service : ServiceConfig
root_service = record (a_service (codes "web")) { requires_sudo = true }

-- The arguments are joined by spaces as they are: the last of them is two in the script.
started_again :
    sudo_if_needed process (service (a_service (codes "api")) ∷ service root_service ∷ [])
    ≡ replaced (
        codes "#!/bin/bash"
        ++ 10 ∷ codes "sudo echo Test > /dev/null"
        ++ 10 ∷ codes "ISCHILD=YES edward start my service"
        ++ 10 ∷ [])
unfolding program
started_again = refl

abbrev root : CommandTree
root = command (codes "edward") (
    and_command (command (codes "start") no_commands) (
      and_command
        (command (codes "help") (and_command (command (codes "all") no_commands) no_commands))
        no_commands))

completion :
    execute (codes "edward" ∷ codes "--generate-bash-completion" ∷ []) (command_children root) none
    ≡ completed (codes "start" ∷ codes "help" ∷ codes "all" ∷ [])
unfolding program
completion = refl

-- The error of the runner does not reach the exit status.
run_failed :
    execute
      (codes "edward" ∷ codes "run" ∷ [])
      []
      (run_command {W = ℕ} (some (codes "service not found"), 0)).0
    ≡ exit_status 0
unfolding program
run_failed = refl
