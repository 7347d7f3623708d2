-- ===== src/Processes/Samples.antt =====
-- A process that ends after the second look at it, and the theorem at it.
use edward.Base.{ℕ, zero, suc, ◌≡◌, refl, Bool, true, false, none, [], ◌∷◌, Result, ok}
use edward.Base.Text.{Text, codes, contains}
use edward.Services.{ServiceConfig, OperationConfig}
use edward.Tracker.{success, warning, in_progress}
use edward.Processes.{System, do_stop}
use edward.Processes.Settled.{is_settled, do_stop-is_settled}

-- The machine is the number of looks for which the process still exists.
abbrev looks : ℕ → Result Text Bool × ℕ
looks zero = (ok false, zero)
looks (suc n) = (ok true, n)

abbrev machine : System ℕ
machine = record {
  interrupt = λ pid n. (none, n);
  pid_exists = λ pid n. looks n;
  get_pgid = λ pid n. (ok 7, n);
  kill_group = λ pid n. (none, zero);
  clear_state = λ n. n;
}

abbrev no_exclusions : OperationConfig
no_exclusions = record {
  edward_executable = [];
  exclusions = [];
  no_watch = false;
  skip_build = false;
}

abbrev web : ServiceConfig
web = record {
  name = codes "web";
  aliases = [];
  description = [];
  path = none;
  requires_sudo = false;
  commands = record { build = []; launch = codes "run"; stop = [] };
  launch_checks = none;
  env = [];
  platform = [];
  watch_json = [];
  warmup = none;
  config_file = [];
  lock_token = [];
}

program : Unit {0}
unfolding do_stop contains
program = tt

stopped-states :
    (do_stop machine no_exclusions web none (ok 12) 2).states
    ≡ (in_progress, []) ∷ (success, []) ∷ []
unfolding program
stopped-states = refl

killed-states :
    (do_stop machine no_exclusions web none (ok 12) 60).states
    ≡ (in_progress, []) ∷ (warning, codes "Killed" ∷ []) ∷ []
unfolding program
killed-states = refl

do_stop-is_settled_example : is_settled (do_stop machine no_exclusions web none (ok 12) 2) ≡ true
do_stop-is_settled_example = do_stop-is_settled machine no_exclusions web none (ok 12) 2
