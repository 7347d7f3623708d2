-- ===== src/Commands/Build.antt =====
-- `BuildWithTracker`, `BuildSync`, `RunStopScript`, `signalGroup` and `getLaunchCommand` of
-- services/command.go, and `Run` of warmup/warmup.go.
use edward.Base.{
  ℕ, Bool, not, ◌&&◌, Option, none, some, List, [], ◌∷◌, ◌++◌, Result, ok, err, if◌then◌else◌, ◌==◌,
}
use edward.Base.Text.{Text, codes}
use edward.Services.{ServiceConfig, OperationConfig, is_nonempty, is_sudo}
use edward.Tracker.{in_progress, success, warning, failed}
use edward.Commands.{
  ServiceCommand, Exec, Host, Fault, TaskPath, M, pure, fail, ◌>>=◌, ◌>>◌, set_state, call, or_fail,
}
use edward.Commands.Environment.{construct_command}

module _ {S : Type 0} (host : Host S) where
  -- An error that also ends the task.
  abbrev pub fail_task : {A : Type 0} → TaskPath → Text → List Text → M S A
  fail_task t e more = do set_state t failed (e ∷ more); fail (Fault.failed e)

  abbrev pub build_result : TaskPath → Text × Option Text → M S Unit
  build_result t (out, none) = set_state t success []
  build_result t (out, some e) = fail_task t e (out ∷ [])

  abbrev pub build_command : TaskPath → Result Text Exec → M S Unit
  build_command t (err e) = fail_task t e []
  build_command t (ok exec) = do result ← call (host.combined_output exec); build_result t result

  -- `BuildWithTracker`, on the task of the service. Its check for a task that is nil has no place here.
  unfoldable pub build_with_tracker : Bool → TaskPath → ServiceCommand → M S Unit
  unfolding construct_command is_nonempty
  build_with_tracker force t c = if not (is_nonempty c.service.commands.build) then pure tt else (do
    set_state (t ++ codes "Build" ∷ []) in_progress []
    if not force && not (c.pid == 0)
        then set_state (t ++ codes "Build" ∷ []) warning (codes "Already running" ∷ [])
        else build_command (t ++ codes "Build" ∷ [])
            (construct_command host c c.service.commands.build))

  -- `BuildSync`
  unfoldable pub build_sync : Bool → TaskPath → ServiceCommand → M S Unit
  unfolding build_with_tracker
  build_sync force t c = build_with_tracker force (t ++ c.service.name ∷ []) c

  abbrev pub script_result : Text × Option Text → M S Text
  script_result (out, none) = pure []
  script_result (out, some e) = fail (Fault.failed e)

  -- `RunStopScript`, whose output counts only where it fails.
  unfoldable pub run_stop_script : ServiceCommand → M S Text
  unfolding construct_command
  run_stop_script c = do
    exec ← or_fail (construct_command host c c.service.commands.stop)
    result ← call (host.combined_output exec)
    script_result result

  -- `signalGroup`: the program that it runs.
  unfoldable pub signal_command : OperationConfig → ℕ → ServiceConfig → Text → Exec
  unfolding is_sudo
  signal_command cfg pgid c flag =
      if is_sudo cfg c
      then record {
        program = codes "sudo";
        args = codes "kill" ∷ flag ∷ (codes "-" ++ host.itoa pgid) ∷ [];
        dir = none;
        env = host.environ;
      }
      else record {
        program = codes "kill";
        args = flag ∷ (codes "-" ++ host.itoa pgid) ∷ [];
        dir = none;
        env = host.environ;
      }

  -- `KillGroup` and `InterruptGroup`
  unfoldable pub kill_group : OperationConfig → ServiceConfig → ℕ → S → Option Text × S
  unfolding signal_command
  kill_group cfg c pgid s = host.run (signal_command cfg pgid c (codes "-9")) s

  unfoldable pub interrupt_group : OperationConfig → ServiceConfig → ℕ → S → Option Text × S
  unfolding signal_command
  interrupt_group cfg c pgid s = host.run (signal_command cfg pgid c (codes "-2")) s

  abbrev pub launch_args : OperationConfig → Text → Text → List Text
  launch_args cfg dir name =
      (codes "run" ∷ (if cfg.no_watch then codes "--no-watch" ∷ [] else []))
      ++ codes "--directory" ∷ dir ∷ name ∷ []

  abbrev pub launch_exec :
      OperationConfig → ServiceCommand → List Text → Result Text Text → Result Text Exec
  launch_exec cfg c env (err e) = err e
  launch_exec cfg c env (ok dir) = ok (record {
    program = cfg.edward_executable;
    args = launch_args cfg dir c.service.name;
    dir = none;
    env = env;
  })

  -- `getLaunchCommand`, with the environment that StartAsync gives it.
  unfoldable pub get_launch_command :
      OperationConfig → ServiceCommand → List Text → S → Result Text Exec
  get_launch_command cfg c env s = launch_exec cfg c env (host.getwd s)

  abbrev pub warmup_error : TaskPath → Option Text → M S Unit
  warmup_error t none = pure tt
  warmup_error t (some e) = set_state t warning (e ∷ [])

  -- `warmup.Run`, on the task `t`.
  unfoldable pub warmup_run : Text → Option Text → TaskPath → M S Unit
  warmup_run name none t = pure tt
  warmup_run name (some url) t = do
    set_state (t ++ name ∷ codes "Warmup" ∷ []) in_progress []
    result ← call (host.http_get url)
    warmup_error (t ++ name ∷ codes "Warmup" ∷ []) result
    set_state (t ++ name ∷ codes "Warmup" ∷ []) success []
