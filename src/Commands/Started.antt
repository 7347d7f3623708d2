-- ===== src/Commands/Started.antt =====
-- How `StartAsync` of services/command.go leaves its task.
use edward.Base.{
  ℕ, ◌≡◌, refl, Bool, true, false, not, Option, none, some, List, [], ◌∷◌, ◌++◌, Result, ok, err,
  if◌then◌else◌, ◌==◌, arith, append_assoc,
}
use edward.Base.Text.{Text, text_eq, text_eq_refl, codes}
use edward.Services.{OperationConfig, is_nonempty}
use edward.Tracker.{success, warning, failed}
use edward.Locks.{get_run_log, get_state_path}
use edward.Commands.{
  ServiceCommand, Exec, Host, Fault, World, TaskPath, M, pure, fail, after, ◌>>=◌, ◌>>◌, set_state,
  call, no_error,
}
use edward.Commands.Environment.{launch_env}
use edward.Commands.Load.{save}
use edward.Commands.Build.{warmup_run, fail_task, get_launch_command}
use edward.Commands.Ports.{are_any_listening_ports_open}
use edward.Commands.Launch.{
  stop_service, stop_task, start_task, cleanup, give_up, when_live, after_start, start_exec,
  launch_process, unless_in_use, launch_with, checked_for, start_async, handled, wait_until_live,
  log_to_string_slice,
}
use edward.Commands.Updates.{path_eq, path_eq-append, is_closed}
use edward.Commands.Untouched.{
  Leaves, Closes, bind-Leaves, bind-Closes, set-Closes, stop_service-Leaves, warmup_run-Leaves,
}

module _ {S : Type 0} (host : Host S) where
  -- The tasks beside the one of the start.
  warmup_task-ne-start_task :
      (t : TaskPath) (c : ServiceCommand)
      → path_eq (t ++ c.service.name ∷ codes "Warmup" ∷ []) (start_task host t c) ≡ false
  unfolding path_eq text_eq
  warmup_task-ne-start_task t c =
      rw
        (path_eq-append t (c.service.name ∷ codes "Warmup" ∷ [])
          (c.service.name ∷ codes "Start" ∷ []))
        (rw (text_eq_refl c.service.name))

  stop_task-ne-start_task :
      (t : TaskPath) (c : ServiceCommand)
      → path_eq (stop_task host (t ++ codes "Cleanup" ∷ []) c.service) (start_task host t c) ≡ false
  unfolding path_eq
  stop_task-ne-start_task t c =
      rw (append_assoc t (codes "Cleanup" ∷ []) (c.service.name ∷ codes "Stop" ∷ [])) (
        rw
          (path_eq-append t (codes "Cleanup" ∷ c.service.name ∷ codes "Stop" ∷ [])
            (c.service.name ∷ codes "Start" ∷ []))
          (ground arith))

  cleanup-Leaves :
      (cfg : OperationConfig) (t : TaskPath) (c : ServiceCommand)
      → Leaves host (start_task host t c) (cleanup host cfg t c)
  cleanup-Leaves cfg t c =
      bind-Leaves host (start_task host t c)
        (stop_service host cfg c.service c.overrides (t ++ codes "Cleanup" ∷ [])) (λ _. pure tt)
        (stop_service-Leaves host cfg c.service c.overrides (t ++ codes "Cleanup" ∷ [])
          (start_task host t c) (stop_task-ne-start_task t c))
        (λ _ w. refl)

  give_up-Closes :
      (cfg : OperationConfig) (t : TaskPath) (c : ServiceCommand) (log : Result Text (List Text))
      → Closes host (start_task host t c) (give_up host cfg t c log)
  give_up-Closes cfg t c (err e) w =
      bind-Closes host (start_task host t c)
        (set_state (start_task host t c) failed (codes "Could not read log" ∷ e ∷ []))
        (λ _. cleanup host cfg t c >> fail (Fault.failed e))
        (set-Closes host (start_task host t c) failed (codes "Could not read log" ∷ e ∷ []) refl)
        (λ _.
          bind-Leaves host (start_task host t c) (cleanup host cfg t c) (λ _. fail (Fault.failed e))
            (cleanup-Leaves cfg t c) (λ _ v. refl))
        w
  give_up-Closes cfg t c (ok lines) w =
      bind-Closes host (start_task host t c) (set_state (start_task host t c) failed lines)
        (λ _. cleanup host cfg t c) (set-Closes host (start_task host t c) failed lines refl)
        (λ _. cleanup-Leaves cfg t c) w

  when_live-Closes :
      (cfg : OperationConfig) (t : TaskPath) (c : ServiceCommand) (live : Option Text)
      → Closes host (start_task host t c) (when_live host cfg t c live)
  when_live-Closes cfg t c none w =
      bind-Closes host (start_task host t c) (set_state (start_task host t c) success [])
        (λ _. warmup_run host c.service.name c.service.warmup t)
        (set-Closes host (start_task host t c) success [] refl)
        (λ _.
          warmup_run-Leaves host c.service.name c.service.warmup t (start_task host t c)
            (warmup_task-ne-start_task t c))
        w
  when_live-Closes cfg t c (some e) w =
      give_up-Closes cfg t c (log_to_string_slice host (get_run_log host.paths c.service) w.machine)
        w

  saved-Closes :
      (job : TaskPath) (k : M S Unit)
      → Closes host job k
      → (result : Option Text) (w : World S)
      → is_closed job
          (after (λ _. k) (handled host (set_state job failed []) (no_error result w))).1.updates
        ≡ true
  saved-Closes job k h none w = h w
  saved-Closes job k h (some e) w = set-Closes host job failed [] refl w

  after_start-Closes :
      (cfg : OperationConfig) (t : TaskPath) (c : ServiceCommand) (pid : Result Text ℕ)
      → Closes host (start_task host t c) (after_start host cfg t c pid)
  unfolding save wait_until_live
  after_start-Closes cfg t c (err e) w =
      bind-Closes host (start_task host t c) (set_state (start_task host t c) failed [])
        (λ _. fail {A = Unit} (Fault.failed e))
        (set-Closes host (start_task host t c) failed [] refl) (λ _ v. refl) w
  after_start-Closes cfg t c (ok pid) w =
      saved-Closes (start_task host t c)
        (wait_until_live host (record c { pid = pid })
          >>= when_live host cfg t (record c { pid = pid }))
        (λ v. when_live-Closes cfg t (record c { pid = pid }) _ _)
        (host.write_file (get_state_path host.paths c.service)
          (host.marshal (record c { pid = pid })) w.machine).0
        (call
          (host.write_file (get_state_path host.paths c.service)
            (host.marshal (record c { pid = pid })))
          w).1

  fail_task-Closes :
      (job : TaskPath) (e : Text) (more : List Text)
      → Closes host job (fail_task host {A = Unit} job e more)
  fail_task-Closes job e more w = set-Closes host job failed (e ∷ more) refl w

  start_exec-Closes :
      (cfg : OperationConfig) (t : TaskPath) (c : ServiceCommand) (exec : Result Text Exec)
      → Closes host (start_task host t c) (start_exec host cfg t c exec)
  start_exec-Closes cfg t c (err e) w = fail_task-Closes (start_task host t c) e [] w
  start_exec-Closes cfg t c (ok exec) w =
      after_start-Closes cfg t c (host.start exec w.machine).0
        (record w { machine = (host.start exec w.machine).1 })

  launch_process-Closes :
      (cfg : OperationConfig) (t : TaskPath) (c : ServiceCommand)
      → Closes host (start_task host t c) (launch_process host cfg t c)
  launch_process-Closes cfg t c w =
      let s = host.remove (get_run_log host.paths c.service) w.machine in
      start_exec-Closes cfg t c (get_launch_command host cfg c (launch_env host c) s)
        (record w { machine = s })

  unless_in_use-Closes :
      (cfg : OperationConfig) (t : TaskPath) (c : ServiceCommand) (in_use : Result Text Bool)
      → Closes host (start_task host t c) (unless_in_use host cfg t c in_use)
  unless_in_use-Closes cfg t c (err e) w = fail_task-Closes (start_task host t c) e [] w
  unless_in_use-Closes cfg t c (ok true) w =
      fail_task-Closes (start_task host t c)
        (codes "one or more of the ports required by this service are in use") [] w
  unless_in_use-Closes cfg t c (ok false) w = launch_process-Closes cfg t c w

  launch_with-Closes :
      (cfg : OperationConfig) (t : TaskPath) (c : ServiceCommand) (ports : List ℕ)
      → Closes host (start_task host t c) (launch_with host cfg t c ports)
  launch_with-Closes cfg t c [] w = launch_process-Closes cfg t c w
  launch_with-Closes cfg t c (p ∷ ports) w =
      unless_in_use-Closes cfg t c
        (are_any_listening_ports_open (p ∷ ports) (host.connections w.machine)) w

  if-Closes :
      (job : TaskPath) (b : Bool) (m n : M S Unit)
      → Closes host job m
      → Closes host job n
      → Closes host job (if b then m else n)
  if-Closes job true m n p q = p
  if-Closes job false m n p q = q

  -- A service without a launch command aside, StartAsync never leaves its task in progress: whatever
  -- the machine does, also where it returns an error or panics, the last state that it sets for the
  -- task is Success, Warning or Failed.
  pub start_async-is_closed :
      (cfg : OperationConfig) (t : TaskPath) (c : ServiceCommand) (w : World S)
      → is_nonempty c.service.commands.launch ≡ true
      → is_closed (start_task host t c) (start_async host cfg t c w).1.updates ≡ true
  unfolding start_async
  start_async-is_closed cfg t c w h = rw h (
      if-Closes (start_task host t c) (not (c.pid == 0))
        (set_state (start_task host t c) warning (codes "Already running" ∷ []))
        (launch_with host cfg t c (checked_for host c.service.launch_checks))
        (set-Closes host (start_task host t c) warning (codes "Already running" ∷ []) refl)
        (launch_with-Closes cfg t c (checked_for host c.service.launch_checks)) _)
