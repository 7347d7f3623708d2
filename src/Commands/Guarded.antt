-- ===== src/Commands/Guarded.antt =====
-- What the exclusions of a call keep from a service of services/serviceconfig.go, and what they do not.
use edward.Base.{◌≡◌, refl, Bool, true, false, not, none, ok, if◌then◌else◌}
use edward.Services.{ServiceConfig, OperationConfig, ContextOverride, is_excluded, merge}
use edward.Locks.{check_lock, get_pid_path_legacy, get_state_path}
use edward.Commands.{ServiceCommand, Host, World, TaskPath, M, pure}
use edward.Commands.Load.{
  ensure_unlocked, get_command, blank_command, no_overrides, load_service_command, finish_load,
  check_pid, get_command_and_error,
}
use edward.Commands.Launch.{stop_service, start_async}
use edward.Commands.Lifecycle.{build_service, restart_service}

module _ {S : Type 0} (host : Host S) where
  -- The command of a service of which no file is found.
  abbrev pub fresh : ServiceConfig → ContextOverride → ServiceCommand
  fresh c o = record (blank_command host c) {
    edward_version = host.version;
    overrides = merge no_overrides o;
  }

  load_service_command-fresh :
      (c : ServiceConfig) (o : ContextOverride) (w : World S)
      → host.exists (get_pid_path_legacy host.paths c) w.machine ≡ false
      → host.exists (get_state_path host.paths c) w.machine ≡ false
      → load_service_command host c o w ≡ (ok (fresh c o, none), w)
  unfolding load_service_command finish_load check_pid
  load_service_command-fresh c o w legacy state = rw legacy (rw state)

  ensure_unlocked-free :
      (c : ServiceConfig) (w : World S)
      → check_lock host.paths c (host.locks w.machine) ≡ none
      → ensure_unlocked host c w ≡ (ok tt, w)
  unfolding ensure_unlocked
  ensure_unlocked-free c w h = rw h

  module _ (enqueue : M S Unit → M S Unit) (cfg : OperationConfig) (c : ServiceConfig)
      (o : ContextOverride) (t : TaskPath) (w : World S) where
    get_command-fresh :
        check_lock host.paths c (host.locks w.machine) ≡ none
        → host.exists (get_pid_path_legacy host.paths c) w.machine ≡ false
        → host.exists (get_state_path host.paths c) w.machine ≡ false
        → get_command host c o w ≡ (ok (fresh c o), w)
    unfolding get_command get_command_and_error
    get_command-fresh free legacy state =
        rw (ensure_unlocked-free c w free) (rw (load_service_command-fresh c o w legacy state))

    stop_service-excluded :
        is_excluded cfg c.name ≡ true → stop_service host cfg c o t w ≡ (ok c, w)
    unfolding stop_service
    stop_service-excluded h = rw h

    build_unless-excluded :
        (skip : Bool)
        → is_excluded cfg c.name ≡ true
        → check_lock host.paths c (host.locks w.machine) ≡ none
        → (if not skip then build_service host enqueue cfg c o t else pure c) w ≡ (ok c, w)
    unfolding build_service
    build_unless-excluded true h free = refl
    build_unless-excluded false h free = rw (ensure_unlocked-free c w free) (rw h)

  -- Restart of a service that is excluded, not locked, and not running, starts it all the same: doStop
  -- and Build pass it over, but what Restart then does with its command is StartAsync.
  pub restart_service-excluded :
      (enqueue : M S Unit → M S Unit) (cfg : OperationConfig) (c : ServiceConfig)
      (o : ContextOverride) (t : TaskPath) (w : World S)
      → is_excluded cfg c.name ≡ true
      → check_lock host.paths c (host.locks w.machine) ≡ none
      → host.exists (get_pid_path_legacy host.paths c) w.machine ≡ false
      → host.exists (get_state_path host.paths c) w.machine ≡ false
      → restart_service host enqueue cfg c o t w
        ≡ start_async host cfg t (fresh c (merge (merge no_overrides o) o)) w
  unfolding restart_service
  restart_service-excluded enqueue cfg c o t w h free legacy state =
      let o' = merge (merge no_overrides o) o in
      rw (ensure_unlocked-free c w free) (
        rw (get_command-fresh enqueue cfg c o t w free legacy state) (
          rw (stop_service-excluded enqueue cfg c o' t w h) (
            rw (build_unless-excluded enqueue cfg c o' t w cfg.skip_build h free)
              (rw (get_command-fresh enqueue cfg c o' t w free legacy state)))))
