-- ===== src/Commands/Load.antt =====
-- `LoadServiceCommand`, `checkPid`, `save` and `clearState` of services/command.go, and `GetCommand` and
-- `getPid` of services/serviceconfig.go.
use edward.Base.{
  ℕ, zero, suc, Bool, true, false, Option, none, some, [], ◌++◌, Result, ok, err, if◌then◌else◌,
}
use edward.Base.Text.{Text, codes, has_substring}
use edward.Services.{ServiceConfig, ContextOverride, merge}
use edward.Processes.{int32}
use edward.Locks.{LockError, check_lock, get_state_path, get_pid_path_legacy}
use edward.Commands.{
  ServiceCommand, Host, failed, locked, panicked, M, pure, fail, ◌>>=◌, ◌>>◌, call, look, change,
  no_error,
}

abbrev pub no_overrides : ContextOverride
no_overrides = record { env = [] }

module _ {S : Type 0} (host : Host S) where
  abbrev pub script : ServiceConfig → Text → Text
  script c kind = host.paths.join host.paths.script_dir (c.name ++ (codes "-" ++ kind))

  -- `clearState`: the files that `clearPid` and `deleteScript` remove.
  unfoldable pub clear_files : ServiceConfig → S → S
  unfolding get_state_path get_pid_path_legacy
  clear_files c s = host.remove (script c (codes "Build")) (
      host.remove (script c (codes "Launch")) (
        host.remove (script c (codes "Stop")) (
          host.remove (get_state_path host.paths c)
            (host.remove (get_pid_path_legacy host.paths c) s))))

  unfoldable pub clear_state : ServiceCommand → M S ServiceCommand
  unfolding clear_files
  clear_state c = do change (clear_files c.service); pure (record c { pid = 0 })

  -- A command, and the error that is returned with it.
  abbrev pub Loaded : Type 0
  Loaded = ServiceCommand × Option Text

  abbrev pub without_state : ServiceCommand → M S Loaded
  without_state c = clear_state c >>= λ c'. pure (c', none)

  abbrev pub check_line : ServiceCommand → Result Text Text → M S Loaded
  check_line c (err e) = pure (c, some e)
  check_line c (ok line) =
      if has_substring line c.service.name then pure (c, none) else without_state c

  -- The part of `checkPid` after the process was found.
  unfoldable pub check_cmdline : ServiceCommand → M S Loaded
  unfolding clear_state has_substring
  check_cmdline c = look (host.cmdline (int32 c.pid)) >>= check_line c

  abbrev pub check_exists : ServiceCommand → Result Text Bool → M S Loaded
  check_exists c (err e) = pure (c, some e)
  check_exists c (ok true) = check_cmdline c
  check_exists c (ok false) = without_state c

  abbrev pub check_running : ServiceCommand → ℕ → M S Loaded
  check_running c zero = pure (c, none)
  check_running c (suc pid) = call (host.pid_exists (int32 (suc pid))) >>= check_exists c

  -- `checkPid`: the command after it, which has no pid if its process is gone or is another one, and
  -- its error.
  unfoldable pub check_pid : ServiceCommand → M S Loaded
  unfolding check_cmdline clear_state
  check_pid c = check_running c c.pid

  abbrev pub blank_command : ServiceConfig → ServiceCommand
  blank_command c = record {
    service = c;
    pid = 0;
    config_file = c.config_file;
    edward_version = [];
    overrides = no_overrides;
  }

  -- The deferred function of LoadServiceCommand; its error takes the place of any other. It sets the
  -- pointer to the service, and what it points to is what the decoding has left there.
  unfoldable pub finish_load : ContextOverride → ServiceCommand → M S Loaded
  unfolding check_pid merge
  finish_load overrides cmd =
      check_pid
        (record cmd { edward_version = host.version; overrides = merge cmd.overrides overrides })

  -- Where `return nil, err` is reached, the deferred function writes to a nil pointer.
  abbrev pub or_panic : {A : Type 0} → Result Text A → M S A
  or_panic (ok a) = pure a
  or_panic (err e) = fail panicked

  abbrev pub load_legacy : ServiceConfig → ContextOverride → M S Loaded
  load_legacy c overrides = do
    content ← look (host.read_file (get_pid_path_legacy host.paths c))
    text ← or_panic content
    pid ← or_panic (host.atoi text)
    finish_load overrides (record (blank_command c) { pid = pid })

  -- The decoding's error is dropped. It writes into the command, and, since the command points to a
  -- service already, into that service, the one that the caller has.
  abbrev pub load_state : ServiceConfig → ContextOverride → M S Loaded
  load_state c overrides = do
    content ← look (host.read_file (get_state_path host.paths c))
    text ← or_panic content
    finish_load overrides (host.unmarshal text (blank_command c))

  -- `LoadServiceCommand`
  unfoldable pub load_service_command : ServiceConfig → ContextOverride → M S Loaded
  unfolding finish_load get_state_path get_pid_path_legacy
  load_service_command c overrides w =
      if host.exists (get_pid_path_legacy host.paths c) w.machine
      then load_legacy c overrides w
      else if host.exists (get_state_path host.paths c) w.machine
      then load_state c overrides w
      else finish_load overrides (blank_command c) w

  abbrev pub unless_fault : Option LockError → M S Unit
  unless_fault none = pure tt
  unless_fault (some e) = fail (locked e)

  -- `checkLock`, as a step of an operation.
  unfoldable pub ensure_unlocked : ServiceConfig → M S Unit
  unfolding check_lock
  ensure_unlocked c w = unless_fault (check_lock host.paths c (host.locks w.machine)) w

  -- `GetCommand`, which returns a command also with the error of `checkPid`.
  unfoldable pub get_command_and_error : ServiceConfig → ContextOverride → M S Loaded
  unfolding ensure_unlocked load_service_command
  get_command_and_error c overrides = do ensure_unlocked c; load_service_command c overrides

  abbrev pub unless_error : Loaded → M S ServiceCommand
  unless_error (c, none) = pure c
  unless_error (c, some e) = fail (failed e)

  -- The call of `GetCommand` in a function that returns where there is an error.
  unfoldable pub get_command : ServiceConfig → ContextOverride → M S ServiceCommand
  unfolding get_command_and_error
  get_command c overrides = get_command_and_error c overrides >>= unless_error

  -- `save`
  unfoldable pub save : ServiceCommand → M S Unit
  unfolding get_state_path
  save c = do
    result ← call (host.write_file (get_state_path host.paths c.service) (host.marshal c))
    no_error result
