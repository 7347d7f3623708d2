-- ===== src/Commands/Launch.antt =====
-- `waitUntilLive`, `StartAsync` and `logToStringSlice` of services/command.go, and `doStop` of
-- services/serviceconfig.go with what it loads.
use edward.Base.{
  ℕ, Bool, true, false, not, Option, none, some, List, [], ◌∷◌, ◌++◌, Result, ok, err,
  if◌then◌else◌, ◌==◌, map,
}
use edward.Base.Text.{Text, codes, text_eq}
use edward.Services.{
  ServiceConfig, LaunchChecks, OperationConfig, ContextOverride, is_nonempty, is_excluded,
}
use edward.Tracker.{TaskState, in_progress, success, warning, failed}
use edward.Locks.{get_run_log}
use edward.Processes.{System, stop_command}
use edward.Commands.{
  ServiceCommand, Exec, LogLine, Check, has_text, listening, delay, any_port, LogLook, Watched,
  First, check_ended, process_ended, timer_ended, Host, Fault, Update, World, TaskPath, M, pure,
  fail, ◌>>=◌, ◌>>◌, set_state, call, look, change,
}
use edward.Commands.Environment.{launch_env}
use edward.Commands.Load.{clear_files, ensure_unlocked, get_command, save}
use edward.Commands.Build.{fail_task, kill_group, get_launch_command, warmup_run}
use edward.Commands.Ports.{
  WaitResult, are_any_listening_ports_open, wait_for_listening_ports, wait_for_any_port,
  wait_for_log_text,
}

-- The check that waitUntilLive makes.
unfoldable pub select_check : Option LaunchChecks → Check
unfolding is_nonempty
select_check none = any_port
select_check (some checks) =
    if is_nonempty checks.log_text
    then has_text checks.log_text
    else if is_nonempty checks.ports
    then listening checks.ports
    else if not (checks.wait == 0)
    then delay checks.wait
    else any_port

abbrev pub log_result : Text → Result Text (List LogLook) → WaitResult
log_result line (err e) = some (some e)
log_result line (ok looks) = wait_for_log_text line looks

-- How the check ends, if it does.
unfoldable pub check_result : Check → Watched → WaitResult
unfolding wait_for_log_text wait_for_listening_ports wait_for_any_port
check_result (has_text line) w = log_result line w.log
check_result (listening ports) w = wait_for_listening_ports ports w.looks
check_result (delay ms) w = some none
check_result any_port w = wait_for_any_port w.port_looks

-- Where the check has not ended and the process still runs, the timer ends the wait.
abbrev pub selected : First → WaitResult → Option Text
selected check_ended (some result) = result
selected check_ended none = some (codes "Waiting for service timed out")
selected process_ended result = some (codes "service terminated prematurely")
selected timer_ended result = some (codes "Waiting for service timed out")

abbrev pub keep_line : LogLine → Result Text (List Text) → Result Text (List Text)
keep_line line (err e) = err e
keep_line line (ok lines) =
    ok (if text_eq line.stream (codes "messages") then lines else line.message ∷ lines)

abbrev pub keep_decoded : Result Text LogLine → Result Text (List Text) → Result Text (List Text)
keep_decoded (err e) rest = err e
keep_decoded (ok line) rest = keep_line line rest

module _ {S : Type 0} (host : Host S) where
  -- The loop of `logToStringSlice`, and the error of the scanner at its end.
  unfoldable pub decode_lines : List Text → Option Text → Result Text (List Text)
  decode_lines [] none = ok []
  decode_lines [] (some e) = err e
  decode_lines (text ∷ texts) e = keep_decoded (host.decode_line text) (decode_lines texts e)

  abbrev pub log_lines : Result Text Text → Result Text (List Text)
  log_lines (err e) = err e
  log_lines (ok text) = let (lines, e) = host.scan_lines text in decode_lines lines e

  -- `logToStringSlice`
  unfoldable pub log_to_string_slice : Text → S → Result Text (List Text)
  unfolding decode_lines
  log_to_string_slice path s = log_lines (host.read_file path s)

  -- `waitUntilLive`
  unfoldable pub wait_until_live : ServiceCommand → M S (Option Text)
  unfolding select_check check_result
  wait_until_live c w =
      let check = select_check c.service.launch_checks in
      let (seen, s) = host.watch check c.pid w.machine in
      (ok (selected seen.first (check_result check seen)), record w { machine = s })

  -- The calls that doStop makes for a service.
  unfoldable pub system : OperationConfig → ServiceConfig → System S
  unfolding kill_group clear_files
  system cfg c = record {
    interrupt = host.interrupt;
    pid_exists = host.pid_exists;
    get_pgid = host.get_pgid;
    kill_group = kill_group host cfg c;
    clear_state = clear_files host c;
  }

  abbrev pub as_updates : TaskPath → List (TaskState × List Text) → List Update
  as_updates t states = map (λ a. record { task = t; state = a.0; messages = a.1 }) states

  abbrev pub later : List (TaskState × List Text) → List (TaskState × List Text)
  later [] = []
  later (first ∷ rest) = rest

  -- The rest of doStop, with the command that was loaded; the first state is set already.
  unfoldable pub stop_loaded :
      OperationConfig → ServiceConfig → TaskPath → ServiceCommand → M S Unit
  unfolding system
  stop_loaded cfg c job cmd w =
      let stopped = stop_command (system cfg c) (ok cmd.pid) w.machine in
      (
        ok tt,
        record {
          machine = stopped.machine;
          updates = w.updates ++ as_updates job (later stopped.states);
        },
      )

  abbrev pub stop_task : TaskPath → ServiceConfig → TaskPath
  stop_task t c = t ++ c.name ∷ codes "Stop" ∷ []

  abbrev pub stop_launched :
      OperationConfig → ServiceConfig → ContextOverride → TaskPath → M S ServiceConfig
  stop_launched cfg c o t = do
    set_state (stop_task t c) in_progress []
    cmd ← get_command host c o
    stop_loaded cfg cmd.service (stop_task t c) cmd
    pure cmd.service

  -- `doStop`, with the service after it: loading the command may have changed it.
  unfoldable pub stop_service :
      OperationConfig → ServiceConfig → ContextOverride → TaskPath → M S ServiceConfig
  unfolding is_excluded is_nonempty ensure_unlocked get_command stop_loaded
  stop_service cfg c o t = if is_excluded cfg c.name then pure c else (do
    ensure_unlocked host c
    if is_nonempty c.commands.launch then stop_launched cfg c o t else pure c)

  -- Where the step fails, `handler` comes before its error is returned.
  abbrev pub handled : {A : Type 0} → M S Unit → Result Fault A × World S → Result Fault A × World S
  handled handler (ok a, w) = (ok a, w)
  handled handler (err e, w) = (err e, (handler w).1)

  abbrev pub on_fault : {A : Type 0} → M S Unit → M S A → M S A
  on_fault handler m w = handled handler (m w)

  abbrev pub start_task : TaskPath → ServiceCommand → TaskPath
  start_task t c = t ++ c.service.name ∷ codes "Start" ∷ []

  abbrev pub cleanup : OperationConfig → TaskPath → ServiceCommand → M S Unit
  cleanup cfg t c =
      stop_service cfg c.service c.overrides (t ++ codes "Cleanup" ∷ []) >>= λ _. pure tt

  -- The end of StartAsync where the service did not come up. The error of reading the log has taken
  -- the place of the one that waitUntilLive returned.
  abbrev pub give_up :
      OperationConfig → TaskPath → ServiceCommand → Result Text (List Text) → M S Unit
  give_up cfg t c (err e) = do
    set_state (start_task t c) failed (codes "Could not read log" ∷ e ∷ [])
    cleanup cfg t c
    fail (Fault.failed e)
  give_up cfg t c (ok lines) = do set_state (start_task t c) failed lines; cleanup cfg t c

  abbrev pub when_live : OperationConfig → TaskPath → ServiceCommand → Option Text → M S Unit
  when_live cfg t c none = do
    set_state (start_task t c) success []
    warmup_run host c.service.name c.service.warmup t
  when_live cfg t c (some e) = do
    log ← look (log_to_string_slice (get_run_log host.paths c.service))
    give_up cfg t c log

  abbrev pub after_start : OperationConfig → TaskPath → ServiceCommand → Result Text ℕ → M S Unit
  after_start cfg t c (err e) = do set_state (start_task t c) failed []; fail (Fault.failed e)
  after_start cfg t c (ok pid) = do
    on_fault (set_state (start_task t c) failed []) (save host (record c { pid = pid }))
    live ← wait_until_live (record c { pid = pid })
    when_live cfg t (record c { pid = pid }) live

  abbrev pub start_exec : OperationConfig → TaskPath → ServiceCommand → Result Text Exec → M S Unit
  start_exec cfg t c (err e) = fail_task host (start_task t c) e []
  start_exec cfg t c (ok exec) = do pid ← call (host.start exec); after_start cfg t c pid

  abbrev pub launch_process : OperationConfig → TaskPath → ServiceCommand → M S Unit
  launch_process cfg t c = do
    change (host.remove (get_run_log host.paths c.service))
    exec ← look (get_launch_command host cfg c (launch_env host c))
    start_exec cfg t c exec

  abbrev pub unless_in_use :
      OperationConfig → TaskPath → ServiceCommand → Result Text Bool → M S Unit
  unless_in_use cfg t c (err e) = fail_task host (start_task t c) e []
  unless_in_use cfg t c (ok true) =
      fail_task host (start_task t c)
        (codes "one or more of the ports required by this service are in use") []
  unless_in_use cfg t c (ok false) = launch_process cfg t c

  abbrev pub launch_with : OperationConfig → TaskPath → ServiceCommand → List ℕ → M S Unit
  launch_with cfg t c [] = launch_process cfg t c
  launch_with cfg t c (p ∷ ports) = do
    connections ← look host.connections
    unless_in_use cfg t c (are_any_listening_ports_open (p ∷ ports) connections)

  abbrev pub checked_for : Option LaunchChecks → List ℕ
  checked_for none = []
  checked_for (some checks) = checks.ports

  -- `StartAsync`
  unfoldable pub start_async : OperationConfig → TaskPath → ServiceCommand → M S Unit
  unfolding is_nonempty get_run_log log_to_string_slice wait_until_live stop_service warmup_run save
      launch_env get_launch_command are_any_listening_ports_open
  start_async cfg t c = if not (is_nonempty c.service.commands.launch) then pure tt else (do
    set_state (start_task t c) in_progress []
    if not (c.pid == 0)
        then set_state (start_task t c) warning (codes "Already running" ∷ [])
        else launch_with cfg t c (checked_for c.service.launch_checks))
