-- ===== src/Runner.antt =====
-- runner/runner.go: the process that `edward run` is, which runs one service and starts it again when its
-- files change. Each operation is one step, given what the operating system answers in it. Of a command
-- it is kept whether it has ended, and how many goroutines of waitForCompletionWithTimeout still wait
-- for it although their time is over: they send on a channel that is closed, and that is a panic.
pub mod Counted
pub mod Late
pub mod Logging
pub mod Watching
mod Samples
use edward.Base.{
  ℕ, zero, suc, ◌+◌, ◌-◌, Bool, true, false, not, ◌||◌, Option, none, some, List, [], ◌∷◌, Result,
  ok, err, if◌then◌else◌, ltb,
}
use edward.Base.Text.{Text, codes}

-- `RunningCommand`
pub record Running : Type 0 where
  pub done : Bool
  pub stale_waits : ℕ

-- The command of the runner first, then those before it; `count` is the counter of `commandWait`.
pub record Runner : Type 0 where
  pub commands : List Running
  pub count : ℕ
  pub panicked : Bool

-- What stopService meets: whether GetCommand returns a command, whether there is a stop script, what the
-- signals return, and whether the command ends while each of the waits has time.
pub record Stopping : Type 0 where
  pub has_command : Bool
  pub has_script : Bool
  pub ends_by_script : Bool
  pub interrupt : Option Text
  pub ends_by_interrupt : Bool
  pub kill : Option Text
  pub ends_by_kill : Bool

abbrev pub Outcome : Type 0
Outcome = Option Text × Runner

abbrev pub Waited : Type 0
Waited = Bool × Runner

-- `commandWait.Add(1)`
abbrev pub add_one : Runner → Runner
add_one r = record r { count = suc r.count }

-- The goroutine of `RunningCommand.Start`, when the program has ended: `commandWait.Done` and
-- `close(c.done)`.
abbrev pub end_running : Running → List Running → Runner → Runner
end_running c older r = record {
  commands = record c { done = true } ∷ older;
  count = r.count - 1;
  panicked = r.panicked || ltb 0 c.stale_waits;
}

-- The command ends by itself.
unfoldable pub end_command : Runner → Runner
end_command r = elim r.commands [ [] ↦ r | c ∷ older ↦ if c.done then r else end_running c older r ]

abbrev pub wait_for : Bool → Running → List Running → Runner → Waited
wait_for ends c older r =
    if c.done
    then (true, r)
    else if ends
    then (true, end_running c older r)
    else (false, record r { commands = record c { stale_waits = suc c.stale_waits } ∷ older })

-- `waitForCompletionWithTimeout`
unfoldable pub wait_for_completion : Bool → Runner → Waited
wait_for_completion ends r = elim r.commands [
  | [] ↦ (false, r)
  | c ∷ older ↦ wait_for ends c older r
]

abbrev pub unless_ended : Waited → (Runner → Outcome) → Outcome
unless_ended (true, r) next = (none, r)
unless_ended (false, r) next = next r

abbrev pub after_kill : Stopping → Option Text → Runner → Outcome
after_kill s (some e) r = (some (codes "Kill failed"), r)
after_kill s none r =
    unless_ended (wait_for_completion s.ends_by_kill r)
      (λ r'. (some (codes "kill did not stop service"), r'))

abbrev pub after_interrupt : Stopping → Option Text → Runner → Outcome
after_interrupt s (some e) r = (some e, r)
after_interrupt s none r =
    unless_ended (wait_for_completion s.ends_by_interrupt r) (after_kill s s.kill)

-- The stop script needs the command that GetCommand has returned.
abbrev pub by_script : Stopping → Runner → Outcome
by_script s r =
    if s.has_command
    then unless_ended (wait_for_completion s.ends_by_script r) (after_interrupt s s.interrupt)
    else (
      some (codes "invalid memory address or nil pointer dereference"),
      record r { panicked = true },
    )

-- `stopService`
unfoldable pub stop_service : Stopping → Runner → Outcome
unfolding wait_for_completion
stop_service s r = if s.has_script then by_script s r else after_interrupt s s.interrupt r

-- `startService`, where the command line is parsed as `parsed` says.
unfoldable pub start_service : Option Text → Runner → Outcome
start_service (some e) r = (some e, r)
start_service none r =
    (none, record r { commands = record { done = false; stale_waits = 0 } ∷ r.commands })

abbrev pub start_stopped : Option Text → Outcome → Outcome
start_stopped parsed (some e, r) = (some e, r)
start_stopped parsed (none, r) = start_service parsed r

-- `restartService`, where ObtainLock returns the error `lock`, if any.
unfoldable pub restart_service : Option Text → Stopping → Option Text → Runner → Outcome
unfolding stop_service start_service
restart_service (some e) s parsed r = (some e, add_one r)
restart_service none s parsed r = start_stopped parsed (stop_service s (add_one r))

pub data Event : Type 0 where
  ended : Event
  signalled : Stopping → Event
  restarted : Option Text → Stopping → Option Text → Event

-- `Run`, until it waits for the commands.
unfoldable pub begin_run : Option Text → Outcome
unfolding start_service
begin_run parsed =
    start_service parsed (add_one (record { commands = []; count = 0; panicked = false }))

-- What happens while it waits.
unfoldable pub step : Event → Runner → Outcome
unfolding end_command stop_service restart_service
step ended r = (none, end_command r)
step (signalled s) r = (none, (stop_service s r).1)
step (restarted lock s parsed) r = restart_service lock s parsed r

-- `Run` returns when the counter is at 0.
abbrev pub has_returned : Runner → Bool
has_returned r = not (ltb 0 r.count)

-- A run of the process, with the number of restarts that have returned an error.
pub record History : Type 0 where
  pub runner : Runner
  pub failed_restarts : ℕ

abbrev pub failures : Event → Option Text → ℕ
failures ended e = 0
failures (signalled s) e = 0
failures (restarted lock s parsed) none = 0
failures (restarted lock s parsed) (some e) = 1

-- Nothing happens any more after a panic, or when Run has returned.
unfoldable pub run : List Event → History → History
unfolding step
run [] h = h
run (e ∷ es) h =
    let (error, r) = step e h.runner in
    let rest =
      run es (record { runner = r; failed_restarts = failures e error + h.failed_restarts }) in
    if h.runner.panicked || has_returned h.runner then h else rest
