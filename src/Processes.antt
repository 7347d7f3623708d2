-- ===== src/Processes.antt =====
-- Stopping the process of a service, of services/serviceconfig.go: `doStop` with `interruptProcess`,
-- `killProcess` and `waitForTerm`. The calls of the operating system are arguments over a state of
-- the machine; sleeping is part of the next call. Reading the lock and the pid file comes before, and
-- is an argument too.
pub mod Settled
mod Samples
use edward.Base.{
  ℕ, zero, suc, ◌%◌, Bool, true, false, not, ◌||◌, Option, none, some, List, [], ◌∷◌, ◌++◌, ◌==◌,
  Result, ok, err, if◌then◌else◌, ◌≡◌, refl,
}
use edward.Base.Text.{Text, codes}
use edward.Services.{ServiceConfig, OperationConfig, is_excluded, is_nonempty}
use edward.Tracker.{TaskState, pending, in_progress, success, warning, failed}

-- github.com/shirou/gopsutil/process, package syscall, the command that kills a process group, and the
-- files of the service's state. `interrupt` finds the process and sends it the signal.
pub record System (S : Type 0) : Type 0 where
  pub interrupt : ℕ → S → Option Text × S
  pub pid_exists : ℕ → S → Result Text Bool × S
  pub get_pgid : ℕ → S → Result Text ℕ × S
  pub kill_group : ℕ → S → Option Text × S
  pub clear_state : S → S

-- The conversion of a pid to 32 bits: a negative number is the residue that it has modulo 2 ^ 32.
abbrev pub int32 : ℕ → ℕ
int32 n = n % 4294967296

-- An answer of a function that can fail, and the machine after it.
abbrev pub Answer : Type 0 → Type 0 → Type 0
Answer S A = Result Text A × S

-- The states that the task of the stop is set to, each with its messages, and the error returned.
pub record Stopped (S : Type 0) : Type 0 where
  pub states : List (TaskState × List Text)
  pub error : Option Text
  pub machine : S

module _ {S : Type 0} (sys : System S) where
  abbrev pub negate : Answer S Bool → Answer S Bool
  negate (ok b, s) = (ok (not b), s)
  negate (err e, s) = (err e, s)

  abbrev pub then_exists : ℕ → Option Text × S → Answer S Bool
  then_exists pid (some e, s) = (err e, s)
  then_exists pid (none, s) = negate (sys.pid_exists (int32 pid) s)

  -- `interruptProcess`: whether the process is gone after the signal.
  unfoldable pub interrupt_process : ℕ → S → Answer S Bool
  interrupt_process pid s = then_exists pid (sys.interrupt (int32 pid) s)

  abbrev pub after_kill : Option Text × S → Answer S Bool
  after_kill (some e, s) = (err e, s)
  after_kill (none, s) = (ok true, s)

  abbrev pub kill_unless_suspect : Answer S ℕ → Answer S Bool
  kill_unless_suspect (err e, s) = (err e, s)
  kill_unless_suspect (ok pgid, s) =
      if (pgid == 0) || (pgid == 1)
      then (err (codes "suspect pgid"), s)
      else after_kill (sys.kill_group pgid s)

  -- `killProcess`
  unfoldable pub kill_process : ℕ → S → Answer S Bool
  kill_process pid s = kill_unless_suspect (sys.get_pgid pid s)

  abbrev pub or_again : Answer S Bool → (S → Answer S Bool) → Answer S Bool
  or_again (err e, s) again = (err e, s)
  or_again (ok true, s) again = again s
  or_again (ok false, s) again = (ok true, s)

  -- `waitForTerm`, for `n` rounds.
  unfoldable pub wait_for_term : ℕ → ℕ → S → Answer S Bool
  wait_for_term zero pid s = (ok false, s)
  wait_for_term (suc n) pid s = or_again (sys.pid_exists (int32 pid) s) (wait_for_term n pid)

  abbrev pub set_last : TaskState → List Text → S → Stopped S
  set_last state messages s = record {
    states = (in_progress, []) ∷ (state, messages) ∷ [];
    error = none;
    machine = s;
  }

  abbrev pub cleaned : S → Stopped S
  cleaned s = set_last success [] (sys.clear_state s)

  abbrev pub after_last : Answer S Bool → Stopped S
  after_last (err e, s) = set_last failed (e ∷ []) s
  after_last (ok true, s) = set_last warning (codes "Killed" ∷ []) s
  after_last (ok false, s) = set_last failed (codes "Process was not killed" ∷ []) s

  abbrev pub after_wait : ℕ → Answer S Bool → Stopped S
  after_wait pid (err e, s) = set_last failed (e ∷ []) s
  after_wait pid (ok true, s) = cleaned s
  after_wait pid (ok false, s) = after_last (kill_process pid s)

  -- Every 100 ms from 0 to 5 s: 51 rounds.
  abbrev pub after_interrupt : ℕ → Answer S Bool → Stopped S
  after_interrupt pid (err e, s) = set_last failed (e ∷ []) s
  after_interrupt pid (ok true, s) = cleaned s
  after_interrupt pid (ok false, s) = after_wait pid (wait_for_term 51 pid s)

  abbrev pub stop_command : Result Text ℕ → S → Stopped S
  stop_command (err e) s = record { states = (in_progress, []) ∷ []; error = some e; machine = s }
  stop_command (ok zero) s = set_last warning (codes "Not running" ∷ []) s
  stop_command (ok (suc pid)) s = after_interrupt (suc pid) (interrupt_process (suc pid) s)

  abbrev pub untouched : Option Text → S → Stopped S
  untouched e s = record { states = []; error = e; machine = s }

  abbrev pub unless_locked : Option Text → ServiceConfig → Result Text ℕ → S → Stopped S
  unless_locked (some e) c pid s = untouched (some e) s
  unless_locked none c pid s =
      if is_nonempty c.commands.launch then stop_command pid s else untouched none s

  -- `doStop`, where `lock` is the error of `checkLock`, and `pid` what `GetCommand` finds.
  unfoldable pub do_stop :
      OperationConfig → ServiceConfig → Option Text → Result Text ℕ → S → Stopped S
  unfolding is_excluded is_nonempty interrupt_process kill_process wait_for_term
  do_stop cfg c lock pid s =
      if is_excluded cfg c.name then untouched none s else unless_locked lock c pid s
