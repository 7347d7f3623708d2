-- ===== src/Processes/Settled.antt =====
-- The state in which `doStop` of services/serviceconfig.go leaves its task.
use edward.Base.{
  ℕ, zero, suc, ◌≡◌, refl, Bool, true, false, Option, none, some, List, [], ◌∷◌, Result, ok, err,
  Bool-cases, inl, inr,
}
use edward.Base.Text.{Text}
use edward.Services.{ServiceConfig, OperationConfig, is_excluded, is_nonempty}
use edward.Tracker.{TaskState, pending, in_progress, success, warning, failed}
use edward.Processes.{
  System, Answer, Stopped, after_last, after_wait, after_interrupt, stop_command, unless_locked,
  kill_process, wait_for_term, interrupt_process, do_stop,
}

abbrev pub is_final : TaskState → Bool
is_final pending = false
is_final in_progress = false
is_final success = true
is_final warning = true
is_final failed = true

abbrev pub ends_final : List (TaskState × List Text) → Bool
ends_final [] = true
ends_final ((state, messages) ∷ []) = is_final state
ends_final (a ∷ b ∷ rest) = ends_final (b ∷ rest)

-- There is an error, or the last state that the task was set to, if any, is one of its end.
abbrev pub is_settled : {S : Type 0} → Stopped S → Bool
is_settled r = elim r.error [ some e ↦ true | none ↦ ends_final r.states ]

module _ {S : Type 0} (sys : System S) where
  after_last-is_settled : (a : Answer S Bool) → is_settled (after_last sys a) ≡ true
  after_last-is_settled (err e, s) = refl
  after_last-is_settled (ok true, s) = refl
  after_last-is_settled (ok false, s) = refl

  after_wait-is_settled : (pid : ℕ) (a : Answer S Bool) → is_settled (after_wait sys pid a) ≡ true
  after_wait-is_settled pid (err e, s) = refl
  after_wait-is_settled pid (ok true, s) = refl
  after_wait-is_settled pid (ok false, s) = after_last-is_settled (kill_process sys pid s)

  after_interrupt-is_settled :
      (pid : ℕ) (a : Answer S Bool) → is_settled (after_interrupt sys pid a) ≡ true
  after_interrupt-is_settled pid (err e, s) = refl
  after_interrupt-is_settled pid (ok true, s) = refl
  after_interrupt-is_settled pid (ok false, s) =
      after_wait-is_settled pid (wait_for_term sys 51 pid s)

  stop_command-is_settled :
      (pid : Result Text ℕ) (s : S) → is_settled (stop_command sys pid s) ≡ true
  stop_command-is_settled (err e) s = refl
  stop_command-is_settled (ok zero) s = refl
  stop_command-is_settled (ok (suc pid)) s =
      after_interrupt-is_settled (suc pid) (interrupt_process sys (suc pid) s)

  unless_locked-is_settled :
      (lock : Option Text) (c : ServiceConfig) (pid : Result Text ℕ) (s : S)
      → is_settled (unless_locked sys lock c pid s) ≡ true
  unless_locked-is_settled (some e) c pid s = refl
  unless_locked-is_settled none c pid s = elim (Bool-cases (is_nonempty c.commands.launch)) [
    | inl e ↦ rw e (stop_command-is_settled pid s)
    | inr e ↦ rw e
  ]

  -- `doStop` never leaves its task in progress, except where it returns an error: whatever the
  -- machine does, the last state that it sets, if it sets one, is Success, Warning or Failed.
  pub do_stop-is_settled :
      (cfg : OperationConfig) (c : ServiceConfig) (lock : Option Text) (pid : Result Text ℕ) (s : S)
      → is_settled (do_stop sys cfg c lock pid s) ≡ true
  unfolding do_stop
  do_stop-is_settled cfg c lock pid s = elim (Bool-cases (is_excluded cfg c.name)) [
    | inl e ↦ rw e
    | inr e ↦ rw e (unless_locked-is_settled lock c pid s)
  ]
