-- ===== src/Runner/Late.antt =====
-- When `stopService` of runner/runner.go brings the runner down.
use edward.Base.{
  ℕ, Bool, true, false, not, ◌&&◌, ◌||◌, Option, none, some, List, ◌∷◌, if◌then◌else◌,
}
use edward.Base.Text.{Text}
use edward.Runner.{Running, Runner, Stopping}

abbrev pub is_none : Option Text → Bool
is_none none = true
is_none (some e) = false

-- The command ends by the kill that follows the interrupt.
abbrev pub ends_after_interrupt : Stopping → Bool
ends_after_interrupt s =
    is_none s.interrupt && (not s.ends_by_interrupt && (is_none s.kill && s.ends_by_kill))

-- The command ends, but not in the time of the first wait for it.
abbrev pub ends_late : Stopping → Bool
ends_late s =
    if s.has_script
    then not s.ends_by_script
      && ((is_none s.interrupt && s.ends_by_interrupt) || ends_after_interrupt s)
    else ends_after_interrupt s

-- The runner of a command that has not ended, for which `n` goroutines wait in vain.
abbrev pub waited_for : ℕ → List Running → ℕ → Runner
waited_for n older count = record {
  commands = record { done = false; stale_waits = n } ∷ older;
  count = count;
  panicked = false;
}
