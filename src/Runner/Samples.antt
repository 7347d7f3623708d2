-- ===== src/Runner/Samples.antt =====
-- A runner whose service is started again twice, the second time in vain, and the theorems at it.
use edward.Base.{◌≡◌, refl, true, false, none, some, List, [], ◌∷◌}
use edward.Base.Text.{codes}
use edward.Runner.{
  Stopping, Event, ended, restarted, run, stop_service, start_service, begin_run, step,
  restart_service, wait_for_completion, end_command,
}
use edward.Runner.Counted.{live, begun}

abbrev at_once : Stopping
at_once = record {
  has_command = true;
  has_script = false;
  ends_by_script = false;
  interrupt = none;
  ends_by_interrupt = true;
  kill = none;
  ends_by_kill = true;
}

-- The service does not end by the interrupt, but is killed then.
abbrev by_kill : Stopping
by_kill = record at_once { ends_by_interrupt = false }

abbrev events : List Event
events =
    restarted none at_once none
    ∷ restarted (some (codes "Service locked")) at_once none
    ∷ ended
    ∷ []

program : Unit {0}
unfolding run step begin_run start_service stop_service restart_service wait_for_completion
    end_command live
program = tt

run-events : (run events begun).runner.count ≡ 1
unfolding program
run-events = refl
