-- ===== src/Worker/Samples.antt =====
-- A pool of two workers, of which one runs a job that fails, and the theorems at it.
use edward.Base.{◌≡◌, refl, true, Option, none, some, List, [], ◌∷◌, ◌==◌, if◌then◌else◌}
use edward.Worker.{
  Job, JobError, Pool, Event, enqueue, hand_over, job_ends, stop, leave, report, complete, start,
  run,
}
use edward.Worker.Invariant.{count}
use edward.Worker.Runs.{run-all_ran, run-can_complete}

abbrev job_seven_fails : Job → Option JobError
job_seven_fails j = if j == 7 then some 1 else none

-- Job 5 is taken before job 7 has failed, job 6 is refused.
abbrev both_busy : List Event
both_busy = enqueue 7 ∷ hand_over 0 ∷ enqueue 5 ∷ hand_over 1 ∷ job_ends 0 ∷ enqueue 6 ∷ stop ∷ []

abbrev to_the_end : List Event
to_the_end =
    enqueue 7
    ∷ hand_over 0
    ∷ enqueue 5
    ∷ hand_over 1
    ∷ job_ends 0
    ∷ enqueue 6
    ∷ stop
    ∷ leave 0
    ∷ job_ends 1
    ∷ report 0
    ∷ leave 1
    ∷ report 1
    ∷ complete
    ∷ []

abbrev or_start : Option Pool → Pool
or_start none = start 2
or_start (some p) = p

abbrev stopped : Pool
stopped = or_start (run job_seven_fails both_busy (start 2))

abbrev ended : Pool
ended = or_start (run job_seven_fails to_the_end (start 2))

program : Unit {0}
unfolding run start
program = tt

ended-returned : ended.returned ≡ none ∷ none ∷ some 1 ∷ []
unfolding program
ended-returned = refl

ended-ran : ended.ran ≡ 7 ∷ 5 ∷ []
unfolding program
ended-ran = refl

run-all_ran_example : count 5 ended.ran ≡ count 5 ended.accepted
unfolding program
run-all_ran_example = run-all_ran job_seven_fails 2 to_the_end ended refl refl 5

run-can_complete_example :
    (more : List Event) × (q : Pool) × (run job_seven_fails more stopped ≡ some q)
    × (q.completed ≡ true)
unfolding program
run-can_complete_example = run-can_complete job_seven_fails 2 both_busy stopped refl refl
