-- ===== src/Worker.antt =====
-- worker/pool.go: a pool of goroutines that run jobs. Each event is one atomic step of one
-- goroutine, and a list of events is an interleaving. `jobs` has no buffer, so a job is handed from
-- `Enqueue` to a worker in one step; between the check of the error and this step others may act.
-- `none` is a step that cannot be taken: its goroutine waits, or (a send on `jobs` after `Stop`, or
-- a second `Stop`) the program would panic.
pub mod Invariant
pub mod Runs
mod Samples
use edward.Base.{
  ℕ, zero, suc, ◌+◌, Bool, true, false, not, ◌&&◌, ◌||◌, Option, none, some, List, [], ◌∷◌, ◌++◌,
  ltb, ◌==◌, if◌then◌else◌,
}

abbrev pub Job : Type 0
Job = ℕ

abbrev pub JobError : Type 0
JobError = ℕ

-- A goroutine of `worker`: at the receive, in a job, at the send on `finished`, or ended.
pub data Worker : Type 0 where
  idle : Worker
  running : Job → Worker
  leaving : Worker
  gone : Worker

-- `accepted` and `ran` are the jobs that `Enqueue` took and that were run to their end, `returned`
-- what the calls of `Enqueue` returned, `sending` the job of the call that is at its send.
pub record Pool : Type 0 where
  pub size : ℕ
  pub workers : List Worker
  pub pool_err : Option JobError
  pub sending : Option Job
  pub closed : Bool
  pub finished : ℕ
  pub completed : Bool
  pub accepted : List Job
  pub ran : List Job
  pub returned : List (Option JobError)

pub data Event : Type 0 where
  enqueue : Job → Event
  hand_over : (worker : ℕ) → Event
  job_ends : (worker : ℕ) → Event
  stop : Event
  leave : (worker : ℕ) → Event
  report : (worker : ℕ) → Event
  complete : Event

unfoldable pub worker_at : List Worker → ℕ → Option Worker
worker_at [] i = none
worker_at (w ∷ ws) zero = some w
worker_at (w ∷ ws) (suc i) = worker_at ws i

unfoldable pub set_worker : List Worker → ℕ → Worker → List Worker
set_worker [] i v = []
set_worker (w ∷ ws) zero v = v ∷ ws
set_worker (w ∷ ws) (suc i) v = w ∷ set_worker ws i v

unfoldable pub idle_workers : ℕ → List Worker
idle_workers zero = []
idle_workers (suc n) = idle ∷ idle_workers n

-- `NewPool` and `Start`
unfoldable pub start : ℕ → Pool
unfolding idle_workers
start n = record {
  size = n;
  workers = idle_workers n;
  pool_err = none;
  sending = none;
  closed = false;
  finished = 0;
  completed = false;
  accepted = [];
  ran = [];
  returned = [];
}

abbrev pub is_some {ℓ} : {A : Type ℓ} → Option A → Bool
is_some none = false
is_some (some a) = true

-- `setErr`, called for an error that is not nil.
abbrev pub keep_err : Option JobError → Option JobError → Option JobError
keep_err none old = old
keep_err (some e) old = some e

module _ (outcome : Job → Option JobError) where
  -- `Enqueue`: with no workers it runs the job itself; after an error it returns that error.
  abbrev pub begin_enqueue : Job → Pool → Option Pool
  begin_enqueue j p =
      if p.size == 0
      then some (record p {
        accepted = p.accepted ++ j ∷ [];
        ran = p.ran ++ j ∷ [];
        returned = p.returned ++ outcome j ∷ [];
      })
      else if is_some p.pool_err
      then some (record p { returned = p.returned ++ p.pool_err ∷ [] })
      else if p.closed || is_some p.sending
      then none
      else some (record p { sending = some j })

  abbrev pub receive : ℕ → Pool → Option Job → Option Worker → Option Pool
  receive i p (some j) (some idle) = some (record p {
    workers = set_worker p.workers i (running j);
    sending = none;
    accepted = p.accepted ++ j ∷ [];
    returned = p.returned ++ none ∷ [];
  })
  receive i p _ _ = none

  abbrev pub end_job : ℕ → Pool → Option Worker → Option Pool
  end_job i p (some (running j)) = some (record p {
    workers = set_worker p.workers i idle;
    pool_err = keep_err (outcome j) p.pool_err;
    ran = p.ran ++ j ∷ [];
  })
  end_job i p _ = none

  -- The `range` over `jobs` ends once the channel is closed.
  abbrev pub end_loop : ℕ → Pool → Option Worker → Option Pool
  end_loop i p (some idle) =
      if p.closed then some (record p { workers = set_worker p.workers i leaving }) else none
  end_loop i p _ = none

  abbrev pub send_finished : ℕ → Pool → Option Worker → Option Pool
  send_finished i p (some leaving) =
      some (record p { workers = set_worker p.workers i gone; finished = p.finished + 1 })
  send_finished i p _ = none

  unfoldable pub step : Event → Pool → Option Pool
  unfolding worker_at set_worker
  step (enqueue j) p = begin_enqueue j p
  step (hand_over i) p = receive i p p.sending (worker_at p.workers i)
  step (job_ends i) p = end_job i p (worker_at p.workers i)
  step stop p = if p.closed || is_some p.sending then none else some (record p { closed = true })
  step (leave i) p = end_loop i p (worker_at p.workers i)
  step (report i) p = send_finished i p (worker_at p.workers i)
  step complete p =
      if (p.finished == p.size) && not p.completed
      then some (record p { completed = true })
      else none

  abbrev pub run_rest : (Pool → Option Pool) → Option Pool → Option Pool
  run_rest rest none = none
  run_rest rest (some p) = rest p

  unfoldable pub run : List Event → Pool → Option Pool
  unfolding step
  run [] p = some p
  run (e ∷ es) p = run_rest (run es) (step e p)
