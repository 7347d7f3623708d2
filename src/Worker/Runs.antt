-- ===== src/Worker/Runs.antt =====
-- Whole runs of a pool of worker/pool.go.
use edward.Base.{
  ℕ, zero, suc, ◌+◌, ◌<◌, ◌≡◌, refl, ◌⊎◌, inl, inr, true, false, Option, some, List, [], ◌∷◌, ◌++◌,
  Bool-cases, arith, length, any,
}
use edward.Worker.{
  Job, JobError, Worker, idle, running, leaving, gone, Pool, Event, job_ends, leave, report,
  complete, worker_at, set_worker, start, keep_err, is_some, step, run,
}
use edward.Worker.Invariant.{
  count, sum_of, is_gone, sum_of-set, runs-add-gone-le, fails, Inv, run-Inv, step-Inv, start-Inv,
}

-- What is left for a worker to do once `jobs` is closed.
abbrev work : Worker → ℕ
work idle = 2
work (running j) = 3
work leaving = 1
work gone = 0

all_gone_or_working :
    (ws : List Worker)
    → (sum_of is_gone ws ≡ length ws)
      ⊎ ((i : ℕ) × (w : Worker) × (worker_at ws i ≡ some w) × (0 < work w))
unfolding worker_at
all_gone_or_working [] = inl refl
all_gone_or_working (idle ∷ ws) = inr (0, idle, refl, omega arith)
all_gone_or_working (running j ∷ ws) = inr (0, running j, refl, omega arith)
all_gone_or_working (leaving ∷ ws) = inr (0, leaving, refl, omega arith)
all_gone_or_working (gone ∷ ws) = elim (all_gone_or_working ws) [
  | inl e ↦ inl (omega (arith, e))
  | inr (i, w, e, l) ↦ inr (suc i, w, e, l)
]

module _ (outcome : Job → Option JobError) where
  -- When `Complete` reports, each job that `Enqueue` took has been run exactly as often as it was
  -- taken, in whatever order the goroutines acted, and also after jobs that failed.
  pub run-all_ran :
      (n : ℕ) (es : List Event) (q : Pool)
      → run outcome es (start n) ≡ some q
      → q.completed ≡ true
      → (j : Job) → count j q.ran ≡ count j q.accepted
  run-all_ran n es q h done j =
      let v = run-Inv outcome es (start n) (start-Inv outcome n) h in
      ground
        (arith, v.conserved j, v.reported, v.sized, v.all_done done, runs-add-gone-le j q.workers)

  -- At each moment of a run of a pool with workers, it holds an error exactly if a job that was run
  -- to its end has failed.
  pub run-is_some :
      (n : ℕ) (es : List Event) (q : Pool)
      → run outcome es (start n) ≡ some q
      → 0 < q.size
      → is_some q.pool_err ≡ any (fails outcome) q.ran
  run-is_some n es q h l = (run-Inv outcome es (start n) (start-Inv outcome n) h).recorded l

  -- One step of a worker that is not gone.
  worker-progress :
      (p : Pool) (i : ℕ) (w : Worker)
      → worker_at p.workers i ≡ some w
      → 0 < work w
      → p.closed ≡ true
      → (e : Event) × (q : Pool) × (step outcome e p ≡ some q)
        × (q.closed ≡ true)
        × (q.completed ≡ p.completed)
        × (sum_of work q.workers < sum_of work p.workers)
  unfolding step
  worker-progress p i idle e l c =
      let q : Pool = record p { workers = set_worker p.workers i leaving } in
      (
        leave i,
        q,
        ground arith,
        c,
        refl,
        ground (arith, sum_of-set work p.workers i idle leaving e),
      )
  worker-progress p i (running j) e l c =
      let q : Pool = record p {
        workers = set_worker p.workers i idle;
        pool_err = keep_err (outcome j) p.pool_err;
        ran = p.ran ++ j ∷ [];
      } in
      (
        job_ends i,
        q,
        ground arith,
        c,
        refl,
        ground (arith, sum_of-set work p.workers i (running j) idle e),
      )
  worker-progress p i leaving e l c =
      let q : Pool = record p {
        workers = set_worker p.workers i gone;
        finished = p.finished + 1;
      } in
      (
        report i,
        q,
        ground arith,
        c,
        refl,
        ground (arith, sum_of-set work p.workers i leaving gone e),
      )
  worker-progress p i gone e l c = absurd (omega (arith, l))

  -- On fuel, that the steps left for the workers bound.
  drain :
      (fuel : ℕ) (p : Pool)
      → sum_of work p.workers < fuel
      → Inv outcome p
      → p.closed ≡ true
      → p.completed ≡ false
      → (es : List Event) × (q : Pool) × (run outcome es p ≡ some q) × (q.completed ≡ true)
  unfolding run step
  drain zero p l v c o = absurd (omega (arith, l))
  drain (suc fuel) p l v c o = elim (all_gone_or_working p.workers) [
    | inl a ↦
        (complete ∷ [], record p { completed = true }, ground (arith, v.reported, v.sized), refl)
    | inr (i, w, at, busy) ↦
        let (e, q, made, still, same, less) = worker-progress p i w at busy c in
        let (es, r, rest, done) =
          drain fuel q (omega (arith, l, less)) (step-Inv outcome e p v made) still cc in
        (e ∷ es, r, ground (arith, made, rest), done)
  ]

  -- A pool that was stopped can always finish: whatever has happened before, there are further steps
  -- of its goroutines after which `Complete` reports.
  pub run-can_complete :
      (n : ℕ) (es : List Event) (p : Pool)
      → run outcome es (start n) ≡ some p
      → p.closed ≡ true
      → (more : List Event) × (q : Pool) × (run outcome more p ≡ some q) × (q.completed ≡ true)
  unfolding run
  run-can_complete n es p h c = elim (Bool-cases p.completed) [
    | inl o ↦ ([], p, refl, o)
    | inr o ↦
        drain (suc (sum_of work p.workers)) p (omega arith)
          (run-Inv outcome es (start n) (start-Inv outcome n) h) c o
  ]
