-- ===== src/Worker/Invariant.antt =====
-- What holds of a pool of worker/pool.go between two steps.
use edward.Base.{
  ℕ, zero, suc, ◌+◌, ◌≤◌, ◌<◌, ◌≡◌, refl, Bool, true, false, not, ◌&&◌, ◌||◌, Option, none, some,
  List, [], ◌∷◌, ◌++◌, arith, ◌==◌, length, any, any-append, if◌then◌else◌,
}
use mathlib.Core.Path.{subst}
use edward.Worker.{
  Job, JobError, Worker, idle, running, leaving, gone, Pool, Event, enqueue, hand_over, job_ends,
  stop, leave, report, complete, worker_at, set_worker, idle_workers, start, is_some, receive,
  end_job, end_loop, send_finished, step, run_rest, run,
}

abbrev pub count : Job → List Job → ℕ
count j [] = 0
count j (k ∷ ks) = let rest = count j ks in if j == k then suc rest else rest

pub count-append : (j : Job) (xs ys : List Job) → count j (xs ++ ys) ≡ count j xs + count j ys
count-append j [] ys = omega arith
count-append j (x ∷ xs) ys = ground (arith, count-append j xs ys)

abbrev pub sum_of : (Worker → ℕ) → List Worker → ℕ
sum_of f [] = 0
sum_of f (w ∷ ws) = f w + sum_of f ws

-- Whether a worker is in the job `j`, or has reported its end.
abbrev pub runs : Job → Worker → ℕ
runs j (running k) = if j == k then 1 else 0
runs j _ = 0

abbrev pub is_gone : Worker → ℕ
is_gone gone = 1
is_gone _ = 0

pub sum_of-set :
    (f : Worker → ℕ) (ws : List Worker) (i : ℕ) (old new : Worker)
    → worker_at ws i ≡ some old
    → sum_of f (set_worker ws i new) + f old ≡ sum_of f ws + f new
unfolding worker_at set_worker
sum_of-set f [] i old new h = cc
sum_of-set f (w ∷ ws) zero old new h = ground arith
sum_of-set f (w ∷ ws) (suc i) old new h = omega (arith, sum_of-set f ws i old new h)

pub length-set_worker :
    (ws : List Worker) (i : ℕ) (v : Worker) → length (set_worker ws i v) ≡ length ws
unfolding set_worker
length-set_worker [] i v = refl
length-set_worker (w ∷ ws) zero v = refl
length-set_worker (w ∷ ws) (suc i) v = omega (arith, length-set_worker ws i v)

pub runs-add-gone-le :
    (j : Job) (ws : List Worker) → sum_of (runs j) ws + sum_of is_gone ws ≤ length ws
runs-add-gone-le j [] = omega arith
runs-add-gone-le j (idle ∷ ws) = omega (arith, runs-add-gone-le j ws)
runs-add-gone-le j (running k ∷ ws) = ground (arith, runs-add-gone-le j ws)
runs-add-gone-le j (leaving ∷ ws) = omega (arith, runs-add-gone-le j ws)
runs-add-gone-le j (gone ∷ ws) = omega (arith, runs-add-gone-le j ws)

some_injective : {p q : Pool} → some p ≡ some q → p ≡ q
some_injective e = cc

module _ (outcome : Job → Option JobError) where
  abbrev pub fails : Job → Bool
  fails j = is_some (outcome j)

  -- A job that was accepted is being run by one worker or was run; the ends that were received are
  -- those of the workers that are gone; the error says whether a job that a worker ran has failed.
  pub record Inv (p : Pool) : Type 0 where
    pub conserved : (j : Job) → count j p.accepted ≡ count j p.ran + sum_of (runs j) p.workers
    pub reported : p.finished ≡ sum_of is_gone p.workers
    pub sized : length p.workers ≡ p.size
    pub all_done : p.completed ≡ true → p.finished ≡ p.size
    pub recorded : 0 < p.size → is_some p.pool_err ≡ any fails p.ran

  either-Inv :
      (b : Bool) {x y : Option Pool} {q : Pool}
      → (b ≡ true → x ≡ some q → Inv q)
      → (b ≡ false → y ≡ some q → Inv q)
      → (if b then x else y) ≡ some q
      → Inv q
  either-Inv true f g h = f refl h
  either-Inv false f g h = g refl h

  receive-Inv :
      (i : ℕ) (p : Pool) (s : Option Job) (w : Option Worker) {q : Pool}
      → Inv p
      → worker_at p.workers i ≡ w
      → receive outcome i p s w ≡ some q
      → Inv q
  receive-Inv i p none w v e h = cc
  receive-Inv i p (some k) none v e h = cc
  receive-Inv i p (some k) (some idle) v e h = subst Inv (some_injective h) record {
    conserved = λ j. ground (
      arith,
      v.conserved j,
      count-append j p.accepted (k ∷ []),
      sum_of-set (runs j) p.workers i idle (running k) e,
    );
    reported = ground (arith, v.reported, sum_of-set is_gone p.workers i idle (running k) e);
    sized = ground (arith, v.sized, length-set_worker p.workers i (running k));
    all_done = v.all_done;
    recorded = v.recorded;
  }
  receive-Inv i p (some k) (some (running l)) v e h = cc
  receive-Inv i p (some k) (some leaving) v e h = cc
  receive-Inv i p (some k) (some gone) v e h = cc

  end_job-Inv :
      (i : ℕ) (p : Pool) (w : Option Worker) {q : Pool}
      → Inv p
      → worker_at p.workers i ≡ w
      → end_job outcome i p w ≡ some q
      → Inv q
  end_job-Inv i p none v e h = cc
  end_job-Inv i p (some (running k)) v e h = subst Inv (some_injective h) record {
    conserved = λ j. ground (
      arith,
      v.conserved j,
      count-append j p.ran (k ∷ []),
      sum_of-set (runs j) p.workers i (running k) idle e,
    );
    reported = ground (arith, v.reported, sum_of-set is_gone p.workers i (running k) idle e);
    sized = ground (arith, v.sized, length-set_worker p.workers i idle);
    all_done = v.all_done;
    recorded = λ l. ground (arith, v.recorded l, any-append fails p.ran (k ∷ []));
  }
  end_job-Inv i p (some idle) v e h = cc
  end_job-Inv i p (some leaving) v e h = cc
  end_job-Inv i p (some gone) v e h = cc

  end_loop-Inv :
      (i : ℕ) (p : Pool) (w : Option Worker) {q : Pool}
      → Inv p
      → worker_at p.workers i ≡ w
      → end_loop outcome i p w ≡ some q
      → Inv q
  end_loop-Inv i p none v e h = cc
  end_loop-Inv i p (some (running k)) v e h = cc
  end_loop-Inv i p (some idle) v e h =
      either-Inv p.closed
        (λ c g. subst Inv (some_injective g) record {
          conserved =
              λ j. ground (arith, v.conserved j, sum_of-set (runs j) p.workers i idle leaving e);
          reported = ground (arith, v.reported, sum_of-set is_gone p.workers i idle leaving e);
          sized = ground (arith, v.sized, length-set_worker p.workers i leaving);
          all_done = v.all_done;
          recorded = v.recorded;
        })
        (λ c g. cc) h
  end_loop-Inv i p (some leaving) v e h = cc
  end_loop-Inv i p (some gone) v e h = cc

  send_finished-Inv :
      (i : ℕ) (p : Pool) (w : Option Worker) {q : Pool}
      → Inv p
      → worker_at p.workers i ≡ w
      → send_finished outcome i p w ≡ some q
      → Inv q
  send_finished-Inv i p none v e h = cc
  send_finished-Inv i p (some (running k)) v e h = cc
  send_finished-Inv i p (some idle) v e h = cc
  send_finished-Inv i p (some leaving) v e h = subst Inv (some_injective h) record {
    conserved = λ j. ground (arith, v.conserved j, sum_of-set (runs j) p.workers i leaving gone e);
    reported = ground (arith, v.reported, sum_of-set is_gone p.workers i leaving gone e);
    sized = ground (arith, v.sized, length-set_worker p.workers i gone);
    all_done = λ c. ground (
      arith,
      v.all_done c,
      v.reported,
      v.sized,
      runs-add-gone-le 0 (set_worker p.workers i gone),
      sum_of-set is_gone p.workers i leaving gone e,
      length-set_worker p.workers i gone,
    );
    recorded = v.recorded;
  }
  send_finished-Inv i p (some gone) v e h = cc

  pub step-Inv : (e : Event) (p : Pool) {q : Pool} → Inv p → step outcome e p ≡ some q → Inv q
  unfolding step
  step-Inv (enqueue k) p v h =
      either-Inv (p.size == 0)
        (λ c g. subst Inv (some_injective g) record {
          conserved = λ j. ground (
            arith,
            v.conserved j,
            count-append j p.accepted (k ∷ []),
            count-append j p.ran (k ∷ []),
          );
          reported = v.reported;
          sized = v.sized;
          all_done = v.all_done;
          recorded = λ l. ground arith;
        })
        (λ c.
          either-Inv (is_some p.pool_err)
            (λ d g. subst Inv (some_injective g) record {
              conserved = v.conserved;
              reported = v.reported;
              sized = v.sized;
              all_done = v.all_done;
              recorded = v.recorded;
            })
            (λ d.
              either-Inv (p.closed || is_some p.sending) (λ d' g. cc)
                (λ d' g. subst Inv (some_injective g) record {
                  conserved = v.conserved;
                  reported = v.reported;
                  sized = v.sized;
                  all_done = v.all_done;
                  recorded = v.recorded;
                })))
        h
  step-Inv (hand_over i) p v h = receive-Inv i p p.sending (worker_at p.workers i) v refl h
  step-Inv (job_ends i) p v h = end_job-Inv i p (worker_at p.workers i) v refl h
  step-Inv stop p v h =
      either-Inv (p.closed || is_some p.sending) (λ c g. cc)
        (λ c g. subst Inv (some_injective g) record {
          conserved = v.conserved;
          reported = v.reported;
          sized = v.sized;
          all_done = v.all_done;
          recorded = v.recorded;
        })
        h
  step-Inv (leave i) p v h = end_loop-Inv i p (worker_at p.workers i) v refl h
  step-Inv (report i) p v h = send_finished-Inv i p (worker_at p.workers i) v refl h
  step-Inv complete p v h =
      either-Inv ((p.finished == p.size) && not p.completed)
        (λ c g. subst Inv (some_injective g) record {
          conserved = v.conserved;
          reported = v.reported;
          sized = v.sized;
          all_done = λ d. ground arith;
          recorded = v.recorded;
        })
        (λ c g. cc) h

  pub run-Inv : (es : List Event) (p : Pool) {q : Pool} → Inv p → run outcome es p ≡ some q → Inv q
  unfolding run
  run-Inv [] p v h = subst Inv (some_injective h) v
  run-Inv (e ∷ es) p {q} v h = after (λ p' v'. run-Inv es p' v') (step outcome e p) refl h
    where
      after :
          ((p' : Pool) → Inv p' → run outcome es p' ≡ some q → Inv q)
          → (r : Option Pool) → step outcome e p ≡ r
          → run_rest outcome (run outcome es) r ≡ some q
          → Inv q
      after rest none m h' = cc
      after rest (some p') m h' = rest p' (step-Inv e p v m) h'

  sum_of-idle_workers : (f : Worker → ℕ) → f idle ≡ 0 → (n : ℕ) → sum_of f (idle_workers n) ≡ 0
  unfolding idle_workers
  sum_of-idle_workers f z zero = refl
  sum_of-idle_workers f z (suc n) = omega (arith, z, sum_of-idle_workers f z n)

  length-idle_workers : (n : ℕ) → length (idle_workers n) ≡ n
  unfolding idle_workers
  length-idle_workers zero = refl
  length-idle_workers (suc n) = omega (arith, length-idle_workers n)

  pub start-Inv : (n : ℕ) → Inv (start n)
  unfolding start idle_workers
  start-Inv n = record {
    conserved = λ j. omega (arith, sum_of-idle_workers (runs j) refl n);
    reported = omega (arith, sum_of-idle_workers is_gone refl n);
    sized = length-idle_workers n;
    all_done = λ e. cc;
    recorded = λ l. refl;
  }
