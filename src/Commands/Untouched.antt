-- ===== src/Commands/Untouched.antt =====
-- Which tasks the steps of services/command.go leave alone: `doStop` and the warmup set the state of no
-- task but their own.
use edward.Base.{
  ◌≡◌, refl, ap, ◌∙◌, Bool, true, false, Option, none, some, List, [], ◌∷◌, ◌++◌, Result, ok, err,
  if◌then◌else◌,
}
use edward.Base.Text.{Text, codes}
use edward.Services.{ServiceConfig, ContextOverride, OperationConfig, is_excluded, is_nonempty}
use edward.Tracker.{TaskState, in_progress, success, warning}
use edward.Processes.Settled.{is_final}
use edward.Processes.{stop_command}
use edward.Commands.{
  ServiceCommand, Host, Fault, Update, World, TaskPath, M, pure, after, ◌>>=◌, ◌>>◌, set_state,
  call,
}
use edward.Commands.Load.{ensure_unlocked, get_command}
use edward.Commands.Build.{warmup_run, warmup_error}
use edward.Commands.Launch.{
  stop_service, stop_loaded, stop_launched, stop_task, as_updates, later, system,
}
use edward.Commands.Updates.{
  last_state, last_state-append, path_eq, path_eq_refl, is_closed, is_closed_state, IsQuiet,
  ensure_unlocked-IsQuiet, get_command-IsQuiet,
}

-- An update of one task, as `set_state` makes it.
abbrev an_update : TaskPath → TaskState → List Text → Update
an_update t state messages = record { task = t; state = state; messages = messages }

last_state-set :
    (us : List Update) (job : TaskPath) (state : TaskState) (messages : List Text)
    → last_state job (us ++ an_update job state messages ∷ []) ≡ some state
unfolding last_state
last_state-set us job state messages =
    rw (last_state-append job us (an_update job state messages ∷ [])) (rw (path_eq_refl job))

last_state-other :
    (us : List Update) (job t : TaskPath) (state : TaskState) (messages : List Text)
    → path_eq t job ≡ false
    → last_state job (us ++ an_update t state messages ∷ []) ≡ last_state job us
unfolding last_state
last_state-other us job t state messages h =
    rw (last_state-append job us (an_update t state messages ∷ [])) (rw h)

module _ {S : Type 0} (host : Host S) where
  last_state-as_updates :
      (job t : TaskPath) (states : List (TaskState × List Text))
      → path_eq t job ≡ false
      → last_state job (as_updates host t states) ≡ none
  unfolding last_state
  last_state-as_updates job t [] h = refl
  last_state-as_updates job t (s ∷ states) h = rw (last_state-as_updates job t states h) (rw h)

  -- The step does not set the state of the task.
  abbrev pub Leaves : {A : Type 0} → TaskPath → M S A → Type 0
  Leaves job m = (w : World S) → last_state job (m w).1.updates ≡ last_state job w.updates

  abbrev pub Closes : {A : Type 0} → TaskPath → M S A → Type 0
  Closes job m = (w : World S) → is_closed job (m w).1.updates ≡ true

  module _ {A B : Type 0} (job : TaskPath) (f : A → M S B) where
    after-Leaves :
        (r : Result Fault A × World S)
        → ((a : A) → Leaves job (f a))
        → last_state job (after f r).1.updates ≡ last_state job r.1.updates
    after-Leaves (ok a, w) q = q a w
    after-Leaves (err e, w) q = refl

    after-closed :
        (r : Result Fault A × World S)
        → ((a : A) → Leaves job (f a))
        → is_closed job r.1.updates ≡ true
        → is_closed job (after f r).1.updates ≡ true
    after-closed r q h = ap is_closed_state (after-Leaves r q) ∙ h

  module _ {A B : Type 0} (job : TaskPath) (m : M S A) (f : A → M S B) where
    pub bind-Leaves : Leaves job m → ((a : A) → Leaves job (f a)) → Leaves job (m >>= f)
    bind-Leaves p q w = after-Leaves job f (m w) q ∙ p w

    pub bind-Closes : Closes job m → ((a : A) → Leaves job (f a)) → Closes job (m >>= f)
    bind-Closes p q w = after-closed job f (m w) q (p w)

  pub quiet-Leaves : {A : Type 0} → (job : TaskPath) (m : M S A) → IsQuiet m → Leaves job m
  quiet-Leaves job m q w = ap (last_state job) (q w)

  pub set-Leaves :
      (job t : TaskPath) (state : TaskState) (messages : List Text)
      → path_eq t job ≡ false
      → Leaves job (set_state t state messages)
  set-Leaves job t state messages h w = last_state-other w.updates job t state messages h

  pub set-Closes :
      (job : TaskPath) (state : TaskState) (messages : List Text)
      → is_final state ≡ true
      → Closes job (set_state job state messages)
  set-Closes job state messages h w = rw (last_state-set w.updates job state messages) h

  if-Leaves :
      {A : Type 0}
      → (job : TaskPath) (b : Bool) (m n : M S A) → Leaves job m
      → Leaves job n
      → Leaves job (if b then m else n)
  if-Leaves job true m n p q = p
  if-Leaves job false m n p q = q

  stop_loaded-Leaves :
      (cfg : OperationConfig) (c : ServiceConfig) (cmd : ServiceCommand) (t job : TaskPath)
      → path_eq t job ≡ false
      → Leaves job (stop_loaded host cfg c t cmd)
  unfolding stop_loaded
  stop_loaded-Leaves cfg c cmd t job h w =
      let states = later host (stop_command (system host cfg c) (ok cmd.pid) w.machine).states in
      rw (last_state-append job w.updates (as_updates host t states))
        (rw (last_state-as_updates job t states h))

  -- `doStop` sets the state of no other task than its own.
  pub stop_service-Leaves :
      (cfg : OperationConfig) (c : ServiceConfig) (o : ContextOverride) (t job : TaskPath)
      → path_eq (stop_task host t c) job ≡ false
      → Leaves job (stop_service host cfg c o t)
  unfolding stop_service
  stop_service-Leaves cfg c o t job h =
      if-Leaves job (is_excluded cfg c.name) (pure c) _ (λ w. refl)
        (bind-Leaves job (ensure_unlocked host c)
          (λ _. if is_nonempty c.commands.launch then stop_launched host cfg c o t else pure c)
          (quiet-Leaves job (ensure_unlocked host c) (ensure_unlocked-IsQuiet host c))
          (λ _.
            if-Leaves job (is_nonempty c.commands.launch) (stop_launched host cfg c o t) (pure c)
              (bind-Leaves job (set_state (stop_task host t c) in_progress [])
                (λ _. get_command host c o >>= λ cmd.
                  (stop_loaded host cfg cmd.service (stop_task host t c) cmd >> pure cmd.service))
                (set-Leaves job (stop_task host t c) in_progress [] h)
                (λ _.
                  bind-Leaves job (get_command host c o)
                    (λ cmd.
                      stop_loaded host cfg cmd.service (stop_task host t c) cmd >> pure cmd.service)
                    (quiet-Leaves job (get_command host c o) (get_command-IsQuiet host c o))
                    (λ cmd.
                      bind-Leaves job (stop_loaded host cfg cmd.service (stop_task host t c) cmd)
                        (λ _. pure cmd.service)
                        (stop_loaded-Leaves cfg cmd.service cmd (stop_task host t c) job h)
                        (λ _ w. refl))))
              (λ w. refl)))

  warmup_error-Leaves :
      (t job : TaskPath) (e : Option Text)
      → path_eq t job ≡ false
      → Leaves job (warmup_error host t e)
  warmup_error-Leaves t job none h w = refl
  warmup_error-Leaves t job (some e) h w = set-Leaves job t warning (e ∷ []) h w

  warmup_end-Leaves :
      (t job : TaskPath) (url : Text)
      → path_eq t job ≡ false
      → Leaves job
          (call (host.http_get url) >>= λ e. (warmup_error host t e >> set_state t success []))
  warmup_end-Leaves t job url h =
      bind-Leaves job (call (host.http_get url))
        (λ e. warmup_error host t e >> set_state t success []) (λ w. refl)
        (λ e.
          bind-Leaves job (warmup_error host t e) (λ _. set_state t success [])
            (warmup_error-Leaves t job e h) (λ _. set-Leaves job t success [] h))

  pub warmup_run-Leaves :
      (name : Text) (url : Option Text) (t job : TaskPath)
      → path_eq (t ++ name ∷ codes "Warmup" ∷ []) job ≡ false
      → Leaves job (warmup_run host name url t)
  unfolding warmup_run
  warmup_run-Leaves name none t job h w = refl
  warmup_run-Leaves name (some url) t job h w =
      bind-Leaves job (set_state (t ++ name ∷ codes "Warmup" ∷ []) in_progress [])
        (λ _. call (host.http_get url) >>= λ e.
          (warmup_error host (t ++ name ∷ codes "Warmup" ∷ []) e
            >> set_state (t ++ name ∷ codes "Warmup" ∷ []) success []))
        (set-Leaves job (t ++ name ∷ codes "Warmup" ∷ []) in_progress [] h)
        (λ _. warmup_end-Leaves (t ++ name ∷ codes "Warmup" ∷ []) job url h) w
