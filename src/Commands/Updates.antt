-- ===== src/Commands/Updates.antt =====
-- The states of tasks that the operations of services/command.go leave behind: what the last update of
-- a task says, and which steps make none.
use edward.Base.{
  ℕ, zero, suc, ◌≡◌, refl, sym, ◌∙◌, Bool, true, false, ◌&&◌, Option, none, some, List, [], ◌∷◌,
  ◌++◌, Result, ok, err, if◌then◌else◌, arith,
}
use edward.Base.Text.{Text, has_substring, text_eq, text_eq_refl}
use edward.Services.{ServiceConfig, ContextOverride, merge}
use edward.Tracker.{TaskState}
use edward.Processes.{int32}
use edward.Processes.Settled.{is_final}
use edward.Commands.{
  ServiceCommand, Host, Fault, Update, World, TaskPath, M, pure, after, ◌>>=◌, or_fail,
}
use edward.Commands.Load.{
  clear_state, check_cmdline, check_exists, check_running, check_pid, finish_load, load_legacy,
  load_state, load_service_command, ensure_unlocked, get_command, or_panic, blank_command,
  unless_fault, Loaded, without_state, check_line, get_command_and_error, unless_error,
}
use edward.Locks.{LockError, check_lock, get_pid_path_legacy, get_state_path}

unfoldable pub path_eq : TaskPath → TaskPath → Bool
path_eq [] [] = true
path_eq [] (y ∷ ys) = false
path_eq (x ∷ xs) [] = false
path_eq (x ∷ xs) (y ∷ ys) = text_eq x y && path_eq xs ys

abbrev pub or_state : Option TaskState → Option TaskState → Option TaskState
or_state (some state) other = some state
or_state none other = other

unfoldable pub last_state : TaskPath → List Update → Option TaskState
unfolding path_eq
last_state job [] = none
last_state job (u ∷ us) =
    or_state (last_state job us) (if path_eq u.task job then some u.state else none)

abbrev pub is_closed_state : Option TaskState → Bool
is_closed_state none = true
is_closed_state (some state) = is_final state

-- The task was not touched, or its last state is one of its end.
abbrev pub is_closed : TaskPath → List Update → Bool
is_closed job us = is_closed_state (last_state job us)

or_state_assoc : (a b c : Option TaskState) → or_state (or_state a b) c ≡ or_state a (or_state b c)
or_state_assoc none b c = refl
or_state_assoc (some s) b c = refl

or_state-none : (a : Option TaskState) → or_state a none ≡ a
or_state-none none = refl
or_state-none (some s) = refl

pub last_state-append :
    (job : TaskPath) (us vs : List Update)
    → last_state job (us ++ vs) ≡ or_state (last_state job vs) (last_state job us)
unfolding last_state
last_state-append job [] vs = sym (or_state-none (last_state job vs))
last_state-append job (u ∷ us) vs =
    rw (last_state-append job us vs) (or_state_assoc (last_state job vs) (last_state job us) _)

pub path_eq_refl : (t : TaskPath) → path_eq t t ≡ true
unfolding path_eq
path_eq_refl [] = refl
path_eq_refl (x ∷ t) = ground (arith, text_eq_refl x, path_eq_refl t)

-- Paths that differ after a common start.
pub path_eq-append : (t a b : TaskPath) → path_eq (t ++ a) (t ++ b) ≡ path_eq a b
unfolding path_eq
path_eq-append [] a b = refl
path_eq-append (x ∷ t) a b = ground (arith, text_eq_refl x, path_eq-append t a b)

-- The step leaves the states of tasks alone.
abbrev pub IsQuiet : {S A : Type 0} → M S A → Type 0
IsQuiet m = (w : _) → (m w).1.updates ≡ w.updates

module _ {S : Type 0} {A B : Type 0} where
  after-quiet :
      (f : A → M S B)
      → ((a : A) → IsQuiet (f a))
      → (r : Result Fault A × World S) → (after f r).1.updates ≡ r.1.updates
  after-quiet f q (ok a, w) = q a w
  after-quiet f q (err e, w) = refl

  pub bind-IsQuiet :
      (m : M S A) (f : A → M S B) → IsQuiet m → ((a : A) → IsQuiet (f a)) → IsQuiet (m >>= f)
  bind-IsQuiet m f q k w = after-quiet f k (m w) ∙ q w

if_quiet :
    {S A : Type 0}
    → (us : List Update) (b : Bool) (r r' : Result Fault A × World S) → r.1.updates ≡ us
    → r'.1.updates ≡ us
    → (if b then r else r').1.updates ≡ us
if_quiet us true r r' p q = p
if_quiet us false r r' p q = q

module _ {S : Type 0} (host : Host S) where
  or_fail-IsQuiet :
      {A B : Type 0}
      → (r : Result Text A) (f : A → M S B) → ((a : A) → IsQuiet (f a))
      → IsQuiet (or_fail r >>= f)
  or_fail-IsQuiet (ok a) f k w = k a w
  or_fail-IsQuiet (err e) f k w = refl

  or_panic-IsQuiet :
      {A B : Type 0}
      → (r : Result Text A) (f : A → M S B) → ((a : A) → IsQuiet (f a))
      → IsQuiet (or_panic host r >>= f)
  or_panic-IsQuiet (ok a) f k w = k a w
  or_panic-IsQuiet (err e) f k w = refl

  unless_fault-IsQuiet : (e : Option LockError) → IsQuiet (unless_fault host e)
  unless_fault-IsQuiet none w = refl
  unless_fault-IsQuiet (some e) w = refl

  named-IsQuiet :
      (c : ServiceCommand) (b : Bool) → IsQuiet (if b then pure (c, none) else without_state host c)
  unfolding clear_state
  named-IsQuiet c true w = refl
  named-IsQuiet c false w = refl

  check_line-IsQuiet : (c : ServiceCommand) (r : Result Text Text) → IsQuiet (check_line host c r)
  check_line-IsQuiet c (err e) w = refl
  check_line-IsQuiet c (ok line) w = named-IsQuiet c (has_substring line c.service.name) w

  check_exists-IsQuiet :
      (c : ServiceCommand) (r : Result Text Bool) → IsQuiet (check_exists host c r)
  unfolding check_cmdline clear_state
  check_exists-IsQuiet c (err e) w = refl
  check_exists-IsQuiet c (ok true) w = check_line-IsQuiet c (host.cmdline (int32 c.pid) w.machine) w
  check_exists-IsQuiet c (ok false) w = refl

  check_running-IsQuiet : (c : ServiceCommand) (pid : ℕ) → IsQuiet (check_running host c pid)
  check_running-IsQuiet c zero w = refl
  check_running-IsQuiet c (suc pid) w =
      check_exists-IsQuiet c (host.pid_exists (int32 (suc pid)) w.machine).0
        (record w { machine = (host.pid_exists (int32 (suc pid)) w.machine).1 })

  finish_load-IsQuiet :
      (o : ContextOverride) (cmd : ServiceCommand) → IsQuiet (finish_load host o cmd)
  unfolding finish_load check_pid
  finish_load-IsQuiet o cmd =
      check_running-IsQuiet
        (record cmd { edward_version = host.version; overrides = merge cmd.overrides o }) cmd.pid

  load_legacy-IsQuiet : (c : ServiceConfig) (o : ContextOverride) → IsQuiet (load_legacy host c o)
  load_legacy-IsQuiet c o w =
      or_panic-IsQuiet (host.read_file (get_pid_path_legacy host.paths c) w.machine)
        (λ text. or_panic host (host.atoi text) >>= λ pid.
          finish_load host o (record (blank_command host c) { pid = pid }))
        (λ text.
          or_panic-IsQuiet (host.atoi text)
            (λ pid. finish_load host o (record (blank_command host c) { pid = pid }))
            (λ pid. finish_load-IsQuiet o (record (blank_command host c) { pid = pid })))
        w

  load_state-IsQuiet : (c : ServiceConfig) (o : ContextOverride) → IsQuiet (load_state host c o)
  load_state-IsQuiet c o w =
      or_panic-IsQuiet (host.read_file (get_state_path host.paths c) w.machine)
        (λ text. finish_load host o (host.unmarshal text (blank_command host c)))
        (λ text. finish_load-IsQuiet o (host.unmarshal text (blank_command host c))) w

  load_service_command-IsQuiet :
      (c : ServiceConfig) (o : ContextOverride) → IsQuiet (load_service_command host c o)
  unfolding load_service_command
  load_service_command-IsQuiet c o w =
      if_quiet w.updates (host.exists (get_pid_path_legacy host.paths c) w.machine)
        (load_legacy host c o w)
        (if host.exists (get_state_path host.paths c) w.machine
          then load_state host c o w
          else finish_load host o (blank_command host c) w)
        (load_legacy-IsQuiet c o w)
        (if_quiet w.updates (host.exists (get_state_path host.paths c) w.machine)
          (load_state host c o w) (finish_load host o (blank_command host c) w)
          (load_state-IsQuiet c o w) (finish_load-IsQuiet o (blank_command host c) w))

  pub ensure_unlocked-IsQuiet : (c : ServiceConfig) → IsQuiet (ensure_unlocked host c)
  unfolding ensure_unlocked
  ensure_unlocked-IsQuiet c w =
      unless_fault-IsQuiet (check_lock host.paths c (host.locks w.machine)) w

  unless_error-IsQuiet : (r : Loaded host) → IsQuiet (unless_error host r)
  unless_error-IsQuiet (c, none) w = refl
  unless_error-IsQuiet (c, some e) w = refl

  -- Loading a command leaves the states of tasks alone.
  pub get_command-IsQuiet :
      (c : ServiceConfig) (o : ContextOverride) → IsQuiet (get_command host c o)
  unfolding get_command get_command_and_error
  get_command-IsQuiet c o =
      bind-IsQuiet (get_command_and_error host c o) (unless_error host)
        (bind-IsQuiet (ensure_unlocked host c) (λ _. load_service_command host c o)
          (ensure_unlocked-IsQuiet c) (λ _. load_service_command-IsQuiet c o))
        unless_error-IsQuiet
