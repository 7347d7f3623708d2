-- ===== src/Commands.antt =====
-- services/command.go: the command that controls one service, its environment, and the program that
-- is run for it. The machine is an argument, `Host`, over a state `S`: the calls of packages os, exec,
-- net, process and json that the code makes. What an operation sets the states of tasks to is kept as a
-- list of updates. A call that panics is a fault of its own.
pub mod Environment
pub mod Load
pub mod Build
pub mod Checks
pub mod Ports
pub mod Launch
pub mod Lifecycle
pub mod Guarded
pub mod Status
pub mod Restore
pub mod Updates
pub mod Untouched
pub mod Started
mod Samples
use edward.Base.{
  ℕ, Bool, true, false, Option, none, some, List, [], ◌∷◌, ◌++◌, Result, ok, err, if◌then◌else◌,
}
use edward.Base.Text.{Text}
use edward.Services.{ServiceConfig, ContextOverride}
use edward.Tracker.{TaskState}
use edward.Locks.{Paths, Disk, LockError}

pub record ServiceCommand : Type 0 where
  pub service : ServiceConfig
  pub pid : ℕ
  pub config_file : Text
  pub edward_version : Text
  pub overrides : ContextOverride

-- `exec.Cmd`, as far as it is filled in.
pub record Exec : Type 0 where
  pub program : Text
  pub args : List Text
  pub dir : Option Text
  pub env : List Text

pub record Connection : Type 0 where
  pub is_listening : Bool
  pub port : ℕ
  pub pid : ℕ

-- The check that `waitUntilLive` makes, by the first kind of launch check that is configured.
pub data Check : Type 0 where
  has_text : Text → Check
  listening : List ℕ → Check
  delay : ℕ → Check
  any_port : Check

-- What one round of a loop that waits sees: the channel that cancels it, or what it asked for.
pub data Look : Type 0 where
  cancelled : Look
  seen : Result Text (List Connection) → Look

pub data LogLook : Type 0 where
  log_cancelled : LogLook
  log_closed : LogLook
  log_text : Text → LogLook

-- A process with its children; a call of `Children` that fails yields none.
mutual
  pub data Process : Type 0 where
    process : ℕ → Processes → Process

  pub data Processes : Type 0 where
    no_more : Processes
    next : Process → Processes → Processes

pub data PortLook : Type 0 where
  port_cancelled : PortLook
  port_seen : Result Text (List Connection) → Result Text Process → PortLook

-- What `select` finds first.
pub data First : Type 0 where
  check_ended : First
  process_ended : First
  timer_ended : First

-- What there is to see for the checks of a service that was started, and what ends first.
pub record Watched : Type 0 where
  pub log : Result Text (List LogLook)
  pub looks : List Look
  pub port_looks : List PortLook
  pub first : First

pub record LogLine : Type 0 where
  pub stream : Text
  pub message : Text

pub record Host (S : Type 0) : Type 0 where
  pub paths : Paths
  pub version : Text
  pub locks : S → Disk
  pub exists : Text → S → Bool
  pub read_file : Text → S → Result Text Text
  pub write_file : Text → Text → S → Option Text × S
  pub remove : Text → S → S
  pub getwd : S → Result Text Text
  pub getenv : Text → Text
  pub environ : List Text
  pub expand : (Text → Text) → Text → Text
  pub atoi : Text → Result Text ℕ
  pub marshal : ServiceCommand → Text
  pub unmarshal : Text → ServiceCommand → ServiceCommand
  pub decode_line : Text → Result Text LogLine
  pub scan_lines : Text → List Text × Option Text
  pub pid_exists : ℕ → S → Result Text Bool × S
  pub cmdline : ℕ → S → Result Text Text
  pub interrupt : ℕ → S → Option Text × S
  pub get_pgid : ℕ → S → Result Text ℕ × S
  pub run : Exec → S → Option Text × S
  pub combined_output : Exec → S → (Text × Option Text) × S
  pub start : Exec → S → Result Text ℕ × S
  pub connections : S → Result Text (List Connection)
  pub watch : Check → ℕ → S → Watched × S
  pub http_get : Text → S → Option Text × S
  pub itoa : ℕ → Text

pub data Fault : Type 0 where
  failed : Text → Fault
  locked : LockError → Fault
  panicked : Fault

abbrev pub TaskPath : Type 0
TaskPath = List Text

pub record Update : Type 0 where
  pub task : TaskPath
  pub state : TaskState
  pub messages : List Text

-- The machine, and the updates of tasks so far.
pub record World (S : Type 0) : Type 0 where
  pub machine : S
  pub updates : List Update

abbrev pub M : Type 0 → Type 0 → Type 0
M S A = World S → Result Fault A × World S

module _ {S : Type 0} where
  abbrev pub pure : {A : Type 0} → A → M S A
  pure a w = (ok a, w)

  abbrev pub fail : {A : Type 0} → Fault → M S A
  fail e w = (err e, w)

  abbrev pub after :
      {A B : Type 0} → (A → M S B) → Result Fault A × World S → Result Fault B × World S
  after f (ok a, w) = f a w
  after f (err e, w) = (err e, w)

  infixl 5 ◌>>=◌ ◌>>◌
  abbrev pub ◌>>=◌ : {A B : Type 0} → M S A → (A → M S B) → M S B
  ◌>>=◌ m f w = after f (m w)

  abbrev pub ◌>>◌ : {B : Type 0} → M S Unit → M S B → M S B
  m >> k = m >>= λ _. k

  abbrev pub set_state : TaskPath → TaskState → List Text → M S Unit
  set_state t state messages w = (
    ok tt,
    record w {
      updates = w.updates ++ record { task = t; state = state; messages = messages } ∷ [];
    },
  )

  -- A call of the machine.
  abbrev pub call : {A : Type 0} → (S → A × S) → M S A
  call f w = let (a, s) = f w.machine in (ok a, record w { machine = s })

  abbrev pub look : {A : Type 0} → (S → A) → M S A
  look f w = (ok (f w.machine), w)

  abbrev pub change : (S → S) → M S Unit
  change f w = (ok tt, record w { machine = f w.machine })

  -- `if err != nil { return err }`
  abbrev pub or_fail : {A : Type 0} → Result Text A → M S A
  or_fail (ok a) = pure a
  or_fail (err e) = fail (failed e)

  abbrev pub no_error : Option Text → M S Unit
  no_error none = pure tt
  no_error (some e) = fail (failed e)
