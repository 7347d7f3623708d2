-- ===== src/Locks.antt =====
-- services/serviceconfig.go: the lock of a service, a file beside its state file. Encoding the lock
-- as JSON is left out: a file holds a lock, or cannot be read, or cannot be decoded. In a run each
-- operation is one step; that ObtainLock looks first and writes later is seen in its two parts.
pub mod Exclusion
mod Samples
use edward.Base.{
  ℕ, Bool, true, false, Option, none, some, List, [], ◌∷◌, ◌++◌, Result, ok, err, if◌then◌else◌,
  ◌==◌,
}
use edward.Base.Text.{Text, codes, text_eq}
use edward.Base.Maps.{Map, lookup, put, remove}
use edward.Services.{ServiceConfig}

-- The directories of home/home.go, package path, and the name that getStateBase makes of the hash of
-- the configuration file.
pub record Paths : Type 0 where
  pub state_dir : Text
  pub log_dir : Text
  pub pid_dir : Text
  pub script_dir : Text
  pub join : Text → Text → Text
  pub digest : Text → Text

pub record LockState : Type 0 where
  pub reason : Text
  pub token : Text

pub data LockFile : Type 0 where
  holds : LockState → LockFile
  unreadable : Text → LockFile
  undecodable : Text → LockFile

pub data LockError : Type 0 where
  read_error : Text → LockError
  decode_error : Text → LockError
  service_locked : Text → LockError
  write_error : Text → LockError
  nothing_to_remove : LockError

-- `getStateBase` and the paths made from it.
unfoldable pub get_state_base : Paths → ServiceConfig → Text
get_state_base paths c =
    paths.join paths.state_dir (paths.digest c.config_file ++ (codes "." ++ c.name))

unfoldable pub get_state_path : Paths → ServiceConfig → Text
unfolding get_state_base
get_state_path paths c = get_state_base paths c ++ codes ".state"

unfoldable pub get_lock_path : Paths → ServiceConfig → Text
unfolding get_state_base
get_lock_path paths c = get_state_base paths c ++ codes ".lock"

unfoldable pub get_pid_path_legacy : Paths → ServiceConfig → Text
get_pid_path_legacy paths c = paths.join paths.pid_dir (c.name ++ codes ".pid")

unfoldable pub get_run_log : Paths → ServiceConfig → Text
get_run_log paths c = paths.join paths.log_dir (c.name ++ codes ".log")

abbrev pub Disk : Type 0
Disk = Map LockFile

-- `checkLock`, on the file that is found, for a service with the token `own`.
unfoldable pub check_file : Text → Option LockFile → Option LockError
check_file own none = none
check_file own (some (unreadable e)) = some (read_error e)
check_file own (some (undecodable e)) = some (decode_error e)
check_file own (some (holds ls)) =
    if text_eq ls.token own then none else some (service_locked ls.reason)

-- `createLock`: `failure` is the error of the write, with what it leaves in the file.
abbrev pub WriteFailure : Type 0
WriteFailure = Option (Text × LockFile)

abbrev pub with_token : Text → ServiceConfig → ServiceConfig
with_token token c = record c { lock_token = token }

abbrev pub locked_copy :
    Text → ServiceConfig → Option LockError × Disk → Result LockError ServiceConfig × Disk
locked_copy token c (some e, d) = (err e, d)
locked_copy token c (none, d) = (ok (with_token token c), d)

abbrev pub remove_file : Text → Disk → Option LockFile → Option LockError × Disk
remove_file path d none = (some nothing_to_remove, d)
remove_file path d (some file) = (none, remove path d)

module _ (paths : Paths) where
  unfoldable pub check_lock : ServiceConfig → Disk → Option LockError
  unfolding check_file lookup
  check_lock c d = check_file c.lock_token (lookup (get_lock_path paths c) d)

  unfoldable pub create_lock :
      WriteFailure → Text → Text → ServiceConfig → Disk → Option LockError × Disk
  unfolding put
  create_lock none reason token c d =
      (none, put (get_lock_path paths c) (holds (record { reason = reason; token = token })) d)
  create_lock (some (e, file)) reason token c d =
      (some (write_error e), put (get_lock_path paths c) file d)

  abbrev pub unless_locked :
      WriteFailure
      → Text
      → Text
      → ServiceConfig
      → Disk
      → Option LockError
      → Result LockError ServiceConfig × Disk
  unless_locked failure reason token c d (some e) = (err e, d)
  unless_locked failure reason token c d none =
      locked_copy token c (create_lock failure reason token c d)

  -- `ObtainLock`, with the random token it draws. The copy that it returns is the one to unlock.
  unfoldable pub obtain_lock :
      WriteFailure → Text → Text → ServiceConfig → Disk → Result LockError ServiceConfig × Disk
  unfolding check_lock create_lock
  obtain_lock failure reason token c d = unless_locked failure reason token c d (check_lock c d)

  abbrev pub remove_unless : ServiceConfig → Disk → Option LockError → Option LockError × Disk
  remove_unless c d (some e) = (some e, d)
  remove_unless c d none = remove_file (get_lock_path paths c) d (lookup (get_lock_path paths c) d)

  -- `deleteLock`
  unfoldable pub delete_lock : ServiceConfig → Disk → Option LockError × Disk
  unfolding check_lock remove lookup
  delete_lock c d = remove_unless c d (check_lock c d)

-- Processes that work on one service, each with the token that it draws: one obtains the lock, or
-- calls the function that unlocks, be it a second time.
pub data LockEvent : Type 0 where
  obtain : (process : ℕ) → (reason : Text) → Option (Text × LockFile) → LockEvent
  unlock : (process : ℕ) → LockEvent

pub record LockRun : Type 0 where
  pub disk : Disk
  pub holders : List ℕ

abbrev pub drop_process : ℕ → List ℕ → List ℕ
drop_process p [] = []
drop_process p (q ∷ qs) = let rest = drop_process p qs in if p == q then rest else q ∷ rest

module _ (paths : Paths) (c : ServiceConfig) (token_of : ℕ → Text) where
  abbrev pub now_held : ℕ → List ℕ → Result LockError ServiceConfig × Disk → LockRun
  now_held p held (ok copy, d) = record { disk = d; holders = p ∷ held }
  now_held p held (err e, d) = record { disk = d; holders = held }

  abbrev pub now_free : ℕ → List ℕ → Option LockError × Disk → LockRun
  now_free p held (none, d) = record { disk = d; holders = drop_process p held }
  now_free p held (some e, d) = record { disk = d; holders = held }

  unfoldable pub lock_step : LockEvent → LockRun → LockRun
  unfolding obtain_lock delete_lock
  lock_step (obtain p reason failure) r =
      now_held p r.holders (obtain_lock paths failure reason (token_of p) c r.disk)
  lock_step (unlock p) r =
      now_free p r.holders (delete_lock paths (with_token (token_of p) c) r.disk)

  unfoldable pub lock_run : List LockEvent → LockRun → LockRun
  unfolding lock_step
  lock_run [] r = r
  lock_run (e ∷ es) r = lock_run es (lock_step e r)
