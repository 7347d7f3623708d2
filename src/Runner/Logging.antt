-- ===== src/Runner/Logging.antt =====
-- `Log` of runner/logging.go, which writes the log of a service, and what `Run` of runner/runner.go does
-- before it starts the service.
use edward.Base.{ℕ, Option, none, some, List, [], ◌∷◌, ◌++◌, Result, ok, err, length, if◌then◌else◌}
use edward.Base.Text.{Text, codes}
use edward.Base.Maps.{Map, lookup}
use edward.Services.{ServiceConfig, is_nonempty}
use edward.Generators.Matches.{trim_space}
use edward.Client.Logs.{LogLine}

-- A `Log` and the machine: encoding a line, and writing bytes to the file of the log, with the count
-- and the error that this returns.
pub record LogFile (W : Type 0) : Type 0 where
  pub name : Text
  pub stream : Text
  pub marshal : LogLine → Result Text Text
  pub write_bytes : Text → W → (ℕ × Option Text) × W

module _ {W : Type 0} (file : LogFile W) where
  abbrev pub log_line : ℕ → Text → LogLine
  log_line now p = record {
    name = file.name;
    time = now;
    stream = file.stream;
    message = trim_space p;
  }

  abbrev pub written_count : Text → (ℕ × Option Text) × W → (ℕ × Option Text) × W
  written_count p ((count, none), w) = ((length p, none), w)
  written_count p ((count, some e), w) =
      ((count, some (codes "could not write log line: " ++ e)), w)

  -- `Write`, at a time.
  unfoldable pub write : ℕ → Text → W → (ℕ × Option Text) × W
  write now p w = elim (file.marshal (log_line now p)) [
    | ok json ↦ written_count p (file.write_bytes (json ++ 10 ∷ []) w)
    | err e ↦ ((0, some (codes "could not prepare log line: " ++ e)), w)
  ]

  unfoldable pub write_each : List (ℕ × Text) → W → W
  unfolding write
  write_each [] w = w
  write_each ((now, p) ∷ ps) w = write_each ps (write now p w).1

-- Changing to the directory of the service, and removing and creating its log.
pub record Setup (W : Type 0) : Type 0 where
  pub chdir : Text → W → Option Text × W
  pub remove_log : ServiceConfig → W → W
  pub create_log : ServiceConfig → W → Option Text × W

module _ {W : Type 0} (setup : Setup W) where
  abbrev pub created : ServiceConfig → Option Text × W → Result Text ServiceConfig × W
  created s (none, w) = (ok s, w)
  created s (some e, w) = (err e, w)

  -- `configureLogs`
  unfoldable pub configure_logs : ServiceConfig → W → Result Text ServiceConfig × W
  configure_logs s w = created s (setup.create_log s (setup.remove_log s w))

  unfoldable pub find_service : Map ServiceConfig → List Text → W → Result Text ServiceConfig × W
  unfolding configure_logs lookup
  find_service services [] w = (err (codes "a service name is required"), w)
  find_service services (name ∷ names) w = elim (lookup name services) [
    | none ↦ (err (codes "service not found"), w)
    | some s ↦ configure_logs s w
  ]

  abbrev pub and_find :
      Map ServiceConfig → List Text → Option Text × W → Result Text ServiceConfig × W
  and_find services args (none, w) = find_service services args w
  and_find services args (some e, w) = (err e, w)

  -- `Run` up to the start of the service.
  unfoldable pub prepare : Text → Map ServiceConfig → List Text → W → Result Text ServiceConfig × W
  unfolding is_nonempty find_service
  prepare working_dir services args w =
      and_find services args
        (if is_nonempty working_dir then setup.chdir working_dir w else (none, w))
