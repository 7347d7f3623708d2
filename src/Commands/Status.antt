-- ===== src/Commands/Status.antt =====
-- `Status` of services/serviceconfig.go, with getPorts, doGetPorts and getLogCounts.
pub mod Listed
mod Samples
use edward.Base.{
  ℕ, zero, suc, ◌+◌, ◌/◌, ◌≤◌, ◌≡◌, refl, ap, Bool, true, false, not, ◌&&◌, ◌||◌, Option, none,
  some, List, [], ◌∷◌, ◌++◌, Result, ok, err, if◌then◌else◌, ◌==◌, map, length, any, any-append,
  arith,
}
use edward.Base.Text.{Text, codes, has_prefix, text_eq}
use edward.Services.{ServiceConfig, LaunchChecks}
use edward.Locks.{get_run_log}
use edward.Commands.{
  ServiceCommand, Connection, Process, process, Processes, no_more, next, Host, World, M, pure,
  fail, after, ◌>>=◌, ◌>>◌, look, or_fail,
}
use edward.Commands.Load.{no_overrides, get_command}
use edward.Commands.Ports.{is_in, pids, all_pids}

pub data RunState : Type 0 where
  is_stopped : RunState
  is_running : RunState

-- `StartTime` is in seconds.
pub record ServiceStatus : Type 0 where
  pub service : ServiceConfig
  pub status : RunState
  pub pid : ℕ
  pub start_time : ℕ
  pub ports : List Text
  pub stdout_count : ℕ
  pub stderr_count : ℕ

-- What Status asks of a process, and the decoding of a line of the log into a stream that is kept from
-- the line before: whether it succeeded, and the stream after it.
pub record Inspect (S : Type 0) : Type 0 where
  pub find_process : ℕ → S → Result Text Process
  pub create_time : Process → S → Result Text ℕ
  pub decode_stream : Text → Text → Bool × Text

abbrev pub configured_ports : ServiceConfig → List ℕ
configured_ports c = elim c.launch_checks [ none ↦ [] | some checks ↦ checks.ports ]

-- The ports on which one process listens, without those that are configured.
unfoldable pub own_ports : List ℕ → ℕ → List Connection → List ℕ
own_ports known pid [] = []
own_ports known pid (c ∷ cs) =
    let rest = own_ports known pid cs in
    if c.is_listening && ((c.pid == pid) && not (is_in c.port known)) then c.port ∷ rest else rest

-- `doGetPorts`, on the connections that the cache holds.
unfoldable mutual
  unfolding own_ports

  pub tree_ports : List ℕ → List Connection → Process → List ℕ
  tree_ports known cs (process pid ps) = own_ports known pid cs ++ trees_ports known cs ps

  pub trees_ports : List ℕ → List Connection → Processes → List ℕ
  trees_ports known cs no_more = []
  trees_ports known cs (next p ps) = tree_ports known cs p ++ trees_ports known cs ps

-- `connectionsCache`
abbrev pub Cache : Type 0
Cache = List Connection

-- The loop of `getLogCounts`, with the stream of the line before.
unfoldable pub count_streams : (Text → Text → Bool × Text) → Text → List Text → ℕ × ℕ
unfolding text_eq
count_streams decode stream [] = (0, 0)
count_streams decode stream (line ∷ lines) =
    let (decoded, stream') = decode stream line in
    let (out, errors) = count_streams decode stream' lines in
    if not decoded
    then (out, errors)
    else if text_eq stream' (codes "stdout")
    then (suc out, errors)
    else if text_eq stream' (codes "stderr")
    then (out, suc errors)
    else (out, errors)

module _ {S : Type 0} (host : Host S) (inspect : Inspect S) where
  abbrev pub fill_cache : Cache → S → Result Text Cache
  fill_cache [] s = host.connections s
  fill_cache (c ∷ cs) s = ok (c ∷ cs)

  -- `getPorts`
  unfoldable pub get_ports : ServiceConfig → Process → Cache → List Text
  unfolding tree_ports
  get_ports c p cache =
      map host.itoa (tree_ports (configured_ports c) cache p ++ configured_ports c)

  abbrev pub counted : Result Text Text → ℕ × ℕ
  counted (err e) = (0, 0)
  counted (ok text) = count_streams inspect.decode_stream [] (host.scan_lines text).0

  -- `getLogCounts`
  unfoldable pub get_log_counts : ServiceConfig → S → ℕ × ℕ
  unfolding count_streams get_run_log
  get_log_counts c s = counted (host.read_file (get_run_log host.paths c) s)

  abbrev pub stopped_status : ServiceConfig → ServiceStatus
  stopped_status c = record {
    service = c;
    status = is_stopped;
    pid = 0;
    start_time = 0;
    ports = [];
    stdout_count = 0;
    stderr_count = 0;
  }

  abbrev pub running_status : ServiceCommand → Process → ℕ → Cache → S → ServiceStatus
  running_status cmd p ms cache s = record {
    service = cmd.service;
    status = is_running;
    pid = cmd.pid;
    start_time = ms / 1000;
    ports = get_ports cmd.service p cache;
    stdout_count = (get_log_counts cmd.service s).0;
    stderr_count = (get_log_counts cmd.service s).1;
  }

  abbrev pub ported :
      ServiceCommand
      → Process
      → ℕ
      → S
      → Result Text Cache
      → Result Text (List ServiceStatus × Cache)
  ported cmd p ms s (err e) = err e
  ported cmd p ms s (ok cache) = ok (running_status cmd p ms cache s ∷ [], cache)

  -- A process that is gone by now makes the call of `CreateTime` end with an exit status.
  abbrev pub timed :
      ServiceCommand
      → Process
      → Cache
      → S
      → Result Text ℕ
      → Result Text (List ServiceStatus × Cache)
  timed cmd p cache s (err e) =
      if has_prefix e (codes "exit status")
      then ok (stopped_status cmd.service ∷ [], cache)
      else err e
  timed cmd p cache s (ok ms) = ported cmd p ms s (fill_cache cache s)

  abbrev pub found :
      ServiceCommand → Cache → S → Result Text Process → Result Text (List ServiceStatus × Cache)
  found cmd cache s (err e) = err e
  found cmd cache s (ok p) = timed cmd p cache s (inspect.create_time p s)

  abbrev pub status_of : ServiceCommand → Cache → ℕ → S → Result Text (List ServiceStatus × Cache)
  status_of cmd cache zero s = ok (stopped_status cmd.service ∷ [], cache)
  status_of cmd cache (suc pid) s = found cmd cache s (inspect.find_process (suc pid) s)

  -- `Status`, with the cache of the connections.
  unfoldable pub service_status : Cache → ServiceConfig → M S (List ServiceStatus × Cache)
  unfolding get_command has_prefix get_ports get_log_counts
  service_status cache c = do
    cmd ← get_command host c no_overrides
    answer ← look (status_of cmd cache cmd.pid)
    or_fail answer
