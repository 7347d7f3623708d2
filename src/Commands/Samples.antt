-- ===== src/Commands/Samples.antt =====
-- A small machine: files by their paths, and the process 7, which runs `web`; and the theorems at it.
use edward.Base.{
  ℕ, ◌⊎◌, ◌≡◌, refl, ap, Bool, true, false, Option, none, some, List, [], ◌∷◌, ◌++◌, Result, ok,
  err, ◌==◌,
}
use edward.Base.Text.{Text, codes, text_eq, text_eq_refl, has_prefix, has_substring}
use edward.Base.Maps.{Map, lookup, put, remove, lookup-put}
use edward.Services.{
  unmarshal_service, validate, ServiceConfig, OperationConfig, ContextOverride, is_excluded,
  is_nonempty,
}
use edward.Services.Fixtures.{a_service, exclude_nothing}
use edward.Locks.{
  Paths, Disk, check_lock, get_lock_path, get_state_path, get_pid_path_legacy, get_run_log,
}
use edward.Commands.{ServiceCommand, Host, Connection, Watched, check_ended, World}
use edward.Commands.Environment.{getenv, find_value, last_value, launch_env, drop}
use edward.Commands.Load.{load_service_command, get_command, get_command_and_error, save}
use edward.Commands.Ports.{has_port, any_port_open, owns_port, listening_ports}
use edward.Commands.Checks.{configured, unmarshal_service-select_check}
use edward.Commands.Launch.{select_check, start_async, stop_service, start_task}
use edward.Commands.Lifecycle.{build_service, launch_service, start_service, restart_service}
use edward.Commands.Guarded.{restart_service-excluded, fresh}
use edward.Commands.Updates.{is_closed}
use edward.Commands.Started.{start_async-is_closed}
use edward.Commands.Restore.{IsLive, get_command_and_error-IsChecked, load_service_command-save}

pub record Toy : Type 0 where
  pub files : Map Text
  pub locks : Disk

abbrev paths : Paths
paths = record {
  state_dir = codes "state";
  log_dir = codes "logs";
  pid_dir = codes "pid";
  script_dir = codes "scripts";
  join = λ d p. d ++ (47 ∷ p);
  digest = λ f. f;
}

abbrev is_there : Option Text → Bool
is_there none = false
is_there (some text) = true

abbrev or_missing : Option Text → Result Text Text
or_missing none = err (codes "no such file")
or_missing (some text) = ok text

abbrev with_first : Text → ServiceCommand → ServiceCommand
with_first [] base = base
with_first (x ∷ text) base = record base {
  pid = x;
  service = record base.service { commands = record base.service.commands { launch = text } };
}

abbrev nothing_seen : Watched
nothing_seen = record { log = ok []; looks = []; port_looks = []; first = check_ended }

-- Each program that is started becomes the process 7, and opens no port.
abbrev pub toy : Host Toy
toy = record {
  paths = paths;
  version = codes "1.8";
  locks = λ s. s.locks;
  exists = λ path s. is_there (lookup path s.files);
  read_file = λ path s. or_missing (lookup path s.files);
  write_file = λ path text s. (none, record s { files = put path text s.files });
  remove = λ path s. record s { files = remove path s.files };
  getwd = λ s. ok (codes "/home");
  getenv = λ key. [];
  environ = [];
  expand = λ value text. text;
  atoi = λ text. err (codes "invalid syntax");
  marshal = λ c. c.pid ∷ c.service.commands.launch;
  unmarshal = with_first;
  decode_line = λ text. err (codes "invalid character");
  scan_lines = λ text. ([], none);
  pid_exists = λ pid s. (ok (pid == 7), s);
  cmdline = λ pid s. ok (codes "edward run web");
  interrupt = λ pid s. (none, s);
  get_pgid = λ pid s. (ok pid, s);
  run = λ exec s. (none, s);
  combined_output = λ exec s. (([], none), s);
  start = λ exec s. (ok 7, s);
  connections = λ s. ok [];
  watch = λ check pid s. (nothing_seen, s);
  http_get = λ url s. (none, s);
  itoa = λ n. n ∷ [];
}

abbrev web : ServiceConfig
web = a_service (codes "web")

abbrev no_more_env : ContextOverride
no_more_env = record { env = [] }

abbrev stopped : ServiceCommand
stopped = record {
  service = web;
  pid = 0;
  config_file = [];
  edward_version = [];
  overrides = no_more_env;
}

abbrev pub running : ServiceCommand
running = record stopped { pid = 7 }

abbrev pub empty : World Toy
empty = record { machine = record { files = []; locks = [] }; updates = [] }

program : Unit {0}
unfolding text_eq lookup put remove is_excluded is_nonempty start_async stop_service save
    load_service_command get_command get_command_and_error check_lock get_lock_path get_state_path
    get_pid_path_legacy get_run_log has_substring any_port_open has_port owns_port listening_ports
    getenv find_value last_value launch_env drop has_prefix build_service launch_service
    start_service restart_service
program = tt

-- The process opens no port, so that waitUntilLive gives up, and reading the log fails.
start_async-is_closed_example :
    is_closed
      (start_task toy [] stopped)
      (start_async toy exclude_nothing [] stopped empty).1.updates
    ≡ true
unfolding program
start_async-is_closed_example = start_async-is_closed toy exclude_nothing [] stopped empty refl

-- The same where the process has written a log, without an error: StartAsync returns none either.
abbrev logged : Host Toy
logged = record toy {
  start = λ exec s. (ok 7, record s { files = put (get_run_log paths web) [] s.files });
}

start_async-logged : (start_async logged exclude_nothing [] stopped empty).0 ≡ ok tt
unfolding program
start_async-logged = refl

abbrev exclude_web : OperationConfig
exclude_web = record exclude_nothing { exclusions = codes "web" ∷ []; skip_build = true }

restart_service-excluded_example :
    restart_service toy (λ m. m) exclude_web web no_more_env [] empty
    ≡ start_async toy exclude_web [] (fresh toy web no_more_env) empty
unfolding program
restart_service-excluded_example =
    restart_service-excluded toy (λ m. m) exclude_web web no_more_env [] empty refl refl refl refl

abbrev saved : World Toy
saved = (save toy running empty).1

toy-disk :
    (path text : Text) (s s' : Toy)
    → toy.write_file path text s ≡ (none, s')
    → (toy.exists path s' ≡ true) × (toy.read_file path s' ≡ ok text)
toy-disk path text s s' e =
    let found : lookup path s'.files ≡ some text =
      rw⁻¹ (ap (λ r. r.1) e) (rw (lookup-put path path text s.files) (rw (text_eq_refl path))) in
    (rw found, rw found)

-- The service's command line was changed after it was started.
abbrev changed : ServiceConfig
changed = record web { commands = record web.commands { launch = codes "run faster" } }

-- The process 7 is found to run.
get_command_and_error-IsChecked_example : ◌≡◌ {A = ℕ} 7 0 ⊎ IsLive toy (codes "web") 7
unfolding program
get_command_and_error-IsChecked_example = get_command_and_error-IsChecked toy web no_more_env saved

load_service_command-save_example :
    load_service_command toy changed no_more_env saved
    ≡ (ok (record running { edward_version = codes "1.8" }, none), saved)
unfolding program
load_service_command-save_example =
    load_service_command-save toy running changed no_more_env empty saved (codes "edward run web")
      toy-disk (record { pid = refl; config_file = refl; overrides = refl; service_name = refl })
      refl (λ p. cc) refl refl refl refl refl

abbrev sockets : List Connection
sockets =
    record { is_listening = false; port = 80; pid = 7 }
    ∷ record { is_listening = true; port = 8080; pid = 8 }
    ∷ []

-- The group sets a key that the service sets too.
abbrev doubled : ServiceCommand
doubled = record stopped {
  service = record web { env = codes "PORT=1" ∷ [] };
  overrides = record { env = codes "PORT=2" ∷ [] };
}

-- A service whose port comes from its launch checks.
abbrev pub on_port : ServiceConfig
on_port = record web {
  launch_checks = some (record { log_text = []; ports = 8080 ∷ []; wait = 0 });
}

unmarshal_service-select_check_example :
    configured (select_check on_port.launch_checks)
    ≡ record { log_text = []; ports = 8080 ∷ []; wait = 0 }
unfolding program unmarshal_service validate
unmarshal_service-select_check_example =
    unmarshal_service-select_check none on_port
      (record { log_text = []; ports = 8080 ∷ []; wait = 0 }) refl refl
