-- ===== src/Client/Samples.antt =====
-- Three services, of which the second cannot be started, and the theorems at them. The state is the
-- list of the names that were operated on.
use edward.Base.{◌≡◌, refl, true, false, none, some, List, [], ◌∷◌, ◌++◌, ok}
use edward.Base.Text.{Text, codes, text_eq}
use edward.Services.{OperationConfig, is_nonempty}
use edward.Client.{
  Outcome, Target, Session, Client, at_least_one, ask_for_confirmation, read_answer, start_each,
  start, stop, stop_each, restart, restart_all,
}
use edward.Client.Reported.{restart-error}

abbrev Seen : Type 0
Seen = List Text

abbrev works : Text → OperationConfig → Seen → Outcome Seen
works name cfg w = (none, w ++ name ∷ [])

abbrev fails : Text → OperationConfig → Seen → Outcome Seen
fails name cfg w = (some (codes "no such command"), w ++ name ∷ [])

abbrev target : Text → (Text → OperationConfig → Seen → Outcome Seen) → Target Seen
target name op = record {
  name = name;
  launch = op name;
  start = op name;
  stop = op name;
  restart = op name;
  is_up = λ w. (ok 1, w);
}

abbrev web : Target Seen
web = target (codes "web") works

abbrev api : Target Seen
api = target (codes "api") fails

abbrev db : Target Seen
db = target (codes "db") works

abbrev session : Session Seen
session = record {
  get_services_or_groups = λ names. ok (web ∷ api ∷ db ∷ []);
  all_sorted = api ∷ db ∷ web ∷ [];
  service_map = web ∷ api ∷ db ∷ [];
  pid_of = λ s w. 1;
  new_pool = λ n w. w;
  finish_pool = λ w. w;
  follower_done = λ w. w;
  follow_logs = λ names w. (none, w);
}

abbrev client : Client Seen
client = record {
  service_checks = none;
  edward_executable = codes "edward";
  disable_concurrent_phases = true;
  is_child = [];
  trim_lower = λ line. line;
}

program : Unit {0}
unfolding is_nonempty text_eq read_answer ask_for_confirmation start_each start stop stop_each
    restart restart_all
program = tt

start-three :
    start session client (codes "all" ∷ []) false false false [] []
    ≡ (some (codes "Error launching api: no such command"), codes "web" ∷ codes "api" ∷ [])
unfolding program
start-three = refl

-- One of the services fails to restart, after the answer `y`.
restart-error_example :
    (restart session client [] false false true false [] (codes "maybe" ∷ codes "y" ∷ []) []).0
    ≡ some at_least_one
unfolding program
restart-error_example =
    restart-error session client false false true false [] (codes "maybe" ∷ codes "y" ∷ []) []
