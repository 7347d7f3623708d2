-- ===== src/Groups/Samples.antt =====
-- A group with a service and a group below it, and the theorems at it. The world of these tests is
-- the list of the names that were started or stopped.
use mathlib.Core.List.{Perm}
use edward.Base.{
  ◌≡◌, refl, Bool, true, false, none, some, List, [], ◌∷◌, ◌++◌, Result, ok, if◌then◌else◌,
}
use edward.Base.Text.{Text, codes, text_eq}
use edward.Services.{ServiceConfig, ContextOverride}
use edward.Groups.{
  Group, GroupInfo, node, nil, cons, TaskPath, Operation, build, launch, stop, start, is_sudo_group,
  count_services, group, service, ask_group,
}
use edward.Groups.Plans.{Call, stop_plan, perform}
use edward.Groups.Refinement.{stop-perform}
use edward.Groups.Queries.{exclude_nothing, launch-stop}
use edward.Groups.Starts.{failed, start-failed}

abbrev a_service : Text → Bool → ServiceConfig
a_service name sudo = record {
  name = name;
  aliases = [];
  description = [];
  path = none;
  requires_sudo = sudo;
  commands = record { build = []; launch = []; stop = [] };
  launch_checks = none;
  env = [];
  platform = [];
  watch_json = [];
  warmup = none;
  config_file = [];
  lock_token = [];
}

abbrev info_of : Text → List Text → GroupInfo
info_of name children = record {
  name = name;
  aliases = [];
  description = [];
  child_order = children;
  env = name ∷ [];
}

abbrev databases : Group
databases = node (info_of (codes "dbs") (codes "sql" ∷ [])) (a_service (codes "sql") true ∷ []) nil

-- `win` was skipped for its platform: it is in the order of the children only.
abbrev all_info : GroupInfo
all_info = info_of (codes "all") (codes "api" ∷ codes "dbs" ∷ codes "win" ∷ [])

abbrev everything : Group
everything = node all_info (a_service (codes "api") false ∷ []) (cons databases nil)

abbrev no_overrides : ContextOverride
no_overrides = record { env = [] }

abbrev Log : Type 0
Log = List Text

abbrev log_task : TaskPath → Text → Log → Log
log_task t name log = log

abbrev log_service : ServiceConfig → Operation Text Log
log_service c o t log = (none, log ++ c.name ∷ o.env)

-- Only `api` can be run.
abbrev only_api : ServiceConfig → Operation Text Log
only_api c o t log =
    if text_eq c.name (codes "api") then (none, log ++ c.name ∷ []) else (some c.name, log)

abbrev ask_name : ServiceConfig → Log → Result Text (List Text) × Log
ask_name c log = (ok (c.name ∷ []), log)

program : Unit {0}
unfolding text_eq build launch stop start is_sudo_group count_services ask_group
program = tt

-- The environments of the groups above a service come first to last.
stopped-log :
    stop exclude_nothing log_task log_service everything no_overrides [] []
    ≡ (none, codes "api" ∷ codes "all" ∷ codes "sql" ∷ codes "all" ∷ codes "dbs" ∷ [])
unfolding program
stopped-log = refl

launched-error :
    launch exclude_nothing log_task only_api everything no_overrides [] []
    ≡ (some (codes "sql"), [])
unfolding program
launched-error = refl

started-error :
    start exclude_nothing log_task (λ n. n) only_api everything no_overrides [] []
    ≡ (some (codes "sql"), codes "api" ∷ [])
unfolding program
started-error = refl

counted : count_services (group everything ∷ service (a_service (codes "web") false) ∷ []) ≡ 3
unfolding program
counted = refl

stop-perform_example :
    stop exclude_nothing log_task only_api everything no_overrides [] []
    ≡ perform log_task only_api (stop_plan exclude_nothing no_overrides [] everything) []
stop-perform_example = stop-perform log_task only_api exclude_nothing everything no_overrides [] []

launch-stop_example :
    (xs : List Call) × (ys : List Call) × Perm xs ys
    × ((s : Log)
        → launch exclude_nothing log_task only_api everything no_overrides [] s
          ≡ perform log_task only_api xs s)
    × ((s : Log)
        → stop exclude_nothing log_task only_api everything no_overrides [] s
          ≡ perform log_task only_api ys s)
launch-stop_example = launch-stop exclude_nothing log_task only_api no_overrides [] everything

start-failed_example :
    failed (start exclude_nothing log_task (λ n. n) log_service everything no_overrides [] [])
    ≡ true
unfolding program
start-failed_example =
    start-failed exclude_nothing log_task (λ n. n) log_service all_info
      (a_service (codes "api") false ∷ []) (cons databases nil) no_overrides [] [] (codes "win")
      refl refl refl refl
