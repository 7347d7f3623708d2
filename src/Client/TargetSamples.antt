-- ===== src/Client/TargetSamples.antt =====
-- A group, whose second service fails, and a service: what `edward restart` and `edward stop` call, and
-- the theorems on it. The state is the list of the names that were operated on.
use edward.Base.{◌≡◌, refl, true, false, none, some, List, [], ◌∷◌, ◌++◌, ok, if◌then◌else◌}
use edward.Base.Text.{Text, codes, text_eq}
use edward.Services.{ServiceConfig, OperationConfig, is_nonempty}
use edward.Services.Fixtures.{a_service}
use edward.Groups.{Member, service, group, Group, node, nil, Operation}
use edward.Groups
use edward.Client.{
  Session, Client, restart, restart_services, restart_each, stop, stop_each, read_answer,
  ask_for_confirmation,
}
use edward.Client.Targets.{Calls, target_of, targets_of, member_plan, members_plan}
use edward.Client.Performed.{restart-perform, stop-perform_each}

abbrev Seen : Type 0
Seen = List Text

abbrev seen : OperationConfig → ServiceConfig → Operation Text Seen
seen cfg s o t w =
    if text_eq s.name (codes "db") then (some (codes "no"), w) else (none, w ++ s.name ∷ [])

abbrev calls : Calls Seen
calls = record {
  launch = seen;
  start = seen;
  stop = seen;
  restart = seen;
  status = λ s w. (ok [], w);
  child_task = λ t name w. w ++ name ∷ [];
}

abbrev both : Group
both =
    node (record { name = codes "all"; aliases = []; description = []; child_order = []; env = [] })
      (a_service (codes "api") ∷ a_service (codes "db") ∷ a_service (codes "ui") ∷ []) nil

abbrev members : List Member
members = group both ∷ service (a_service (codes "web")) ∷ []

abbrev session : Session Seen
session = record {
  get_services_or_groups = λ names. ok (targets_of calls members);
  all_sorted = [];
  service_map = [];
  pid_of = λ s w. 0;
  new_pool = λ n w. w ++ codes "pool" ∷ [];
  finish_pool = λ w. w ++ codes "end" ∷ [];
  follower_done = λ w. w;
  follow_logs = λ names w. (none, w ++ names);
}

abbrev client : Client Seen
client = record {
  service_checks = none;
  edward_executable = codes "edward";
  disable_concurrent_phases = false;
  is_child = [];
  trim_lower = λ line. line;
}

abbrev names : List Text
names = codes "web" ∷ []

program : Unit {0}
unfolding is_nonempty text_eq read_answer ask_for_confirmation restart restart_services restart_each
    stop stop_each target_of targets_of member_plan members_plan Groups.stop Groups.launch
    Groups.start
program = tt

-- The error of `db` ends the operation on its group, and for a restart that on `web` as well.
restart-perform_example :
    restart session client (codes "all" ∷ names) true false true false [] [] []
    ≡ (some (codes "no"), codes "pool" ∷ codes "all" ∷ codes "api" ∷ codes "end" ∷ [])
unfolding program
restart-perform_example =
    restart-perform calls session client (codes "all") names members [] [] refl refl true false true
      false [] []

stop-perform_each_example :
    stop session client (codes "all" ∷ names) true [] [] []
    ≡ (none, codes "pool" ∷ codes "all" ∷ codes "api" ∷ codes "web" ∷ codes "end" ∷ [])
unfolding program
stop-perform_each_example =
    stop-perform_each calls session client (codes "all") names members [] [] refl refl true [] []
