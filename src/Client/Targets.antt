-- ===== src/Client/Targets.antt =====
-- The services and groups that the commands of edward/start.go, edward/stop.go and edward/restart.go
-- operate on: `ServiceOrGroup` of services/services.go, whose implementations are those of a service and
-- of services/groupconfig.go. The operations of a service are arguments.
use edward.Base.{ℕ, zero, suc, List, [], ◌∷◌, ◌++◌, Result, ok, err}
use edward.Base.Text.{Text, codes}
use edward.Services.{ServiceConfig, OperationConfig, ContextOverride}
use edward.Groups.{Member, service, group, Group, group_info, Operation, TaskPath, ask_group}
use edward.Groups
use edward.Groups.Plans.{Call, serve, stop_plan}
use edward.Commands.Status.{ServiceStatus, RunState, is_stopped, is_running}
use edward.Client.{Target}

pub record Calls (W : Type 0) : Type 0 where
  pub launch : OperationConfig → ServiceConfig → Operation Text W
  pub start : OperationConfig → ServiceConfig → Operation Text W
  pub stop : OperationConfig → ServiceConfig → Operation Text W
  pub restart : OperationConfig → ServiceConfig → Operation Text W
  pub status : ServiceConfig → W → Result Text (List ServiceStatus) × W
  pub child_task : TaskPath → Text → W → W

-- `services.ContextOverride{}`, which each command passes.
abbrev pub no_override : ContextOverride
no_override = record { env = [] }

abbrev pub child_not_found : Text → Text
child_not_found name = codes "Child not found: " ++ name

abbrev pub one_if_up : RunState → ℕ → ℕ
one_if_up is_stopped n = n
one_if_up is_running n = suc n

abbrev pub count_up : List ServiceStatus → ℕ
count_up [] = zero
count_up (st ∷ sts) = one_if_up st.status (count_up sts)

module _ {W : Type 0} (calls : Calls W) where
  abbrev pub ups : Result Text (List ServiceStatus) × W → Result Text ℕ × W
  ups (err e, w) = (err e, w)
  ups (ok sts, w) = (ok (count_up sts), w)

  -- The operations are called with the root of the task.
  unfoldable pub target_of : Member → Target W
  unfolding Groups.launch Groups.start Groups.stop ask_group
  target_of (service s) = record {
    name = s.name;
    launch = λ cfg. calls.launch cfg s no_override [];
    start = λ cfg. calls.start cfg s no_override [];
    stop = λ cfg. calls.stop cfg s no_override [];
    restart = λ cfg. calls.restart cfg s no_override [];
    is_up = λ w. ups (calls.status s w);
  }
  target_of (group g) = record {
    name = (group_info g).name;
    launch = λ cfg. Groups.launch cfg calls.child_task (calls.launch cfg) g no_override [];
    start =
        λ cfg. Groups.start cfg calls.child_task child_not_found (calls.start cfg) g no_override [];
    stop = λ cfg. Groups.stop cfg calls.child_task (calls.stop cfg) g no_override [];
    restart = λ cfg. Groups.restart cfg calls.child_task (calls.restart cfg) g no_override [];
    is_up = λ w. ups (ask_group calls.status g w);
  }

  unfoldable pub targets_of : List Member → List (Target W)
  unfolding target_of
  targets_of [] = []
  targets_of (m ∷ ms) = target_of m ∷ targets_of ms

-- The calls that `Stop` and `Restart` of a service or group come down to.
unfoldable pub member_plan : OperationConfig → Member → List Call
unfolding stop_plan
member_plan cfg (service s) = serve s no_override [] ∷ []
member_plan cfg (group g) = stop_plan cfg no_override [] g

unfoldable pub members_plan : OperationConfig → List Member → List Call
unfolding member_plan
members_plan cfg [] = []
members_plan cfg (m ∷ ms) = member_plan cfg m ++ members_plan cfg ms
