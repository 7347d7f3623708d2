-- ===== src/Groups.antt =====
-- services/groupconfig.go: the operations of a group, which run those of its services and of the
-- groups below it. A group's pointers form a tree of groups (initMaps refuses cycles), and a group
-- that is reached twice stands in the tree twice. What a service's operation does to the world is an
-- argument, the interface `ServiceOrGroup` of services/services.go as a group uses it; the state
-- of the world is passed through, also past an error.
pub mod Plans
pub mod Refinement
pub mod Queries
pub mod Starts
mod Samples
use edward.Base.{
  ℕ, zero, suc, ◌+◌, Bool, true, false, ◌||◌, Option, none, some, List, [], ◌∷◌, ◌++◌, Result, ok,
  err, if◌then◌else◌, length,
}
use edward.Base.Text.{Text, text_eq}
use edward.Services.{ServiceConfig, OperationConfig, ContextOverride, is_excluded, merge, is_sudo}

pub record GroupInfo : Type 0 where
  pub name : Text
  pub aliases : List Text
  pub description : Text
  pub child_order : List Text
  pub env : List Text

mutual
  pub data Group : Type 0 where
    node : GroupInfo → List ServiceConfig → Groups → Group

  pub data Groups : Type 0 where
    nil : Groups
    cons : Group → Groups → Groups

abbrev pub group_info : Group → GroupInfo
group_info (node i ss gs) = i

abbrev pub TaskPath : Type 0
TaskPath = List Text

-- The outcome of an operation: its error, if any, and the world after it.
abbrev pub Outcome : Type 0 → Type 0 → Type 0
Outcome E S = Option E × S

-- `if err != nil { return err }`
abbrev pub and_then : {E S : Type 0} → Outcome E S → (S → Outcome E S) → Outcome E S
and_then (some e, s) next = (some e, s)
and_then (none, s) next = next s

-- `getOverrides`
abbrev pub get_overrides : GroupInfo → ContextOverride → ContextOverride
get_overrides i o = merge (record { env = i.env }) o

-- `getChild` among the services.
unfoldable pub find_service : Text → List ServiceConfig → Option ServiceConfig
find_service name [] = none
find_service name (s ∷ ss) =
    let rest = find_service name ss in if text_eq s.name name then some s else rest

abbrev pub Operation : Type 0 → Type 0 → Type 0
Operation E S = ContextOverride → TaskPath → S → Outcome E S

module _ {E S : Type 0} where
  -- The loop over the services of a group.
  unfoldable pub each_service :
      (ServiceConfig → Operation E S)
      → ContextOverride
      → TaskPath
      → List ServiceConfig
      → S
      → Outcome E S
  each_service op o t [] s = (none, s)
  each_service op o t (c ∷ cs) s = and_then (op c o t s) (each_service op o t cs)

  -- `child.Start`, for the first child that `getChild` finds: a group before a service.
  abbrev pub start_child :
      (Text → E)
      → (ServiceConfig → Operation E S)
      → Text
      → Option (Operation E S)
      → Option ServiceConfig
      → Operation E S
  start_child no_child op name (some start_group) found o t s = start_group o t s
  start_child no_child op name none (some c) o t s = op c o t s
  start_child no_child op name none none o t s = (some (no_child name), s)

  unfoldable pub start_in_order : List Text → (Text → S → Outcome E S) → S → Outcome E S
  start_in_order [] child s = (none, s)
  start_in_order (name ∷ names) child s = and_then (child name s) (start_in_order names child)

module _ {E S : Type 0} (cfg : OperationConfig) (child_task : TaskPath → Text → S → S) where
  -- `task.Child(c.GetName())` and the rest of an operation, unless the group is excluded.
  abbrev pub entering : GroupInfo → TaskPath → S → (TaskPath → S → Outcome E S) → Outcome E S
  entering i t s body =
      if is_excluded cfg i.name then (none, s) else body (t ++ i.name ∷ []) (child_task t i.name s)

  -- `Build`: the groups before the services, the overrides as they are given.
  unfoldable mutual
    unfolding is_excluded each_service

    pub build : (ServiceConfig → Operation E S) → Group → Operation E S
    build op (node i ss gs) o t s =
        entering i t s (λ t' s'. and_then (build_each op gs o t' s') (each_service op o t' ss))

    pub build_each : (ServiceConfig → Operation E S) → Groups → Operation E S
    build_each op nil o t s = (none, s)
    build_each op (cons g gs) o t s = and_then (build op g o t s) (build_each op gs o t)

  -- `Launch`: the groups before the services.
  unfoldable mutual
    unfolding is_excluded each_service merge

    pub launch : (ServiceConfig → Operation E S) → Group → Operation E S
    launch op (node i ss gs) o t s = entering i t s (λ t' s'.
        and_then (launch_each op gs (get_overrides i o) t' s')
          (each_service op (get_overrides i o) t' ss))

    pub launch_each : (ServiceConfig → Operation E S) → Groups → Operation E S
    launch_each op nil o t s = (none, s)
    launch_each op (cons g gs) o t s = and_then (launch op g o t s) (launch_each op gs o t)

  -- `Stop`, and `Restart`, which has the same text: the services before the groups.
  unfoldable mutual
    unfolding is_excluded each_service merge

    pub stop : (ServiceConfig → Operation E S) → Group → Operation E S
    stop op (node i ss gs) o t s = entering i t s (λ t' s'.
        and_then (each_service op (get_overrides i o) t' ss s')
          (stop_each op gs (get_overrides i o) t'))

    pub stop_each : (ServiceConfig → Operation E S) → Groups → Operation E S
    stop_each op nil o t s = (none, s)
    stop_each op (cons g gs) o t s = and_then (stop op g o t s) (stop_each op gs o t)

  abbrev pub restart : (ServiceConfig → Operation E S) → Group → Operation E S
  restart = stop

  -- `Start`: the children in the order that the configuration declares.
  unfoldable mutual
    unfolding is_excluded merge find_service start_in_order

    pub start : (Text → E) → (ServiceConfig → Operation E S) → Group → Operation E S
    start no_child op (node i ss gs) o t s = entering i t s (λ t' s'.
        start_in_order i.child_order
          (λ name.
            start_child no_child op name (start_named no_child op gs name) (find_service name ss)
              (get_overrides i o) t')
          s')

    pub start_named :
        (Text → E) → (ServiceConfig → Operation E S) → Groups → Text → Option (Operation E S)
    start_named no_child op nil name = none
    start_named no_child op (cons g gs) name =
        if text_eq (group_info g).name name
        then some (start no_child op g)
        else start_named no_child op gs name

-- `Status` and `Watch`, which append what the services return.
module _ {E S R : Type 0} (ask : ServiceConfig → S → Result E (List R) × S) where
  abbrev pub Answer : Type 0
  Answer = Result E (List R) × S

  abbrev pub append_answer : List R → Answer → Answer
  append_answer rs (err e, s) = (err e, s)
  append_answer rs (ok rs', s) = (ok (rs ++ rs'), s)

  abbrev pub then_ask : Answer → (S → Answer) → Answer
  then_ask (err e, s) next = (err e, s)
  then_ask (ok rs, s) next = append_answer rs (next s)

  unfoldable pub ask_services : List ServiceConfig → S → Answer
  ask_services [] s = (ok [], s)
  ask_services (c ∷ cs) s = then_ask (ask c s) (ask_services cs)

  unfoldable mutual
    unfolding ask_services

    pub ask_group : Group → S → Answer
    ask_group (node i ss gs) s = then_ask (ask_services ss s) (ask_groups gs)

    pub ask_groups : Groups → S → Answer
    ask_groups nil s = (ok [], s)
    ask_groups (cons g gs) s = then_ask (ask_group g s) (ask_groups gs)

-- `IsSudo`
unfoldable pub any_sudo : OperationConfig → List ServiceConfig → Bool
unfolding is_sudo
any_sudo cfg [] = false
any_sudo cfg (c ∷ cs) = if is_sudo cfg c then true else any_sudo cfg cs

unfoldable mutual
  unfolding is_excluded any_sudo

  pub is_sudo_group : OperationConfig → Group → Bool
  is_sudo_group cfg (node i ss gs) =
      if is_excluded cfg i.name
      then false
      else if any_sudo cfg ss
      then true
      else is_sudo_groups cfg gs

  pub is_sudo_groups : OperationConfig → Groups → Bool
  is_sudo_groups cfg nil = false
  is_sudo_groups cfg (cons g gs) = if is_sudo_group cfg g then true else is_sudo_groups cfg gs

-- `countGroupServices` and `CountServices`
unfoldable mutual
  pub count_group_services : Group → ℕ
  count_group_services (node i ss gs) = count_groups_services gs + length ss

  pub count_groups_services : Groups → ℕ
  count_groups_services nil = 0
  count_groups_services (cons g gs) = count_group_services g + count_groups_services gs

pub data Member : Type 0 where
  service : ServiceConfig → Member
  group : Group → Member

unfoldable pub count_services : List Member → ℕ
unfolding count_group_services
count_services [] = 0
count_services (service c ∷ ms) = suc (count_services ms)
count_services (group g ∷ ms) = count_group_services g + count_services ms
