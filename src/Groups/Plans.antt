-- ===== src/Groups/Plans.antt =====
-- What the operations of a group of services/groupconfig.go come down to: the calls that they make,
-- in order, as a list.
use edward.Base.{none, List, [], ◌∷◌, ◌++◌, if◌then◌else◌}
use edward.Base.Text.{Text}
use edward.Services.{ServiceConfig, OperationConfig, ContextOverride, is_excluded, merge}
use edward.Groups.{
  Group, Groups, node, nil, cons, TaskPath, Operation, Outcome, and_then, get_overrides,
}

-- A task is asked for a child, or a service's operation is called.
pub data Call : Type 0 where
  enter : TaskPath → Text → Call
  serve : ServiceConfig → ContextOverride → TaskPath → Call

abbrev pub serve_each : ContextOverride → TaskPath → List ServiceConfig → List Call
serve_each o t [] = []
serve_each o t (c ∷ cs) = serve c o t ∷ serve_each o t cs

-- The order of `Build`.
unfoldable mutual
  unfolding is_excluded

  pub build_plan : OperationConfig → ContextOverride → TaskPath → Group → List Call
  build_plan cfg o t (node i ss gs) =
      let below = build_plans cfg o (t ++ i.name ∷ []) gs in
      if is_excluded cfg i.name
      then []
      else enter t i.name ∷ (below ++ serve_each o (t ++ i.name ∷ []) ss)

  pub build_plans : OperationConfig → ContextOverride → TaskPath → Groups → List Call
  build_plans cfg o t nil = []
  build_plans cfg o t (cons g gs) = build_plan cfg o t g ++ build_plans cfg o t gs

-- The order of `Launch`.
unfoldable mutual
  unfolding is_excluded merge

  pub launch_plan : OperationConfig → ContextOverride → TaskPath → Group → List Call
  launch_plan cfg o t (node i ss gs) =
      let below = launch_plans cfg (get_overrides i o) (t ++ i.name ∷ []) gs in
      if is_excluded cfg i.name
      then []
      else enter t i.name ∷ (below ++ serve_each (get_overrides i o) (t ++ i.name ∷ []) ss)

  pub launch_plans : OperationConfig → ContextOverride → TaskPath → Groups → List Call
  launch_plans cfg o t nil = []
  launch_plans cfg o t (cons g gs) = launch_plan cfg o t g ++ launch_plans cfg o t gs

-- The order of `Stop` and `Restart`.
unfoldable mutual
  unfolding is_excluded merge

  pub stop_plan : OperationConfig → ContextOverride → TaskPath → Group → List Call
  stop_plan cfg o t (node i ss gs) =
      let below = stop_plans cfg (get_overrides i o) (t ++ i.name ∷ []) gs in
      if is_excluded cfg i.name
      then []
      else enter t i.name ∷ (serve_each (get_overrides i o) (t ++ i.name ∷ []) ss ++ below)

  pub stop_plans : OperationConfig → ContextOverride → TaskPath → Groups → List Call
  stop_plans cfg o t nil = []
  stop_plans cfg o t (cons g gs) = stop_plan cfg o t g ++ stop_plans cfg o t gs

abbrev pub service_of : Call → List ServiceConfig
service_of (enter t name) = []
service_of (serve c o t) = c ∷ []

-- The services that a list of calls reaches.
abbrev pub served : List Call → List ServiceConfig
served [] = []
served (c ∷ cs) = service_of c ++ served cs

-- Making the calls one after the other, up to the first error.
module _ {E S : Type 0} (child_task : TaskPath → Text → S → S)
    (op : ServiceConfig → Operation E S) where
  abbrev pub make_call : Call → S → Outcome E S
  make_call (enter t name) s = (none, child_task t name s)
  make_call (serve c o t) s = op c o t s

  abbrev pub perform : List Call → S → Outcome E S
  perform [] s = (none, s)
  perform (c ∷ cs) s = and_then (make_call c s) (perform cs)
