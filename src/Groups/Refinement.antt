-- ===== src/Groups/Refinement.antt =====
-- The operations of a group of services/groupconfig.go make the calls of their plans.
use edward.Base.{◌≡◌, refl, Bool-cases, inl, inr, none, some, List, [], ◌∷◌, ◌++◌, if◌then◌else◌}
use edward.Base.Text.{Text}
use mathlib.Core.Path.{fun_ext}
use edward.Services.{ServiceConfig, OperationConfig, ContextOverride, is_excluded}
use edward.Groups.{
  Group, Groups, node, nil, cons, TaskPath, Operation, Outcome, GroupInfo, entering, and_then,
  get_overrides, each_service, build, build_each, launch, launch_each, stop, stop_each,
}
use edward.Groups.Plans.{
  Call, enter, serve_each, build_plan, build_plans, launch_plan, launch_plans, stop_plan,
  stop_plans, perform, make_call,
}

module _ {E S : Type 0} where
  and_then_assoc :
      (r : Outcome E S) (f g : S → Outcome E S)
      → and_then (and_then r f) g ≡ and_then r (λ s. and_then (f s) g)
  and_then_assoc (none, s) f g = refl
  and_then_assoc (some e, s) f g = refl

module _ {E S : Type 0} (child_task : TaskPath → Text → S → S)
    (op : ServiceConfig → Operation E S) where
  pub perform-append :
      (xs ys : List Call) (s : S)
      → perform child_task op (xs ++ ys) s
        ≡ and_then (perform child_task op xs s) (perform child_task op ys)
  perform-append [] ys s = refl
  perform-append (x ∷ xs) ys s = rw (
    fun_ext (λ s'. perform-append xs ys s'),
    and_then_assoc (make_call child_task op x s) (perform child_task op xs)
        (perform child_task op ys),
  )

  perform-serve_each :
      (o : ContextOverride) (t : TaskPath) (cs : List ServiceConfig) (s : S)
      → each_service op o t cs s ≡ perform child_task op (serve_each o t cs) s
  unfolding each_service
  perform-serve_each o t [] s = refl
  perform-serve_each o t (c ∷ cs) s = rw (fun_ext (λ s'. perform-serve_each o t cs s'))

  -- One part of an operation after another makes the calls of both.
  parts-perform :
      (xs ys : List Call) (f g : S → Outcome E S) (s : S)
      → ((s' : S) → f s' ≡ perform child_task op xs s')
      → ((s' : S) → g s' ≡ perform child_task op ys s')
      → and_then (f s) g ≡ perform child_task op (xs ++ ys) s
  parts-perform xs ys f g s e k = rw (e s, fun_ext k, perform-append xs ys s)

  -- An operation that asks for a task and then runs two parts, unless the group is excluded.
  entering-perform :
      (cfg : OperationConfig) (i : GroupInfo) (t : TaskPath) (s : S) (xs ys : List Call)
      (f g : TaskPath → S → Outcome E S)
      → ((s' : S) → f (t ++ i.name ∷ []) s' ≡ perform child_task op xs s')
      → ((s' : S) → g (t ++ i.name ∷ []) s' ≡ perform child_task op ys s')
      → entering cfg child_task i t s (λ t' s'. and_then (f t' s') (g t'))
        ≡ perform child_task op
            (if is_excluded cfg i.name then [] else enter t i.name ∷ (xs ++ ys))
            s
  entering-perform cfg i t s xs ys f g e k = elim (Bool-cases (is_excluded cfg i.name)) [
    | inl x ↦ rw x
    | inr x ↦ rw (
      x,
      parts-perform xs ys (f (t ++ i.name ∷ [])) (g (t ++ i.name ∷ [])) (child_task t i.name s) e k,
    )
  ]

  module _ (cfg : OperationConfig) where
    mutual
      unfolding stop stop_plan

      stop_performs :
          (g : Group) (o : ContextOverride) (t : TaskPath) (s : S)
          → stop cfg child_task op g o t s ≡ perform child_task op (stop_plan cfg o t g) s
      stop_performs (node i ss gs) o t s =
          entering-perform cfg i t s (serve_each (get_overrides i o) (t ++ i.name ∷ []) ss)
            (stop_plans cfg (get_overrides i o) (t ++ i.name ∷ []) gs)
            (λ t'. each_service op (get_overrides i o) t' ss)
            (stop_each cfg child_task op gs (get_overrides i o))
            (perform-serve_each (get_overrides i o) (t ++ i.name ∷ []) ss)
            (stop_each_performs gs (get_overrides i o) (t ++ i.name ∷ []))

      stop_each_performs :
          (gs : Groups) (o : ContextOverride) (t : TaskPath) (s : S)
          → stop_each cfg child_task op gs o t s ≡ perform child_task op (stop_plans cfg o t gs) s
      stop_each_performs nil o t s = refl
      stop_each_performs (cons g gs) o t s =
          parts-perform (stop_plan cfg o t g) (stop_plans cfg o t gs) (stop cfg child_task op g o t)
            (stop_each cfg child_task op gs o t) s (stop_performs g o t) (stop_each_performs gs o t)

    mutual
      unfolding launch launch_plan

      launch_performs :
          (g : Group) (o : ContextOverride) (t : TaskPath) (s : S)
          → launch cfg child_task op g o t s ≡ perform child_task op (launch_plan cfg o t g) s
      launch_performs (node i ss gs) o t s =
          entering-perform cfg i t s (launch_plans cfg (get_overrides i o) (t ++ i.name ∷ []) gs)
            (serve_each (get_overrides i o) (t ++ i.name ∷ []) ss)
            (launch_each cfg child_task op gs (get_overrides i o))
            (λ t'. each_service op (get_overrides i o) t' ss)
            (launch_each_performs gs (get_overrides i o) (t ++ i.name ∷ []))
            (perform-serve_each (get_overrides i o) (t ++ i.name ∷ []) ss)

      launch_each_performs :
          (gs : Groups) (o : ContextOverride) (t : TaskPath) (s : S)
          → launch_each cfg child_task op gs o t s
            ≡ perform child_task op (launch_plans cfg o t gs) s
      launch_each_performs nil o t s = refl
      launch_each_performs (cons g gs) o t s =
          parts-perform (launch_plan cfg o t g) (launch_plans cfg o t gs)
            (launch cfg child_task op g o t) (launch_each cfg child_task op gs o t) s
            (launch_performs g o t) (launch_each_performs gs o t)

    mutual
      unfolding build build_plan

      build_performs :
          (g : Group) (o : ContextOverride) (t : TaskPath) (s : S)
          → build cfg child_task op g o t s ≡ perform child_task op (build_plan cfg o t g) s
      build_performs (node i ss gs) o t s =
          entering-perform cfg i t s (build_plans cfg o (t ++ i.name ∷ []) gs)
            (serve_each o (t ++ i.name ∷ []) ss) (build_each cfg child_task op gs o)
            (λ t'. each_service op o t' ss) (build_each_performs gs o (t ++ i.name ∷ []))
            (perform-serve_each o (t ++ i.name ∷ []) ss)

      build_each_performs :
          (gs : Groups) (o : ContextOverride) (t : TaskPath) (s : S)
          → build_each cfg child_task op gs o t s ≡ perform child_task op (build_plans cfg o t gs) s
      build_each_performs nil o t s = refl
      build_each_performs (cons g gs) o t s =
          parts-perform (build_plan cfg o t g) (build_plans cfg o t gs)
            (build cfg child_task op g o t) (build_each cfg child_task op gs o t) s
            (build_performs g o t) (build_each_performs gs o t)

    -- `Stop` and `Restart` of a group make the calls of `stop_plan`, in its order, up to the first
    -- error: of each group that is not excluded, first its services and then its groups.
    pub stop-perform :
        (g : Group) (o : ContextOverride) (t : TaskPath) (s : S)
        → stop cfg child_task op g o t s ≡ perform child_task op (stop_plan cfg o t g) s
    stop-perform = stop_performs

    -- `Launch` of a group makes the calls of `launch_plan`, in its order, up to the first error: of
    -- each group that is not excluded, first its groups and then its services.
    pub launch-perform :
        (g : Group) (o : ContextOverride) (t : TaskPath) (s : S)
        → launch cfg child_task op g o t s ≡ perform child_task op (launch_plan cfg o t g) s
    launch-perform = launch_performs

    -- `Build` of a group makes the calls of `build_plan`, in its order, up to the first error: of
    -- each group that is not excluded, first its groups and then its services.
    pub build-perform :
        (g : Group) (o : ContextOverride) (t : TaskPath) (s : S)
        → build cfg child_task op g o t s ≡ perform child_task op (build_plan cfg o t g) s
    build-perform = build_performs
