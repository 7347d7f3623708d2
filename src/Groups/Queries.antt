-- ===== src/Groups/Queries.antt =====
-- What the operations of a group of services/groupconfig.go reach, and the questions asked of a
-- group: `IsSudo`, the count of its services, `Status` and `Watch`.
use mathlib.Core.List.{Perm, perm_append_comm, perm-append_left_iff, perm-append_right_iff}
use mathlib.Core.List.Perm
use mathlib.Core.Path.{fun_ext}
use edward.Base.{
  ◌≡◌, refl, sym, false, List, [], ◌∷◌, ◌++◌, arith, length, any, any-append, length-append,
  Bool-cases, inl, inr, append_assoc, Result, ok, err,
}
use edward.Base.Text.{Text}
use edward.Services.{ServiceConfig, OperationConfig, ContextOverride, is_excluded, is_sudo}
use edward.Groups.{
  Group, Groups, node, nil, cons, TaskPath, get_overrides, any_sudo, is_sudo_group, is_sudo_groups,
  count_group_services, count_groups_services, Answer, append_answer, then_ask, ask_services,
  ask_group, ask_groups, Operation, launch, stop,
}
use edward.Groups.Plans.{
  Call, enter, serve_each, launch_plan, launch_plans, stop_plan, stop_plans, served, service_of,
  perform,
}
use edward.Groups.Refinement.{launch-perform, stop-perform}

served-append : (xs ys : List Call) → served (xs ++ ys) ≡ served xs ++ served ys
served-append [] ys = refl
served-append (x ∷ xs) ys =
    rw (served-append xs ys, append_assoc (service_of x) (served xs) (served ys))

served-serve_each :
    (o : ContextOverride) (t : TaskPath) (cs : List ServiceConfig) → served (serve_each o t cs) ≡ cs
served-serve_each o t [] = refl
served-serve_each o t (c ∷ cs) = rw (served-serve_each o t cs)

perm-append :
    {A : Type 0} {xs xs' ys ys' : List A} → Perm xs xs' → Perm ys ys' → Perm (xs ++ ys) (xs' ++ ys')
perm-append {xs = xs} {xs' = xs'} {ys = ys} {ys' = ys'} p q =
    Perm.trans ((perm-append_right_iff ys).1 p) ((perm-append_left_iff xs').1 q)

module _ (cfg : OperationConfig) where
  mutual
    unfolding launch_plan stop_plan

    same_plan :
        (o : ContextOverride) (t : TaskPath) (g : Group)
        → Perm (launch_plan cfg o t g) (stop_plan cfg o t g)
    same_plan o t (node i ss gs) =
        let o' = get_overrides i o in
        let t' = t ++ i.name ∷ [] in
        elim (Bool-cases (is_excluded cfg i.name)) [
          | inl e ↦ rw (e) (Perm.refl [])
          | inr e ↦ rw (e) (
              Perm.cons (enter t i.name) (
                Perm.trans (perm-append (same_plans o' t' gs) (Perm.refl (serve_each o' t' ss)))
                  (perm_append_comm (stop_plans cfg o' t' gs) (serve_each o' t' ss))))
        ]

    same_plans :
        (o : ContextOverride) (t : TaskPath) (gs : Groups)
        → Perm (launch_plans cfg o t gs) (stop_plans cfg o t gs)
    same_plans o t nil = Perm.refl []
    same_plans o t (cons g gs) = perm-append (same_plan o t g) (same_plans o t gs)

  -- `Launch` and `Stop` of a group make the same calls, each up to its first error: there are two lists
  -- of calls that differ in their order only, of services with their overrides and tasks and of
  -- tasks that are asked for a child, of which they make the one and the other.
  pub launch-stop :
      {E S : Type 0}
      → (child_task : TaskPath → Text → S → S) (op : ServiceConfig → Operation E S)
        (o : ContextOverride) (t : TaskPath) (g : Group)
      → (xs : List Call) × (ys : List Call) × Perm xs ys
        × ((s : S) → launch cfg child_task op g o t s ≡ perform child_task op xs s)
        × ((s : S) → stop cfg child_task op g o t s ≡ perform child_task op ys s)
  launch-stop child_task op o t g = (
    launch_plan cfg o t g,
    stop_plan cfg o t g,
    same_plan o t g,
    launch-perform child_task op cfg g o t,
    stop-perform child_task op cfg g o t,
  )

  any_sudo-any : (cs : List ServiceConfig) → any_sudo cfg cs ≡ any (is_sudo cfg) cs
  unfolding any_sudo
  any_sudo-any [] = refl
  any_sudo-any (c ∷ cs) = ground (arith, any_sudo-any cs)

  mutual
    unfolding is_sudo_group stop_plan

    sudo_below :
        (o : ContextOverride) (t : TaskPath) (g : Group)
        → is_sudo_group cfg g ≡ any (is_sudo cfg) (served (stop_plan cfg o t g))
    sudo_below o t (node i ss gs) =
        let o' = get_overrides i o in
        let t' = t ++ i.name ∷ [] in
        ground (
          arith,
          any_sudo-any ss,
          sudo_below_each o' t' gs,
          served-append (serve_each o' t' ss) (stop_plans cfg o' t' gs),
          served-serve_each o' t' ss,
          any-append (is_sudo cfg) ss (served (stop_plans cfg o' t' gs)),
        )

    sudo_below_each :
        (o : ContextOverride) (t : TaskPath) (gs : Groups)
        → is_sudo_groups cfg gs ≡ any (is_sudo cfg) (served (stop_plans cfg o t gs))
    sudo_below_each o t nil = refl
    sudo_below_each o t (cons g gs) = ground (
      arith,
      sudo_below o t g,
      sudo_below_each o t gs,
      served-append (stop_plan cfg o t g) (stop_plans cfg o t gs),
      any-append (is_sudo cfg) (served (stop_plan cfg o t g)) (served (stop_plans cfg o t gs)),
    )

  -- A group needs sudo exactly when one of the services that its operations reach does.
  pub is_sudo_group-any :
      (o : ContextOverride) (t : TaskPath) (g : Group)
      → is_sudo_group cfg g ≡ any (is_sudo cfg) (served (stop_plan cfg o t g))
  is_sudo_group-any = sudo_below

-- The configuration of an operation that excludes nothing.
abbrev pub exclude_nothing : OperationConfig
exclude_nothing = record {
  edward_executable = [];
  exclusions = [];
  no_watch = false;
  skip_build = false;
}

mutual
  unfolding count_group_services stop_plan

  counts_served :
      (o : ContextOverride) (t : TaskPath) (g : Group)
      → count_group_services g ≡ length (served (stop_plan exclude_nothing o t g))
  counts_served o t (node i ss gs) =
      let o' = get_overrides i o in
      let t' = t ++ i.name ∷ [] in
      ground (
        arith,
        counts_served_each o' t' gs,
        served-append (serve_each o' t' ss) (stop_plans exclude_nothing o' t' gs),
        served-serve_each o' t' ss,
        length-append ss (served (stop_plans exclude_nothing o' t' gs)),
      )

  counts_served_each :
      (o : ContextOverride) (t : TaskPath) (gs : Groups)
      → count_groups_services gs ≡ length (served (stop_plans exclude_nothing o t gs))
  counts_served_each o t nil = refl
  counts_served_each o t (cons g gs) = ground (
    arith,
    counts_served o t g,
    counts_served_each o t gs,
    served-append (stop_plan exclude_nothing o t g) (stop_plans exclude_nothing o t gs),
    length-append (served (stop_plan exclude_nothing o t g))
        (served (stop_plans exclude_nothing o t gs)),
  )

-- The count of a group's services is the number of times that an operation that excludes nothing
-- reaches a service: one that stands in two of its groups is counted twice.
pub count_group_services-length :
    (o : ContextOverride) (t : TaskPath) (g : Group)
    → count_group_services g ≡ length (served (stop_plan exclude_nothing o t g))
count_group_services-length = counts_served

module _ {E S R : Type 0} (ask : ServiceConfig → S → Result E (List R) × S) where
  append_answer-nil : (r : Answer ask) → append_answer ask [] r ≡ r
  append_answer-nil (err e, s) = refl
  append_answer-nil (ok rs, s) = refl

  append_answer-append :
      (xs ys : List R) (r : Answer ask)
      → append_answer ask (xs ++ ys) r ≡ append_answer ask xs (append_answer ask ys r)
  append_answer-append xs ys (err e, s) = refl
  append_answer-append xs ys (ok rs, s) = rw (append_assoc xs ys rs)

  append_answer-then_ask :
      (xs : List R) (r : Answer ask) (g : S → Answer ask)
      → then_ask ask (append_answer ask xs r) g ≡ append_answer ask xs (then_ask ask r g)
  append_answer-then_ask xs (err e, s) g = refl
  append_answer-then_ask xs (ok rs, s) g = append_answer-append xs rs (g s)

  then_ask_assoc :
      (r : Answer ask) (f g : S → Answer ask)
      → then_ask ask (then_ask ask r f) g ≡ then_ask ask r (λ s. then_ask ask (f s) g)
  then_ask_assoc (err e, s) f g = refl
  then_ask_assoc (ok rs, s) f g = append_answer-then_ask rs (f s) g

  ask_services-append :
      (xs ys : List ServiceConfig) (s : S)
      → ask_services ask (xs ++ ys) s ≡ then_ask ask (ask_services ask xs s) (ask_services ask ys)
  unfolding ask_services
  ask_services-append [] ys s = sym (append_answer-nil (ask_services ask ys s))
  ask_services-append (x ∷ xs) ys s = rw (
    fun_ext (λ s'. ask_services-append xs ys s'),
    then_ask_assoc (ask x s) (ask_services ask xs) (ask_services ask ys),
  )

  mutual
    unfolding ask_group stop_plan ask_services

    asks_served :
        (o : ContextOverride) (t : TaskPath) (g : Group) (s : S)
        → ask_group ask g s ≡ ask_services ask (served (stop_plan exclude_nothing o t g)) s
    asks_served o t (node i ss gs) s =
        let o' = get_overrides i o in
        let t' = t ++ i.name ∷ [] in
        rw (
          fun_ext (λ s'. asks_served_each o' t' gs s'),
          served-append (serve_each o' t' ss) (stop_plans exclude_nothing o' t' gs),
          served-serve_each o' t' ss,
          ask_services-append ss (served (stop_plans exclude_nothing o' t' gs)) s,
        )

    asks_served_each :
        (o : ContextOverride) (t : TaskPath) (gs : Groups) (s : S)
        → ask_groups ask gs s ≡ ask_services ask (served (stop_plans exclude_nothing o t gs)) s
    asks_served_each o t nil s = refl
    asks_served_each o t (cons g gs) s = rw (
      asks_served o t g s,
      fun_ext (λ s'. asks_served_each o t gs s'),
      served-append (stop_plan exclude_nothing o t g) (stop_plans exclude_nothing o t gs),
      ask_services-append (served (stop_plan exclude_nothing o t g))
          (served (stop_plans exclude_nothing o t gs)) s,
    )

  -- `Status` and `Watch` of a group ask the services that `Stop` reaches where nothing is excluded,
  -- in the same order, and gather what they return, up to the first error.
  pub ask_group-ask_services :
      (o : ContextOverride) (t : TaskPath) (g : Group) (s : S)
      → ask_group ask g s ≡ ask_services ask (served (stop_plan exclude_nothing o t g)) s
  ask_group-ask_services = asks_served
