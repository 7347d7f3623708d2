-- ===== src/Groups/Starts.antt =====
-- `Start` of a group of services/groupconfig.go, which looks each child up by its name.
use edward.Base.{
  ◌≡◌, refl, Bool, true, false, none, some, List, [], ◌∷◌, arith, if◌then◌else◌, inl, inr,
}
use mathlib.Core.Path.{subst}
use edward.Base.Text.{Text, text_eq, contains}
use edward.Base.Distinct.{contains-cases, not-contains-nil}
use edward.Services.{ServiceConfig, OperationConfig, ContextOverride, is_excluded}
use edward.Groups.{
  Groups, GroupInfo, node, nil, cons, group_info, TaskPath, Operation, Outcome, and_then,
  start_in_order, start, start_named, find_service,
}

abbrev pub has_group : Text → Groups → Bool
has_group name nil = false
has_group name (cons g gs) = if text_eq (group_info g).name name then true else has_group name gs

module _ {E S : Type 0} where
  -- Whether an operation has failed.
  abbrev pub failed : Outcome E S → Bool
  failed (none, s) = false
  failed (some e, s) = true

  failed-first :
      (r : Outcome E S) (next : S → Outcome E S) → failed r ≡ true → failed (and_then r next) ≡ true
  failed-first (none, s) next h = cc
  failed-first (some e, s) next h = refl

  failed-rest :
      (r : Outcome E S) (next : S → Outcome E S)
      → ((s : S) → failed (next s) ≡ true)
      → failed (and_then r next) ≡ true
  failed-rest (none, s) next h = h s
  failed-rest (some e, s) next h = refl

  start_in_order-failed :
      (names : List Text) (child : Text → S → Outcome E S) (name : Text) (s : S)
      → contains name names ≡ true
      → ((s' : S) → failed (child name s') ≡ true)
      → failed (start_in_order names child s) ≡ true
  unfolding start_in_order
  start_in_order-failed [] child name s m e = absurd (not-contains-nil name m)
  start_in_order-failed (n ∷ names) child name s m e = elim (contains-cases name n names m) [
    | inl here ↦
        failed-first (child n s) (start_in_order names child)
          (subst (λ x. failed (child x s) ≡ true) here (e s))
    | inr there ↦
        failed-rest (child n s) (start_in_order names child)
          (λ s'. start_in_order-failed names child name s' there e)
  ]

module _ {E S : Type 0} (cfg : OperationConfig) (child_task : TaskPath → Text → S → S)
    (no_child : Text → E) (op : ServiceConfig → Operation E S) where
  start_named-none :
      (gs : Groups) (name : Text)
      → has_group name gs ≡ false
      → start_named cfg child_task no_child op gs name ≡ none
  unfolding start_named
  start_named-none nil name h = refl
  start_named-none (cons g gs) name h = ground (arith, start_named-none gs name)

  -- `Start` of a group that is not excluded fails, whatever its other children do, if the
  -- configuration declares a child for it that is neither among its groups nor among its services.
  pub start-failed :
      (i : GroupInfo) (ss : List ServiceConfig) (gs : Groups) (o : ContextOverride) (t : TaskPath)
      (s : S) (name : Text)
      → is_excluded cfg i.name ≡ false
      → contains name i.child_order ≡ true
      → has_group name gs ≡ false
      → find_service name ss ≡ none
      → failed (start cfg child_task no_child op (node i ss gs) o t s) ≡ true
  unfolding start
  start-failed i ss gs o t s name x m g f = rw x (
      start_in_order-failed i.child_order _ name (child_task t i.name s) m
        (λ s'. rw (start_named-none gs name g, f)))
