-- ===== src/Tracker/Tree.antt =====
-- `Child` and `SetState` of tracker/task.go on the tree.
use edward.Base.{
  ℕ, ◌≡◌, refl, ap, ◌∙◌, true, ◌||◌, Option, none, some, List, [], ◌∷◌, ◌++◌, arith, Bool-cases,
  inl, inr,
}
use mathlib.Core.Path.{subst}
use edward.Base.Text.{Text, text_eq, text_eq_refl, eq_of_text_eq}
use edward.Tracker.{
  TaskState, Task, Tasks, node, nil, cons, info, Tracker, TaskPath, apply_state, add_child,
  new_task, has_child, append_task, find_task, find_among, update_task, update_among, set_state,
  child, has_child_named,
}

abbrev pub option_map : (Task → Task) → Option Task → Option Task
option_map f none = none
option_map f (some t) = some (f t)

abbrev KeepsName : (Task → Task) → Type 0
KeepsName f = (t : Task) → (info (f t)).name ≡ (info t).name

name-update :
    (f : Task → Task)
    → KeepsName f
    → (p : TaskPath) (t : Task) → (info (update_task p f t)).name ≡ (info t).name
unfolding update_task
name-update f keeps [] t = keeps t
name-update f keeps (n ∷ p) (node i ts) = refl

mutual
  unfolding find_task update_task

  find_update :
      (f : Task → Task)
      → KeepsName f
      → (p : TaskPath) (t : Task) → find_task p (update_task p f t) ≡ option_map f (find_task p t)
  find_update f keeps [] t = refl
  find_update f keeps (n ∷ p) (node i ts) = find_update_among f keeps n p ts

  find_update_among :
      (f : Task → Task)
      → KeepsName f
      → (n : Text) (p : TaskPath) (ts : Tasks)
      → find_among n p (update_among n p f ts) ≡ option_map f (find_among n p ts)
  find_update_among f keeps n p nil = refl
  find_update_among f keeps n p (cons t ts) =
      ground
        (arith, name-update f keeps p t, find_update f keeps p t, find_update_among f keeps n p ts)

apply_state-KeepsName :
    (now : ℕ) (s : TaskState) (ms : List Text) → KeepsName (apply_state now s ms)
unfolding apply_state
apply_state-KeepsName now s ms (node i ts) = refl

add_child-KeepsName : (now : ℕ) (name : Text) → KeepsName (add_child now name)
unfolding add_child
add_child-KeepsName now name (node i ts) = ground arith

-- `SetState` reaches the task that its pointer leads to, gives it the state and the messages, and
-- calls the handler once, for that task.
pub set_state-find :
    (now : ℕ) (p : TaskPath) (s : TaskState) (ms : List Text) (tr : Tracker) (t : Task)
    → find_task p tr.root ≡ some t
    → (find_task p (set_state now p s ms tr).root ≡ some (apply_state now s ms t))
      × ((set_state now p s ms tr).updates ≡ tr.updates ++ p ∷ [])
unfolding set_state
set_state-find now p s ms tr t e = (
  find_update (apply_state now s ms) (apply_state-KeepsName now s ms) p tr.root
      ∙ ap (option_map (apply_state now s ms)) e,
  refl,
)

abbrev IsThere : Text → Option Task → Type 0
IsThere name o = (c : Task) × (o ≡ some c) × ((info c).name ≡ name)

has_child-IsThere :
    (name : Text) (ts : Tasks) → has_child name ts ≡ true → IsThere name (find_among name [] ts)
unfolding has_child find_among
has_child-IsThere name nil h = cc
has_child-IsThere name (cons t ts) h = elim (Bool-cases (text_eq (info t).name name)) [
  | inl e ↦ (t, rw e, eq_of_text_eq (info t).name name e)
  | inr e ↦ rw e (has_child-IsThere name ts (rw e at h))
]

has_child-append_task :
    (name : Text) (ts : Tasks) (u : Task)
    → has_child name (append_task ts u) ≡ (has_child name ts || text_eq (info u).name name)
unfolding has_child append_task
has_child-append_task name nil u = ground arith
has_child-append_task name (cons t ts) u = ground (arith, has_child-append_task name ts u)

-- After `add_child` the task has a child of the name.
add_child-has_child :
    (now : ℕ) (name : Text) (t : Task) → has_child_named name (some (add_child now name t)) ≡ true
unfolding add_child
add_child-has_child now name (node i ts) =
    ground (arith, has_child-append_task name ts (new_task name now), text_eq_refl name)

add_child-IsThere :
    (now : ℕ) (name : Text) (t : Task) → IsThere name (find_task (name ∷ []) (add_child now name t))
unfolding add_child find_task
add_child-IsThere now name (node i ts) = elim (Bool-cases (has_child name ts)) [
  | inl e ↦ rw e (has_child-IsThere name ts e)
  | inr e ↦ rw e (
      has_child-IsThere name (append_task ts (new_task name now))
        (ground (arith, has_child-append_task name ts (new_task name now), text_eq_refl name)))
]

abbrev then_find : TaskPath → Option Task → Option Task
then_find q none = none
then_find q (some t) = find_task q t

mutual
  unfolding find_task

  find_task-append :
      (q p : TaskPath) (t : Task) → find_task (p ++ q) t ≡ then_find q (find_task p t)
  find_task-append q [] t = refl
  find_task-append q (n ∷ p) (node i ts) = find_among-append q n p ts

  find_among-append :
      (q : TaskPath) (n : Text) (p : TaskPath) (ts : Tasks)
      → find_among n (p ++ q) ts ≡ then_find q (find_among n p ts)
  find_among-append q n p nil = refl
  find_among-append q n p (cons t ts) =
      ground (arith, find_task-append q p t, find_among-append q n p ts)

module _ (now : ℕ) (p : TaskPath) (name : Text) (tr : Tracker) (t : Task)
    (there : find_task p tr.root ≡ some t) where
  found_after :
      find_task p (update_task p (add_child now name) tr.root) ≡ some (add_child now name t)
  found_after =
      find_update (add_child now name) (add_child-KeepsName now name) p tr.root
      ∙ ap (option_map (add_child now name)) there

  -- Asked of a task of the tree, `Child` leads to a task of the name that was asked for.
  pub child-IsThere : IsThere name (find_task (p ++ name ∷ []) (child now p name tr).root)
  unfolding child
  child-IsThere = elim (Bool-cases (has_child_named name (find_task p tr.root))) [
    | inl e ↦
        rw (e, find_task-append (name ∷ []) p tr.root, there)
          (known t (subst (λ o. has_child_named name o ≡ true) there e))
    | inr e ↦
        rw
          (
            e,
            find_task-append (name ∷ []) p (update_task p (add_child now name) tr.root),
            found_after,
          )
          (add_child-IsThere now name t)
  ]
    where
      known :
          (t : Task) → has_child_named name (some t) ≡ true → IsThere name (find_task (name ∷ []) t)
      known (node i ts) h = unfold find_task in has_child-IsThere name ts h

  -- Asking a task of the tree for the same child again finds the one that is there: the tree stays
  -- as it is, and the handler is not called.
  pub child_again : (later : ℕ) → child later p name (child now p name tr) ≡ child now p name tr
  unfolding child
  child_again later = elim (Bool-cases (has_child_named name (find_task p tr.root))) [
    | inl e ↦ rw (e, e)
    | inr e ↦ rw e (rw (found_after, add_child-has_child now name t))
  ]
