-- ===== src/Tracker.antt =====
-- tracker/task.go: trees of tasks, each with a state, and the state of a task with children. A task
-- with its descendants is a tree; `childNames` and `children` together are the ordered children, and
-- a pointer into the tree is the path of names that leads to it. All tasks of a tree share one lock,
-- so each operation is one step. The calls of the update handler are kept as a list of paths.
pub mod States
pub mod Tree
mod Samples
use edward.Base.{
  ℕ, zero, suc, ◌+◌, ◌-◌, Bool, true, false, not, ◌&&◌, ◌||◌, Option, none, some, List, [], ◌∷◌,
  ◌++◌, ltb, ◌==◌, if◌then◌else◌, length, map,
}
use edward.Base.Text.{Text, text_eq}

pub data TaskState : Type 0 where
  pending in_progress success warning failed : TaskState

-- The constants, by iota.
abbrev pub to_int : TaskState → ℕ
to_int pending = 0
to_int in_progress = 1
to_int success = 2
to_int warning = 3
to_int failed = 4

pub record Info : Type 0 where
  pub name : Text
  pub messages : List Text
  pub state : TaskState
  pub start_time : ℕ
  pub end_time : ℕ

mutual
  pub data Task : Type 0 where
    node : Info → Tasks → Task

  pub data Tasks : Type 0 where
    nil : Tasks
    cons : Task → Tasks → Tasks

abbrev pub info : Task → Info
info (node i ts) = i

-- `states[s]`, the number of children in a state.
unfoldable pub count_state : TaskState → List TaskState → ℕ
count_state s [] = 0
count_state s (t ∷ ts) =
    let rest = count_state s ts in if to_int s == to_int t then suc rest else rest

-- The part of `getState` for a task with children.
unfoldable pub combine_states : List TaskState → TaskState
unfolding count_state
combine_states states =
    if ltb 0 (count_state failed states)
    then failed
    else if ltb 0 (count_state pending states)
    then (if count_state pending states == length states then pending else in_progress)
    else if ltb 0 (count_state in_progress states)
    then in_progress
    else if ltb 0 (count_state warning states)
    then warning
    else if ltb 0 (count_state success states) && count_state success states == length states
    then success
    else in_progress

abbrev pub state_among : TaskState → List TaskState → TaskState
state_among own [] = own
state_among own (s ∷ ss) = combine_states (s ∷ ss)

-- `getState`
unfoldable mutual
  pub get_state : Task → TaskState
  get_state (node i ts) = state_among i.state (child_states ts)

  pub child_states : Tasks → List TaskState
  child_states nil = []
  child_states (cons t ts) = get_state t ∷ child_states ts

abbrev pub is_open : TaskState → Bool
is_open pending = true
is_open in_progress = true
is_open _ = false

-- `Duration`, at a time `now`.
unfoldable pub duration : ℕ → Task → ℕ
duration now (node i ts) = if is_open i.state then now - i.start_time else i.end_time - i.start_time

-- `applyState`
unfoldable pub apply_state : ℕ → TaskState → List Text → Task → Task
apply_state now state messages (node i ts) =
    node
      (record i {
        state = state;
        messages = messages;
        end_time = if not (is_open state) then now else i.end_time;
      })
      ts

abbrev pub new_task : Text → ℕ → Task
new_task name now =
    node (record { name = name; messages = []; state = pending; start_time = now; end_time = 0 })
      nil

unfoldable pub has_child : Text → Tasks → Bool
has_child name nil = false
has_child name (cons t ts) = text_eq (info t).name name || has_child name ts

unfoldable pub append_task : Tasks → Task → Tasks
append_task nil u = cons u nil
append_task (cons t ts) u = cons t (append_task ts u)

-- `Child`, as what becomes of the task it is called on.
unfoldable pub add_child : ℕ → Text → Task → Task
unfolding has_child append_task
add_child now name (node i ts) =
    if has_child name ts then node i ts else node i (append_task ts (new_task name now))

abbrev pub TaskPath : Type 0
TaskPath = List Text

-- The task that a path leads to.
unfoldable mutual
  pub find_task : TaskPath → Task → Option Task
  find_task [] t = some t
  find_task (n ∷ p) (node i ts) = find_among n p ts

  pub find_among : Text → TaskPath → Tasks → Option Task
  find_among n p nil = none
  find_among n p (cons t ts) = if text_eq (info t).name n then find_task p t else find_among n p ts

-- What a method called through a pointer does to the tree.
unfoldable mutual
  pub update_task : TaskPath → (Task → Task) → Task → Task
  update_task [] f t = f t
  update_task (n ∷ p) f (node i ts) = node i (update_among n p f ts)

  pub update_among : Text → TaskPath → (Task → Task) → Tasks → Tasks
  update_among n p f nil = nil
  update_among n p f (cons t ts) =
      if text_eq (info t).name n
      then cons (update_task p f t) ts
      else cons t (update_among n p f ts)

pub record Tracker : Type 0 where
  pub root : Task
  pub updates : List TaskPath

-- `NewTask`
abbrev pub new_tracker : ℕ → Tracker
new_tracker now = record { root = new_task [] now; updates = [] }

-- `SetState`: apply the state, then call the handler.
unfoldable pub set_state : ℕ → TaskPath → TaskState → List Text → Tracker → Tracker
unfolding update_task apply_state
set_state now path state messages tr = record {
  root = update_task path (apply_state now state messages) tr.root;
  updates = tr.updates ++ path ∷ [];
}

abbrev pub has_child_named : Text → Option Task → Bool
has_child_named name none = true
has_child_named name (some (node i ts)) = has_child name ts

-- `Child`: the handler hears of a child that is new. A path that leads nowhere is no pointer.
unfoldable pub child : ℕ → TaskPath → Text → Tracker → Tracker
unfolding update_task add_child find_task
child now path name tr = if has_child_named name (find_task path tr.root) then tr else record {
  root = update_task path (add_child now name) tr.root;
  updates = tr.updates ++ (path ++ name ∷ []) ∷ [];
}

-- `Lineage`: the paths of a task's ancestors and its own, from the root down.
unfoldable pub lineage : TaskPath → List TaskPath
lineage [] = [] ∷ []
lineage (n ∷ p) = [] ∷ map (λ q. n ∷ q) (lineage p)
