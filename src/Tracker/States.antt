-- ===== src/Tracker/States.antt =====
-- What `getState` of tracker/task.go says of a task with children: all of it comes from the leaves.
use edward.Base.{
  ◌≤◌, ◌≡◌, refl, Bool, true, false, not, ◌&&◌, ◌||◌, List, [], ◌∷◌, arith, ltb, ◌==◌, length, any,
  all, if◌then◌else◌,
}
use edward.Tracker.{
  TaskState, pending, in_progress, success, warning, failed, to_int, Task, Tasks, node, nil, cons,
  count_state, combine_states, get_state, child_states,
}

abbrev pub is_state : TaskState → TaskState → Bool
is_state s t = to_int s == to_int t

count_state-le : (s : TaskState) (ts : List TaskState) → count_state s ts ≤ length ts
unfolding count_state
count_state-le s [] = omega arith
count_state-le s (t ∷ ts) = ground (arith, count_state-le s ts)

count_state-any :
    (s : TaskState) (ts : List TaskState) → ltb 0 (count_state s ts) ≡ any (is_state s) ts
unfolding count_state
count_state-any s [] = refl
count_state-any s (t ∷ ts) = ground (arith, count_state-any s ts)

count_state-all :
    (s : TaskState) (ts : List TaskState) → (count_state s ts == length ts) ≡ all (is_state s) ts
unfolding count_state
count_state-all s [] = refl
count_state-all s (t ∷ ts) = ground (arith, count_state-all s ts, count_state-le s ts)

-- States that are all the same leave no room for another.
all_excludes :
    (s t : TaskState) (u : TaskState) (us : List TaskState)
    → is_state s t ≡ false
    → all (is_state s) (u ∷ us) ≡ true
    → any (is_state t) (u ∷ us) ≡ false
all_excludes s t u [] h a = ground arith
all_excludes s t u (v ∷ vs) h a = ground (arith, all_excludes s t v vs h)

any_of_all :
    (p : TaskState → Bool) (u : TaskState) (us : List TaskState)
    → all p (u ∷ us) ≡ true
    → any p (u ∷ us) ≡ true
any_of_all p u us h = ground arith

some_state :
    (ts : List TaskState)
    → (any (is_state failed) ts
        || any (is_state pending) ts
        || any (is_state in_progress) ts
        || any (is_state warning) ts
        || all (is_state success) ts)
      ≡ true
some_state [] = refl
some_state (failed ∷ ts) = ground arith
some_state (pending ∷ ts) = ground arith
some_state (in_progress ∷ ts) = ground arith
some_state (warning ∷ ts) = ground arith
some_state (success ∷ ts) = ground (arith, some_state ts)

abbrev pub settled_warning : Bool → Bool → Bool → Bool → Bool
settled_warning f p i w = not f && not p && not i && w

module _ (s : TaskState) (ss : List TaskState) where
  combine_by_tests : combine_states (s ∷ ss) ≡ (
      if any (is_state failed) (s ∷ ss)
      then failed
      else if any (is_state pending) (s ∷ ss)
      then (if all (is_state pending) (s ∷ ss) then pending else in_progress)
      else if any (is_state in_progress) (s ∷ ss)
      then in_progress
      else if any (is_state warning) (s ∷ ss)
      then warning
      else if any (is_state success) (s ∷ ss) && all (is_state success) (s ∷ ss)
      then success
      else in_progress)
  unfolding combine_states
  combine_by_tests = rw (
    count_state-any failed (s ∷ ss),
    count_state-any pending (s ∷ ss),
    count_state-all pending (s ∷ ss),
    count_state-any in_progress (s ∷ ss),
    count_state-any warning (s ∷ ss),
    count_state-any success (s ∷ ss),
    count_state-all success (s ∷ ss),
  )

  combine-failed : is_state failed (combine_states (s ∷ ss)) ≡ any (is_state failed) (s ∷ ss)
  combine-failed = ground (arith, combine_by_tests)

  combine-pending : is_state pending (combine_states (s ∷ ss)) ≡ all (is_state pending) (s ∷ ss)
  combine-pending = ground (
    arith,
    combine_by_tests,
    all_excludes pending failed s ss,
    any_of_all (is_state pending) s ss,
  )

  combine-success : is_state success (combine_states (s ∷ ss)) ≡ all (is_state success) (s ∷ ss)
  combine-success = ground (
    arith,
    combine_by_tests,
    all_excludes success failed s ss,
    all_excludes success pending s ss,
    all_excludes success in_progress s ss,
    all_excludes success warning s ss,
    any_of_all (is_state success) s ss,
    some_state (s ∷ ss),
  )

  combine-warning :
      is_state warning (combine_states (s ∷ ss))
      ≡ settled_warning
          (any (is_state failed) (s ∷ ss))
          (any (is_state pending) (s ∷ ss))
          (any (is_state in_progress) (s ∷ ss))
          (any (is_state warning) (s ∷ ss))
  combine-warning = ground (arith, combine_by_tests)

-- Whether some leaf, or every leaf, of a task is in a given state. A task without children is a leaf.
unfoldable mutual
  pub any_leaf : TaskState → Task → Bool
  any_leaf s (node i nil) = is_state s i.state
  any_leaf s (node i (cons t ts)) = any_leaf s t || any_leaf_among s ts

  pub any_leaf_among : TaskState → Tasks → Bool
  any_leaf_among s nil = false
  any_leaf_among s (cons t ts) = any_leaf s t || any_leaf_among s ts

unfoldable mutual
  pub all_leaves : TaskState → Task → Bool
  all_leaves s (node i nil) = is_state s i.state
  all_leaves s (node i (cons t ts)) = all_leaves s t && all_leaves_among s ts

  pub all_leaves_among : TaskState → Tasks → Bool
  all_leaves_among s nil = true
  all_leaves_among s (cons t ts) = all_leaves s t && all_leaves_among s ts

mutual
  unfolding get_state any_leaf

  failed_leaf : (t : Task) → is_state failed (get_state t) ≡ any_leaf failed t
  failed_leaf (node i nil) = refl
  failed_leaf (node i (cons t ts)) =
      ground (arith, combine-failed (get_state t) (child_states ts), failed_leaf t, failed_among ts)

  failed_among : (ts : Tasks) → any (is_state failed) (child_states ts) ≡ any_leaf_among failed ts
  failed_among nil = refl
  failed_among (cons t ts) = ground (arith, failed_leaf t, failed_among ts)

mutual
  unfolding get_state all_leaves

  pending_leaves : (t : Task) → is_state pending (get_state t) ≡ all_leaves pending t
  pending_leaves (node i nil) = refl
  pending_leaves (node i (cons t ts)) =
      ground
        (arith, combine-pending (get_state t) (child_states ts), pending_leaves t, pending_among ts)

  pending_among :
      (ts : Tasks) → all (is_state pending) (child_states ts) ≡ all_leaves_among pending ts
  pending_among nil = refl
  pending_among (cons t ts) = ground (arith, pending_leaves t, pending_among ts)

mutual
  unfolding get_state all_leaves

  success_leaves : (t : Task) → is_state success (get_state t) ≡ all_leaves success t
  success_leaves (node i nil) = refl
  success_leaves (node i (cons t ts)) =
      ground
        (arith, combine-success (get_state t) (child_states ts), success_leaves t, success_among ts)

  success_among :
      (ts : Tasks) → all (is_state success) (child_states ts) ≡ all_leaves_among success ts
  success_among nil = refl
  success_among (cons t ts) = ground (arith, success_leaves t, success_among ts)

-- A task is reported as failed exactly when one of its leaves has failed.
pub get_state-failed : (t : Task) → is_state failed (get_state t) ≡ any_leaf failed t
get_state-failed t = failed_leaf t

-- A task is reported as pending exactly when all of its leaves are pending.
pub get_state-pending : (t : Task) → is_state pending (get_state t) ≡ all_leaves pending t
get_state-pending t = pending_leaves t

-- A task is reported as successful exactly when all of its leaves have succeeded.
pub get_state-success : (t : Task) → is_state success (get_state t) ≡ all_leaves success t
get_state-success t = success_leaves t
