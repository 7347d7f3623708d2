-- ===== src/Tracker/Samples.antt =====
-- A tree of tasks, and the theorems at it.
use edward.Base.{◌≡◌, refl, true, [], ◌∷◌}
use edward.Base.Text.{codes, text_eq}
use edward.Tracker.{
  failed, Task, new_task, new_tracker, Tracker, TaskPath, apply_state, add_child, find_task,
  set_state, child, get_state, combine_states,
}
use edward.Tracker.States.{is_state, any_leaf, get_state-failed}

abbrev api_build : TaskPath
api_build = codes "api" ∷ codes "Build" ∷ []

program : Unit {0}
unfolding set_state child find_task get_state combine_states text_eq add_child apply_state
program = tt

abbrev api_started : Tracker
api_started = child 1 [] (codes "api") (new_tracker 0)

abbrev building : Tracker
building = child 2 (codes "api" ∷ []) (codes "Build") api_started

build_failed : (get_state (set_state 3 api_build failed [] building).root) ≡ failed
unfolding program
build_failed = refl

building_updates : building.updates ≡ (codes "api" ∷ []) ∷ api_build ∷ []
unfolding program
building_updates = refl

get_state-failed_example :
    is_state failed (get_state (set_state 3 api_build failed [] building).root) ≡ true
unfolding program any_leaf
get_state-failed_example = get_state-failed (set_state 3 api_build failed [] building).root

abbrev build_task : Task
build_task = new_task (codes "Build") 2

abbrev api_task : Task
api_task = new_task (codes "api") 1
