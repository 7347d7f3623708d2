-- ===== src/Output/CompletionSamples.antt =====
-- A task that has failed, and what is written for it.
use edward.Base.{ℕ, ◌+◌, ◌<◌, ◌≡◌, refl, some, [], ◌∷◌, ◌++◌, length}
use edward.Base.Text.{Text, codes, text_eq}
use edward.Services.{is_nonempty}
use edward.Tracker.{
  TaskState, pending, failed, in_progress, Info, Task, node, nil, cons, find_task, get_state,
  duration, count_state, combine_states,
}
use edward.Output.{extend_prefix, get_longest_name, render, auto_round_time, less}
use edward.Output.Completion.{report, render_completion, render_completion-found, path_text}
use edward.Output.Follower.{handle}

abbrev an_info : Text → TaskState → Info
an_info name state = record {
  name = name;
  messages = codes "exit status 1" ∷ [];
  state = state;
  start_time = 0;
  end_time = 5;
}

abbrev build_failed : Task
build_failed = node (an_info (codes "Build") failed) nil

abbrev tasks : Task
tasks = node (an_info [] pending) (
    cons (node (an_info (codes "api") in_progress) nil)
      (cons (node (an_info (codes "web") pending) (cons build_failed nil)) nil))

program : Unit {0}
unfolding is_nonempty extend_prefix get_longest_name render auto_round_time less find_task text_eq
    path_text render_completion report get_state duration count_state combine_states handle
program = tt

failure :
    render_completion 9 (codes "web" ∷ codes "Build" ∷ []) tasks
    ≡ record {
      label = codes "web > Build:";
      width = 14;
      state = codes "Failed";
      time = some 5;
      messages = codes "exit status 1" ∷ [];
    }
      ∷ []
unfolding program
failure = refl

render_completion-found_example :
    (width : ℕ) × (render_completion 9 (codes "web" ∷ codes "Build" ∷ []) tasks
      ≡ report 9 (codes "web > Build") width build_failed ∷ [])
    × (length (codes "web > Build" ++ codes ":") < width + 3)
unfolding program
render_completion-found_example =
    render_completion-found 9 (codes "web" ∷ codes "Build" ∷ []) tasks refl
