-- ===== src/Output/Samples.antt =====
-- A tree of three tasks and a duration, and the theorems at them.
use edward.Base.{◌-◌, ◌≡◌, refl, true, [], ◌∷◌, all, arith}
use edward.Base.Text.{Text, codes}
use edward.Services.{is_nonempty}
use edward.Tracker.{TaskState, pending, in_progress, success, Info, Task, node, nil, cons}
use edward.Output.{
  extend_prefix, get_longest_name, render, auto_round_time, round_time, rounded, remainder, negated,
  minus, less, modulus,
}
use edward.Output.Aligned.{is_aligned, render-is_aligned}
use edward.Output.Rounding.{IsNearest, auto_round_time-IsNearest, unit_of}

abbrev an_info : Text → TaskState → Info
an_info name state = record {
  name = name;
  messages = [];
  state = state;
  start_time = 0;
  end_time = 0;
}

abbrev tasks : Task
tasks = node (an_info [] pending) (
    cons
      (node (an_info (codes "web") pending) (
        cons (node (an_info (codes "Build") in_progress) nil)
          (cons (node (an_info (codes "Start") success) nil) nil)))
      nil)

program : Unit {0}
unfolding is_nonempty extend_prefix get_longest_name render auto_round_time round_time rounded
    remainder negated minus less unit_of
program = tt

render-tasks : render [] 0 tasks ≡ record { width = 14; label = codes "web > Build:" } ∷ []
unfolding program
render-tasks = refl

render-is_aligned_example : all (is_aligned 11) (render [] 0 tasks) ≡ true
unfolding program
render-is_aligned_example = render-is_aligned tasks

round_time-negative : round_time (modulus - 1500) 1000 ≡ modulus - 2000
unfolding program
round_time-negative = refl

auto_round_time-IsNearest_example : IsNearest 1500400000 1000000 1500000000
unfolding program
auto_round_time-IsNearest_example = auto_round_time-IsNearest 1500400000 (omega arith)
