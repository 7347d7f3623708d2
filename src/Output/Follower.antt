-- ===== src/Output/Follower.antt =====
-- output/tasks.go: the follower, which writes what becomes of a task, and what is in progress.
use edward.Base.{ℕ, Bool, true, false, Option, none, some, List, [], ◌++◌, if◌then◌else◌}
use edward.Tracker.{Task, TaskPath, find_task, is_open, get_state}
use edward.Output.{Line, render}
use edward.Output.Completion.{Report, render_completion}

-- A follower, with what it has written above the lines in progress, and those; none where it has no
-- writer.
pub record Shown : Type 0 where
  pub above : List Report
  pub lines : List Line

-- `Reset`, which panics where there is a writer.
unfoldable pub reset : Option Shown → Option (Option Shown)
reset none = some (some (record { above = []; lines = [] }))
reset (some shown) = none

-- The task of an update has ended.
unfoldable pub has_ended : Option Task → Bool
unfolding get_state
has_ended none = false
has_ended (some t) = if is_open (get_state t) then false else true

-- `Handle` of a task of a tree; without a writer it panics.
unfoldable pub handle : ℕ → TaskPath → Task → Option Shown → Option (Option Shown)
unfolding has_ended find_task render_completion render
handle now path root none = none
handle now path root (some shown) = some (
    some (record {
      above =
          if has_ended (find_task path root)
          then shown.above ++ render_completion now path root
          else shown.above;
      lines = render [] 0 root;
    }))

-- `Done`, which panics without a writer.
unfoldable pub done : Option Shown → Option (Option Shown)
done none = none
done (some shown) = some none
