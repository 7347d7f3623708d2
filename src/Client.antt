-- ===== src/Client.antt =====
-- The commands start, stop and restart of a client: edward/client.go, edward/start.go, edward/stop.go and
-- edward/restart.go. What the commands share is a record of calls, `Session`, over a state `W`: the
-- configuration, the operations of services and groups on the task that the command creates, and the
-- worker pool. `sort.Sort` is insertion sort.
pub mod Followed
pub mod Lists
pub mod Logs
pub mod Reported
pub mod Targets
pub mod Performed
mod LogSamples
mod TargetSamples
mod Samples
use edward.Base.{
  ℕ, zero, suc, ◌≡◌, Bool, true, false, not, ◌||◌, Option, none, some, List, [], ◌∷◌, ◌++◌, Result,
  ok, err, if◌then◌else◌, map,
}
use edward.Base.Text.{Text, codes, text_eq}
use edward.Base.Sort.{sort_by}
use edward.Services.{OperationConfig, is_nonempty}

abbrev pub Outcome : Type 0 → Type 0
Outcome W = Option Text × W

-- `services.ServiceOrGroup`, as the commands use it: the pool is the session's, and there are no
-- overrides. `is_up` is how many of its statuses are not `StatusStopped`, or the error of Status.
pub record Target (W : Type 0) : Type 0 where
  pub name : Text
  pub launch : OperationConfig → W → Outcome W
  pub start : OperationConfig → W → Outcome W
  pub stop : OperationConfig → W → Outcome W
  pub restart : OperationConfig → W → Outcome W
  pub is_up : W → Result Text ℕ × W

pub record Session (W : Type 0) : Type 0 where
  pub get_services_or_groups : List Text → Result Text (List (Target W))
  pub all_sorted : List (Target W)
  pub service_map : List (Target W)
  pub pid_of : Target W → W → ℕ
  pub new_pool : ℕ → W → W
  pub finish_pool : W → W
  pub follower_done : W → W
  pub follow_logs : List Text → W → Outcome W

pub record Client (W : Type 0) : Type 0 where
  pub service_checks : Option (List (Target W) → W → Outcome W)
  pub edward_executable : Text
  pub disable_concurrent_phases : Bool
  pub is_child : Text
  pub trim_lower : Text → Text

abbrev pub at_least_one : Text
at_least_one = codes "At least one service or group must be specified"

-- `askForConfirmation`, on the lines that are read; at the end of them reading fails.
unfoldable pub read_answer : (Text → Text) → List Text → Bool
unfolding text_eq
read_answer trim_lower [] = false
read_answer trim_lower (line ∷ lines) =
    let rest = read_answer trim_lower lines in
    let response = trim_lower line in
    if text_eq response (codes "y") || text_eq response (codes "yes")
    then true
    else if text_eq response (codes "n") || text_eq response (codes "no")
    then false
    else rest

module _ {W : Type 0} where
  abbrev pub next : Outcome W → (W → Outcome W) → Outcome W
  next (some e, w) f = (some e, w)
  next (none, w) f = f w

  unfoldable pub ask_for_confirmation : Client W → List Text → Bool
  unfolding is_nonempty read_answer
  ask_for_confirmation c lines =
      if is_nonempty c.is_child then true else read_answer c.trim_lower lines

  -- The checks, where the client has them.
  abbrev pub service_checked :
      Option (List (Target W) → W → Outcome W) → List (Target W) → W → Outcome W
  service_checked none sgs w = (none, w)
  service_checked (some check) sgs w = check sgs w

  abbrev pub launch_error : Target W → Outcome W → Outcome W
  launch_error s (none, w) = (none, w)
  launch_error s (some e, w) = (some (codes "Error launching " ++ (s.name ++ (codes ": " ++ e))), w)

  -- The loop of `startAndTrack`.
  unfoldable pub start_each : Bool → OperationConfig → List (Target W) → W → Outcome W
  start_each skip_build cfg [] w = (none, w)
  start_each skip_build cfg (s ∷ ss) w =
      next (launch_error s (if skip_build then s.launch cfg w else s.start cfg w))
        (start_each skip_build cfg ss)

  -- The loop of `Stop`, which drops the errors.
  unfoldable pub stop_each : OperationConfig → List (Target W) → W → W
  stop_each cfg [] w = w
  stop_each cfg (s ∷ ss) w = stop_each cfg ss (s.stop cfg w).1

  -- The loop of `restartOneOrMoreServices`.
  unfoldable pub restart_each : OperationConfig → List (Target W) → W → Outcome W
  restart_each cfg [] w = (none, w)
  restart_each cfg (s ∷ ss) w = next (s.restart cfg w) (restart_each cfg ss)

module _ {W : Type 0} (session : Session W) (c : Client W) where
  abbrev pub pool_size : ℕ → ℕ
  pool_size n = if c.disable_concurrent_phases then 0 else n

  -- The deferred functions: the pool is stopped and waited for, then the follower is done.
  abbrev pub ending : Outcome W → Outcome W
  ending (e, w) = (e, session.follower_done (session.finish_pool w))

  abbrev pub operation_config : List Text → Bool → Bool → OperationConfig
  operation_config exclude skip_build no_watch = record {
    edward_executable = c.edward_executable;
    exclusions = exclude;
    no_watch = no_watch;
    skip_build = skip_build;
  }

  -- `startAndTrack`
  unfoldable pub start_and_track : List (Target W) → Bool → Bool → List Text → W → Outcome W
  unfolding start_each
  start_and_track sgs skip_build no_watch exclude w = ending (
      start_each skip_build (operation_config exclude skip_build no_watch) sgs
        (session.new_pool (pool_size 1) w))

  -- `tailFromFlag`, which follows the logs of at least one service.
  unfoldable pub tail_from_flag : List Text → W → Outcome W
  tail_from_flag [] w = (some at_least_one, w)
  tail_from_flag (name ∷ names) w = session.follow_logs (name ∷ names) w

  abbrev pub tail_if : Bool → List Text → W → Outcome W
  tail_if true names w = tail_from_flag names w
  tail_if false names w = (none, w)

  abbrev pub resolved :
      Result Text (List (Target W)) → (List (Target W) → W → Outcome W) → W → Outcome W
  resolved (err e) f w = (some e, w)
  resolved (ok sgs) f w = next (service_checked c.service_checks sgs w) (f sgs)

  -- `Start`
  unfoldable pub start : List Text → Bool → Bool → Bool → List Text → W → Outcome W
  unfolding start_and_track tail_from_flag
  start [] skip_build tail no_watch exclude w = (some at_least_one, w)
  start (name ∷ names) skip_build tail no_watch exclude w =
      next
        (resolved (session.get_services_or_groups (name ∷ names))
          (λ sgs. start_and_track sgs skip_build no_watch exclude) w)
        (tail_if tail (name ∷ names))

  abbrev pub copies : ℕ → Target W → List (Target W)
  copies zero s = []
  copies (suc n) s = s ∷ copies n s

  abbrev pub Found : Type 0
  Found = Result Text (List (Target W)) × W

  abbrev pub also : List (Target W) → Found → Found
  also up (err e, w) = (err e, w)
  also up (ok rest, w) = (ok (up ++ rest), w)

  abbrev pub found_up : Target W → Result Text ℕ × W → (W → Found) → Found
  found_up s (err e, w) rest = (err e, w)
  found_up s (ok n, w) rest = also (copies n s) (rest w)

  -- The services with a status that is not stopped, each as often as it has one.
  unfoldable pub up_services : List (Target W) → W → Found
  up_services [] w = (ok [], w)
  up_services (s ∷ ss) w = found_up s (s.is_up w) (up_services ss)

  abbrev pub stop_targets : List (Target W) → List Text → W → Outcome W
  stop_targets sgs exclude w = ending (
    none,
    stop_each (operation_config exclude false false) sgs (session.new_pool (pool_size 3) w),
  )

  -- `Stop`
  unfoldable pub stop : List Text → Bool → List Text → List Text → W → Outcome W
  unfolding stop_each up_services ask_for_confirmation
  stop [] force exclude lines w =
      if force || ask_for_confirmation c lines
      then (let (up, w') = up_services session.all_sorted w in
          resolved up (λ sgs. stop_targets sgs exclude) w')
      else (none, w)
  stop (name ∷ names) force exclude lines w =
      resolved (session.get_services_or_groups (name ∷ names)) (λ sgs. stop_targets sgs exclude) w

  abbrev pub restart_targets : Bool → Bool → List Text → List (Target W) → W → Outcome W
  restart_targets skip_build no_watch exclude sgs w = ending (
      restart_each (operation_config exclude skip_build no_watch) sgs
        (session.new_pool (pool_size 1) w))

  -- `restartOneOrMoreServices`
  unfoldable pub restart_services : List Text → Bool → Bool → List Text → W → Outcome W
  unfolding restart_each
  restart_services names skip_build no_watch exclude w =
      resolved (session.get_services_or_groups names) (restart_targets skip_build no_watch exclude)
        w

  abbrev pub restart_up : Bool → Bool → List Text → Result Text (List (Target W)) → W → Outcome W
  restart_up skip_build no_watch exclude (err e) w = (some e, w)
  restart_up skip_build no_watch exclude (ok up) w =
      restart_services (map (λ s. s.name) (sort_by (λ s. session.pid_of s w ∷ []) up)) skip_build
        no_watch exclude w

  -- `restartAll`, with the services by their pids.
  unfoldable pub restart_all : Bool → Bool → List Text → W → Outcome W
  unfolding restart_services up_services sort_by
  restart_all skip_build no_watch exclude w =
      let (up, w') = up_services session.service_map w in
      restart_up skip_build no_watch exclude up w'

  -- `Restart`
  unfoldable pub restart :
      List Text → Bool → Bool → Bool → Bool → List Text → List Text → W → Outcome W
  unfolding restart_all restart_services tail_from_flag ask_for_confirmation
  restart [] force skip_build tail no_watch exclude lines w =
      if force || ask_for_confirmation c lines
      then tail_if tail [] (restart_all skip_build no_watch exclude w).1
      else (none, w)
  restart (name ∷ names) force skip_build tail no_watch exclude lines w =
      next (restart_services (name ∷ names) skip_build no_watch exclude w)
        (tail_if tail (name ∷ names))
