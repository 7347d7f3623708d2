-- ===== src/Client/Performed.antt =====
-- What the commands of edward/restart.go and edward/stop.go do to services and groups that are named:
-- the calls of their plans, between the start of the worker pool and its end.
use edward.Base.{◌≡◌, refl, sym, ap, ◌∙◌, Bool, false, none, some, List, [], ◌∷◌, ok}
use mathlib.Core.Path.{fun_ext}
use edward.Base.Text.{Text}
use edward.Services.{OperationConfig}
use edward.Groups.{Member, service, group, and_then}
use edward.Groups.Plans.{perform}
use edward.Groups.Refinement.{perform-append, stop-perform}
use edward.Client.{
  Outcome, Session, Client, next, service_checked, stop_each, restart_each, ending, pool_size,
  operation_config, tail_if, restart, restart_services, stop,
}
use edward.Client.Targets.{Calls, target_of, targets_of, member_plan, members_plan, no_override}

next-and_then : {W : Type 0} (r : Outcome W) (f : W → Outcome W) → next r f ≡ and_then r f
next-and_then (none, w) f = refl
next-and_then (some e, w) f = refl

and_then-none : {W : Type 0} (r : Outcome W) → and_then r (λ w. (none, w)) ≡ r
and_then-none (none, w) = refl
and_then-none (some e, w) = refl

module _ {W : Type 0} (calls : Calls W) (cfg : OperationConfig) where
  restart-member :
      (m : Member) (w : W)
      → (target_of calls m).restart cfg w
        ≡ perform calls.child_task (calls.restart cfg) (member_plan cfg m) w
  unfolding target_of member_plan
  restart-member (service s) w = sym (and_then-none (calls.restart cfg s no_override [] w))
  restart-member (group g) w =
      stop-perform calls.child_task (calls.restart cfg) cfg g no_override [] w

  stop-member :
      (m : Member) (w : W)
      → (target_of calls m).stop cfg w
        ≡ perform calls.child_task (calls.stop cfg) (member_plan cfg m) w
  unfolding target_of member_plan
  stop-member (service s) w = sym (and_then-none (calls.stop cfg s no_override [] w))
  stop-member (group g) w = stop-perform calls.child_task (calls.stop cfg) cfg g no_override [] w

  restart_each-perform :
      (ms : List Member) (w : W)
      → restart_each cfg (targets_of calls ms) w
        ≡ perform calls.child_task (calls.restart cfg) (members_plan cfg ms) w
  unfolding restart_each targets_of members_plan
  restart_each-perform [] w = refl
  restart_each-perform (m ∷ ms) w = rw (
    next-and_then ((target_of calls m).restart cfg w) (restart_each cfg (targets_of calls ms)),
    restart-member m w,
    perform-append calls.child_task (calls.restart cfg) (member_plan cfg m) (members_plan cfg ms) w,
    fun_ext (restart_each-perform ms),
  )

  -- Each service and group is stopped, whether or not stopping those before it has failed.
  abbrev pub stop_members : List Member → W → W
  stop_members [] w = w
  stop_members (m ∷ ms) w =
      stop_members ms (perform calls.child_task (calls.stop cfg) (member_plan cfg m) w).1

  stop_each-members :
      (ms : List Member) (w : W) → stop_each cfg (targets_of calls ms) w ≡ stop_members ms w
  unfolding stop_each targets_of
  stop_each-members [] w = refl
  stop_each-members (m ∷ ms) w =
      stop_each-members ms ((target_of calls m).stop cfg w).1
      ∙ ap (λ r. stop_members ms r.1) (stop-member m w)

module _ {W : Type 0} (calls : Calls W) (session : Session W) (c : Client W) (name : Text)
    (names : List Text) (ms : List Member) (w w' : W)
    (found : session.get_services_or_groups (name ∷ names) ≡ ok (targets_of calls ms))
    (checked : service_checked c.service_checks (targets_of calls ms) w ≡ (none, w')) where
  -- Restart of services and groups that are named, where the names are known and the checks succeed,
  -- starts a pool, makes the calls of the plans of the services and groups, one plan after the other
  -- and up to the first error, and then stops the pool and waits for it; without an error it goes on to
  -- the logs where it is asked to.
  pub restart-perform :
      (force skip_build tail no_watch : Bool) (exclude lines : List Text)
      → restart session c (name ∷ names) force skip_build tail no_watch exclude lines w
        ≡ next
            (ending session c (
              perform calls.child_task
                (calls.restart (operation_config session c exclude skip_build no_watch))
                (members_plan (operation_config session c exclude skip_build no_watch) ms)
                (session.new_pool (pool_size session c 1) w')))
            (tail_if session c tail (name ∷ names))
  unfolding restart restart_services
  restart-perform force skip_build tail no_watch exclude lines = rw (
    found,
    checked,
    restart_each-perform calls (operation_config session c exclude skip_build no_watch) ms
        (session.new_pool (pool_size session c 1) w'),
  )

  -- Stop of services and groups that are named, where the names are known and the checks succeed,
  -- starts a pool, makes for each of them the calls of its plan, up to the first error in it, and then
  -- stops the pool and waits for it. No error keeps it from those that come after, and it reports none.
  pub stop-perform_each :
      (force : Bool) (exclude lines : List Text)
      → stop session c (name ∷ names) force exclude lines w
        ≡ ending session c (
          none,
          stop_members calls
              (operation_config session c exclude false false)
              ms
              (session.new_pool (pool_size session c 3) w'),
        )
  unfolding stop
  stop-perform_each force exclude lines = rw (
    found,
    checked,
    stop_each-members calls (operation_config session c exclude false false) ms
        (session.new_pool (pool_size session c 3) w'),
  )
