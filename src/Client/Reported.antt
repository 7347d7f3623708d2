-- ===== src/Client/Reported.antt =====
-- Which errors the commands of edward/start.go, edward/stop.go and edward/restart.go report.
use edward.Base.{
  ◌≡◌, refl, ap, Bool, true, false, ◌&&◌, ◌||◌, none, some, List, [], ◌∷◌, ◌++◌, Result, ok, err,
  if◌then◌else◌,
}
use edward.Base.Text.{Text, codes}
use edward.Services.{OperationConfig}
use edward.Client.{
  Outcome, Target, Session, Client, at_least_one, next, ask_for_confirmation, service_checked,
  launch_error, start_each, stop, stop_targets, resolved, restart, restart_all, tail_if,
  tail_from_flag,
}

module _ {W : Type 0} (session : Session W) (c : Client W) where
  reported-tail :
      (b tail : Bool) (w1 w : W)
      → (if b then tail_if session c tail [] w1 else (none, w)).0
        ≡ (if b && tail then some at_least_one else none)
  unfolding tail_from_flag
  reported-tail true true w1 w = refl
  reported-tail true false w1 w = refl
  reported-tail false tail w1 w = refl

  next-ending :
      (r : Outcome W) (f : W → Outcome W) → ((w : W) → (f w).0 ≡ none) → (next r f).0 ≡ r.0
  next-ending (some e, w) f h = refl
  next-ending (none, w) f h = h w

  resolved-error :
      (sgs : Result Text (List (Target W))) (exclude : List Text) (w : W)
      → (resolved session c sgs (λ sgs. stop_targets session c sgs exclude) w).0
        ≡ elim sgs [ err e ↦ some e | ok sgs ↦ (service_checked c.service_checks sgs w).0 ]
  resolved-error (err e) exclude w = refl
  resolved-error (ok sgs) exclude w =
      next-ending (service_checked c.service_checks sgs w) (stop_targets session c sgs exclude)
        (λ w. refl)

  -- Restart of all services reports no error of the services, or of finding out which of them run. What
  -- it reports is that no name was given, where it goes ahead and is to follow the logs afterwards.
  pub restart-error :
      (force skip_build tail no_watch : Bool) (exclude lines : List Text) (w : W)
      → (restart session c [] force skip_build tail no_watch exclude lines w).0
        ≡ (if (force || ask_for_confirmation c lines) && tail then some at_least_one else none)
  unfolding restart
  restart-error force skip_build tail no_watch exclude lines w =
      reported-tail (force || ask_for_confirmation c lines) tail
        (restart_all session c skip_build no_watch exclude w).1 w

  -- Stop of services that are named reports an error where a name is not known or a check fails, and
  -- never one of stopping the services.
  pub stop-error :
      (name : Text) (names : List Text) (force : Bool) (exclude lines : List Text) (w : W)
      → (stop session c (name ∷ names) force exclude lines w).0
        ≡ elim (session.get_services_or_groups (name ∷ names)) [
          | err e ↦ some e
          | ok sgs ↦ (service_checked c.service_checks sgs w).0
        ]
  unfolding stop
  stop-error name names force exclude lines w =
      resolved-error (session.get_services_or_groups (name ∷ names)) exclude w

next-error :
    {W : Type 0} (r : Outcome W) (f g : W → Outcome W) (w1 : W) (last : Outcome W)
    → next r f ≡ (none, w1)
    → ((w : W) → f w ≡ (none, w1) → g w ≡ last)
    → next r g ≡ last
next-error (some e, w) f g w1 last h k = cc
next-error (none, w) f g w1 last h k = k w h

module _ {W : Type 0} (skip_build : Bool) (cfg : OperationConfig) where
  -- Where starting one service or group fails, the command reports its name and its error, and leaves
  -- those after it alone: they are not started, and the state stays as that one has left it.
  pub start_each-error :
      (before : List (Target W)) (s : Target W) (after : List (Target W)) (w w1 w2 : W) (e : Text)
      → start_each skip_build cfg before w ≡ (none, w1)
      → (if skip_build then s.launch cfg w1 else s.start cfg w1) ≡ (some e, w2)
      → start_each skip_build cfg (before ++ s ∷ after) w
        ≡ (some (codes "Error launching " ++ (s.name ++ (codes ": " ++ e))), w2)
  unfolding start_each
  start_each-error [] s after w w1 w2 e h k = rw (ap (λ r. r.1) h) (rw k)
  start_each-error (t ∷ before) s after w w1 w2 e h k =
      next-error (launch_error t (if skip_build then t.launch cfg w else t.start cfg w))
        (start_each skip_build cfg before) (start_each skip_build cfg (before ++ s ∷ after)) w1
        (some (codes "Error launching " ++ (s.name ++ (codes ": " ++ e))), w2) h
        (λ w'. λ h'. start_each-error before s after w' w1 w2 e h' k)
