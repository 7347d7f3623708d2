-- ===== src/Runner/Watching.antt =====
-- runner/watch.go, and `SetWatch` and `Watch` of services/serviceconfig.go: watching the files of a
-- service, and the rebuilds that follow. The watchers of the operating system and the decoding of
-- JSON are arguments; logging is left out.
use edward.Base.{
  ℕ, Bool, true, not, ◌&&◌, Option, none, some, List, [], ◌∷◌, ◌++◌, Result, ok, err, if◌then◌else◌,
  any,
}
use edward.Base.Text.{Text, codes, has_prefix}
use edward.Services.{ServiceConfig, ServiceWatch, is_nonempty}
use edward.Commands.{ServiceCommand, Host, Fault, World, M, ◌>>=◌, ◌>>◌}
use edward.Commands.Load.{get_command}
use edward.Commands.Build.{build_with_tracker}

-- The package for JSON: a watch as its included and excluded paths, and a text.
pub record Json : Type 0 where
  pub marshal : ServiceWatch → Result Text Text
  pub to_watch : Text → Result Text (List Text × List Text)
  pub to_text : Text → Result Text Text

module _ (json : Json) where
  -- `SetWatch`
  unfoldable pub set_watch : ServiceWatch → ServiceConfig → Result Text ServiceConfig
  set_watch w c = elim (json.marshal w) [
    | ok text ↦ ok (record c { watch_json = text })
    | err e ↦ err e
  ]

  abbrev pub watch_text : ServiceConfig → Result Text Text → Result Text (List ServiceWatch)
  watch_text c (err e) = err e
  watch_text c (ok []) = ok []
  watch_text c (ok (b ∷ path)) =
      ok (record { service = c; included_paths = (b ∷ path) ∷ []; excluded_paths = [] } ∷ [])

  -- `Watch`
  unfoldable pub watch : ServiceConfig → Result Text (List ServiceWatch)
  unfolding is_nonempty
  watch c = if not (is_nonempty c.watch_json) then ok [] else elim (json.to_watch c.watch_json) [
    | ok paths ↦
        ok (record { service = c; included_paths = paths.0; excluded_paths = paths.1 } ∷ [])
    | err e ↦ watch_text c (json.to_text c.watch_json)
  ]

-- `fsnotify.NewWatcher`, and a watcher's methods, on a number that stands for it.
pub record Watchers (W : Type 0) : Type 0 where
  pub new_watcher : W → Result Text ℕ × W
  pub add : ℕ → Text → W → Option Text × W
  pub close : ℕ → W → W

module _ {W : Type 0} (watchers : Watchers W) where
  -- The loop over the included paths, which closes the watcher on an error.
  unfoldable pub add_paths : ℕ → List Text → W → Result Text ℕ × W
  add_paths n [] w = (ok n, w)
  add_paths n (dir ∷ dirs) w =
      let (e, w') = watchers.add n dir w in
      elim e [ none ↦ add_paths n dirs w' | some e ↦ (err e, watchers.close n w') ]

  unfoldable pub start_watch : ServiceWatch → W → Result Text ℕ × W
  unfolding add_paths
  start_watch watched w =
      let (r, w') = watchers.new_watcher w in
      elim r [ ok n ↦ add_paths n watched.included_paths w' | err e ↦ (err e, w') ]

  abbrev pub also_started : ℕ → Result Text (List ℕ) × W → Result Text (List ℕ) × W
  also_started n (ok ns, w) = (ok (n ∷ ns), w)
  also_started n (err e, w) = (err e, w)

  -- The loop of `BeginWatch`, which leaves the watchers of before open on an error.
  unfoldable pub start_watches : List ServiceWatch → W → Result Text (List ℕ) × W
  unfolding start_watch
  start_watches [] w = (ok [], w)
  start_watches (watched ∷ ws) w =
      let (r, w') = start_watch watched w in
      elim r [ ok n ↦ also_started n (start_watches ws w') | err e ↦ (err e, w') ]

  -- `BeginWatch`: the watchers that the function that it returns closes, if it returns one.
  unfoldable pub begin_watch :
      Result Text (List ServiceWatch) → W → Result Text (Option (List ℕ)) × W
  unfolding start_watches
  begin_watch (err e) w = (err e, w)
  begin_watch (ok []) w = (ok none, w)
  begin_watch (ok (watched ∷ ws)) w =
      let (r, w') = start_watches (watched ∷ ws) w in
      (elim r [ ok ns ↦ ok (some ns) | err e ↦ err e ], w')

  unfoldable pub close_all : List ℕ → W → W
  close_all [] w = w
  close_all (n ∷ ns) w = close_all ns (watchers.close n w)

-- The watch that the goroutines of all watchers look at when the loop of `BeginWatch` is over: they
-- share its variable.
unfoldable pub captured : List ServiceWatch → Option ServiceWatch
captured [] = none
captured (watched ∷ []) = some watched
captured (watched ∷ other ∷ ws) = captured (other ∷ ws)

-- An event of a watcher; `is_write` is whether its operation is a write and nothing else.
pub record FileEvent : Type 0 where
  pub name : Text
  pub is_write : Bool

-- Whether the goroutine of a watcher rebuilds for an event.
unfoldable pub is_relevant : ServiceWatch → FileEvent → Bool
unfolding has_prefix
is_relevant watched event =
    event.is_write && not (any (has_prefix event.name) watched.excluded_paths)

module _ {S : Type 0} (host : Host S) (restart : M S Unit) where
  abbrev pub build_failed : Result Fault Unit × World S → Result Fault Unit × World S
  build_failed (ok u, w) = (ok u, w)
  build_failed (err (Fault.failed e), w) = (err (Fault.failed (codes "build failed: " ++ e)), w)
  build_failed (err f, w) = (err f, w)

  abbrev pub built : ServiceCommand → M S Unit
  built command w = build_failed (build_with_tracker host true [] command w)

  -- `rebuildService`
  unfoldable pub rebuild_service : ServiceConfig → M S Unit
  unfolding get_command build_with_tracker
  rebuild_service c = do command ← get_command host c (record { env = [] }); built command; restart

  -- The error of a rebuild is only logged.
  abbrev pub rebuilt : ServiceConfig → World S → World S
  rebuilt c w = (rebuild_service c w).1

  unfoldable pub handle_events : ServiceWatch → List FileEvent → World S → World S
  unfolding is_relevant rebuild_service
  handle_events watched [] w = w
  handle_events watched (event ∷ events) w =
      if is_relevant watched event
      then handle_events watched events (rebuilt watched.service w)
      else handle_events watched events w
