-- ===== src/Cmd.antt =====
-- cmd/root.go: what comes before and after a command of the command line: the path of the
-- configuration, the checks before a command, and the notice of an update after it. The files, the
-- configuration's operations and the look for an update are arguments; logging is left out.
pub mod Sudo
pub mod Notices
pub mod Dispatch
mod Samples
use edward.Base.{
  ℕ, zero, suc, Bool, true, false, not, ◌&&◌, Option, none, some, List, [], ◌∷◌, ◌++◌, Result, ok,
  err, if◌then◌else◌, any,
}
use edward.Base.Text.{Text, codes, text_eq}
use edward.Services.{ServiceConfig, is_nonempty}
use edward.Config.{FilePath}

-- `os.Getwd`, `path.Dir`, and whether `os.Stat` returns no error.
pub record Places : Type 0 where
  pub edward_dir : Text
  pub getwd : Result Text Text
  pub parent_dir : Text → Text
  pub can_stat : Text → Bool

module _ (fp : FilePath) (places : Places) where
  abbrev pub config_in : Text → Text
  config_in dir = fp.join dir (codes "edward.json")

  -- The loop up the directories, whose fuel bounds their number.
  unfoldable pub options_above : ℕ → Text → List Text
  unfolding text_eq
  options_above zero wd = []
  options_above (suc fuel) wd =
      let rest = options_above fuel (places.parent_dir wd) in
      if text_eq (places.parent_dir wd) wd then [] else config_in (places.parent_dir wd) ∷ rest

  unfoldable pub path_options : ℕ → Result Text Text → List Text
  unfolding options_above
  path_options fuel (ok wd) = config_in places.edward_dir ∷ config_in wd ∷ options_above fuel wd
  path_options fuel (err e) = config_in places.edward_dir ∷ options_above fuel []

  -- An error of `filepath.Abs` is printed, and the path is empty.
  abbrev pub absolute : Result Text Text → Text
  absolute (ok path) = path
  absolute (err e) = []

  unfoldable pub first_path : List Text → Text
  first_path [] = []
  first_path (path ∷ paths) =
      let rest = first_path paths in if places.can_stat path then absolute (fp.abs path) else rest

  -- `getConfigPath`
  unfoldable pub get_config_path : ℕ → Text
  unfolding path_options first_path
  get_config_path fuel = first_path (path_options fuel places.getwd)

-- What PersistentPreRunE calls: loading the shared configuration or an empty one, changing to its base
-- path, the services of its map, and whether their legacy pid files are not known to be missing.
pub record Startup (W : Type 0) : Type 0 where
  pub load_shared_config : Text → W → Option Text × W
  pub chdir_to_base : W → Option Text × W
  pub init_empty_config : W → W
  pub service_map : W → List ServiceConfig
  pub has_legacy_pid : W → ServiceConfig → Bool
  pub look_for_update : W → W

module _ {W : Type 0} (startup : Startup W) where
  abbrev pub and_then : Option Text × W → (W → Option Text × W) → Option Text × W
  and_then (some e, w) next = (some e, w)
  and_then (none, w) next = next w

  abbrev pub older_version : Text
  older_version =
      codes
        "one or more services were started with an older version of Edward. Please run `edward stop` to stop these instances"

  unfoldable pub load_config : Text → Text → W → Option Text × W
  unfolding text_eq
  load_config path command w =
      if text_eq command (codes "generate")
      then (none, startup.init_empty_config w)
      else and_then (startup.load_shared_config path w) startup.chdir_to_base

  unfoldable pub check_legacy : Text → W → Option Text × W
  unfolding text_eq
  check_legacy command w =
      if not (text_eq command (codes "stop"))
        && any (startup.has_legacy_pid w) (startup.service_map w)
      then (some older_version, w)
      else (none, w)

  unfoldable pub start_update_check : Text → W → Option Text × W
  unfolding text_eq
  start_update_check command w =
      (none, if text_eq command (codes "run") then w else startup.look_for_update w)

  -- `PersistentPreRunE`, with the flag of the path and the path that getConfigPath finds.
  unfoldable pub pre_run : Text → Text → Text → W → Option Text × W
  unfolding load_config check_legacy start_update_check is_nonempty
  pre_run flag found command w =
      and_then (load_config (if is_nonempty flag then flag else found) command w)
        (λ w. and_then (check_legacy command w) (start_update_check command))

-- What goes through `checkUpdateChan`, which is closed after it.
pub data Message : Type 0 where
  available : Bool → Message
  version : Text → Message

-- `checkUpdateAvailable`, on what UpdateAvailable returns.
unfoldable pub check_update_available : Result Text (Bool × Text) → List Message
check_update_available (err e) = []
check_update_available (ok (false, latest)) = available false ∷ []
check_update_available (ok (true, latest)) = available true ∷ version latest ∷ []

-- What `PersistentPostRun` comes to: nothing, the notice of a version, or the panic of its second
-- assertion, where what comes next is no text.
pub data Notice : Type 0 where
  no_notice : Notice
  notice : Text → Notice
  bad_assertion : Notice

unfoldable pub second_message : List Message → Notice
second_message [] = bad_assertion
second_message (available b ∷ ms) = bad_assertion
second_message (version latest ∷ ms) = notice latest

unfoldable pub read_messages : List Message → Notice
unfolding second_message
read_messages [] = no_notice
read_messages (version latest ∷ ms) = no_notice
read_messages (available false ∷ ms) = no_notice
read_messages (available true ∷ ms) = second_message ms

-- `PersistentPostRun`; a command for which no update is looked for has no channel.
unfoldable pub post_run : Option (List Message) → Notice
unfolding read_messages
post_run none = no_notice
post_run (some messages) = read_messages messages
