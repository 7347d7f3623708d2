-- ===== src/Home.antt =====
-- home/home.go: the directories of Edward in the user's home.
use edward.Base.{Bool, List, [], ◌∷◌, Result, ok, err, if◌then◌else◌}
use edward.Base.Text.{Text, codes}

pub record EdwardConfiguration : Type 0 where
  pub dir : Text
  pub edward_log_dir : Text
  pub log_dir : Text
  pub pid_dir : Text
  pub state_dir : Text
  pub script_dir : Text

-- `path.Join`, and whether `os.Stat` says that a directory is not there.
module _ (join : Text → Text → Text) (is_missing : Text → Bool) where
  unfoldable pub configuration_in : Text → EdwardConfiguration
  configuration_in home_dir =
      let dir = join home_dir (codes ".edward") in
      record {
        dir = dir;
        edward_log_dir = join dir (codes "edward_logs");
        log_dir = join dir (codes "logs");
        pid_dir = join dir (codes "pidFiles");
        state_dir = join dir (codes "stateFiles");
        script_dir = join dir (codes "scriptFiles");
      }

  -- `createDirIfNeeded` of each in turn: the directories that are made.
  unfoldable pub dirs_made : List Text → List Text
  dirs_made [] = []
  dirs_made (path ∷ paths) =
      let rest = dirs_made paths in if is_missing path then path ∷ rest else rest

  -- `Initialize`, on the home directory of the current user.
  unfoldable pub initialize : Result Text Text → Result Text (EdwardConfiguration × List Text)
  unfolding configuration_in dirs_made
  initialize (err e) = err e
  initialize (ok home_dir) =
      let c = configuration_in home_dir in
      ok (
        c,
        dirs_made
            (c.dir ∷ c.edward_log_dir ∷ c.log_dir ∷ c.pid_dir ∷ c.state_dir ∷ c.script_dir ∷ []),
      )
