-- ===== src/Config/Load.antt =====
-- `LoadConfig`, `loadConfigContents`, `loadImports` and `importConfig` of config/config.go. Opening a
-- file and decoding its JSON is an argument, and so is the version library.
use edward.Base.{
  ℕ, zero, suc, Bool, ◌&&◌, Option, none, some, List, [], ◌∷◌, ◌++◌, Result, ok, err, ◌>>=◌,
  if◌then◌else◌,
}
use edward.Base.Text.{Text}
use edward.Services.{is_nonempty}
use edward.Config.{Config, FilePath, LoadError, out_of_fuel, parse_error, unsupported_version}
use edward.Config.Init.{init_maps}

-- github.com/hashicorp/go-version
pub record Versions : Type 1 where
  pub Version : Type 0
  pub new_version : Text → Option Version
  pub less_than : Version → Version → Bool

-- What a process sees of the machine it runs on: `decode` opens and decodes a configuration file.
pub record Machine : Type 1 where
  pub paths : FilePath
  pub goos : Text
  pub decode : Text → Result Text Config
  pub versions : Versions

abbrev pub empty_config : Config
empty_config = record {
  working_dir = [];
  min_edward_version = [];
  imports = [];
  imported_groups = [];
  imported_services = [];
  env = [];
  groups = [];
  services = [];
  service_map = [];
  group_map = [];
  file_path = [];
}

-- `importConfig`: the services and groups that the imported file itself defines.
unfoldable pub import_config : Config → Config → Config
import_config c second = record c {
  imported_services = c.imported_services ++ second.services;
  imported_groups = c.imported_groups ++ second.groups;
}

abbrev pub decoded : Result Text Config → Result LoadError Config
decoded (ok c) = ok c
decoded (err e) = err (parse_error e)

module _ (m : Machine) where
  open m use {paths, goos, decode, versions}
  open versions use {Version, new_version, less_than}

  abbrev pub import_path : Text → Text → Text
  import_path working_dir i = if paths.is_abs i then i else paths.join working_dir i

  -- The loop of `loadImports`, over the function that loads one file.
  unfoldable pub load_imports :
      (Text → Text → Result LoadError Config) → Config → List Text → Result LoadError Config
  unfolding import_config
  load_imports load c [] = ok c
  load_imports load c (i ∷ is) = do
    cfg ← load (import_path c.working_dir i) (paths.dir (import_path c.working_dir i))
    load_imports load (import_config c cfg) is

  -- The fuel bounds how deep imports lead to imports.
  unfoldable pub load_contents : ℕ → Text → Text → Result LoadError Config
  unfolding load_imports
  load_contents zero path working_dir = err out_of_fuel
  load_contents (suc fuel) path working_dir = decoded (decode path) >>= λ c.
      load_imports (load_contents fuel) (record c { working_dir = working_dir }) c.imports

  abbrev pub check_current : Config → Version → Option Version → Result LoadError Config
  check_current c min none = ok empty_config
  check_current c min (some current) =
      if less_than current min
      then err (unsupported_version c.min_edward_version)
      else init_maps paths goos c

  abbrev pub check_minimum : Config → Text → Option Version → Result LoadError Config
  check_minimum c edward_version none = ok empty_config
  check_minimum c edward_version (some min) = check_current c min (new_version edward_version)

  -- A version that cannot be read ends in `errors.WithStack(err)` with an `err` that is nil.
  unfoldable pub check_version : Text → Config → Result LoadError Config
  unfolding is_nonempty
  check_version edward_version c =
      if is_nonempty c.min_edward_version && is_nonempty edward_version
      then check_minimum c edward_version (new_version c.min_edward_version)
      else init_maps paths goos c

  unfoldable pub load_config : ℕ → Text → Text → Result LoadError Config
  unfolding load_contents check_version
  load_config fuel file_path edward_version =
      load_contents fuel file_path (paths.dir file_path) >>= λ c.
      check_version edward_version (record c { file_path = file_path })
