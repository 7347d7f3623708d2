-- ===== src/Config.antt =====
-- config/config.go: the project configuration and how it becomes the maps that every command uses.
-- Paths are the functions of path/filepath, the platform and the working directory of the process
-- are arguments. In the loaded maps a service or group pointer is the key it is stored under: the
-- maps hold one object for each name, so two pointers are equal exactly when their names are.
pub mod Cycles
pub mod Relink
pub mod Init
pub mod Stages
pub mod Pointers
pub mod Trees
pub mod Acyclic
pub mod Claims
pub mod Names
pub mod Load
pub mod Imports
pub mod Version
pub mod Edit
pub mod CommonEnv
pub mod Appends
pub mod Shared
pub mod Resolve
pub mod Members
mod Samples
mod EditSamples
mod MemberSamples
use edward.Base.{
  ℕ, zero, suc, Bool, true, false, not, ◌&&◌, ◌||◌, Option, none, some, List, [], ◌∷◌, ◌++◌, map,
  Result, ok, err, ◌>>=◌, ◌>>◌, if◌then◌else◌, length,
}
use edward.Base.Text.{Text, codes, text_eq, has_prefix, contains}
use edward.Base.Maps.{Map, lookup, put, remove, update, keys}
use edward.Base.Sort.{sort_strings}
use edward.Services.{ServiceConfig, matches_platform, is_nonempty}

pub record GroupDef : Type 0 where
  pub name : Text
  pub aliases : List Text
  pub description : Text
  pub children : List Text
  pub env : List Text

-- A loaded group. `services` and `groups` are the names of the children it points to.
pub record GroupConfig : Type 0 where
  pub name : Text
  pub aliases : List Text
  pub description : Text
  pub services : List Text
  pub groups : List Text
  pub child_order : List Text
  pub env : List Text

pub record Config : Type 0 where
  pub working_dir : Text
  pub min_edward_version : Text
  pub imports : List Text
  pub imported_groups : List GroupDef
  pub imported_services : List ServiceConfig
  pub env : List Text
  pub groups : List GroupDef
  pub services : List ServiceConfig
  pub service_map : Map ServiceConfig
  pub group_map : Map GroupConfig
  pub file_path : Text

-- path/filepath
pub record FilePath : Type 0 where
  pub is_abs : Text → Bool
  pub join : Text → Text → Text
  pub dir : Text → Text
  pub abs : Text → Result Text Text
  pub rel : Text → Text → Result Text Text

pub data LoadError : Type 0 where
  path_error : Text → LoadError
  duplicate_name : List Text → LoadError
  group_cycle : Text → LoadError
  not_found : List Text → LoadError
  out_of_fuel : LoadError
  parse_error : Text → LoadError
  unsupported_version : Text → LoadError
  no_config_file : LoadError
  unknown_name : Text → LoadError

-- `addToMap`
unfoldable pub add_name : Text → List Text → List Text
add_name v m = if contains v m then m else m ++ v ∷ []

unfoldable pub add_to_map : List Text → List Text → List Text
unfolding add_name
add_to_map m [] = m
add_to_map m (v ∷ vs) = add_to_map (add_name v m) vs

-- `delete(m, v)`
unfoldable pub remove_name : Text → List Text → List Text
remove_name v [] = []
remove_name v (x ∷ xs) = if text_eq v x then remove_name v xs else x ∷ remove_name v xs

unfoldable pub among : List Text → List Text → List Text
among m [] = []
among m (v ∷ vs) = if contains v m then v ∷ among m vs else among m vs

unfoldable pub intersect : List Text → List Text → List Text
unfolding among sort_strings
intersect m values = sort_strings (among m values)

unfoldable pub combine_path : FilePath → Text → Text → Text
combine_path fp working_dir path =
    if fp.is_abs path || has_prefix path (codes "$") then path else fp.join working_dir path

-- Names of a service or a group: `append(x.Aliases, x.Name)`.
abbrev pub names_of : List Text → Text → List Text
names_of aliases name = aliases ++ name ∷ []

pub record ServicePass : Type 0 where
  pub svcs : Map ServiceConfig
  pub skipped : List Text
  pub in_use : List Text

abbrev pub from_path : Result Text Text → Result LoadError Text
from_path (ok p) = ok p
from_path (err e) = err (path_error e)
