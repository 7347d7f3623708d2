-- ===== src/Config/Edit.antt =====
-- config/config.go: building a configuration from services and groups, and changing one. The order
-- in which `stringSliceIntersect` ranges over its map is an argument.
use edward.Base.{
  ℕ, suc, Option, none, some, List, [], ◌∷◌, ◌++◌, map, Result, ok, err, ◌>>=◌, if◌then◌else◌,
  length, ◌==◌,
}
use edward.Base.Text.{Text, text_eq, contains}
use edward.Base.Maps.{Map, lookup, put, remove}
use edward.Services.{ServiceConfig}
use edward.Groups.{Group, Groups, node, nil, cons, group_info}
use edward.Config.{GroupDef, GroupConfig, Config, FilePath}

pub data EditError : Type 0 where
  rel_error : Text → EditError
  no_path : EditError
  group_not_found : EditError

-- A count that is missing in a Go map reads as 0.
abbrev pub or_zero : Option ℕ → ℕ
or_zero none = 0
or_zero (some n) = n

unfoldable pub count_of : Text → Map ℕ → ℕ
unfolding lookup
count_of v counts = or_zero (lookup v counts)

unfoldable pub count_values : Map ℕ → List Text → Map ℕ
unfolding count_of put
count_values counts [] = counts
count_values counts (v ∷ vs) = count_values (put v (suc (count_of v counts)) counts) vs

unfoldable pub count_slices : Map ℕ → List (List Text) → Map ℕ
unfolding count_values
count_slices counts [] = counts
count_slices counts (s ∷ ss) = count_slices (count_values counts s) ss

-- The loop over the counts: those that are the number of the slices.
unfoldable pub pick_common : ℕ → Map ℕ → List Text → List Text
unfolding lookup
pick_common n counts [] = []
pick_common n counts (v ∷ vs) =
    let rest = pick_common n counts vs in
    elim (lookup v counts) [ none ↦ rest | some c ↦ if c == n then v ∷ rest else rest ]

-- `stringSliceIntersect`
unfoldable pub string_slice_intersect : List Text → List (List Text) → List Text
unfolding pick_common count_slices
string_slice_intersect order slices = pick_common (length slices) (count_slices [] slices) order

-- `stringSliceRemoveCommon`
unfoldable pub string_slice_remove_common : List Text → List Text → List Text
unfolding contains
string_slice_remove_common common [] = []
string_slice_remove_common common (s ∷ ss) =
    let rest = string_slice_remove_common common ss in if contains s common then rest else s ∷ rest

abbrev pub group_names : Groups → List Text
group_names nil = []
group_names (cons g gs) = (group_info g).name ∷ group_names gs

abbrev pub service_names : List ServiceConfig → List Text
service_names [] = []
service_names (s ∷ ss) = s.name ∷ service_names ss

-- What `AddGroups` makes of a group: the child groups come before the services.
unfoldable pub group_def : Group → GroupDef
group_def (node i ss gs) = record {
  name = i.name;
  aliases = i.aliases;
  description = i.description;
  children = group_names gs ++ service_names ss;
  env = i.env;
}

-- `AddGroups`, and `AppendGroups`, which calls it.
unfoldable pub add_group_defs : List Group → Config → Config
unfolding group_def
add_group_defs [] c = c
add_group_defs (g ∷ gs) c = add_group_defs gs (record c { groups = c.groups ++ group_def g ∷ [] })

abbrev pub strip_common : List Text → ServiceConfig → ServiceConfig
strip_common common s = record s { env = string_slice_remove_common common s.env }

abbrev pub envs : List ServiceConfig → List (List Text)
envs [] = []
envs (s ∷ ss) = s.env ∷ envs ss

-- A configuration with the working directory `dir`, the environment `env` and the services `ss`.
abbrev pub config_of : Text → List Text → List ServiceConfig → Config
config_of dir env ss = record {
  working_dir = dir;
  min_edward_version = [];
  imports = [];
  imported_groups = [];
  imported_services = [];
  env = env;
  groups = [];
  services = ss;
  service_map = [];
  group_map = [];
  file_path = [];
}

-- `EmptyConfig`
unfoldable pub empty_config_at : Text → Config
empty_config_at dir = config_of dir [] []

-- `NewConfig`
unfoldable pub new_config : List Text → List ServiceConfig → List Group → Config
unfolding string_slice_intersect string_slice_remove_common add_group_defs
new_config order ss gs =
    let env = string_slice_intersect order (envs ss) in
    add_group_defs gs (config_of [] env (map (strip_common env) ss))

-- `NormalizeServicePaths`. A service without a path makes it panic.
unfoldable pub normalize_path :
    FilePath → Text → Text → ServiceConfig → Option Text → Result EditError ServiceConfig
normalize_path fp working_dir search s none = err no_path
normalize_path fp working_dir search s (some p) = elim (fp.rel working_dir (fp.join search p)) [
  | ok r ↦ ok (record s { path = some r })
  | err e ↦ err (rel_error e)
]

unfoldable pub normalize_service_paths :
    FilePath → Text → Text → List ServiceConfig → Result EditError (List ServiceConfig)
unfolding normalize_path
normalize_service_paths fp working_dir search [] = ok []
normalize_service_paths fp working_dir search (s ∷ ss) = do
  s' ← normalize_path fp working_dir search s s.path
  ss' ← normalize_service_paths fp working_dir search ss
  ok (s' ∷ ss')

-- A round of `AppendServices`, on what the map has for the service's name.
abbrev pub append_if_new : Config → ServiceConfig → Option ServiceConfig → Config
append_if_new c s (some found) = c
append_if_new c s none = record c {
  service_map = put s.name s c.service_map;
  services = c.services ++ s ∷ [];
}

unfoldable pub append_service : Config → ServiceConfig → Config
unfolding lookup put
append_service c s = append_if_new c s (lookup s.name c.service_map)

-- `AppendServices`
unfoldable pub append_services : Config → List ServiceConfig → Config
unfolding append_service
append_services c [] = c
append_services c (s ∷ ss) = append_services (append_service c s) ss

unfoldable pub without_group : Text → List GroupDef → List GroupDef
without_group name [] = []
without_group name (g ∷ gs) =
    let rest = without_group name gs in if text_eq g.name name then rest else g ∷ rest

-- `RemoveGroup`
abbrev pub remove_found : Text → Config → Option GroupConfig → Result EditError Config
remove_found name c none = err group_not_found
remove_found name c (some g) =
    ok (record c { group_map = remove name c.group_map; groups = without_group name c.groups })

unfoldable pub remove_group : Text → Config → Result EditError Config
unfolding lookup remove without_group
remove_group name c = remove_found name c (lookup name c.group_map)
