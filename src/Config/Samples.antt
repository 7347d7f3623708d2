-- ===== src/Config/Samples.antt =====
-- A small configuration, what is loaded from it, and the theorems at it.
use edward.Base.{
  ◌≡◌, refl, ◌≢◌, false, Option, none, some, List, [], ◌∷◌, ◌++◌, Result, ok, err, ℕ, ltb,
  if◌then◌else◌,
}
use edward.Base.Text.{Text, codes, text_eq, has_prefix, contains, text_lt}
use edward.Base.Maps.{lookup, put, update}
use edward.Services.{ServiceConfig, matches_platform}
use edward.Config.{
  GroupDef, GroupConfig, Config, FilePath, LoadError, group_cycle, out_of_fuel, combine_path,
  intersect, add_to_map, remove_name,
}
use edward.Config.Cycles.{IsAcyclic, has_child_cycle}
use edward.Config.Init.{init_maps, links}
use edward.Config.Acyclic.{init_maps-IsAcyclic, init_maps-ne-out_of_fuel}
use edward.Config.Load.{Machine, empty_config, load_contents}
use edward.Config.Names.{IsNamed, init_maps-IsNamed}
use edward.Config.Shared.{Shared, RangeOrder, service, get_service_or_group}
use edward.Config.Resolve.{get_service_or_group-service}
use edward.Config.Imports.{load_contents-imported_services}

abbrev pub slash_paths : FilePath
slash_paths = record {
  is_abs = λ p. has_prefix p (codes "/");
  join = λ a b. a ++ codes "/" ++ b;
  dir = λ p. codes "/work";
  abs = λ p. ok (if has_prefix p (codes "/") then p else codes "/work/" ++ p);
  rel = λ a b. ok b;
}

abbrev plain_service : Text → ServiceConfig
plain_service name = record {
  name = name;
  aliases = [];
  description = [];
  path = some name;
  requires_sudo = false;
  commands = record { build = codes "make"; launch = codes "run"; stop = [] };
  launch_checks = none;
  env = [];
  platform = [];
  watch_json = [];
  warmup = none;
  config_file = [];
  lock_token = [];
}

abbrev plain_group : Text → List Text → GroupDef
plain_group name children = record {
  name = name;
  aliases = [];
  description = [];
  children = children;
  env = [];
}

abbrev pub sample : Config
sample = record empty_config {
  working_dir = codes "w";
  services =
      record (plain_service (codes "api")) { aliases = codes "a" ∷ [] }
      ∷ plain_service (codes "db")
      ∷ [];
  groups =
      plain_group (codes "all") (codes "api" ∷ codes "sub" ∷ [])
      ∷ plain_group (codes "sub") (codes "db" ∷ [])
      ∷ [];
}

abbrev config_or : Config → Result LoadError Config → Config
config_or c (ok c') = c'
config_or c (err e) = c

unfoldable pub program : Unit {0}
unfolding init_maps lookup put update contains text_eq matches_platform combine_path has_prefix
    links text_lt intersect add_to_map has_child_cycle remove_name
program = tt

abbrev pub loaded : Config
loaded = config_or empty_config (init_maps slash_paths (codes "linux") sample)

pub init_maps-sample : init_maps slash_paths (codes "linux") sample ≡ ok loaded
unfolding program
init_maps-sample = refl

abbrev cyclic : Config
cyclic = record sample {
  groups =
      plain_group (codes "all") (codes "api" ∷ codes "sub" ∷ [])
      ∷ plain_group (codes "sub") (codes "db" ∷ codes "all" ∷ [])
      ∷ [];
}

init_maps-cyclic : init_maps slash_paths (codes "linux") cyclic ≡ err (group_cycle (codes "sub"))
unfolding program
init_maps-cyclic = refl

init_maps-IsAcyclic_example : IsAcyclic (links loaded.group_map)
init_maps-IsAcyclic_example =
    init_maps-IsAcyclic slash_paths (codes "linux") sample loaded init_maps-sample

init_maps-ne-out_of_fuel_example : init_maps slash_paths (codes "linux") cyclic ≢ err out_of_fuel
init_maps-ne-out_of_fuel_example = init_maps-ne-out_of_fuel slash_paths (codes "linux") cyclic

init_maps-IsNamed_example : (used : List Text) × IsNamed loaded.service_map loaded.group_map used
init_maps-IsNamed_example =
    init_maps-IsNamed slash_paths (codes "linux") sample loaded init_maps-sample

abbrev shared : Shared
shared = record {
  base_path = codes "/work";
  group_map = loaded.group_map;
  service_map = loaded.service_map;
}

abbrev pub backwards : RangeOrder
backwards = record {
  of_groups = codes "sub" ∷ codes "all" ∷ [];
  of_services = codes "db" ∷ codes "api" ∷ [];
}

abbrev api : ServiceConfig
api = record (plain_service (codes "api")) {
  aliases = codes "a" ∷ [];
  path = some (codes "w/api");
  config_file = codes "/work/";
}

abbrev sub : GroupConfig
sub = record {
  name = codes "sub";
  aliases = [];
  description = [];
  services = codes "db" ∷ [];
  groups = [];
  child_order = codes "db" ∷ [];
  env = [];
}

shared_used : List Text
shared_used = init_maps-IsNamed_example.0

shared-IsNamed : IsNamed shared.service_map shared.group_map shared_used
unfolding shared_used
shared-IsNamed = init_maps-IsNamed_example.1

get_service_or_group-service_example :
    get_service_or_group backwards shared (codes "a") ≡ ok (service api)
unfolding program
get_service_or_group-service_example =
    get_service_or_group-service shared shared_used shared-IsNamed backwards (codes "a")
      (codes "api") api refl refl refl

abbrev nothing_shared : Shared
nothing_shared = record { base_path = []; group_map = []; service_map = [] }

nothing-IsNamed : (used : List Text) × IsNamed [] [] used
unfolding program
nothing-IsNamed = init_maps-IsNamed slash_paths (codes "linux") empty_config empty_config refl

-- Two files: the first imports the second, which imports a third.
abbrev files : Text → Result Text Config
files path =
    if text_eq path (codes "main")
    then ok (record sample { imports = codes "/second" ∷ [] })
    else if text_eq path (codes "/second")
    then ok (record empty_config {
      services = plain_service (codes "two") ∷ [];
      imports = codes "/third" ∷ [];
    })
    else ok (record empty_config { services = plain_service (codes "three") ∷ [] })

-- Versions are read if they are one byte long.
abbrev one_byte : Text → Option ℕ
one_byte [] = none
one_byte (c ∷ []) = some c
one_byte (c ∷ d ∷ cs) = none

abbrev box : Machine
box = record {
  paths = slash_paths;
  goos = codes "linux";
  decode = files;
  versions = record { Version = ℕ; new_version = one_byte; less_than = ltb };
}

abbrev main_contents : Config
main_contents = config_or empty_config (load_contents box 3 (codes "main") (codes "w"))

load_contents-imported_services_example :
    main_contents.imported_services ≡ plain_service (codes "two") ∷ []
unfolding program load_contents
load_contents-imported_services_example =
    load_contents-imported_services box 2 (codes "main") (codes "w")
      (record sample { imports = codes "/second" ∷ [] }) main_contents refl refl refl

abbrev asking : Text → Config
asking v = record empty_config { min_edward_version = v }
