-- ===== src/Config/EditSamples.antt =====
-- Configurations that are built and changed, and the theorems on this at them.
use edward.Base.{◌≡◌, refl, false, none, List, [], ◌∷◌, map, err}
use edward.Base.Text.{Text, codes, text_eq, contains}
use edward.Services.{ServiceConfig}
use edward.Groups.{Group, nil, node}
use edward.Config.{Config}
use edward.Config.Edit.{
  new_config, string_slice_intersect, count_slices, append_services, empty_config_at, remove_group,
  envs, group_not_found,
}
use edward.Config.CommonEnv.{Visits, in_loaded_env, in_env, new_config-in_env}
use edward.Config.Appends.{IsSynced}

abbrev a_service : Text → List Text → ServiceConfig
a_service name env = record {
  name = name;
  aliases = [];
  description = [];
  path = none;
  requires_sudo = false;
  commands = record { build = []; launch = []; stop = [] };
  launch_checks = none;
  env = env;
  platform = [];
  watch_json = [];
  warmup = none;
  config_file = [];
  lock_token = [];
}

abbrev two_services : List ServiceConfig
two_services =
    a_service (codes "web") (codes "A" ∷ codes "B" ∷ [])
    ∷ a_service (codes "api") (codes "B" ∷ codes "C" ∷ [])
    ∷ []

abbrev visited : List Text
visited = codes "A" ∷ codes "B" ∷ codes "C" ∷ []

abbrev tools : Group
tools =
    node
      (record { name = codes "tools"; aliases = []; description = []; child_order = []; env = [] })
      (a_service (codes "web") [] ∷ []) nil

program : Unit {0}
unfolding text_eq contains new_config count_slices append_services remove_group empty_config_at
program = tt

common-B : (new_config visited two_services (tools ∷ [])).env ≡ codes "B" ∷ []
unfolding program
common-B = refl

-- An entry that one service repeats counts as one that two services share.
repeated :
    string_slice_intersect (codes "A" ∷ []) ((codes "A" ∷ codes "A" ∷ []) ∷ [] ∷ [])
    ≡ codes "A" ∷ []
unfolding program
repeated = refl

all_visited : Visits visited (envs two_services)
unfolding program
all_visited v = refl

new_config-in_env_example :
    map
      (in_loaded_env (codes "B") (new_config visited two_services []))
      (new_config visited two_services []).services
    ≡ map (in_env (codes "B")) two_services
unfolding program
new_config-in_env_example = new_config-in_env visited two_services [] (codes "B") refl all_visited

abbrev empty_config : Config
empty_config = empty_config_at (codes "/src")

empty_config-IsSynced : IsSynced empty_config
unfolding program
empty_config-IsSynced = record { nodup = refl; mapped = λ n m. m }

abbrev with_tools : Config
with_tools = record (new_config visited two_services (tools ∷ [])) {
  group_map =
      (
        codes "tools",
        record {
          name = codes "tools";
          aliases = [];
          description = [];
          services = [];
          groups = [];
          child_order = [];
          env = [];
        },
      )
      ∷ [];
}

removed-none : remove_group (codes "x") empty_config ≡ err group_not_found
unfolding program
removed-none = refl

abbrev without_tools : Config
without_tools = record with_tools { group_map = []; groups = [] }
