-- ===== src/Generate/Samples.antt =====
-- Findings that are put into an empty configuration, and the theorems at them.
use edward.Base.{not, ◌&&◌, ◌≡◌, refl, true, false, ◌||◌, none, some, [], ◌∷◌, ◌++◌, Result, ok}
use edward.Base.Text.{Text, codes, text_eq, contains}
use edward.Base.Maps.{keys}
use edward.Services.{ServiceConfig}
use edward.Groups.{Group, node, nil}
use edward.Config.{Config, FilePath}
use edward.Config.Edit.{empty_config_at, service_names}
use edward.Generate.{Found, GenerateError, Generated, written, generate}
use edward.Generate.Written.{generate-services}

abbrev a_service : Text → ServiceConfig
a_service name = record {
  name = name;
  aliases = [];
  description = [];
  path = some (codes ".");
  requires_sudo = false;
  commands = record { build = []; launch = []; stop = [] };
  launch_checks = none;
  env = [];
  platform = [];
  watch_json = [];
  warmup = none;
  config_file = [];
  lock_token = [];
}

abbrev plain_paths : FilePath
plain_paths = record {
  is_abs = λ p. false;
  join = λ d p. d ++ 47 ∷ p;
  dir = λ p. p;
  abs = λ p. ok p;
  rel = λ d p. ok p;
}

-- The group was defined before, and is found again.
abbrev tools : Group
tools =
    node
      (record { name = codes "tools"; aliases = []; description = []; child_order = []; env = [] })
      [] nil

abbrev findings : Found
findings = record {
  services = a_service (codes "web") ∷ a_service (codes "api") ∷ [];
  groups = tools ∷ [];
  imports = codes "x.json" ∷ [];
}

abbrev start_config : Config
start_config = empty_config_at (codes "/src")

abbrev config_in : Result GenerateError Generated → Config
config_in (ok (written c)) = c
config_in other = start_config

abbrev outcome : Result GenerateError Generated
outcome = generate plain_paths (codes "/src") (codes "all") true start_config findings

program : Unit {0}
unfolding text_eq contains generate empty_config_at
program = tt

-- `Generate` is run again, and finds one more service: the import is added a second time.
abbrev again : Result GenerateError Generated
again =
    generate plain_paths (codes "/src") [] true
      (record (config_in outcome) {
        group_map =
            (
              codes "tools",
              record {
                name = codes "tools";
                aliases = [];
                description = [];
                services = [];
                groups = [];
                child_order = [];
                env = [];
              },
            )
            ∷ [];
        groups = [];
      })
      (record findings { services = a_service (codes "new") ∷ [] })

imports-twice : (config_in again).imports ≡ codes "x.json" ∷ codes "x.json" ∷ []
unfolding program
imports-twice = refl

generate-services_example : contains (codes "api") (service_names (config_in outcome).services) ≡ (
    contains (codes "api") (service_names start_config.services)
    || (contains (codes "api") (service_names findings.services)
        && not (contains (codes "api") (keys start_config.service_map))))
unfolding program
generate-services_example =
    generate-services plain_paths (codes "/src") (codes "all") true start_config findings
      (config_in outcome) refl (codes "api")
