-- ===== src/Generators/Samples.antt =====
-- Two generators on a tree of three directories, and the theorems on what they find.
use edward.Base.{ℕ, ◌≡◌, refl, false, none, some, List, [], ◌∷◌, ◌++◌, err, if◌then◌else◌, ◌==◌}
use edward.Base.Text.{Text, codes, text_eq}
use edward.Services.{ServiceConfig}
use edward.Generators.{
  Visit, visited, skip_dir, Directory, ignored, directory, no_more, next, generate_dir, Walked,
  collected_services, generators_matching_targets,
}

abbrev tree : Directory
tree = directory (codes "a") (
    next (directory (codes "b") (next (directory (codes "c") no_more) no_more))
      (next ignored no_more))

-- Generator 1 skips what is below `b`. The world is the list of the visits.
abbrev visit : ℕ → Text → List (ℕ × Text) → Visit Text × List (ℕ × Text)
visit g path log = (
  if g == 1 then (if text_eq path (codes "b") then skip_dir else visited) else visited,
  log ++ (g, path) ∷ [],
)

abbrev found_service : Text → ServiceConfig
found_service name = record {
  name = name;
  aliases = [];
  description = [];
  path = none;
  requires_sudo = false;
  commands = record { build = []; launch = []; stop = [] };
  launch_checks = none;
  env = [];
  platform = [];
  watch_json = [];
  warmup = none;
  config_file = [];
  lock_token = [];
}

abbrev walked : List Walked
walked =
    record {
      name = codes "go";
      has_err = false;
      services = some (found_service (codes "web") ∷ found_service (codes "api") ∷ []);
      groups = none;
      imports = none;
    }
    ∷ []

program : Unit {0}
unfolding text_eq generate_dir collected_services generators_matching_targets
program = tt

walk-visits : generate_dir visit tree (1 ∷ 2 ∷ []) [] ≡ (
  none,
  (1, codes "a") ∷ (2, codes "a") ∷ (1, codes "b") ∷ (2, codes "b") ∷ (2, codes "c") ∷ [],
)
unfolding program
walk-visits = refl

missing_target :
    generators_matching_targets {G = Text}
      (λ g. g)
      (codes "go" ∷ codes "icbm" ∷ [])
      (codes "go" ∷ codes "x" ∷ [])
    ≡ err (codes "x" ∷ [])
unfolding program
missing_target = refl
