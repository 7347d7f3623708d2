-- ===== src/Generators/Kinds.antt =====
-- generators/generator.go and the types of generators/edward.go, docker.go, go.go, icbm.go and procfile.go:
-- the generators, and `VisitDir` of each, which Generators.VisitDir holds for what it has found.
use edward.Base.{ℕ, zero, suc, true, false, Option, none, some, List, [], ◌∷◌}
use edward.Base.Text.{Text, codes}
use edward.Services.{ServiceConfig}
use edward.Groups.{Group}
use edward.Config.{FilePath}
use edward.Generators.{Visit, visited, Walked}
use edward.Generators.VisitDir.{
  Files, visit_edward, visit_docker, visit_go, visit_icbm, visit_procfile,
}

pub record GeneratorBase : Type 0 where
  pub error : Option Text
  pub base_path : Text

pub data Generator : Type 0 where
  edward_generator : GeneratorBase → List Text → Generator
  docker_generator : GeneratorBase → List ServiceConfig → Generator
  go_generator : GeneratorBase → List ServiceConfig → Generator
  icbm_generator : GeneratorBase → List ServiceConfig → Generator
  procfile_generator : GeneratorBase → List ServiceConfig → List Group → Generator

unfoldable pub name_of : Generator → Text
name_of (edward_generator b found) = codes "edward"
name_of (docker_generator b found) = codes "docker"
name_of (go_generator b found) = codes "go"
name_of (icbm_generator b found) = codes "icbm"
name_of (procfile_generator b found groups) = codes "procfile"

-- `StartWalk`, which leaves what was found before; `StopWalk` does nothing.
unfoldable pub start_walk : Text → Generator → Generator
start_walk path (edward_generator b found) =
    edward_generator (record { error = none; base_path = path }) found
start_walk path (docker_generator b found) =
    docker_generator (record { error = none; base_path = path }) found
start_walk path (go_generator b found) =
    go_generator (record { error = none; base_path = path }) found
start_walk path (icbm_generator b found) =
    icbm_generator (record { error = none; base_path = path }) found
start_walk path (procfile_generator b found groups) =
    procfile_generator (record { error = none; base_path = path }) found groups

module _ (fp : FilePath) (files : Files) where
  -- `VisitDir` of each generator.
  unfoldable pub visit_dir : Generator → Text → Visit Text × Generator
  unfolding visit_edward visit_docker visit_go visit_icbm visit_procfile
  visit_dir (edward_generator b found) path =
      let r = visit_edward fp files b.base_path path found in (r.0, edward_generator b r.1)
  visit_dir (docker_generator b found) path =
      let r = visit_docker fp files b.base_path path found in (r.0, docker_generator b r.1)
  visit_dir (go_generator b found) path =
      let r = visit_go fp files b.base_path path found in (r.0, go_generator b r.1)
  visit_dir (icbm_generator b found) path =
      let r = visit_icbm fp files b.base_path path found in (r.0, icbm_generator b r.1)
  visit_dir (procfile_generator b found groups) path =
      let r = visit_procfile fp files b.base_path path found groups in
      (r.0, procfile_generator b r.1.0 r.1.1)

  -- A visit by the generator at an index, which stands for the pointer to it.
  unfoldable pub visit_at : ℕ → Text → List Generator → Visit Text × List Generator
  unfolding visit_dir
  visit_at n path [] = (visited, [])
  visit_at zero path (g ∷ gs) = let r = visit_dir g path in (r.0, r.1 ∷ gs)
  visit_at (suc n) path (g ∷ gs) = let r = visit_at n path gs in (r.0, g ∷ r.1)

unfoldable pub indices : {A : Type 0} → ℕ → List A → List ℕ
indices n [] = []
indices n (x ∷ xs) = n ∷ indices (suc n) xs

-- What each kind of generator has found, where it finds such things.
unfoldable pub base_of : Generator → GeneratorBase
base_of (edward_generator b found) = b
base_of (docker_generator b found) = b
base_of (go_generator b found) = b
base_of (icbm_generator b found) = b
base_of (procfile_generator b found groups) = b

unfoldable pub services_of : Generator → Option (List ServiceConfig)
services_of (edward_generator b found) = none
services_of (docker_generator b found) = some found
services_of (go_generator b found) = some found
services_of (icbm_generator b found) = some found
services_of (procfile_generator b found groups) = some found

unfoldable pub groups_of : Generator → Option (List Group)
groups_of (edward_generator b found) = none
groups_of (docker_generator b found) = none
groups_of (go_generator b found) = none
groups_of (icbm_generator b found) = none
groups_of (procfile_generator b found groups) = some groups

unfoldable pub imports_of : Generator → Option (List Text)
imports_of (edward_generator b found) = some found
imports_of (docker_generator b found) = none
imports_of (go_generator b found) = none
imports_of (icbm_generator b found) = none
imports_of (procfile_generator b found groups) = none

unfoldable pub walked : Generator → Walked
unfolding name_of base_of services_of groups_of imports_of
walked g = record {
  name = name_of g;
  has_err = elim (base_of g).error [ none ↦ false | some e ↦ true ];
  services = services_of g;
  groups = groups_of g;
  imports = imports_of g;
}
