-- ===== src/Generate/Command.antt =====
-- `Generate` of edward/generate.go as a whole: the configuration that it starts from, the walk of the
-- generators, what they found, and the file that it writes.
use edward.Base.{
  ℕ, Bool, Option, none, some, List, [], ◌∷◌, Result, ok, err, ◌>>=◌, if◌then◌else◌, map,
}
use edward.Base.Text.{Text, codes}
use edward.Services.{is_nonempty}
use edward.Config.{Config, LoadError}
use edward.Config.Load.{Machine, load_config}
use edward.Config.Edit.{empty_config_at}
use edward.Generators.{
  generators_matching_targets, collected_services, collected_groups, collected_imports,
}
use edward.Generators.Kinds.{
  Generator, GeneratorBase, edward_generator, docker_generator, go_generator, icbm_generator,
  name_of, walked,
}
use edward.Generators.Tree.{Disk, generate_collection}
use edward.Generate.{
  Found, GenerateError, Generated, nothing_found, nothing_new, not_confirmed, written, generate,
}

pub data CommandError : Type 0 where
  failed : Text → CommandError
  load_failed : LoadError → CommandError
  targets_not_found : List Text → CommandError
  generate_failed : GenerateError → CommandError
  too_deep : CommandError

-- What the command comes to without an error: a message that there is nothing to do, or the path and
-- the configuration that were written.
pub data Outcome : Type 0 where
  said : Generated → Outcome
  wrote : Text → Config → Outcome

-- The client's `Config`, the working directory, whether a file is there and not empty, and writing one.
pub record Place : Type 0 where
  pub config_path : Text
  pub getwd : Result Text Text
  pub has_content : Text → Bool
  pub write : Text → Config → Option Text

abbrev pub new_base : GeneratorBase
new_base = record { error = none; base_path = [] }

-- `allGenerators`
abbrev pub all_generators : List Generator
all_generators =
    edward_generator new_base []
    ∷ docker_generator new_base []
    ∷ go_generator new_base []
    ∷ icbm_generator new_base []
    ∷ []

abbrev pub as_failed : {V : Type 0} → Result Text V → Result CommandError V
as_failed (ok v) = ok v
as_failed (err e) = err (failed e)

abbrev pub as_load : Result LoadError Config → Result CommandError Config
as_load (ok c) = ok c
as_load (err e) = err (load_failed e)

abbrev pub as_targets : Result (List Text) (List Generator) → Result CommandError (List Generator)
as_targets (ok gs) = ok gs
as_targets (err ts) = err (targets_not_found ts)

abbrev pub as_generated : Result GenerateError Generated → Result CommandError Generated
as_generated (ok g) = ok g
as_generated (err e) = err (generate_failed e)

-- What the collection gives after its walk.
unfoldable pub found_after :
    List Text → Option (Option Text × List Generator) → Result CommandError Found
unfolding walked collected_services collected_groups collected_imports
found_after names none = err too_deep
found_after names (some (some e, gs)) = err (failed e)
found_after names (some (none, gs)) = ok (record {
  services = collected_services names (map walked gs);
  groups = collected_groups names (map walked gs);
  imports = collected_imports (map walked gs);
})

abbrev pub edward_version : Text
edward_version = codes "1.8.4"

module _ {I : Type 0} (m : Machine) (disk : Disk I) (place : Place) where
  abbrev pub path_in_wd : Result Text Text → Text
  path_in_wd (ok wd) = m.paths.join wd (codes "edward.json")
  path_in_wd (err e) = []

  unfoldable pub target_path : Text
  unfolding is_nonempty
  target_path = if is_nonempty place.config_path then place.config_path else path_in_wd place.getwd

  unfoldable pub config_at : ℕ → Text → Result CommandError Config
  unfolding load_config empty_config_at
  config_at fuel path =
      if place.has_content path
      then as_load (load_config m fuel path edward_version)
      else ok (empty_config_at (m.paths.dir path))

  -- What follows the checks.
  unfoldable pub finish : Text → Generated → Result CommandError Outcome
  finish path (written c) = elim (place.write path c) [
    | none ↦ ok (wrote path c)
    | some e ↦ err (failed e)
  ]
  finish path nothing_found = ok (said nothing_found)
  finish path nothing_new = ok (said nothing_new)
  finish path not_confirmed = ok (said not_confirmed)

  -- `Generate`, where `confirmed` is that it is forced or that the user agrees; `fuel` bounds the depth
  -- of imports and that of the directories.
  unfoldable pub generate_command :
      ℕ → List Text → Bool → Text → List Text → Result CommandError Outcome
  unfolding target_path config_at generators_matching_targets name_of generate_collection
      found_after generate finish
  generate_command fuel names confirmed group targets = do
    cfg ← config_at fuel target_path
    wd ← as_failed place.getwd
    gens ← as_targets (generators_matching_targets name_of all_generators targets)
    found ← found_after names (generate_collection m.paths disk fuel wd gens)
    generated ← as_generated (generate m.paths wd group confirmed cfg found)
    finish target_path generated
