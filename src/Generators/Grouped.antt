-- ===== src/Generators/Grouped.antt =====
-- The services and groups that the Procfile generator of generators/procfile.go has found, after any walk.
use mathlib.Core.Path.{subst}
use edward.Base.{
  ℕ, zero, suc, ◌≡◌, refl, sym, ap, ◌∙◌, true, false, Option, none, some, List, [], ◌∷◌, ◌++◌,
  Result, ok, err, append_assoc, append-nil, map, if◌then◌else◌,
}
use edward.Base.Text.{Text, codes}
use edward.Services.{ServiceConfig}
use edward.Groups.{Group, node}
use edward.Config.{FilePath}
use edward.Generators.{Visit, visited, visit_failed, Directory}
use edward.Generators.Walk.{walk-Kept}
use edward.Generators.Kinds.{
  Generator, edward_generator, docker_generator, go_generator, icbm_generator, procfile_generator,
  visit_dir, visit_at, start_walk, indices,
}
use edward.Generators.VisitDir.{
  Files, visit_procfile, procfile_group, there, missing, unreadable, keep_group, process_group,
}
use edward.Generators.Tree.{
  Disk, Entry, walk_tree, generate_under, generate_collection, new_directory,
}

-- The services of the groups of Procfiles, in order.
unfoldable pub group_services : List Group → List ServiceConfig
group_services [] = []
group_services (node i ss gs ∷ rest) = ss ++ group_services rest

group_services-append :
    (gs hs : List Group) → group_services (gs ++ hs) ≡ group_services gs ++ group_services hs
unfolding group_services
group_services-append [] hs = refl
group_services-append (node i ss gs ∷ rest) hs =
    ap (λ t. ss ++ t) (group_services-append rest hs)
    ∙ sym (append_assoc ss (group_services rest) (group_services hs))

-- A Procfile generator has no services but those of its groups.
unfoldable pub IsGrouped : Generator → Type 0
IsGrouped (edward_generator b found) = Unit
IsGrouped (docker_generator b found) = Unit
IsGrouped (go_generator b found) = Unit
IsGrouped (icbm_generator b found) = Unit
IsGrouped (procfile_generator b found groups) = found ≡ group_services groups

unfoldable pub AllGrouped : List Generator → Type 0
unfolding IsGrouped
AllGrouped [] = Unit
AllGrouped (g ∷ gs) = IsGrouped g × AllGrouped gs

module _ (fp : FilePath) (files : Files) where
  keep_group-IsGrouped :
      (name : Text) (new : Result Text (List ServiceConfig)) (found : List ServiceConfig)
      (groups : List Group)
      → found ≡ group_services groups
      → (keep_group fp files name new found groups).1.0
        ≡ group_services (keep_group fp files name new found groups).1.1
  unfolding group_services
  keep_group-IsGrouped name (err e) found groups h = h
  keep_group-IsGrouped name (ok new) found groups h =
      ap (λ t. t ++ new) h
      ∙ sym (
          group_services-append groups (process_group fp files name new ∷ [])
          ∙ ap (λ t. group_services groups ++ t) (append-nil new))

  visit_procfile-IsGrouped :
      (base path : Text) (found : List ServiceConfig) (groups : List Group)
      → found ≡ group_services groups
      → (visit_procfile fp files base path found groups).1.0
        ≡ group_services (visit_procfile fp files base path found groups).1.1
  unfolding visit_procfile
  visit_procfile-IsGrouped base path found groups h =
      elim (files.stat (fp.join path (codes "Procfile")))
        as (λ found_at.
          let r = elim found_at as (λ _. Visit Text × (List ServiceConfig × List Group)) [
            | there ↦
                keep_group fp files (files.base path) (procfile_group fp files base path) found
                  groups
            | missing ↦ (visited, (found, groups))
            | unreadable e ↦ (visit_failed e, (found, groups))
          ] in
          r.1.0 ≡ group_services r.1.1) [
            | there ↦
                keep_group-IsGrouped (files.base path) (procfile_group fp files base path) found
                  groups h
            | missing ↦ h
            | unreadable e ↦ h
          ]

  visit_dir-IsGrouped :
      (g : Generator) (path : Text) → IsGrouped g → IsGrouped (visit_dir fp files g path).1
  unfolding visit_dir IsGrouped
  visit_dir-IsGrouped (edward_generator b found) path h = tt
  visit_dir-IsGrouped (docker_generator b found) path h = tt
  visit_dir-IsGrouped (go_generator b found) path h = tt
  visit_dir-IsGrouped (icbm_generator b found) path h = tt
  visit_dir-IsGrouped (procfile_generator b found groups) path h =
      visit_procfile-IsGrouped b.base_path path found groups h

  visit_at-AllGrouped :
      (n : ℕ) (path : Text) (gs : List Generator)
      → AllGrouped gs
      → AllGrouped (visit_at fp files n path gs).1
  unfolding visit_at AllGrouped
  visit_at-AllGrouped n path [] h = h
  visit_at-AllGrouped zero path (g ∷ gs) h = (visit_dir-IsGrouped g path h.0, h.1)
  visit_at-AllGrouped (suc n) path (g ∷ gs) h = (h.0, visit_at-AllGrouped n path gs h.1)

start_walk-IsGrouped : (path : Text) (g : Generator) → IsGrouped g → IsGrouped (start_walk path g)
unfolding IsGrouped start_walk
start_walk-IsGrouped path (edward_generator b found) h = tt
start_walk-IsGrouped path (docker_generator b found) h = tt
start_walk-IsGrouped path (go_generator b found) h = tt
start_walk-IsGrouped path (icbm_generator b found) h = tt
start_walk-IsGrouped path (procfile_generator b found groups) h = h

start_each-AllGrouped :
    (path : Text) (gs : List Generator) → AllGrouped gs → AllGrouped (map (start_walk path) gs)
unfolding AllGrouped
start_each-AllGrouped path [] h = h
start_each-AllGrouped path (g ∷ gs) h =
    (start_walk-IsGrouped path g h.0, start_each-AllGrouped path gs h.1)

module _ {I : Type 0} (fp : FilePath) (disk : Disk I) where
  walk_tree-AllGrouped :
      (path : Text) (gs : List Generator) (built : Result Text Directory)
      → AllGrouped gs
      → AllGrouped (walk_tree fp disk path gs built).1
  unfolding walk_tree
  walk_tree-AllGrouped path gs (err e) h = h
  walk_tree-AllGrouped path gs (ok d) h =
      walk-Kept (visit_at fp disk.files) AllGrouped
        (λ n p hs. visit_at-AllGrouped fp disk.files n p hs) d (indices zero gs)
        (map (start_walk path) gs) (start_each-AllGrouped path gs h)

  Leaves : Option (Option Text × List Generator) → Type 0
  Leaves none = Unit
  Leaves (some (e, gs)) = AllGrouped gs

  generate_under-Leaves :
      (path : Text) (gs : List Generator) (info : Result Text Entry)
      (built : Option (Result Text Directory))
      → AllGrouped gs
      → Leaves (generate_under fp disk path gs info built)
  unfolding generate_under Leaves
  generate_under-Leaves path gs (err e) built h = h
  generate_under-Leaves path gs (ok info) none h =
      elim (info.is_dir)
        as (λ b.
          Leaves (if b then none else some (some (path ++ codes " is not a directory"), gs))) [
            | true ↦ tt
            | false ↦ h
          ]
  generate_under-Leaves path gs (ok info) (some built) h =
      elim (info.is_dir)
        as (λ b. Leaves (
          if b
          then some (walk_tree fp disk path gs built)
          else some (some (path ++ codes " is not a directory"), gs))) [
            | true ↦ walk_tree-AllGrouped path gs built h
            | false ↦ h
          ]

  Leaves-AllGrouped :
      {o : Option (Option Text × List Generator)} {e : Option Text} {hs : List Generator}
      → Leaves o
      → o ≡ some (e, hs)
      → AllGrouped hs
  unfolding Leaves
  Leaves-AllGrouped l eq = subst Leaves eq l

-- Whatever is in the directories, and whether the walk of a collection ends with an error or not, if
-- the services of each Procfile generator were, in their order, those of its groups, so are they
-- after it.
pub generate_collection-AllGrouped :
    {I : Type 0} (fp : FilePath) (disk : Disk I) (fuel : ℕ) (path : Text) (gs : List Generator)
    {e : Option Text} {hs : List Generator}
    → AllGrouped gs
    → generate_collection fp disk fuel path gs ≡ some (e, hs)
    → AllGrouped hs
unfolding generate_collection
generate_collection-AllGrouped fp disk fuel path gs h = Leaves-AllGrouped fp disk (
    generate_under-Leaves fp disk path gs (disk.entry_at path)
      (new_directory fp disk fuel none path) h)
