-- ===== src/Generators.antt =====
-- generators/directory_tree.go, generators/generator_collection.go, and generatorsMatchingTargets of
-- edward/generate.go: the walk of the generators over the directories, and what is taken from them
-- after it. What a generator does in a directory is an argument here, which Generators.Kinds fills;
-- Generators.Tree reads the directories, with their ignore files and links.
pub mod Collected
pub mod Allowed
pub mod Grouped
mod KindSamples
pub mod Imports
pub mod Kinds
pub mod Tree
pub mod VisitDir
pub mod Walk
pub mod Matches
mod Samples
use edward.Base.{
  Bool, true, false, Option, none, some, List, [], ◌∷◌, ◌++◌, Result, ok, err, if◌then◌else◌,
}
use edward.Base.Text.{Text, text_eq, contains}
use edward.Base.Sort.{sort_by}
use edward.Services.{ServiceConfig}
use edward.Groups.{Group, group_info}
use edward.Config.{add_to_map, remove_name}

-- What `VisitDir` returns: no error, `filepath.SkipDir`, `SkipAll`, or another error.
pub data Visit (E : Type 0) : Type 0 where
  visited : Visit E
  skip_dir : Visit E
  skip_all : Visit E
  visit_failed : E → Visit E

-- `ignored` is the nil pointer of a directory that an ignore file matches.
mutual
  pub data Directory : Type 0 where
    ignored : Directory
    directory : Text → Directories → Directory

  pub data Directories : Type 0 where
    no_more : Directories
    next : Directory → Directories → Directories

-- What the loop over the generators comes to: those for the children, or an end of the walk here.
pub data Visits (E G : Type 0) : Type 0 where
  go_on : List G → Visits E G
  end_here : Visits E G
  fail : E → Visits E G

module _ {E G S : Type 0} (visit_dir : G → Text → S → Visit E × S) where
  abbrev pub after_visit : G → Visit E → (Visits E G × S) → S → Visits E G × S
  after_visit g visited (go_on gs, s') s = (go_on (g ∷ gs), s')
  after_visit g visited (end_here, s') s = (end_here, s')
  after_visit g visited (fail e, s') s = (fail e, s')
  after_visit g skip_dir rest s = rest
  after_visit g skip_all rest s = (end_here, s)
  after_visit g (visit_failed e) rest s = (fail e, s)

  unfoldable pub visit_all : List G → Text → S → Visits E G × S
  visit_all [] path s = (go_on [], s)
  visit_all (g ∷ gs) path s =
      let (v, s') = visit_dir g path s in let rest = visit_all gs path s' in after_visit g v rest s'

  -- `if err != nil { return err }`, in the loop over the children.
  abbrev pub and_rest : Option E × S → (S → Option E × S) → Option E × S
  and_rest (some e, s) more = (some e, s)
  and_rest (none, s) more = more s

  abbrev pub after_visits : Visits E G × S → (List G → S → Option E × S) → Option E × S
  after_visits (go_on gs, s) below = below gs s
  after_visits (end_here, s) below = (none, s)
  after_visits (fail e, s) below = (some e, s)

  unfoldable mutual
    unfolding visit_all

    pub generate_dir : Directory → List G → S → Option E × S
    generate_dir d [] s = (none, s)
    generate_dir ignored (g ∷ gs) s = (none, s)
    generate_dir (directory path ds) (g ∷ gs) s =
        after_visits (visit_all (g ∷ gs) path s) (generate_dirs ds)

    pub generate_dirs : Directories → List G → S → Option E × S
    generate_dirs no_more gs s = (none, s)
    generate_dirs (next d ds) gs s = and_rest (generate_dir d gs s) (generate_dirs ds gs)

-- A generator after the walk: `none` for a kind of thing that it does not generate.
pub record Walked : Type 0 where
  pub name : Text
  pub has_err : Bool
  pub services : Option (List ServiceConfig)
  pub groups : Option (List Group)
  pub imports : Option (List Text)

-- The loops that gather what the generators without an error have found.
unfoldable pub gather : {A : Type 0} → (Walked → Option (List A)) → List Walked → List A
gather field [] = []
gather field (w ∷ ws) =
    let rest = gather field ws in
    if w.has_err then rest else elim (field w) [ none ↦ rest | some found ↦ found ++ rest ]

unfoldable pub targeted : {A : Type 0} → (A → Text) → List Text → List A → List A
unfolding contains
targeted name_of targets [] = []
targeted name_of targets (a ∷ xs) =
    let rest = targeted name_of targets xs in
    if contains (name_of a) targets then a ∷ rest else rest

unfoldable pub for_targets : {A : Type 0} → (A → Text) → List Text → List A → List A
unfolding targeted
for_targets name_of [] xs = xs
for_targets name_of (t ∷ ts) xs = targeted name_of (t ∷ ts) xs

-- `Services`, `Groups` and `Imports` of a GeneratorCollection. The order of two things of one name,
-- which `sort.Sort` leaves open, is that in which they were found.
unfoldable pub collected_services : List Text → List Walked → List ServiceConfig
unfolding gather for_targets sort_by
collected_services targets ws =
    sort_by (λ s. s.name) (for_targets (λ s. s.name) targets (gather (λ w. w.services) ws))

unfoldable pub collected_groups : List Text → List Walked → List Group
unfolding gather for_targets sort_by
collected_groups targets ws =
    sort_by (λ g. (group_info g).name)
      (for_targets (λ g. (group_info g).name) targets (gather (λ w. w.groups) ws))

unfoldable pub collected_imports : List Walked → List Text
unfolding gather
collected_imports ws = gather (λ w. w.imports) ws

-- The loop of generatorsMatchingTargets: the generators that are targets, and the targets left.
unfoldable pub match_targets : {G : Type 0} → (G → Text) → List G → List Text → List G × List Text
unfolding contains remove_name
match_targets name_of [] targets = ([], targets)
match_targets name_of (g ∷ gs) targets =
    let missed = match_targets name_of gs targets in
    let matched = match_targets name_of gs (remove_name (name_of g) targets) in
    if contains (name_of g) targets then (g ∷ matched.0, matched.1) else missed

abbrev pub check_missing : {G : Type 0} → List G × List Text → Result (List Text) (List G)
check_missing (gs, []) = ok gs
check_missing (gs, t ∷ ts) = err (t ∷ ts)

unfoldable pub generators_matching_targets :
    {G : Type 0} → (G → Text) → List G → List Text → Result (List Text) (List G)
unfolding match_targets add_to_map
generators_matching_targets name_of all [] = ok all
generators_matching_targets name_of all (t ∷ ts) =
    check_missing (match_targets name_of all (add_to_map [] (t ∷ ts)))
