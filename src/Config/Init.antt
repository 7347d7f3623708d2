-- ===== src/Config/Init.antt =====
-- `initMaps` of config/config.go: one pass over the services and two over the groups.
use edward.Base.{
  suc, Bool, true, false, Option, none, some, List, [], ◌∷◌, ◌++◌, Result, ok, err, ◌>>=◌,
  if◌then◌else◌, length,
}
use edward.Base.Text.{Text, contains}
use edward.Base.Maps.{Map, lookup, put, update}
use edward.Services.{ServiceConfig, matches_platform}
use edward.Config.{
  GroupDef, GroupConfig, Config, FilePath, LoadError, duplicate_name, group_cycle, not_found,
  out_of_fuel, add_name, add_to_map, remove_name, intersect, combine_path, names_of, from_path,
  ServicePass,
}
use edward.Config.Cycles.{Links, has_child_cycle}

-- `if i := intersect(...); len(i) > 0 { return duplicate } `
unfoldable pub refuse_duplicates : List Text → Result LoadError Unit
refuse_duplicates [] = ok tt
refuse_duplicates (n ∷ ns) = err (duplicate_name (n ∷ ns))

module _ (fp : FilePath) (goos : Text) (c : Config) where
  unfoldable pub add_service : ServicePass → ServiceConfig → Result LoadError ServicePass
  unfolding refuse_duplicates
  add_service p s = do
    config_file ← from_path (fp.abs c.file_path)
    let sc = record s { env = s.env ++ c.env; config_file = config_file }
    if matches_platform goos sc
        then (do
          _ ← refuse_duplicates (intersect p.in_use (names_of sc.aliases sc.name))
          ok (record p {
            svcs = put sc.name sc p.svcs;
            in_use = add_to_map p.in_use (names_of sc.aliases sc.name);
          }))
        else ok (record p { skipped = add_name sc.name p.skipped })

  unfoldable pub add_services : ServicePass → List ServiceConfig → Result LoadError ServicePass
  unfolding add_service
  add_services p [] = ok p
  add_services p (s ∷ ss) = add_service p s >>= λ p'. add_services p' ss

pub record GroupPass : Type 0 where
  pub svcs : Map ServiceConfig
  pub groups : Map GroupConfig
  pub orphans : List Text
  pub in_use : List Text

-- A group as the first pass makes it, with the services among its children.
abbrev pub new_group : GroupDef → List Text → GroupConfig
new_group g services = record {
  name = g.name;
  aliases = g.aliases;
  description = g.description;
  services = services;
  groups = [];
  child_order = g.children;
  env = g.env;
}

-- The variables of the loop over `g.Children` in the first pass.
pub record Children : Type 0 where
  pub svcs : Map ServiceConfig
  pub services : List Text
  pub orphans : List Text

module _ (fp : FilePath) (working_dir : Text) where
  abbrev pub combine : ServiceConfig → ServiceConfig
  combine s = record s {
    path = elim s.path [ none ↦ none | some p ↦ some (combine_path fp working_dir p) ];
  }

  unfoldable pub add_child : List Text → Children → Text → Children
  add_child skipped p name = elim (lookup name p.svcs) [
    | some s ↦ record p { svcs = update name combine p.svcs; services = p.services ++ name ∷ [] }
    | none ↦ if contains name skipped then p else record p { orphans = add_name name p.orphans }
  ]

  unfoldable pub add_children : List Text → Children → List Text → Children
  unfolding add_child
  add_children skipped p [] = p
  add_children skipped p (name ∷ names) = add_children skipped (add_child skipped p name) names

  abbrev pub children_of : List Text → GroupPass → GroupDef → Children
  children_of skipped p g =
      add_children skipped (record { svcs = p.svcs; services = []; orphans = p.orphans }) g.children

  unfoldable pub add_group : List Text → GroupPass → GroupDef → Result LoadError GroupPass
  unfolding refuse_duplicates add_children
  add_group skipped p g = do
    let kids = children_of skipped p g
    _ ← refuse_duplicates (intersect p.in_use (names_of g.aliases g.name))
    ok (record {
      svcs = kids.svcs;
      groups = put g.name (new_group g kids.services) p.groups;
      orphans = kids.orphans;
      in_use = add_to_map p.in_use (names_of g.aliases g.name);
    })

  unfoldable pub add_groups : List Text → GroupPass → List GroupDef → Result LoadError GroupPass
  unfolding add_group
  add_groups skipped p [] = ok p
  add_groups skipped p (g ∷ gs) = add_group skipped p g >>= λ p'. add_groups skipped p' gs

-- The children that the loaded groups point to.
abbrev pub groups_of : Option GroupConfig → List Text
groups_of none = []
groups_of (some g) = g.groups

unfoldable pub links : Map GroupConfig → Links
links groups name = groups_of (lookup name groups)

unfoldable pub refuse_cycle : Text → Option Bool → Result LoadError Unit
refuse_cycle name (some false) = ok tt
refuse_cycle name (some true) = err (group_cycle name)
refuse_cycle name none = err out_of_fuel

-- The loop's variables: the child groups and the orphans that are left.
abbrev pub Linked : Type 0
Linked = List Text × List Text

abbrev pub link_child : Map GroupConfig → Linked → Text → Linked
link_child groups (child_groups, orphans) name = elim (lookup name groups) [
  | some gr ↦ (child_groups ++ name ∷ [], remove_name name orphans)
  | none ↦ (child_groups, orphans)
]

unfoldable pub link_children : Map GroupConfig → Text → Linked → List Text → Result LoadError Linked
unfolding refuse_cycle
link_children groups parent l [] = ok l
link_children groups parent l (name ∷ names) =
    let l' = link_child groups l name in
    refuse_cycle parent (has_child_cycle (links groups) (suc (length groups)) parent l'.0) >>= λ _.
    link_children groups parent l' names

unfoldable pub link_group : GroupPass → GroupDef → Result LoadError GroupPass
unfolding link_children
link_group p g = do
  (child_groups, orphans) ← link_children p.groups g.name ([], p.orphans) g.children
  ok (record p {
    groups = update g.name (λ x. record x { groups = child_groups }) p.groups;
    orphans = orphans;
  })

unfoldable pub link_groups : GroupPass → List GroupDef → Result LoadError GroupPass
unfolding link_group
link_groups p [] = ok p
link_groups p (g ∷ gs) = link_group p g >>= λ p'. link_groups p' gs

unfoldable pub refuse_orphans : List Text → Result LoadError Unit
refuse_orphans [] = ok tt
refuse_orphans (n ∷ ns) = err (not_found (n ∷ ns))

abbrev pub group_defs : Config → List GroupDef
group_defs c = c.groups ++ c.imported_groups

abbrev pub service_defs : Config → List ServiceConfig
service_defs c = c.services ++ c.imported_services

abbrev pub no_services : ServicePass
no_services = record { svcs = []; skipped = []; in_use = [] }

abbrev pub no_groups : ServicePass → GroupPass
no_groups s = record { svcs = s.svcs; groups = []; orphans = []; in_use = s.in_use }

unfoldable pub init_maps : FilePath → Text → Config → Result LoadError Config
unfolding add_services add_groups link_groups refuse_orphans
init_maps fp goos c = do
  s ← add_services fp goos c no_services (service_defs c)
  g ← add_groups fp c.working_dir s.skipped (no_groups s) (group_defs c)
  l ← link_groups g (group_defs c)
  _ ← refuse_orphans l.orphans
  ok (record c { service_map = l.svcs; group_map = l.groups })
