-- ===== src/Config/Acyclic.antt =====
-- The second pass of `initMaps` in config/config.go: what the check for group cycles achieves.
use edward.Base.{
  suc, ◌≡◌, refl, ◌≢◌, inl, inr, Bool, true, false, Option, some, List, [], ◌∷◌, arith, length, ok,
  err, bind-ok, bind-err, Option-cases,
}
use mathlib.Core.Path.{subst}
use edward.Base.Text.{Text, text_eq, text_eq_iff, text_eq_refl, contains}
use edward.Base.Maps.{
  Map, lookup, update, keys, lookup-put, lookup-update, contains-keys_of_lookup, length-keys,
}
use edward.Base.Distinct.{not-contains-nil}
use edward.Services.{ServiceConfig}
use edward.Config.{GroupDef, GroupConfig, Config, ServicePass, FilePath, out_of_fuel}
use edward.Config.Cycles.{
  Links, child, further, IsAcyclic, Clear, has_child_cycle-absent, has_child_cycle-ne-none,
}
use edward.Config.Relink.{relink-IsAcyclic}
use edward.Config.Stages.{init_maps-Stages}
use edward.Config.Init.{
  Linked, GroupPass, groups_of, links, refuse_cycle, link_child, link_children, link_group,
  add_service, add_services, new_group, children_of, add_group, add_groups, link_groups, init_maps,
  refuse_orphans, no_services, no_groups, group_defs, service_defs,
}

-- Only a group of the map has children.
pub links-known :
    (groups : Map GroupConfig) (a b : Text)
    → contains b (links groups a) ≡ true
    → contains a (keys groups) ≡ true
unfolding links
links-known groups a b m = elim (Option-cases (lookup a groups)) [
  | inl e ↦ absurd (not-contains-nil b (subst (λ o. contains b (groups_of o) ≡ true) e m))
  | inr (g, e) ↦ contains-keys_of_lookup a groups e
]

abbrev pub with_groups : List Text → GroupConfig → GroupConfig
with_groups cs x = record x { groups = cs }

links-update :
    (groups : Map GroupConfig) (name a : Text) (cs : List Text)
    → text_eq a name ≡ false
    → links (update name (with_groups cs) groups) a ≡ links groups a
unfolding links
links-update groups name a cs h =
    ground
      (arith, lookup-update a name (with_groups cs) groups, text_eq_iff name a, text_eq_iff a name)

links-update_self :
    (groups : Map GroupConfig) (name b : Text) (cs : List Text)
    → contains b (links (update name (with_groups cs) groups) name) ≡ true
    → contains b cs ≡ true
unfolding links
links-update_self groups name b cs h =
    ground (
      arith,
      lookup-update name name (with_groups cs) groups,
      text_eq_refl name,
      not-contains-nil b,
    )

refuse_cycle-ok :
    (name : Text) (o : Option Bool) {u : Unit {0}} → refuse_cycle name o ≡ ok u → o ≡ some false
unfolding refuse_cycle
refuse_cycle-ok name o h = ground arith

-- The list of children that `link_children` returns has passed the check.
link_children-Clear :
    (groups : Map GroupConfig) (parent : Text) (l : Linked) (names : List Text) {r : Linked}
    → Clear (links groups) parent l.0
    → link_children groups parent l names ≡ ok r
    → Clear (links groups) parent r.0
unfolding link_children
link_children-Clear groups parent l [] {r = r} clear h = let e : l ≡ r = cc in rw (← e) clear
link_children-Clear groups parent l (name ∷ names) clear h =
    let (u, passed, rest) = bind-ok (refuse_cycle parent _) _ h in
    link_children-Clear groups parent (link_child groups l name) names
      (has_child_cycle-absent (links groups) parent (suc (length groups)) _
        (refuse_cycle-ok parent _ passed))
      rest

link_children-ne-out_of_fuel :
    (groups : Map GroupConfig) (parent : Text) (l : Linked) (names : List Text)
    → IsAcyclic (links groups)
    → link_children groups parent l names ≢ err out_of_fuel
unfolding link_children refuse_cycle
link_children-ne-out_of_fuel groups parent l [] acyclic = λ e. cc
link_children-ne-out_of_fuel groups parent l (name ∷ names) acyclic =
    let answers =
      has_child_cycle-ne-none (links groups) (keys groups) parent (links-known groups) acyclic
        (link_child groups l name).0 in
    let rest =
      link_children-ne-out_of_fuel groups parent (link_child groups l name) names acyclic in
    ground (arith, answers, rest, length-keys groups)

link_group-IsAcyclic :
    (p : GroupPass) (g : GroupDef) {r : GroupPass}
    → IsAcyclic (links p.groups)
    → link_group p g ≡ ok r
    → IsAcyclic (links r.groups)
unfolding link_group
link_group-IsAcyclic p g {r} acyclic h =
    let ((cs, orphans), linked, done) =
      bind-ok (link_children p.groups g.name ([], p.orphans) g.children) _ h in
    let clear =
      link_children-Clear p.groups g.name ([], p.orphans) g.children
        (λ c m. absurd (not-contains-nil c m)) linked in
    let e : update g.name (with_groups cs) p.groups ≡ r.groups = cc in
    rw (← e) (
      relink-IsAcyclic (links p.groups) (links (update g.name (with_groups cs) p.groups)) g.name
        (λ a ne. links-update p.groups g.name a cs ne) acyclic
        (λ c m. clear c (links-update_self p.groups g.name c cs m)))

link_groups-IsAcyclic :
    (p : GroupPass) (gs : List GroupDef) {r : GroupPass}
    → IsAcyclic (links p.groups)
    → link_groups p gs ≡ ok r
    → IsAcyclic (links r.groups)
unfolding link_groups
link_groups-IsAcyclic p [] {r} acyclic h = let e : p ≡ r = cc in rw (← e) acyclic
link_groups-IsAcyclic p (g ∷ gs) acyclic h =
    let (p', linked, rest) = bind-ok (link_group p g) _ h in
    link_groups-IsAcyclic p' gs (link_group-IsAcyclic p g acyclic linked) rest

link_group-ne-out_of_fuel :
    (p : GroupPass) (g : GroupDef) → IsAcyclic (links p.groups) → link_group p g ≢ err out_of_fuel
unfolding link_group
link_group-ne-out_of_fuel p g acyclic h =
    ground (arith, link_children-ne-out_of_fuel p.groups g.name ([], p.orphans) g.children acyclic)

link_groups-ne-out_of_fuel :
    (p : GroupPass) (gs : List GroupDef)
    → IsAcyclic (links p.groups)
    → link_groups p gs ≢ err out_of_fuel
unfolding link_groups
link_groups-ne-out_of_fuel p [] acyclic h = cc
link_groups-ne-out_of_fuel p (g ∷ gs) acyclic h = elim (bind-err (link_group p g) _ h) [
  | inl e ↦ link_group-ne-out_of_fuel p g acyclic e
  | inr (p', e, rest) ↦ link_groups-ne-out_of_fuel p' gs (link_group-IsAcyclic p g acyclic e) rest
]

-- The services pass and the first pass over the groups do not search for cycles.
add_services-ne-out_of_fuel :
    (fp : FilePath) (goos : Text) (c : Config) (p : ServicePass) (ss : List ServiceConfig)
    → add_services fp goos c p ss ≢ err out_of_fuel
unfolding add_services
add_services-ne-out_of_fuel fp goos c p [] h = cc
add_services-ne-out_of_fuel fp goos c p (s ∷ ss) h =
    elim (bind-err (add_service fp goos c p s) _ h) [
      | inl e ↦ unfold add_service in ground arith
      | inr (p', e, rest) ↦ add_services-ne-out_of_fuel fp goos c p' ss rest
    ]

module _ (fp : FilePath) (working_dir : Text) (skipped : List Text) where
  add_groups-ne-out_of_fuel :
      (p : GroupPass) (gs : List GroupDef)
      → add_groups fp working_dir skipped p gs ≢ err out_of_fuel
  unfolding add_groups
  add_groups-ne-out_of_fuel p [] h = cc
  add_groups-ne-out_of_fuel p (g ∷ gs) h =
      elim (bind-err (add_group fp working_dir skipped p g) _ h) [
        | inl e ↦ unfold add_group in ground arith
        | inr (p', e, rest) ↦ add_groups-ne-out_of_fuel p' gs rest
      ]

  -- No group has children after the first pass.
  add_group-unlinked :
      (p : GroupPass) (g : GroupDef) {r : GroupPass}
      → ((a : Text) → links p.groups a ≡ [])
      → add_group fp working_dir skipped p g ≡ ok r
      → (a : Text) → links r.groups a ≡ []
  unfolding add_group links
  add_group-unlinked p g none_yet h a = ground (
    arith,
    none_yet a,
    lookup-put a g.name (new_group g (children_of fp working_dir skipped p g).services) p.groups,
  )

  add_groups-unlinked :
      (p : GroupPass) (gs : List GroupDef) {r : GroupPass}
      → ((a : Text) → links p.groups a ≡ [])
      → add_groups fp working_dir skipped p gs ≡ ok r
      → (a : Text) → links r.groups a ≡ []
  unfolding add_groups
  add_groups-unlinked p [] {r} none_yet h a = let e : p ≡ r = cc in rw (← e) (none_yet a)
  add_groups-unlinked p (g ∷ gs) none_yet h a =
      let (p', added, rest) = bind-ok (add_group fp working_dir skipped p g) _ h in
      add_groups-unlinked p' gs (add_group-unlinked p g none_yet added) rest a

Unlinked-IsAcyclic : {links : Links} → ((a : Text) → links a ≡ []) → IsAcyclic links
Unlinked-IsAcyclic h a (child {b = b} m) = not-contains-nil b (rw (h a) at m)
Unlinked-IsAcyclic h a (further {b = b} m w) = not-contains-nil b (rw (h a) at m)

no_groups-unlinked : (s : ServicePass) (a : Text) → links (no_groups s).groups a ≡ []
unfolding links lookup
no_groups-unlinked s a = refl

pub grouped-unlinked :
    (fp : FilePath) (c : Config) (s : ServicePass) {g : GroupPass}
    → add_groups fp c.working_dir s.skipped (no_groups s) (group_defs c) ≡ ok g
    → (a : Text) → links g.groups a ≡ []
grouped-unlinked fp c s grouped =
    add_groups-unlinked fp c.working_dir s.skipped (no_groups s) (group_defs c)
      (no_groups-unlinked s) grouped

grouped-IsAcyclic :
    (fp : FilePath) (c : Config) (s : ServicePass) {g : GroupPass}
    → add_groups fp c.working_dir s.skipped (no_groups s) (group_defs c) ≡ ok g
    → IsAcyclic (links g.groups)
grouped-IsAcyclic fp c s grouped = Unlinked-IsAcyclic (grouped-unlinked fp c s grouped)

module _ (fp : FilePath) (goos : Text) (c : Config) where
  -- The groups of a configuration that was loaded form no cycle: no group is reached from itself by
  -- going from groups to the groups they point to.
  pub init_maps-IsAcyclic :
      (c' : Config) → init_maps fp goos c ≡ ok c' → IsAcyclic (links c'.group_map)
  init_maps-IsAcyclic c' h =
      let st = init_maps-Stages fp goos c c' h in
      rw st.result (
        link_groups-IsAcyclic st.grouped (group_defs c)
          (grouped-IsAcyclic fp c st.serviced st.groups_added) st.linking)

  -- The recursion of `hasChildCycle` ends, whatever the configuration: the depth allowed in
  -- `initMaps`, one more than there are groups, is never used up.
  pub init_maps-ne-out_of_fuel : init_maps fp goos c ≢ err out_of_fuel
  unfolding init_maps refuse_orphans
  init_maps-ne-out_of_fuel h =
      elim (bind-err (add_services fp goos c no_services (service_defs c)) _ h) [
        | inl e ↦ add_services-ne-out_of_fuel fp goos c no_services (service_defs c) e
        | inr (s, _, h') ↦
            elim (bind-err (add_groups fp c.working_dir s.skipped (no_groups s) (group_defs c)) _
              h') [
                | inl e ↦
                    add_groups-ne-out_of_fuel fp c.working_dir s.skipped (no_groups s)
                      (group_defs c) e
                | inr (g, grouped, h'') ↦ elim (bind-err (link_groups g (group_defs c)) _ h'') [
                  | inl e ↦
                      link_groups-ne-out_of_fuel g (group_defs c) (grouped-IsAcyclic fp c s grouped)
                        e
                  | inr (l, _, h''') ↦ ground arith
                ]
              ]
      ]
