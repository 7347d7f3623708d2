-- ===== src/Config/Pointers.antt =====
-- What the groups of a loaded configuration point to: `initMaps` of config/config.go gives a group no
-- child that is not in the maps.
use edward.Base.{
  ◌≡◌, refl, ◌∙◌, inl, inr, true, Option, none, some, List, [], ◌∷◌, arith, ok, bind-ok, suc,
  length, Option-cases,
}
use edward.Base.Text.{Text, text_eq_iff, contains, contains-append}
use edward.Base.Distinct.{Within, not-contains-nil}
use edward.Base.Maps.{
  Map, lookup, put, update, keys, lookup-put, lookup-update, keys-update, contains-keys_of_lookup,
}
use edward.Services.{ServiceConfig}
use edward.Config.{GroupDef, GroupConfig, Config, FilePath}
use edward.Config.Stages.{init_maps-Stages}
use edward.Config.Cycles.{has_child_cycle}
use edward.Config.Acyclic.{with_groups, grouped-unlinked}
use edward.Config.Init.{
  GroupPass, Children, Linked, links, refuse_cycle, new_group, combine, children_of, add_child,
  add_children, add_group, add_groups, link_child, link_children, link_group, link_groups,
  init_maps, no_groups, group_defs,
}

abbrev pub child_services : Option GroupConfig → List Text
child_services none = []
child_services (some g) = g.services

-- What is pointed to is in the maps.
pub record IsLinked (svcs : Map ServiceConfig) (groups : Map GroupConfig) : Type 0 where
  pub services_in : (a : Text) → Within (child_services (lookup a groups)) (keys svcs)
  pub groups_in : (a : Text) → Within (links groups a) (keys groups)

contains-keys-put :
    {V : Type 0} (j k : Text) (v : V) (m : Map V)
    → contains j (keys m) ≡ true
    → contains j (keys (put k v m)) ≡ true
unfolding put contains
contains-keys-put j k v [] h = cc
contains-keys-put j k v ((i, w) ∷ m) h =
    ground (arith, contains-keys-put j k v m, text_eq_iff k i, text_eq_iff j i)

module _ (fp : FilePath) (working_dir : Text) (skipped : List Text) where
  keys-add_child :
      (p : Children) (name : Text)
      → keys (add_child fp working_dir skipped p name).svcs ≡ keys p.svcs
  unfolding add_child
  keys-add_child p name = ground (arith, keys-update name (combine fp working_dir) p.svcs)

  add_child-contains :
      (p : Children) (name k : Text)
      → (contains k p.services ≡ true → contains k (keys p.svcs) ≡ true)
      → contains k (add_child fp working_dir skipped p name).services ≡ true
      → contains k (keys p.svcs) ≡ true
  unfolding add_child contains
  add_child-contains p name k h m = elim (Option-cases (lookup name p.svcs)) [
    | inl e ↦ ground arith
    | inr (s, e) ↦ ground (
      arith,
      contains-append k p.services (name ∷ []),
      contains-keys_of_lookup name p.svcs e,
      text_eq_iff k name,
    )
  ]

  keys-add_children :
      (p : Children) (names : List Text)
      → keys (add_children fp working_dir skipped p names).svcs ≡ keys p.svcs
  unfolding add_children
  keys-add_children p [] = refl
  keys-add_children p (name ∷ names) =
      keys-add_children (add_child fp working_dir skipped p name) names ∙ keys-add_child p name

  add_children-Within :
      (p : Children) (names : List Text)
      → Within p.services (keys p.svcs)
      → Within (add_children fp working_dir skipped p names).services (keys p.svcs)
  unfolding add_children
  add_children-Within p [] h = h
  add_children-Within p (name ∷ names) h =
      let p' = add_child fp working_dir skipped p name in
      rw (← keys-add_child p name) (
        add_children-Within p' names
          (λ k m. rw (keys-add_child p name) (add_child-contains p name k (h k) m)))

  -- The first pass keeps that the services of a group are among the services.
  add_group-Within :
      (p : GroupPass) (g : GroupDef) {r : GroupPass}
      → ((a : Text) → Within (child_services (lookup a p.groups)) (keys p.svcs))
      → add_group fp working_dir skipped p g ≡ ok r
      → (a : Text) → Within (child_services (lookup a r.groups)) (keys r.svcs)
  unfolding add_group
  add_group-Within p g h e a k m =
      let start : Children = record { svcs = p.svcs; services = []; orphans = p.orphans } in
      let same = keys-add_children start g.children in
      let among = add_children-Within start g.children (λ j n. absurd (not-contains-nil j n)) k in
      ground (
        arith,
        among,
        same,
        h a k,
        lookup-put a g.name (new_group g (children_of fp working_dir skipped p g).services)
            p.groups,
      )

  add_groups-Within :
      (p : GroupPass) (gs : List GroupDef) {r : GroupPass}
      → ((a : Text) → Within (child_services (lookup a p.groups)) (keys p.svcs))
      → add_groups fp working_dir skipped p gs ≡ ok r
      → (a : Text) → Within (child_services (lookup a r.groups)) (keys r.svcs)
  unfolding add_groups
  add_groups-Within p [] {r} h e = let same : p ≡ r = cc in rw (← same) h
  add_groups-Within p (g ∷ gs) h e =
      let (p', added, rest) = bind-ok (add_group fp working_dir skipped p g) _ e in
      add_groups-Within p' gs (add_group-Within p g h added) rest

link_child-contains :
    (groups : Map GroupConfig) (l : Linked) (name : Text)
    → Within l.0 (keys groups)
    → Within (link_child groups l name).0 (keys groups)
unfolding contains
link_child-contains groups (cs, orphans) name h k m = elim (Option-cases (lookup name groups)) [
  | inl e ↦ ground (arith, h k)
  | inr (g, e) ↦ ground (
    arith,
    h k,
    contains-append k cs (name ∷ []),
    contains-keys_of_lookup name groups e,
    text_eq_iff k name,
  )
]

link_children-Within :
    (groups : Map GroupConfig) (parent : Text) (l : Linked) (names : List Text) {r : Linked}
    → Within l.0 (keys groups)
    → link_children groups parent l names ≡ ok r
    → Within r.0 (keys groups)
unfolding link_children
link_children-Within groups parent l [] {r} h e = let same : l ≡ r = cc in rw (← same) h
link_children-Within groups parent l (name ∷ names) h e =
    let l' = link_child groups l name in
    let cycle = has_child_cycle (links groups) (suc (length groups)) parent l'.0 in
    let (u, passed, rest) = bind-ok (refuse_cycle parent cycle) _ e in
    link_children-Within groups parent l' names (link_child-contains groups l name h) rest

link_group-IsLinked :
    (p : GroupPass) (g : GroupDef) {r : GroupPass}
    → IsLinked p.svcs p.groups
    → link_group p g ≡ ok r
    → IsLinked r.svcs r.groups
unfolding link_group links
link_group-IsLinked p g {r} h e =
    let ((cs, orphans), linked, done) =
      bind-ok (link_children p.groups g.name ([], p.orphans) g.children) _ e in
    let below =
      link_children-Within p.groups g.name ([], p.orphans) g.children
        (λ j n. absurd (not-contains-nil j n)) linked in
    let same = keys-update g.name (with_groups cs) p.groups in
    let found = λ (a : Text). lookup-update a g.name (with_groups cs) p.groups in
    let e_svcs : p.svcs ≡ r.svcs = cc in
    let e_groups : update g.name (with_groups cs) p.groups ≡ r.groups = cc in
    rw (← e_svcs, ← e_groups)
      (record {
        services_in = λ a k m. ground (arith, found a, h.services_in a k);
        groups_in = λ a k m. ground (arith, found a, h.groups_in a k, below k, same);
      })

link_groups-IsLinked :
    (p : GroupPass) (gs : List GroupDef) {r : GroupPass}
    → IsLinked p.svcs p.groups
    → link_groups p gs ≡ ok r
    → IsLinked r.svcs r.groups
unfolding link_groups
link_groups-IsLinked p [] {r} h e = let same : p ≡ r = cc in rw (← same) h
link_groups-IsLinked p (g ∷ gs) h e =
    let (p', linked, rest) = bind-ok (link_group p g) _ e in
    link_groups-IsLinked p' gs (link_group-IsLinked p g h linked) rest

pub init_maps-IsLinked :
    (fp : FilePath) (goos : Text) (c c' : Config)
    → init_maps fp goos c ≡ ok c'
    → IsLinked c'.service_map c'.group_map
unfolding links lookup
init_maps-IsLinked fp goos c c' h =
    let st = init_maps-Stages fp goos c c' h in
    let first =
      add_groups-Within fp c.working_dir st.serviced.skipped (no_groups st.serviced) (group_defs c)
        (λ a k m. absurd (not-contains-nil k m)) st.groups_added in
    let unlinked = grouped-unlinked fp c st.serviced st.groups_added in
    rw st.result (
      link_groups-IsLinked st.grouped (group_defs c)
        (record {
          services_in = first;
          groups_in = λ a k m. absurd (not-contains-nil k (rw (unlinked a) at m));
        })
        st.linking)
