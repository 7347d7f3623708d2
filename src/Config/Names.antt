-- ===== src/Config/Names.antt =====
-- The passes of `initMaps` in config/config.go keep names apart: every name and alias belongs to one
-- service or group.
use mathlib.Core.Path.{subst, fun_ext}
use edward.Base.{
  ◌≡◌, refl, true, false, Option, none, some, List, [], ◌∷◌, ◌++◌, arith, ok, bind-ok, ok_injective,
  Bool-cases, ◌⊎◌, inl, inr,
}
use edward.Base.Text.{Text, text_eq_iff, contains}
use edward.Base.Maps.{Map, lookup, put, update, lookup-put, lookup-update}
use edward.Services.{ServiceConfig, matches_platform}
use edward.Config.{
  GroupDef, GroupConfig, Config, ServicePass, FilePath, names_of, intersect, add_to_map, from_path,
}
use edward.Config.Claims.{Claimed, given, Claimed-service, Claimed-group, refuse_duplicates-ok}
use edward.Config.Stages.{init_maps-Stages}
use edward.Config.Acyclic.{with_groups}
use edward.Config.Init.{
  GroupPass, Children, combine, refuse_duplicates, new_group, children_of, add_service,
  add_services, add_child, add_children, add_group, add_groups, link_children, link_group,
  link_groups, init_maps, no_services, no_groups, group_defs, service_defs,
}

abbrev pub names_s : Option ServiceConfig → List Text
names_s none = []
names_s (some s) = names_of s.aliases s.name

abbrev pub names_g : Option GroupConfig → List Text
names_g none = []
names_g (some g) = names_of g.aliases g.name

abbrev pub owned_s : Map ServiceConfig → Text → List Text
owned_s svcs k = names_s (lookup k svcs)

abbrev pub owned_g : Map GroupConfig → Text → List Text
owned_g groups k = names_g (lookup k groups)

abbrev pub name_or_s : Text → Option ServiceConfig → Text
name_or_s k none = k
name_or_s k (some s) = s.name

abbrev pub name_or_g : Text → Option GroupConfig → Text
name_or_g k none = k
name_or_g k (some g) = g.name

-- Each entry stands under its own name, and no two entries share a name or alias.
pub record IsNamed (svcs : Map ServiceConfig) (groups : Map GroupConfig) (used : List Text)
    : Type 0 where
  pub claimed : Claimed (owned_s svcs) (owned_g groups) used
  pub keyed_s : (k : Text) → name_or_s k (lookup k svcs) ≡ k
  pub keyed_g : (k : Text) → name_or_g k (lookup k groups) ≡ k

owned_s-put :
    (svcs : Map ServiceConfig) (s : ServiceConfig)
    → given s.name (names_of s.aliases s.name) (owned_s svcs) ≡ owned_s (put s.name s svcs)
owned_s-put svcs s = fun_ext (λ k. ground (arith, lookup-put k s.name s svcs))

owned_g-put :
    (groups : Map GroupConfig) (g : GroupConfig)
    → given g.name (names_of g.aliases g.name) (owned_g groups) ≡ owned_g (put g.name g groups)
owned_g-put groups g = fun_ext (λ k. ground (arith, lookup-put k g.name g groups))

owned_s-update :
    (fp : FilePath) (wd name : Text) (svcs : Map ServiceConfig)
    → owned_s svcs ≡ owned_s (update name (combine fp wd) svcs)
owned_s-update fp wd name svcs =
    fun_ext (λ k. ground (arith, lookup-update k name (combine fp wd) svcs))

owned_g-update :
    (cs : List Text) (name : Text) (groups : Map GroupConfig)
    → owned_g groups ≡ owned_g (update name (with_groups cs) groups)
owned_g-update cs name groups =
    fun_ext (λ k. ground (arith, lookup-update k name (with_groups cs) groups))

put-IsNamed :
    {svcs : Map ServiceConfig} {groups : Map GroupConfig} {used : List Text} (s : ServiceConfig)
    → ((n : Text) → contains n (names_of s.aliases s.name) ≡ true → contains n used ≡ false)
    → IsNamed svcs groups used
    → IsNamed (put s.name s svcs) groups (add_to_map used (names_of s.aliases s.name))
put-IsNamed {svcs} {groups} {used} s fresh v = record {
  claimed =
      subst (λ S. Claimed S (owned_g groups) (add_to_map used (names_of s.aliases s.name)))
        (owned_s-put svcs s) (Claimed-service v.claimed s.name (names_of s.aliases s.name) fresh);
  keyed_s = λ k. ground (arith, lookup-put k s.name s svcs, v.keyed_s k, text_eq_iff k s.name);
  keyed_g = v.keyed_g;
}

put_group-IsNamed :
    {svcs : Map ServiceConfig} {groups : Map GroupConfig} {used : List Text} (g : GroupConfig)
    → ((n : Text) → contains n (names_of g.aliases g.name) ≡ true → contains n used ≡ false)
    → IsNamed svcs groups used
    → IsNamed svcs (put g.name g groups) (add_to_map used (names_of g.aliases g.name))
put_group-IsNamed {svcs} {groups} {used} g fresh v = record {
  claimed =
      subst (λ G. Claimed (owned_s svcs) G (add_to_map used (names_of g.aliases g.name)))
        (owned_g-put groups g) (Claimed-group v.claimed g.name (names_of g.aliases g.name) fresh);
  keyed_s = v.keyed_s;
  keyed_g = λ k. ground (arith, lookup-put k g.name g groups, v.keyed_g k, text_eq_iff k g.name);
}

combine-IsNamed :
    {svcs : Map ServiceConfig} {groups : Map GroupConfig} {used : List Text} (fp : FilePath)
    (wd name : Text)
    → IsNamed svcs groups used
    → IsNamed (update name (combine fp wd) svcs) groups used
combine-IsNamed {svcs} {groups} {used} fp wd name v = record {
  claimed = subst (λ S. Claimed S (owned_g groups) used) (owned_s-update fp wd name svcs) v.claimed;
  keyed_s = λ k. ground (arith, lookup-update k name (combine fp wd) svcs, v.keyed_s k);
  keyed_g = v.keyed_g;
}

with_groups-IsNamed :
    {svcs : Map ServiceConfig} {groups : Map GroupConfig} {used : List Text} (cs : List Text)
    (name : Text)
    → IsNamed svcs groups used
    → IsNamed svcs (update name (with_groups cs) groups) used
with_groups-IsNamed {svcs} {groups} {used} cs name v = record {
  claimed = subst (λ G. Claimed (owned_s svcs) G used) (owned_g-update cs name groups) v.claimed;
  keyed_s = v.keyed_s;
  keyed_g = λ k. ground (arith, lookup-update k name (with_groups cs) groups, v.keyed_g k);
}

abbrev NamedPass : ServicePass → Type 0
NamedPass p = IsNamed p.svcs [] p.in_use

abbrev NamedGroups : GroupPass → Type 0
NamedGroups p = IsNamed p.svcs p.groups p.in_use

module _ (fp : FilePath) (goos : Text) (c : Config) where
  add_service-IsNamed :
      (p : ServicePass) (s : ServiceConfig) {r : ServicePass}
      → NamedPass p
      → add_service fp goos c p s ≡ ok r
      → NamedPass r
  unfolding add_service
  add_service-IsNamed p s v h =
      let (file, _, h') = bind-ok (from_path (fp.abs c.file_path)) _ h in
      let sc = record s { env = s.env ++ c.env; config_file = file } in
      elim (Bool-cases (matches_platform goos sc)) [
        | inl e ↦
            let (u, free, done) =
              bind-ok (refuse_duplicates (intersect p.in_use (names_of s.aliases s.name))) _
                (rw e at h') in
            subst NamedPass (ok_injective done)
              (put-IsNamed sc (refuse_duplicates-ok p.in_use (names_of s.aliases s.name) free) v)
        | inr e ↦ subst NamedPass (ok_injective (rw e at h')) v
      ]

  add_services-IsNamed :
      (p : ServicePass) (ss : List ServiceConfig) {r : ServicePass}
      → NamedPass p
      → add_services fp goos c p ss ≡ ok r
      → NamedPass r
  unfolding add_services
  add_services-IsNamed p [] v h = subst NamedPass (ok_injective h) v
  add_services-IsNamed p (s ∷ ss) v h =
      let (p', added, rest) = bind-ok (add_service fp goos c p s) _ h in
      add_services-IsNamed p' ss (add_service-IsNamed p s v added) rest

module _ (fp : FilePath) (wd : Text) (skipped : List Text) where
  add_child-svcs :
      (p : Children) (name : Text)
      → (p.svcs ≡ (add_child fp wd skipped p name).svcs)
        ⊎ (update name (combine fp wd) p.svcs ≡ (add_child fp wd skipped p name).svcs)
  unfolding add_child
  add_child-svcs p name = ground arith

  add_child-IsNamed :
      {groups : Map GroupConfig} {used : List Text} (p : Children) (name : Text)
      → IsNamed p.svcs groups used
      → IsNamed (add_child fp wd skipped p name).svcs groups used
  add_child-IsNamed {groups} {used} p name v = elim (add_child-svcs p name) [
    | inl e ↦ subst (λ m. IsNamed m groups used) e v
    | inr e ↦ subst (λ m. IsNamed m groups used) e (combine-IsNamed fp wd name v)
  ]

  add_children-IsNamed :
      {groups : Map GroupConfig} {used : List Text} (p : Children) (names : List Text)
      → IsNamed p.svcs groups used
      → IsNamed (add_children fp wd skipped p names).svcs groups used
  unfolding add_children
  add_children-IsNamed p [] v = v
  add_children-IsNamed p (name ∷ names) v =
      add_children-IsNamed (add_child fp wd skipped p name) names (add_child-IsNamed p name v)

  add_groups-IsNamed :
      (p : GroupPass) (gs : List GroupDef) {r : GroupPass}
      → NamedGroups p
      → add_groups fp wd skipped p gs ≡ ok r
      → NamedGroups r
  unfolding add_groups add_group
  add_groups-IsNamed p [] v h = subst NamedGroups (ok_injective h) v
  add_groups-IsNamed p (g ∷ gs) v h =
      let (p', added, rest) = bind-ok (add_group fp wd skipped p g) _ h in
      let (u, free, done) =
        bind-ok (refuse_duplicates (intersect p.in_use (names_of g.aliases g.name))) _ added in
      add_groups-IsNamed p' gs
        (subst NamedGroups (ok_injective done) (
          put_group-IsNamed (new_group g (children_of fp wd skipped p g).services)
            (refuse_duplicates-ok p.in_use (names_of g.aliases g.name) free)
            (add_children-IsNamed _ g.children v)))
        rest

link_groups-IsNamed :
    (p : GroupPass) (gs : List GroupDef) {r : GroupPass}
    → NamedGroups p
    → link_groups p gs ≡ ok r
    → NamedGroups r
unfolding link_groups link_group
link_groups-IsNamed p [] v h = subst NamedGroups (ok_injective h) v
link_groups-IsNamed p (g ∷ gs) v h =
    let (p', linked, rest) = bind-ok (link_group p g) _ h in
    let ((cs, orphans), _, done) =
      bind-ok (link_children p.groups g.name ([], p.orphans) g.children) _ linked in
    link_groups-IsNamed p' gs
      (subst NamedGroups (ok_injective done) (with_groups-IsNamed cs g.name v)) rest

no_services-IsNamed : NamedPass no_services
unfolding lookup contains
no_services-IsNamed = record {
  claimed = record {
    used_s = λ n k m. cc;
    used_g = λ n k m. cc;
    one_s = λ n k j m m'. cc;
    one_g = λ n k j m m'. cc;
    apart = λ n k j m m'. cc;
  };
  keyed_s = λ k. refl;
  keyed_g = λ k. refl;
}

-- In a configuration that was loaded, a service or group stands in its map under its own name, and
-- no name or alias belongs to two services, to two groups, or to a service and a group.
pub init_maps-IsNamed :
    (fp : FilePath) (goos : Text) (c c' : Config)
    → init_maps fp goos c ≡ ok c'
    → (used : List Text) × IsNamed c'.service_map c'.group_map used
init_maps-IsNamed fp goos c c' h =
    let st = init_maps-Stages fp goos c c' h in
    let v =
      add_services-IsNamed fp goos c no_services (service_defs c) no_services-IsNamed
        st.services_added in
    let w =
      add_groups-IsNamed fp c.working_dir st.serviced.skipped (no_groups st.serviced) (group_defs c)
        v st.groups_added in
    (st.linked.in_use, rw st.result (link_groups-IsNamed st.grouped (group_defs c) w st.linking))
