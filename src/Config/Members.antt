-- ===== src/Config/Members.antt =====
-- From the names of a command to what it operates on: `GetServicesOrGroups` of config/shared.go finds
-- services and groups in the maps, and the pointers of a group lead on to those below it.
use edward.Base.{
  ◌≡◌, refl, ap, inl, inr, Bool, Option, none, some, List, [], ◌∷◌, ok, arith, Option-cases,
  Bool-cases, bind-ok, ok_injective, map,
}
use edward.Base.Text.{Text}
use edward.Base.Maps.{Map, lookup}
use edward.Services.{ServiceConfig}
use edward.Config.{GroupConfig, Config, FilePath}
use edward.Config.Init.{init_maps}
use edward.Config.Shared.{
  Shared, RangeOrder, ServiceOrGroup, service as found_service, group as found_group, find_match,
  get_service_or_group, get_services_or_groups, get_name, group_matches,
}
use edward.Config.Trees.{tree_of, both, tree_of-is_some}
use edward.Groups.{Member, service, group, group_info}

abbrev pub member_name : Member → Text
member_name (service s) = s.name
member_name (group g) = (group_info g).name

module _ (svcs : Map ServiceConfig) (groups : Map GroupConfig) where
  unfoldable pub member_of : ServiceOrGroup → Option Member
  unfolding tree_of
  member_of (found_service s) = some (service s)
  member_of (found_group g) = elim (tree_of svcs groups g) [ none ↦ none | some t ↦ some (group t) ]

  unfoldable pub members_of : List ServiceOrGroup → Option (List Member)
  unfolding member_of
  members_of [] = some []
  members_of (sg ∷ sgs) = both (member_of sg) (members_of sgs) (λ m ms. m ∷ ms)

find_match-lookup :
    {V : Type 0} (test : V → Bool) (m : Map V) (order : List Text) {v : V}
    → find_match test m order ≡ some v
    → (k : Text) × (lookup k m ≡ some v)
unfolding find_match
find_match-lookup test m [] h = absurd (cc)
find_match-lookup test m (k ∷ ks) h = elim (Option-cases (lookup k m)) [
  | inl e ↦ find_match-lookup test m ks (rw (find_match, e) at h)
  | inr (w, e) ↦ elim (Bool-cases (test w)) [
    | inl passes ↦ (k, ground arith)
    | inr fails ↦ find_match-lookup test m ks (rw (find_match, e, fails) at h)
  ]
]

-- A group that is found is one of the map.
get_service_or_group-lookup :
    (order : RangeOrder) (sh : Shared) (name : Text) {g : GroupConfig}
    → get_service_or_group order sh name ≡ ok (found_group g)
    → (k : Text) × (lookup k sh.group_map ≡ some g)
unfolding get_service_or_group
get_service_or_group-lookup order sh name {g} h = elim (Option-cases (lookup name sh.group_map)) [
  | inr (g', e) ↦ (name, ground arith)
  | inl e ↦ elim (Option-cases (lookup name sh.service_map)) [
    | inr (s, e') ↦ absurd (ground arith)
    | inl e' ↦ elim (Option-cases (find_match (group_matches name) sh.group_map order.of_groups)) [
      | inr (g', e'') ↦
          let same : g' ≡ g = ground arith in
          find_match-lookup (group_matches name) sh.group_map order.of_groups (rw same at e'')
      | inl e'' ↦ absurd (ground arith)
    ]
  ]
]

module _ (fp : FilePath) (goos : Text) (c c' : Config) (loaded : init_maps fp goos c ≡ ok c')
    (order : RangeOrder) (base_path : Text) where
  abbrev sh : Shared
  sh = record { base_path = base_path; group_map = c'.group_map; service_map = c'.service_map }

  found-member :
      (name : Text) (sg : ServiceOrGroup)
      → get_service_or_group order sh name ≡ ok sg
      → (m : Member) × (member_of c'.service_map c'.group_map sg ≡ some m)
        × (member_name m ≡ get_name sg)
  unfolding member_of
  found-member name (found_service s) h = (service s, refl, refl)
  found-member name (found_group g) h =
      let (k, at_k) = get_service_or_group-lookup order sh name h in
      let (t, tree, info) = tree_of-is_some fp goos c c' k loaded at_k in
      (group t, rw (member_of, tree) refl, ap (λ i. i.name) info)

  -- What GetServicesOrGroups finds in a configuration that was loaded, by name or alias, can be
  -- operated on: it is a service, or a group below which the pointers lead to services and groups of
  -- the configuration and come to an end, and it has the name of what was found.
  pub get_services_or_groups-members :
      (names : List Text) {sgs : List ServiceOrGroup}
      → get_services_or_groups order sh names ≡ ok sgs
      → (ms : List Member) × (members_of c'.service_map c'.group_map sgs ≡ some ms)
        × (map member_name ms ≡ map get_name sgs)
  unfolding get_services_or_groups members_of
  get_services_or_groups-members [] {sgs} h =
      let same : [] ≡ sgs = ok_injective h in rw (← same) ([], refl, refl)
  get_services_or_groups-members (name ∷ names) {sgs} h =
      let (sg, first, h') = bind-ok (get_service_or_group order sh name) _ h in
      let (rest, others, h'') = bind-ok (get_services_or_groups order sh names) _ h' in
      let same : sg ∷ rest ≡ sgs = ok_injective h'' in
      let (m, is_m, named) = found-member name sg first in
      let (ms, are_ms, all_named) = get_services_or_groups-members names others in
      rw (← same) (m ∷ ms, rw (is_m, are_ms) refl, rw (named, all_named) refl)
