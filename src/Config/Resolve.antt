-- ===== src/Config/Resolve.antt =====
-- Finding services and groups by name or alias, in the maps of a loaded configuration.
use edward.Base.{
  ◌≡◌, refl, ◌∙◌, inl, inr, Bool, true, false, none, some, List, [], ◌∷◌, arith, ok, err, any,
  Option-cases,
}
use edward.Base.Text.{Text, text_eq, text_eq_iff, contains, contains-append}
use edward.Base.Distinct.{contains_self}
use edward.Base.Maps.{Map, lookup}
use edward.Services.{ServiceConfig, matches}
use edward.Config.{GroupConfig, names_of, unknown_name}
use edward.Config.Names.{IsNamed, names_s, names_g}
use edward.Config.Shared.{
  Shared, RangeOrder, service, group, find_match, group_matches, service_matches,
  get_service_or_group,
}

any-flip : (name : Text) (xs : List Text) → any (λ x. text_eq x name) xs ≡ contains name xs
unfolding contains
any-flip name [] = refl
any-flip name (x ∷ xs) = ground (arith, any-flip name xs, text_eq_iff x name, text_eq_iff name x)

-- `Matches` asks whether a name is one of the names.
pub matches_lem :
    (own : Text) (aliases : List Text) (name : Text)
    → matches own aliases name ≡ contains name (names_of aliases own)
unfolding matches
matches_lem own aliases name = ground (
  arith,
  contains-append name aliases (own ∷ []),
  any-flip name aliases,
  any-flip name (own ∷ []),
)

contains-names_of : (aliases : List Text) (own : Text) → contains own (names_of aliases own) ≡ true
contains-names_of aliases own =
    ground (arith, contains-append own aliases (own ∷ []), contains_self own [])

-- If one key's entry passes the test and no other does, the loop finds it in every order.
find_match_only :
    {V : Type 0} (test : V → Bool) (m : Map V) (k : Text) (v : V)
    → lookup k m ≡ some v
    → test v ≡ true
    → ((j : Text) (w : V) → lookup j m ≡ some w → test w ≡ true → j ≡ k)
    → (order : List Text) → contains k order ≡ true
    → find_match test m order ≡ some v
unfolding find_match contains
find_match_only test m k v found passes only [] there = cc
find_match_only test m k v found passes only (j ∷ js) there =
    let rest = find_match_only test m k v found passes only js in
    elim (Option-cases (lookup j m)) [
      | inl e ↦ ground (arith, rest, text_eq_iff k j)
      | inr (w, e) ↦ ground (arith, rest, text_eq_iff k j, only j w e)
    ]

find_match-none :
    {V : Type 0} (test : V → Bool) (m : Map V)
    → ((j : Text) (w : V) → lookup j m ≡ some w → test w ≡ false)
    → (order : List Text) → find_match test m order ≡ none
unfolding find_match
find_match-none test m no_match [] = refl
find_match-none test m no_match (j ∷ js) = elim (Option-cases (lookup j m)) [
  | inl e ↦ ground (arith, find_match-none test m no_match js)
  | inr (w, e) ↦ ground (arith, find_match-none test m no_match js, no_match j w e)
]

module _ (sh : Shared) (used : List Text) (named : IsNamed sh.service_map sh.group_map used)
    (order : RangeOrder) (n : Text) where
  owns_s :
      (k : Text) (s : ServiceConfig)
      → lookup k sh.service_map ≡ some s
      → service_matches n s ≡ contains n (names_s (lookup k sh.service_map))
  owns_s k s e = ground (arith, matches_lem s.name s.aliases n)

  owns_g :
      (k : Text) (g : GroupConfig)
      → lookup k sh.group_map ≡ some g
      → group_matches n g ≡ contains n (names_g (lookup k sh.group_map))
  owns_g k g e = ground (arith, matches_lem g.name g.aliases n)

  -- What stands under a key has the key among its names.
  at_key_s :
      (s : ServiceConfig)
      → lookup n sh.service_map ≡ some s
      → contains n (names_s (lookup n sh.service_map)) ≡ true
  at_key_s s e = ground (arith, named.keyed_s n, contains-names_of s.aliases s.name)

  at_key_g :
      (g : GroupConfig)
      → lookup n sh.group_map ≡ some g
      → contains n (names_g (lookup n sh.group_map)) ≡ true
  at_key_g g e = ground (arith, named.keyed_g n, contains-names_of g.aliases g.name)

  module _ (k : Text) (s : ServiceConfig) (found : lookup k sh.service_map ≡ some s)
      (mine : contains n (names_of s.aliases s.name) ≡ true) where
    no_group :
        (j : Text) (g : GroupConfig) → lookup j sh.group_map ≡ some g → group_matches n g ≡ false
    no_group j g e = ground (arith, owns_g j g e, named.claimed.apart n k j)

    only_service :
        (j : Text) (t : ServiceConfig)
        → lookup j sh.service_map ≡ some t
        → service_matches n t ≡ true
        → j ≡ k
    only_service j t e m = ground (arith, owns_s j t e, named.claimed.one_s n j k)

    no_group_key : lookup n sh.group_map ≡ none
    no_group_key = elim (Option-cases (lookup n sh.group_map)) [
      | inl e ↦ e
      | inr (g, e) ↦ absurd (ground (arith, named.claimed.apart n k n, at_key_g g e))
    ]

    -- A service that was loaded is what its name and each of its aliases stand for, in whatever
    -- order the maps are visited.
    pub get_service_or_group-service :
        contains k order.of_services ≡ true → get_service_or_group order sh n ≡ ok (service s)
    unfolding get_service_or_group
    get_service_or_group-service visited = elim (Option-cases (lookup n sh.service_map)) [
      | inl e ↦ ground (
        arith,
        no_group_key,
        find_match-none (group_matches n) sh.group_map no_group order.of_groups,
        find_match_only (service_matches n) sh.service_map k s found
            (matches_lem s.name s.aliases n ∙ mine) only_service order.of_services visited,
      )
      | inr (t, e) ↦ ground (arith, no_group_key, named.claimed.one_s n k n, at_key_s t e)
    ]

  module _ (k : Text) (g : GroupConfig) (found : lookup k sh.group_map ≡ some g)
      (mine : contains n (names_of g.aliases g.name) ≡ true) where
    only_group :
        (j : Text) (h : GroupConfig)
        → lookup j sh.group_map ≡ some h
        → group_matches n h ≡ true
        → j ≡ k
    only_group j h e m = ground (arith, owns_g j h e, named.claimed.one_g n j k)

    no_service_key : lookup n sh.service_map ≡ none
    no_service_key = elim (Option-cases (lookup n sh.service_map)) [
      | inl e ↦ e
      | inr (s, e) ↦ absurd (ground (arith, named.claimed.apart n n k, at_key_s s e))
    ]

    -- A group that was loaded is what its name and each of its aliases stand for, in whatever order
    -- the maps are visited.
    pub get_service_or_group-group :
        contains k order.of_groups ≡ true → get_service_or_group order sh n ≡ ok (group g)
    unfolding get_service_or_group
    get_service_or_group-group visited = elim (Option-cases (lookup n sh.group_map)) [
      | inl e ↦ ground (
        arith,
        no_service_key,
        find_match_only (group_matches n) sh.group_map k g found
            (matches_lem g.name g.aliases n ∙ mine) only_group order.of_groups visited,
      )
      | inr (h, e) ↦ ground (arith, named.claimed.one_g n k n, at_key_g h e)
    ]

  -- A name that no loaded service or group has is not found, in whatever order the maps are visited.
  pub get_service_or_group-unknown :
      ((j : Text) (g : GroupConfig) → lookup j sh.group_map ≡ some g → group_matches n g ≡ false)
      → ((j : Text) (s : ServiceConfig)
          → lookup j sh.service_map ≡ some s
          → service_matches n s ≡ false)
      → get_service_or_group order sh n ≡ err (unknown_name n)
  unfolding get_service_or_group
  get_service_or_group-unknown no_group no_service =
      let in_groups = find_match-none (group_matches n) sh.group_map no_group order.of_groups in
      let in_services =
        find_match-none (service_matches n) sh.service_map no_service order.of_services in
      elim (Option-cases (lookup n sh.group_map)) [
        | inl e ↦ elim (Option-cases (lookup n sh.service_map)) [
          | inl e' ↦ ground (arith, in_groups, in_services)
          | inr (s, e') ↦ absurd (ground (arith, no_service n s e', owns_s n s e', at_key_s s e'))
        ]
        | inr (g, e) ↦ absurd (ground (arith, no_group n g e, owns_g n g e, at_key_g g e))
      ]
