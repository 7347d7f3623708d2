-- ===== src/Config/Trees.antt =====
-- services/groupconfig.go goes from a group to its services and groups by the pointers that `initMaps`
-- of config/config.go sets: the tree that it meets on the way, with the entries of the maps in place
-- of the names that stand for pointers to them.
use mathlib.Core.Path.{subst}
use edward.Base.{
  ℕ, zero, suc, ◌≡◌, refl, sym, ◌≢◌, ◌⊎◌, inl, inr, Bool, true, false, Option, none, some, List, [],
  ◌∷◌, arith, length, ok, Bool-cases,
}
use edward.Base.Text.{Text, text_eq, contains}
use edward.Base.Distinct.{Within, contains_self, contains_tail}
use edward.Base.Maps.{Map, lookup, keys, length-keys, lookup_of_keys}
use edward.Services.{ServiceConfig}
use edward.Config.{GroupConfig, Config, FilePath}
use edward.Config.Cycles.{
  Walk, child, further, IsAcyclic, has_child_cycle, then_rest-false, some-true-ne-some-false,
  has_child_cycle-Found, has_child_cycle-ne-none,
}
use edward.Config.Init.{links, init_maps}
use edward.Config.Acyclic.{links-known, init_maps-IsAcyclic}
use edward.Config.Pointers.{IsLinked, init_maps-IsLinked}
use edward.Groups.{Group, Groups, GroupInfo, node, nil, cons, group_info}

abbrev pub info_at : GroupConfig → GroupInfo
info_at g = record {
  name = g.name;
  aliases = g.aliases;
  description = g.description;
  child_order = g.child_order;
  env = g.env;
}

abbrev pub both : {A B C : Type 0} → Option A → Option B → (A → B → C) → Option C
both (some a) (some b) f = some (f a b)
both (some a) none f = none
both none b f = none

module _ (svcs : Map ServiceConfig) (groups : Map GroupConfig) where
  unfoldable pub services_at : List Text → Option (List ServiceConfig)
  services_at [] = some []
  services_at (n ∷ ns) = both (lookup n svcs) (services_at ns) (λ s ss. s ∷ ss)

  abbrev pub tree_with : GroupConfig → Option Groups → Option Group
  tree_with g below = both (services_at g.services) below (λ ss gs. node (info_at g) ss gs)

  abbrev pub tree_at : Option GroupConfig → Option Groups → Option Group
  tree_at none below = none
  tree_at (some g) below = tree_with g below

  -- The fuel bounds the depth.
  unfoldable pub group_trees : ℕ → List Text → Option Groups
  unfolding services_at
  group_trees fuel [] = some nil
  group_trees zero (n ∷ ns) = none
  group_trees (suc fuel) (n ∷ ns) =
      let below = group_trees fuel (links groups n) in
      let rest = group_trees (suc fuel) ns in both (tree_at (lookup n groups) below) rest cons

  -- As deep as there are groups.
  unfoldable pub tree_of : GroupConfig → Option Group
  unfolding group_trees
  tree_of g = tree_with g (group_trees (suc (length groups)) g.groups)

  module _ (linked : IsLinked svcs groups) where
    services_at-some :
        (ns : List Text)
        → Within ns (keys svcs)
        → (ss : List ServiceConfig) × (services_at ns ≡ some ss)
    unfolding services_at
    services_at-some [] h = ([], refl)
    services_at-some (n ∷ ns) h =
        let (s, found) = lookup_of_keys n svcs (h n (contains_self n ns)) in
        let (ss, rest) = services_at-some ns (λ k m. h k (contains_tail k n ns m)) in
        (s ∷ ss, rw (found, rest) refl)

    tree_with-some :
        (name : Text) (g : GroupConfig) (gs : Groups)
        → lookup name groups ≡ some g
        → (t : Group) × (tree_with g (some gs) ≡ some t) × (group_info t ≡ info_at g)
    tree_with-some name g gs found =
        let (ss, here) = services_at-some g.services (rw found at (linked.services_in name)) in
        (node (info_at g) ss gs, rw here refl, refl)

    -- What `hasChildCycle` searches to its end without a cycle is a list of trees.
    group_trees-some :
        (parent : Text) (fuel : ℕ) (ns : List Text)
        → Within ns (keys groups)
        → has_child_cycle (links groups) fuel parent ns ≡ some false
        → (gs : Groups) × (group_trees fuel ns ≡ some gs)
    unfolding group_trees has_child_cycle
    group_trees-some parent fuel [] w h = (nil, refl)
    group_trees-some parent zero (n ∷ ns) w h = absurd (cc)
    group_trees-some parent (suc fuel) (n ∷ ns) w h = elim (Bool-cases (text_eq parent n)) [
      | inl e ↦ absurd (some-true-ne-some-false (rw e at h))
      | inr e ↦
          let searched = then_rest-false _ _ (rw e at h) in
          let (g, found) = lookup_of_keys n groups (w n (contains_self n ns)) in
          let (gs, below) =
            group_trees-some parent fuel (links groups n) (linked.groups_in n) searched.0 in
          let (t, tree, _) = tree_with-some n g gs found in
          let (ts, rest) =
            group_trees-some parent (suc fuel) ns (λ k m. w k (contains_tail k n ns m))
              searched.1 in
          (cons t ts, rw (found, below, tree, rest) refl)
    ]

    -- Without a cycle the search for one comes to its end, from each group.
    searched :
        IsAcyclic (links groups)
        → (name : Text)
        → has_child_cycle (links groups) (suc (length groups)) name (links groups name) ≡ some false
    searched acyclic name =
        let n = length-keys groups in
        not_found (has_child_cycle (links groups) (suc (length groups)) name (links groups name))
          (rw (← n) (
            has_child_cycle-ne-none (links groups) (keys groups) name (links-known groups) acyclic
              (links groups name)))
          (λ h. acyclic name (
            to_itself (
              has_child_cycle-Found (links groups) name (suc (length groups)) (links groups name)
                h)))
      where
        not_found : (o : Option Bool) → o ≢ none → (o ≡ some true → ⊥) → o ≡ some false
        not_found o h k = ground arith

        to_itself :
            (c : Text) × (contains c (links groups name) ≡ true)
              × ((name ≡ c) ⊎ Walk (links groups) c name)
            → Walk (links groups) name name
        to_itself (c, m, inl e) = subst (λ x. Walk (links groups) name x) (sym e) (child m)
        to_itself (c, m, inr w) = further m w

    tree_of_linked :
        IsAcyclic (links groups)
        → (name : Text) {g : GroupConfig} → lookup name groups ≡ some g
        → (t : Group) × (tree_of g ≡ some t) × (group_info t ≡ info_at g)
    unfolding tree_of links
    tree_of_linked acyclic name {g} found =
        let (gs, below) =
          group_trees-some name (suc (length groups)) (links groups name) (linked.groups_in name)
            (searched acyclic name) in
        let (t, tree, info) = tree_with-some name g gs found in
        (t, rw (rw found at below) tree, info)

-- In a loaded configuration the pointers below a group form a tree, which goes no deeper than there
-- are groups, and of which every pointer leads to an entry of the maps.
pub tree_of-is_some :
    (fp : FilePath) (goos : Text) (c c' : Config) (name : Text) {g : GroupConfig}
    → init_maps fp goos c ≡ ok c'
    → lookup name c'.group_map ≡ some g
    → (t : Group) × (tree_of c'.service_map c'.group_map g ≡ some t) × (group_info t ≡ info_at g)
tree_of-is_some fp goos c c' name h found =
    tree_of_linked c'.service_map c'.group_map (init_maps-IsLinked fp goos c c' h)
      (init_maps-IsAcyclic fp goos c c' h) name found
