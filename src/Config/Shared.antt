-- ===== src/Config/Shared.antt =====
-- config/shared.go: the maps of the loaded configuration, and finding services and groups in them.
-- A `range` over a map visits its keys in an order that Go leaves open: it is an argument.
use edward.Base.{ℕ, Bool, Option, none, some, List, [], ◌∷◌, Result, ok, err, ◌>>=◌, if◌then◌else◌}
use edward.Base.Text.{Text}
use edward.Base.Maps.{Map, lookup, keys}
use edward.Base.Sort.{sort_by}
use edward.Services.{ServiceConfig, matches}
use edward.Config.{GroupConfig, Config, LoadError, no_config_file, unknown_name}
use edward.Config.Load.{Machine, load_config}

pub record Shared : Type 0 where
  pub base_path : Text
  pub group_map : Map GroupConfig
  pub service_map : Map ServiceConfig

pub data ServiceOrGroup : Type 0 where
  service : ServiceConfig → ServiceOrGroup
  group : GroupConfig → ServiceOrGroup

-- `InitEmptyConfig` leaves the base path alone.
unfoldable pub init_empty_config : Shared → Shared
init_empty_config sh = record sh { group_map = []; service_map = [] }

abbrev pub store_config : Shared → Result LoadError Config → Shared × Result LoadError Unit
store_config sh (ok c) = (record sh { service_map = c.service_map; group_map = c.group_map }, ok tt)
store_config sh (err e) = (sh, err e)

-- `LoadSharedConfig`
unfoldable pub load_shared_config :
    Machine → ℕ → Text → Text → Shared → Shared × Result LoadError Unit
unfolding init_empty_config
load_shared_config m fuel [] version sh = (init_empty_config sh, err no_config_file)
load_shared_config m fuel (p ∷ ps) version sh =
    store_config (record (init_empty_config sh) { base_path = m.paths.dir (p ∷ ps) })
      (load_config m fuel (p ∷ ps) version)

-- `for _, x := range m { if x.Matches(name) { return x } }`
unfoldable pub find_match {ℓ} : {V : Type ℓ} → (V → Bool) → Map V → List Text → Option V
find_match test m [] = none
find_match test m (k ∷ ks) =
    let rest = find_match test m ks in
    elim (lookup k m) [ none ↦ rest | some v ↦ if test v then some v else rest ]

abbrev pub group_matches : Text → GroupConfig → Bool
group_matches name g = matches g.name g.aliases name

abbrev pub service_matches : Text → ServiceConfig → Bool
service_matches name s = matches s.name s.aliases name

-- The orders in which the loops visit the groups and the services.
pub record RangeOrder : Type 0 where
  pub of_groups : List Text
  pub of_services : List Text

abbrev pub or_else {ℓ} : {A B : Type ℓ} → Option A → (A → B) → B → B
or_else none f b = b
or_else (some a) f b = f a

unfoldable pub get_service_or_group : RangeOrder → Shared → Text → Result LoadError ServiceOrGroup
unfolding find_match
get_service_or_group order sh name =
    or_else (lookup name sh.group_map) (λ g. ok (group g))
      (or_else (lookup name sh.service_map) (λ s. ok (service s))
        (or_else (find_match (group_matches name) sh.group_map order.of_groups) (λ g. ok (group g))
          (or_else (find_match (service_matches name) sh.service_map order.of_services)
            (λ s. ok (service s)) (err (unknown_name name)))))

unfoldable pub get_services_or_groups :
    RangeOrder → Shared → List Text → Result LoadError (List ServiceOrGroup)
unfolding get_service_or_group
get_services_or_groups order sh [] = ok []
get_services_or_groups order sh (name ∷ names) = do
  sg ← get_service_or_group order sh name
  sgs ← get_services_or_groups order sh names
  ok (sg ∷ sgs)

abbrev pub get_name : ServiceOrGroup → Text
get_name (service s) = s.name
get_name (group g) = g.name

abbrev pub values {ℓ} : {V : Type ℓ} → Map V → List V
values [] = []
values ((k, v) ∷ m) = v ∷ values m

abbrev pub as_services : List ServiceConfig → List ServiceOrGroup
as_services [] = []
as_services (s ∷ ss) = service s ∷ as_services ss

abbrev pub as_groups : List GroupConfig → List ServiceOrGroup
as_groups [] = []
as_groups (g ∷ gs) = group g ∷ as_groups gs

-- `GetAllServiceNames`, `GetAllGroupNames`
unfoldable pub get_all_service_names : Shared → List Text
get_all_service_names sh = keys sh.service_map

unfoldable pub get_all_group_names : Shared → List Text
get_all_group_names sh = keys sh.group_map

-- `GetAllServicesSorted`, `GetAllGroupsSorted`
unfoldable pub get_all_services_sorted : Shared → List ServiceOrGroup
unfolding sort_by
get_all_services_sorted sh = sort_by get_name (as_services (values sh.service_map))

unfoldable pub get_all_groups_sorted : Shared → List ServiceOrGroup
unfolding sort_by
get_all_groups_sorted sh = sort_by get_name (as_groups (values sh.group_map))
