-- ===== src/Config/CommonEnv.antt =====
-- `stringSliceIntersect`, `stringSliceRemoveCommon` and `NewConfig` of config/config.go: what becomes
-- of the environments of the services.
use edward.Base.{
  ℕ, suc, ◌+◌, ◌≤◌, ◌<◌, ◌≡◌, refl, Bool, true, not, ◌&&◌, List, [], ◌∷◌, ◌++◌, map, arith, length,
  all, if◌then◌else◌, ◌==◌, Bool-cases, Option-cases, inl, inr,
}
use edward.Base.Text.{Text, text_eq, text_eq_iff, contains, contains-append}
use edward.Base.Maps.{Map, lookup, put, keys, lookup-put, lookup-none}
use edward.Base.Distinct.{is_nodup}
use edward.Services.{ServiceConfig}
use edward.Groups.{Group}
use edward.Config.{Config}
use edward.Config.Edit.{
  count_of, count_values, count_slices, pick_common, string_slice_intersect,
  string_slice_remove_common, strip_common, envs, add_group_defs, group_def, new_config, config_of,
}

abbrev occurs : Text → List Text → ℕ
occurs v [] = 0
occurs v (x ∷ xs) = let rest = occurs v xs in if text_eq v x then suc rest else rest

abbrev pub occurs_in : Text → List (List Text) → ℕ
occurs_in v [] = 0
occurs_in v (s ∷ ss) = occurs v s + occurs_in v ss

count_of-put :
    (v w : Text) (n : ℕ) (m : Map ℕ)
    → count_of v (put w n m) ≡ (if text_eq v w then n else count_of v m)
unfolding count_of
count_of-put v w n m = ground (arith, lookup-put v w n m)

count_of-count_values :
    (v : Text) (m : Map ℕ) (xs : List Text)
    → count_of v (count_values m xs) ≡ count_of v m + occurs v xs
unfolding count_values
count_of-count_values v m [] = omega arith
count_of-count_values v m (x ∷ xs) = ground (
  arith,
  count_of-count_values v (put x (suc (count_of x m)) m) xs,
  count_of-put v x (suc (count_of x m)) m,
  text_eq_iff v x,
)

count_of-count_slices :
    (v : Text) (m : Map ℕ) (ss : List (List Text))
    → count_of v (count_slices m ss) ≡ count_of v m + occurs_in v ss
unfolding count_slices
count_of-count_slices v m [] = omega arith
count_of-count_slices v m (s ∷ ss) =
    omega (arith, count_of-count_slices v (count_values m s) ss, count_of-count_values v m s)

-- In a slice without repetitions a value occurs at most once.
occurs-nodup :
    (v : Text) (xs : List Text)
    → is_nodup xs ≡ true
    → occurs v xs ≡ (if contains v xs then 1 else 0)
unfolding contains
occurs-nodup v [] h = refl
occurs-nodup v (x ∷ xs) h = ground (arith, occurs-nodup v xs, text_eq_iff v x)

abbrev pub in_each : Text → List (List Text) → Bool
in_each v slices = all (contains v) slices

occurs_in-le :
    (v : Text) (ss : List (List Text)) → all is_nodup ss ≡ true → occurs_in v ss ≤ length ss
occurs_in-le v [] h = omega arith
occurs_in-le v (s ∷ ss) h = ground (arith, occurs-nodup v s, occurs_in-le v ss)

in_each-occurs_in :
    (v : Text) (ss : List (List Text))
    → all is_nodup ss ≡ true
    → in_each v ss ≡ (occurs_in v ss == length ss)
in_each-occurs_in v [] h = ground arith
in_each-occurs_in v (s ∷ ss) h =
    ground (arith, occurs-nodup v s, occurs_in-le v ss, in_each-occurs_in v ss)

contains-pick_common :
    (v : Text) (n : ℕ) (m : Map ℕ) (order : List Text)
    → 0 < n
    → contains v (pick_common n m order) ≡ (contains v order && (count_of v m == n))
unfolding pick_common contains count_of
contains-pick_common v n m [] l = refl
contains-pick_common v n m (x ∷ xs) l = elim (Option-cases (lookup x m)) [
  | inl e ↦ ground (arith, contains-pick_common v n m xs l, text_eq_iff v x)
  | inr (c, e) ↦ ground (arith, contains-pick_common v n m xs l, text_eq_iff v x)
]

contains-remove_common :
    (v : Text) (common xs : List Text)
    → contains v (string_slice_remove_common common xs) ≡ (contains v xs && not (contains v common))
unfolding string_slice_remove_common contains
contains-remove_common v common [] = refl
contains-remove_common v common (x ∷ xs) =
    ground (arith, contains-remove_common v common xs, text_eq_iff v x)

-- Whether `order` visits the keys of the counts, and nothing else.
abbrev pub Visits : List Text → List (List Text) → Type 0
Visits order slices = (v : Text) → contains v order ≡ contains v (keys (count_slices [] slices))

visited :
    (v : Text) (order : List Text) (slices : List (List Text))
    → Visits order slices
    → 0 < occurs_in v slices
    → contains v order ≡ true
unfolding count_of lookup
visited v order slices all_keys l = elim (Bool-cases (contains v (keys (count_slices [] slices)))) [
  | inl e ↦ ground (arith, all_keys v)
  | inr e ↦
      absurd (
        ground (arith, lookup-none v (count_slices [] slices) e, count_of-count_slices v [] slices))
]

count_of-nil : (v : Text) → count_of v [] ≡ 0
unfolding count_of lookup
count_of-nil v = refl

-- Where no slice repeats a value, `stringSliceIntersect` of some slices yields the values that are in
-- each of them, and no others, in whatever order the counts are visited.
pub string_slice_intersect-contains :
    (order s : List Text) (ss : List (List Text)) (v : Text)
    → all is_nodup (s ∷ ss) ≡ true
    → Visits order (s ∷ ss)
    → contains v (string_slice_intersect order (s ∷ ss)) ≡ all (contains v) (s ∷ ss)
unfolding string_slice_intersect
string_slice_intersect-contains order s ss v d all_keys =
    let slices : List (List Text) = s ∷ ss in
    let picked =
      contains-pick_common v (length slices) (count_slices [] slices) order (omega arith) in
    let counted = count_of-count_slices v [] slices in
    let each = in_each-occurs_in v slices d in
    elim (Bool-cases (occurs_in v slices == length slices)) [
      | inl e ↦ ground (
        arith,
        picked,
        counted,
        each,
        count_of-nil v,
        visited v order slices all_keys (ground arith),
      )
      | inr e ↦ ground (arith, picked, counted, each, count_of-nil v)
    ]

-- A service's environment as initMaps makes it of a configuration: its own and the common one.
abbrev pub in_loaded_env : Text → Config → ServiceConfig → Bool
in_loaded_env v c s = contains v (s.env ++ c.env)

abbrev pub in_env : Text → ServiceConfig → Bool
in_env v s = contains v s.env

kept :
    (v : Text) (c : Config) (common : List Text) (ss : List ServiceConfig)
    → c.env ≡ common
    → (contains v common ≡ true → in_each v (envs ss) ≡ true)
    → map (in_loaded_env v c) (map (strip_common common) ss) ≡ map (in_env v) ss
kept v c common [] e h = refl
kept v c common (s ∷ ss) e h =
    let head : in_loaded_env v c (strip_common common s) ≡ in_env v s = ground (
      arith,
      contains-append v (string_slice_remove_common common s.env) c.env,
      contains-remove_common v common s.env,
      h,
    ) in
    let tail : map (in_loaded_env v c) (map (strip_common common) ss) ≡ map (in_env v) ss =
      kept v c common ss e (λ m. ground (arith, h m)) in
    cc

same_env : (gs : List Group) (c : Config) → (add_group_defs gs c).env ≡ c.env
unfolding add_group_defs
same_env [] c = refl
same_env (g ∷ gs) c = same_env gs (record c { groups = c.groups ++ group_def g ∷ [] })

same_services : (gs : List Group) (c : Config) → (add_group_defs gs c).services ≡ c.services
unfolding add_group_defs
same_services [] c = refl
same_services (g ∷ gs) c = same_services gs (record c { groups = c.groups ++ group_def g ∷ [] })

common_in_each :
    (order : List Text) (ss : List ServiceConfig) (v : Text)
    → all is_nodup (envs ss) ≡ true
    → Visits order (envs ss)
    → contains v (string_slice_intersect order (envs ss)) ≡ true
    → in_each v (envs ss) ≡ true
common_in_each order [] v d all_keys m = refl
common_in_each order (s ∷ ss) v d all_keys m =
    ground (arith, string_slice_intersect-contains order s.env (envs ss) v d all_keys)

-- `NewConfig` keeps each service's environment: where no service repeats an entry, a service has,
-- together with the common environment of the configuration, exactly the entries that it had.
pub new_config-in_env :
    (order : List Text) (ss : List ServiceConfig) (gs : List Group) (v : Text)
    → all is_nodup (envs ss) ≡ true
    → Visits order (envs ss)
    → map (in_loaded_env v (new_config order ss gs)) (new_config order ss gs).services
      ≡ map (in_env v) ss
unfolding new_config
new_config-in_env order ss gs v d all_keys =
    let env = string_slice_intersect order (envs ss) in
    let c : Config = config_of [] env (map (strip_common env) ss) in
    let shared : (new_config order ss gs).env ≡ env = same_env gs c in
    let stripped : (new_config order ss gs).services ≡ map (strip_common env) ss =
      same_services gs c in
    rw stripped
      (kept v (new_config order ss gs) env ss shared (common_in_each order ss v d all_keys))
