-- ===== src/Config/Appends.antt =====
-- `AppendServices` and `RemoveGroup` of config/config.go.
use edward.Base.{
  ◌≡◌, refl, sym, ap, ◌∙◌, true, false, not, ◌&&◌, ◌||◌, Option, none, some, List, [], ◌∷◌, ◌++◌,
  arith, if◌then◌else◌, Option-cases, inl, inr, append-nil, append_assoc, ok, ok_injective,
}
use edward.Base.Text.{Text, text_eq, text_eq_iff, contains, contains-append}
use edward.Base.Maps.{Map, lookup, put, keys, contains-keys_of_lookup, lookup-remove}
use edward.Base.Distinct.{is_nodup}
use edward.Services.{ServiceConfig}
use edward.Config.{Config, GroupDef, GroupConfig}
use edward.Config.Edit.{
  service_names, append_if_new, append_service, append_services, without_group, remove_group,
  remove_found,
}

-- No two services share a name, and each stands in the map under its name.
pub record IsSynced (c : Config) : Type 0 where
  pub nodup : is_nodup (service_names c.services) ≡ true
  pub mapped :
      (n : Text)
      → contains n (service_names c.services) ≡ true
      → contains n (keys c.service_map) ≡ true

service_names-append :
    (xs : List ServiceConfig) (s : ServiceConfig)
    → service_names (xs ++ s ∷ []) ≡ service_names xs ++ s.name ∷ []
service_names-append [] s = refl
service_names-append (x ∷ xs) s = ap (λ r. x.name ∷ r) (service_names-append xs s)

is_nodup-append :
    (xs : List Text) (n : Text)
    → is_nodup xs ≡ true
    → contains n xs ≡ false
    → is_nodup (xs ++ n ∷ []) ≡ true
unfolding contains
is_nodup-append [] n d h = refl
is_nodup-append (x ∷ xs) n d h =
    ground
      (arith, is_nodup-append xs n, contains-append x xs (n ∷ []), text_eq_iff x n, text_eq_iff n x)

contains-keys-put :
    {V : Type 0} (k n : Text) (v : V) (m : Map V)
    → contains k (keys (put n v m)) ≡ (text_eq k n || contains k (keys m))
unfolding put contains
contains-keys-put k n v [] = ground arith
contains-keys-put k n v ((j, w) ∷ m) =
    ground (arith, contains-keys-put k n v m, text_eq_iff n j, text_eq_iff k n, text_eq_iff k j)

not-mapped : {V : Type 0} (k : Text) (m : Map V) → lookup k m ≡ none → contains k (keys m) ≡ false
unfolding lookup contains
not-mapped k [] h = refl
not-mapped k ((j, w) ∷ m) h = ground (arith, not-mapped k m)

append_service-some :
    (c : Config) (s w : ServiceConfig)
    → lookup s.name c.service_map ≡ some w
    → append_service c s ≡ c
unfolding append_service
append_service-some c s w e = ap (append_if_new c s) e

append_service-none :
    (c : Config) (s : ServiceConfig)
    → lookup s.name c.service_map ≡ none
    → append_service c s
      ≡ record c { service_map = put s.name s c.service_map; services = c.services ++ s ∷ [] }
unfolding append_service
append_service-none c s e = ap (append_if_new c s) e

append_service-IsSynced :
    (c : Config) (s : ServiceConfig) → IsSynced c → IsSynced (append_service c s)
unfolding contains
append_service-IsSynced c s v = elim (Option-cases (lookup s.name c.service_map)) [
  | inl e ↦ rw (append_service-none c s e) record {
    nodup = rw (service_names-append c.services s) (
        is_nodup-append (service_names c.services) s.name v.nodup
          (ground (arith, v.mapped s.name, not-mapped s.name c.service_map e)));
    mapped = λ n m. ground (
      arith,
      service_names-append c.services s,
      contains-append n (service_names c.services) (s.name ∷ []),
      contains-keys-put n s.name s c.service_map,
      v.mapped n,
    );
  }
  | inr (w, e) ↦ rw (append_service-some c s w e) v
]

append_services_keep :
    (c : Config) (ss : List ServiceConfig) → IsSynced c → IsSynced (append_services c ss)
unfolding append_services
append_services_keep c [] v = v
append_services_keep c (s ∷ ss) v =
    append_services_keep (append_service c s) ss (append_service-IsSynced c s v)

-- `AppendServices` never gives two services one name, and keeps each service in the map under its
-- name, in a configuration where this holds.
pub append_services-IsSynced :
    (c : Config) (ss : List ServiceConfig) → IsSynced c → IsSynced (append_services c ss)
append_services-IsSynced = append_services_keep

append_service-keys :
    (k : Text) (c : Config) (s : ServiceConfig)
    → contains k (keys (append_service c s).service_map)
      ≡ (text_eq k s.name || contains k (keys c.service_map))
append_service-keys k c s = elim (Option-cases (lookup s.name c.service_map)) [
  | inl e ↦ rw (append_service-none c s e) (contains-keys-put k s.name s c.service_map)
  | inr (w, e) ↦
      rw (append_service-some c s w e)
        (ground (arith, contains-keys_of_lookup s.name c.service_map e, text_eq_iff k s.name))
]

append_service-names :
    (k : Text) (c : Config) (s : ServiceConfig)
    → contains k (service_names (append_service c s).services) ≡ (
        contains k (service_names c.services)
        || (text_eq k s.name && not (contains k (keys c.service_map))))
unfolding contains
append_service-names k c s = elim (Option-cases (lookup s.name c.service_map)) [
  | inl e ↦ rw (append_service-none c s e) (
      ground (
        arith,
        service_names-append c.services s,
        contains-append k (service_names c.services) (s.name ∷ []),
        not-mapped s.name c.service_map e,
        text_eq_iff k s.name,
      ))
  | inr (w, e) ↦
      rw (append_service-some c s w e)
        (ground (arith, contains-keys_of_lookup s.name c.service_map e, text_eq_iff k s.name))
]

-- After `AppendServices` the services that are written have the names they had, and those of the new
-- services that were not in the map.
pub append_services-names :
    (k : Text) (c : Config) (ss : List ServiceConfig)
    → contains k (service_names (append_services c ss).services) ≡ (
        contains k (service_names c.services)
        || (contains k (service_names ss) && not (contains k (keys c.service_map))))
unfolding append_services contains
append_services-names k c [] = ground arith
append_services-names k c (s ∷ ss) = ground (
  arith,
  append_services-names k (append_service c s) ss,
  append_service-names k c s,
  append_service-keys k c s,
)

append_service-services :
    (c : Config) (s : ServiceConfig)
    → (more : List ServiceConfig) × ((append_service c s).services ≡ c.services ++ more)
append_service-services c s = elim (Option-cases (lookup s.name c.service_map)) [
  | inl e ↦ rw (append_service-none c s e) (s ∷ [], refl)
  | inr (w, e) ↦ rw (append_service-some c s w e) ([], sym (append-nil c.services))
]

-- `AppendServices` leaves the services that are there as they are, and puts others after them.
pub append_services-services :
    (c : Config) (ss : List ServiceConfig)
    → (more : List ServiceConfig) × ((append_services c ss).services ≡ c.services ++ more)
unfolding append_services
append_services-services c [] = ([], sym (append-nil c.services))
append_services-services c (s ∷ ss) =
    let (first, e) = append_service-services c s in
    let (rest, e') = append_services-services (append_service c s) ss in
    (first ++ rest, e' ∙ (ap (λ x. x ++ rest) e ∙ append_assoc c.services first rest))

abbrev pub def_names : List GroupDef → List Text
def_names [] = []
def_names (g ∷ gs) = g.name ∷ def_names gs

contains-without_group :
    (k name : Text) (gs : List GroupDef)
    → contains k (def_names (without_group name gs))
      ≡ (not (text_eq name k) && contains k (def_names gs))
unfolding without_group contains
contains-without_group k name [] = ground arith
contains-without_group k name (g ∷ gs) = ground (
  arith,
  contains-without_group k name gs,
  text_eq_iff g.name name,
  text_eq_iff k g.name,
  text_eq_iff name k,
)

-- `RemoveGroup` of a group that is loaded removes its definitions and its entry of the map, and leaves
-- the names and the entries of all others.
pub remove_group-def_names :
    (name : Text) (c c' : Config) (k : Text)
    → remove_group name c ≡ ok c'
    → (contains k (def_names c'.groups) ≡ (not (text_eq name k) && contains k (def_names c.groups)))
      × (lookup k c'.group_map ≡ (if text_eq name k then none else lookup k c.group_map))
unfolding remove_group
remove_group-def_names name c c' k h = found (lookup name c.group_map) h
  where
    found :
        (o : Option GroupConfig)
        → remove_found name c o ≡ ok c'
        → (contains k (def_names c'.groups)
            ≡ (not (text_eq name k) && contains k (def_names c.groups)))
          × (lookup k c'.group_map ≡ (if text_eq name k then none else lookup k c.group_map))
    found none h' = cc
    found (some g) h' =
        let e = ok_injective h' in
        (
          sym (ap (λ x. contains k (def_names x.groups)) e)
              ∙ contains-without_group k name c.groups,
          sym (ap (λ x. lookup k x.group_map) e) ∙ lookup-remove k name c.group_map,
        )
