-- ===== src/Generate/Written.antt =====
-- What `Generate` of edward/generate.go writes.
use edward.Base.{
  ◌≡◌, refl, sym, ap, ◌∙◌, Bool, true, false, not, ◌&&◌, ◌||◌, Option, none, some, List, [], ◌∷◌,
  ◌++◌, all, arith, Result, ok, err, bind-ok, ok_injective, if◌then◌else◌, Bool-cases, inl, inr,
  ◌⊎◌,
}
use edward.Base.Text.{Text, text_eq_iff, contains}
use edward.Base.Maps.{lookup, keys}
use edward.Base.Distinct.{is_nodup}
use edward.Services.{ServiceConfig}
use edward.Groups.{Group}
use edward.Config.{Config, GroupConfig, FilePath, add_name}
use edward.Config.Edit.{
  EditError, rel_error, normalize_path, normalize_service_paths, append_services, add_group_defs,
  group_def, remove_group, remove_found, service_names,
}
use edward.Config.Claims.{contains-add_name}
use edward.Config.Appends.{append_services-names}
use edward.Generate.{
  Found, GenerateError, Generated, nothing_found, nothing_new, written, scan_names, find_duplicates,
  is_empty, as_edit, put_in_group, drop_existing, put_found, confirmed_found, is_nothing,
  is_nothing_new, any_new, checked, check_duplicates, generate, new_services, new_groups,
}

add_name-ne_nil : (n : Text) (xs : List Text) → is_empty (add_name n xs) ≡ false
unfolding add_name contains
add_name-ne_nil n [] = refl
add_name-ne_nil n (x ∷ xs) = elim (Bool-cases (contains n (x ∷ xs))) [ inl e ↦ rw e | inr e ↦ rw e ]

all_fresh :
    (n : Text) (found ns : List Text)
    → all (λ m. not (contains m (add_name n found))) ns
      ≡ (not (contains n ns) && all (λ m. not (contains m found)) ns)
unfolding contains
all_fresh n found [] = refl
all_fresh n found (m ∷ ns) =
    ground
      (arith, all_fresh n found ns, contains-add_name m n found, text_eq_iff m n, text_eq_iff n m)

scan_names-empty :
    (found dups names : List Text)
    → is_empty (scan_names found dups names)
      ≡ (is_empty dups && (is_nodup names && all (λ n. not (contains n found)) names))
unfolding scan_names
scan_names-empty found dups [] = ground arith
scan_names-empty found dups (n ∷ ns) = elim (Bool-cases (contains n found)) [
  | inl e ↦ rw e (
      ground
        (arith, scan_names-empty (add_name n found) (add_name n dups) ns, add_name-ne_nil n dups))
  | inr e ↦ rw e (ground (arith, scan_names-empty (add_name n found) dups ns, all_fresh n found ns))
]

none_found : (ns : List Text) → all (λ n. not (contains n [])) ns ≡ true
unfolding contains
none_found [] = refl
none_found (n ∷ ns) = none_found ns

-- `findDuplicates` finds nothing exactly when no name is repeated.
pub find_duplicates-is_nodup :
    (names : List Text) → is_empty (find_duplicates names) ≡ is_nodup names
unfolding find_duplicates contains
find_duplicates-is_nodup names = scan_names-empty [] [] names ∙ ground (arith, none_found names)

abbrev SameServices : Config → Config → Type 0
SameServices c c' = (c'.services ≡ c.services) × (c'.service_map ≡ c.service_map)

add_group_defs-SameServices : (gs : List Group) (c : Config) → SameServices c (add_group_defs gs c)
unfolding add_group_defs
add_group_defs-SameServices [] c = (refl, refl)
add_group_defs-SameServices (g ∷ gs) c =
    add_group_defs-SameServices gs (record c { groups = c.groups ++ group_def g ∷ [] })

drop_existing-SameServices :
    (name : Text) (c : Config) (o : Option GroupConfig) {c' : Config}
    → drop_existing name c o ≡ ok c'
    → SameServices c c'
unfolding remove_group
drop_existing-SameServices name c none h =
    let e = ok_injective h in (sym (ap (λ x. x.services) e), sym (ap (λ x. x.service_map) e))
drop_existing-SameServices name c (some g) {c'} h = removed (lookup name c.group_map) h
  where
    removed : (o : Option GroupConfig) → as_edit (remove_found name c o) ≡ ok c' → SameServices c c'
    removed none h' = cc
    removed (some w) h' =
        let e = ok_injective h' in (sym (ap (λ x. x.services) e), sym (ap (λ x. x.service_map) e))

put_in_group-SameServices :
    (name : Text) (ss gs : List Text) (c : Config) {c' : Config}
    → put_in_group name ss gs c ≡ ok c'
    → SameServices c c'
unfolding put_in_group
put_in_group-SameServices [] ss gs c h =
    let e = ok_injective h in (sym (ap (λ x. x.services) e), sym (ap (λ x. x.service_map) e))
put_in_group-SameServices (x ∷ xs) ss gs c h =
    let (c', e, h') = bind-ok (drop_existing (x ∷ xs) c (lookup (x ∷ xs) c.group_map)) _ h in
    let same = drop_existing-SameServices (x ∷ xs) c (lookup (x ∷ xs) c.group_map) e in
    let e' = ok_injective h' in
    (sym (ap (λ y. y.services) e') ∙ same.0, sym (ap (λ y. y.service_map) e') ∙ same.1)

normalize-name :
    (fp : FilePath) (dir search : Text) (s : ServiceConfig) (p : Option Text) {s' : ServiceConfig}
    → normalize_path fp dir search s p ≡ ok s'
    → s'.name ≡ s.name
unfolding normalize_path
normalize-name fp dir search s none h = cc
normalize-name fp dir search s (some p) {s'} h = relative (fp.rel dir (fp.join search p)) h
  where
    relative :
        (r : Result Text Text)
        → ◌≡◌ {A = Result EditError ServiceConfig}
            (elim r [ ok q ↦ ok (record s { path = some q }) | err e ↦ err (rel_error e) ])
            (ok s')
        → s'.name ≡ s.name
    relative (ok q) h' = sym (ap (λ x. x.name) (ok_injective h'))
    relative (err e) h' = cc

normalize-names :
    (fp : FilePath) (dir search : Text) (ss : List ServiceConfig) {ss' : List ServiceConfig}
    → normalize_service_paths fp dir search ss ≡ ok ss'
    → service_names ss' ≡ service_names ss
unfolding normalize_service_paths
normalize-names fp dir search [] h = sym (ap service_names (ok_injective h))
normalize-names fp dir search (s ∷ ss) h =
    let (s', e, h') = bind-ok (normalize_path fp dir search s s.path) _ h in
    let (rest, e', h'') = bind-ok (normalize_service_paths fp dir search ss) _ h' in
    let first = normalize-name fp dir search s s.path e in
    let others = normalize-names fp dir search ss e' in
    sym (ap service_names (ok_injective h'')) ∙ cc

as_edit-ok : {V : Type 0} (r : Result EditError V) {v : V} → as_edit r ≡ ok v → r ≡ ok v
as_edit-ok (ok v) h = cc
as_edit-ok (err e) h = cc

otherwise :
    (b : Bool) (first : Generated) (rest : Result GenerateError Generated) {last : Generated}
    → (if b then ok first else rest) ≡ ok last
    → (first ≡ last) ⊎ (rest ≡ ok last)
otherwise true first rest h = inl (ok_injective h)
otherwise false first rest h = inr h

module _ (fp : FilePath) (wd group : Text) where
  confirmed-put_found :
      (confirmed : Bool) (c : Config) (f : Found) {c' : Config}
      → confirmed_found fp wd group confirmed c f ≡ ok (written c')
      → put_found fp wd group c f (new_services c f.services) (new_groups c f.groups) ≡ ok c'
  confirmed-put_found false c f h = cc
  confirmed-put_found true c f h =
      let (c', e, h') =
        bind-ok (put_found fp wd group c f (new_services c f.services) (new_groups c f.groups)) _
          h in
      cc

  -- What the configuration that is written came from.
  generate-put_found :
      (confirmed : Bool) (c : Config) (f : Found) {c' : Config}
      → generate fp wd group confirmed c f ≡ ok (written c')
      → put_found fp wd group c f (new_services c f.services) (new_groups c f.groups) ≡ ok c'
  unfolding generate
  generate-put_found confirmed c f h =
      elim (otherwise (is_nothing f) nothing_found (any_new fp wd group confirmed c f) h) [
        | inl e ↦ cc
        | inr k ↦
            elim (otherwise (is_nothing_new c f) nothing_new (checked fp wd group confirmed c f)
              k) [
                | inl e ↦ cc
                | inr l ↦
                    let (u, free, m) =
                      bind-ok
                        (check_duplicates
                          (find_duplicates (new_services c f.services ++ new_groups c f.groups)))
                        (λ _. confirmed_found fp wd group confirmed c f) l in
                    confirmed-put_found confirmed c f m
              ]
      ]

  module _ (confirmed : Bool) (c : Config) (f : Found) (c' : Config)
      (done : generate fp wd group confirmed c f ≡ ok (written c')) where
    abbrev Origin : Type 0
    Origin =
        (ss : List ServiceConfig) × (service_names ss ≡ service_names f.services)
        × SameServices (append_services c ss) c'

    parts : Origin
    unfolding put_found
    parts =
        let (ss, e, h) =
          bind-ok (as_edit (normalize_service_paths fp c.working_dir wd f.services)) _
            (generate-put_found confirmed c f done) in
        let (d, e', h') =
          bind-ok
            (put_in_group group (new_services c f.services) (new_groups c f.groups)
              (add_group_defs f.groups (append_services c ss)))
            _ h in
        let (a, b) = add_group_defs-SameServices f.groups (append_services c ss) in
        let (a', b') =
          put_in_group-SameServices group (new_services c f.services) (new_groups c f.groups)
            (add_group_defs f.groups (append_services c ss)) e' in
        let e'' = ok_injective h' in
        (
          ss,
          normalize-names fp c.working_dir wd f.services
              (as_edit-ok (normalize_service_paths fp c.working_dir wd f.services) e),
          (sym (ap (λ x. x.services) e'') ∙ (a' ∙ a), sym (ap (λ x. x.service_map) e'') ∙ (b' ∙ b)),
        )

    -- The services that `Generate` writes to the file have the names of those that the file had and, of
    -- those that were found, of the ones that the loaded configuration did not know, and no others.
    pub generate-services :
        (k : Text)
        → contains k (service_names c'.services) ≡ (
            contains k (service_names c.services)
            || (contains k (service_names f.services) && not (contains k (keys c.service_map))))
    generate-services k =
        let (ss, names, (same, same_map)) = parts in
        ap (λ ss. contains k (service_names ss)) same
        ∙ (append_services-names k c ss
            ∙ ap
                (λ ns.
                  contains k (service_names c.services)
                  || (contains k ns && not (contains k (keys c.service_map))))
                names)
