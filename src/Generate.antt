-- ===== src/Generate.antt =====
-- edward/generate.go: how `edward generate` puts what the generators found into a configuration. The
-- generators' findings are an argument here, and so is the user's answer; Generate.Command has the whole
-- of the command.
pub mod Command
mod CommandSamples
pub mod Whole
pub mod Written
mod Samples
use edward.Base.{
  Bool, true, false, not, ◌&&◌, Option, none, some, List, [], ◌∷◌, ◌++◌, Result, ok, err, ◌>>=◌,
  if◌then◌else◌,
}
use edward.Base.Text.{Text, text_eq, contains}
use edward.Base.Maps.{Map, lookup}
use edward.Services.{ServiceConfig}
use edward.Groups.{Group, group_info}
use edward.Config.{Config, GroupDef, GroupConfig, FilePath, add_name}
use edward.Config.Edit.{
  EditError, normalize_service_paths, append_services, add_group_defs, remove_group,
}

pub record Found : Type 0 where
  pub services : List ServiceConfig
  pub groups : List Group
  pub imports : List Text

pub data GenerateError : Type 0 where
  duplicate_names : List Text → GenerateError
  edit_error : EditError → GenerateError

pub data Generated : Type 0 where
  nothing_found : Generated
  nothing_new : Generated
  not_confirmed : Generated
  written : Config → Generated

abbrev pub is_key : {V : Type 0} → Text → Map V → Bool
is_key k m = elim (lookup k m) [ none ↦ false | some v ↦ true ]

-- `findDuplicates`; the order of its result, that of a Go map, is that of the names here.
unfoldable pub scan_names : List Text → List Text → List Text → List Text
unfolding contains add_name
scan_names found duplicates [] = duplicates
scan_names found duplicates (name ∷ names) =
    scan_names (add_name name found)
      (if contains name found then add_name name duplicates else duplicates) names

unfoldable pub find_duplicates : List Text → List Text
unfolding scan_names
find_duplicates names = scan_names [] [] names

-- The three loops of `filterGenerated`.
unfoldable pub new_services : Config → List ServiceConfig → List Text
unfolding lookup
new_services c [] = []
new_services c (s ∷ ss) =
    let rest = new_services c ss in if is_key s.name c.service_map then rest else s.name ∷ rest

unfoldable pub new_groups : Config → List Group → List Text
unfolding lookup
new_groups c [] = []
new_groups c (g ∷ gs) =
    let rest = new_groups c gs in
    if is_key (group_info g).name c.group_map then rest else (group_info g).name ∷ rest

unfoldable pub new_imports : Config → List Text → List Text
unfolding contains
new_imports c [] = []
new_imports c (i ∷ is) =
    let rest = new_imports c is in if contains i c.imports then rest else i ∷ rest

abbrev pub is_empty : {A : Type 0} → List A → Bool
is_empty [] = true
is_empty (x ∷ xs) = false

-- The names that a map has an object for: a missing one reads as nil, which `AddGroups` leaves out.
unfoldable pub present : {V : Type 0} → Map V → List Text → List Text
unfolding lookup
present m [] = []
present m (n ∷ ns) = let rest = present m ns in if is_key n m then n ∷ rest else rest

-- What `AppendGroups` makes of the group that the user named, with the new children at their ends.
unfoldable pub regrouped : Text → List Text → List Text → Option GroupConfig → GroupDef
regrouped name services groups none = record {
  name = name;
  aliases = [];
  description = [];
  children = groups ++ services;
  env = [];
}
regrouped name services groups (some g) = record {
  name = g.name;
  aliases = g.aliases;
  description = g.description;
  children = (g.groups ++ groups) ++ (g.services ++ services);
  env = g.env;
}

abbrev pub as_edit : {V : Type 0} → Result EditError V → Result GenerateError V
as_edit (ok v) = ok v
as_edit (err e) = err (edit_error e)

abbrev pub drop_existing : Text → Config → Option GroupConfig → Result GenerateError Config
drop_existing name c none = ok c
drop_existing name c (some g) = as_edit (remove_group name c)

-- `if len(group) > 0`
unfoldable pub put_in_group : Text → List Text → List Text → Config → Result GenerateError Config
unfolding lookup remove_group present regrouped
put_in_group [] services groups c = ok c
put_in_group (x ∷ xs) services groups c = do
  c' ← drop_existing (x ∷ xs) c (lookup (x ∷ xs) c.group_map)
  ok (record c' {
    groups =
        c'.groups
        ++ regrouped (x ∷ xs) (present c.service_map services) (present c'.group_map groups)
            (lookup (x ∷ xs) c.group_map)
          ∷ [];
  })

abbrev pub check_duplicates : List Text → Result GenerateError Unit
check_duplicates [] = ok tt
check_duplicates (n ∷ ns) = err (duplicate_names (n ∷ ns))

abbrev pub is_nothing : Found → Bool
is_nothing f = (is_empty f.services && is_empty f.groups) && is_empty f.imports

abbrev pub is_nothing_new : Config → Found → Bool
is_nothing_new c f =
    (is_empty (new_services c f.services) && is_empty (new_groups c f.groups))
    && is_empty (new_imports c f.imports)

module _ (fp : FilePath) (wd : Text) (group : Text) where
  -- What follows the checks, up to writing the file.
  unfoldable pub put_found : Config → Found → List Text → List Text → Result GenerateError Config
  unfolding normalize_service_paths append_services add_group_defs put_in_group
  put_found c f services groups = do
    ss ← as_edit (normalize_service_paths fp c.working_dir wd f.services)
    c' ← put_in_group group services groups (add_group_defs f.groups (append_services c ss))
    ok (record c' { imports = c'.imports ++ f.imports })

  abbrev pub confirmed_found : Bool → Config → Found → Result GenerateError Generated
  confirmed_found false c f = ok not_confirmed
  confirmed_found true c f =
      put_found c f (new_services c f.services) (new_groups c f.groups) >>= λ c'. ok (written c')

  abbrev pub checked : Bool → Config → Found → Result GenerateError Generated
  checked confirmed c f =
      check_duplicates (find_duplicates (new_services c f.services ++ new_groups c f.groups))
      >>= λ _. confirmed_found confirmed c f

  abbrev pub any_new : Bool → Config → Found → Result GenerateError Generated
  any_new confirmed c f = if is_nothing_new c f then ok nothing_new else checked confirmed c f

  -- `Generate`, from the loaded or empty configuration on.
  unfoldable pub generate : Bool → Config → Found → Result GenerateError Generated
  unfolding new_services new_groups new_imports find_duplicates put_found
  generate confirmed c f = if is_nothing f then ok nothing_found else any_new confirmed c f
