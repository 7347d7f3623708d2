-- ===== src/Config/Imports.antt =====
-- Which services and groups the imports of a configuration file bring in.
use edward.Base.{
  ℕ, zero, suc, ◌≡◌, sym, ap, ◌∙◌, List, [], ◌∷◌, ◌++◌, append-nil, append_assoc, arith, Result, ok,
  err, bind-ok, ok_injective,
}
use edward.Base.Text.{Text}
use edward.Services.{ServiceConfig}
use edward.Config.{Config, LoadError}
use edward.Config.Load.{Machine, import_path, import_config, decoded, load_imports, load_contents}

module _ (m : Machine) where
  open m use {decode}

  abbrev services_in : Result Text Config → List ServiceConfig
  services_in (ok c) = c.services
  services_in (err e) = []

  -- The services that the files of a list of imports define themselves.
  abbrev pub direct_services : Text → List Text → List ServiceConfig
  direct_services working_dir [] = []
  direct_services working_dir (i ∷ is) =
      services_in (decode (import_path m working_dir i)) ++ direct_services working_dir is

  services_in-decoded :
      (o : Result Text Config) {c : Config} → decoded o ≡ ok c → services_in o ≡ c.services
  services_in-decoded (ok c) h = ap (λ x. x.services) (ok_injective h)
  services_in-decoded (err e) h = cc

  load_imports-services :
      (load : Text → Text → Result LoadError Config) (c : Config) (is : List Text) {r : Config}
      → load_imports m load c is ≡ ok r
      → r.services ≡ c.services
  unfolding load_imports import_config
  load_imports-services load c [] h = ground arith
  load_imports-services load c (i ∷ is) h =
      let (cfg, loaded, rest) = bind-ok (load (import_path m c.working_dir i) _) _ h in
      load_imports-services load (import_config c cfg) is rest

  load_contents-services :
      (fuel : ℕ) (path wd : Text) {r : Config}
      → load_contents m fuel path wd ≡ ok r
      → r.services ≡ services_in (decode path)
  unfolding load_contents
  load_contents-services zero path wd h = absurd (cc)
  load_contents-services (suc fuel) path wd h =
      let (c, e, rest) = bind-ok (decoded (decode path)) _ h in
      load_imports-services (load_contents m fuel) (record c { working_dir = wd }) c.imports rest
      ∙ sym (services_in-decoded (decode path) e)

  load_imports-direct :
      (fuel : ℕ) (c : Config) (is : List Text) {r : Config}
      → load_imports m (load_contents m fuel) c is ≡ ok r
      → r.imported_services ≡ c.imported_services ++ direct_services c.working_dir is
  unfolding load_imports import_config
  load_imports-direct fuel c [] {r} h =
      let e : c ≡ r = ok_injective h in ap (λ x. x.imported_services) (sym e) ∙ sym (append-nil _)
  load_imports-direct fuel c (i ∷ is) h =
      let (cfg, loaded, rest) =
        bind-ok (load_contents m fuel (import_path m c.working_dir i) _) _ h in
      load_imports-direct fuel (import_config c cfg) is rest
      ∙ ap (λ x. (c.imported_services ++ x) ++ direct_services c.working_dir is)
          (load_contents-services fuel (import_path m c.working_dir i) _ loaded)
      ∙ append_assoc c.imported_services _ (direct_services c.working_dir is)

  -- The services that a configuration file imports are those that the files of its own list of
  -- imports define themselves, in the order of that list: what those files import in turn is left
  -- out. A decoded file has no imported services of its own.
  pub load_contents-imported_services :
      (fuel : ℕ) (path wd : Text) (c r : Config)
      → decode path ≡ ok c
      → c.imported_services ≡ []
      → load_contents m (suc fuel) path wd ≡ ok r
      → r.imported_services ≡ direct_services wd c.imports
  unfolding load_contents
  load_contents-imported_services fuel path wd c r read none_yet h =
      let (c', e, rest) = bind-ok (decoded (decode path)) _ h in
      let same : c' ≡ c = ok_injective (sym e ∙ ap decoded read) in
      load_imports-direct fuel (record c' { working_dir = wd }) c'.imports rest
      ∙ ap (λ x. x.imported_services ++ direct_services wd x.imports) same
      ∙ ap (λ x. x ++ direct_services wd c.imports) none_yet
