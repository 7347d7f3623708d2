-- ===== src/Generators/Imports.antt =====
-- `getImportList` and `createWatch` of generators/go.go. The output of `go list`, the environment and
-- the files are arguments.
use edward.Base.{
  ℕ, Bool, Option, none, some, List, [], ◌∷◌, ◌++◌, Result, ok, err, if◌then◌else◌, any, ◌==◌,
}
use edward.Base.Text.{Text, codes, has_prefix}
use edward.Base.Sort.{sort_by}
use edward.Services.{ServiceConfig, ServiceWatch}
use edward.Config.{FilePath}

-- `go list`, `os.ExpandEnv`, and whether `os.Stat` finds a path.
pub record GoTool : Type 0 where
  pub go_list : Text → Option Text
  pub expand_env : Text → Text
  pub exists : Text → Bool

-- `strings.Split(s, ":")`
abbrev pub put_first : ℕ → List Text → List Text
put_first b [] = (b ∷ []) ∷ []
put_first b (part ∷ parts) = (b ∷ part) ∷ parts

unfoldable pub split_at_colons : Text → List Text
split_at_colons [] = [] ∷ []
split_at_colons (b ∷ s) =
    let rest = split_at_colons s in if b == 58 then [] ∷ rest else put_first b rest

module _ (fp : FilePath) (tool : GoTool) where
  abbrev pub keep_rel : Result Text Text → List Text → List Text
  keep_rel (ok rel) rest = rel ∷ rest
  keep_rel (err e) rest = rest

  unfoldable pub checked_imports : Text → List Text → List Text
  checked_imports base_path [] = []
  checked_imports base_path (i ∷ is) =
      let rest = checked_imports base_path is in
      let path = tool.expand_env (codes "$GOPATH/src/" ++ i) in
      if tool.exists path then keep_rel (fp.rel base_path path) rest else rest

  -- The loop that leaves out a path with an earlier one as its prefix; `earlier` are those before.
  unfoldable pub remove_subpaths : List Text → List Text → List Text
  unfolding has_prefix
  remove_subpaths earlier [] = []
  remove_subpaths earlier (path ∷ paths) =
      let rest = remove_subpaths (earlier ++ path ∷ []) paths in
      if any (has_prefix path) earlier then rest else path ∷ rest

  unfoldable pub list_imports : Text → Text → Option Text → List Text
  unfolding checked_imports remove_subpaths split_at_colons sort_by
  list_imports base_path path none = path ∷ []
  list_imports base_path path (some out) =
      remove_subpaths [] (sort_by (λ p. p) (path ∷ checked_imports base_path (split_at_colons out)))

  unfoldable pub get_import_list : Text → ServiceConfig → List Text
  unfolding list_imports
  get_import_list base_path s = elim s.path [
    | none ↦ []
    | some path ↦ list_imports base_path path (tool.go_list path)
  ]

  unfoldable pub create_watch : Text → ServiceConfig → ServiceWatch
  unfolding get_import_list
  create_watch base_path s = record {
    service = s;
    included_paths = get_import_list base_path s;
    excluded_paths = [];
  }
