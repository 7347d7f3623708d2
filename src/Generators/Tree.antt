-- ===== src/Generators/Tree.antt =====
-- `newDirectory`, `Ignores` and `loadIgnores` of generators/directory_tree.go, and `Generate` of
-- generators/generator_collection.go, which builds the tree and walks the generators over it.
use edward.Base.{
  ℕ, zero, suc, Bool, false, ◌||◌, Option, none, some, List, [], ◌∷◌, ◌++◌, Result, ok, err, ◌>>=◌,
  if◌then◌else◌, map,
}
use edward.Base.Text.{Text, codes}
use edward.Config.{FilePath}
use edward.Generators.{Directory, Directories, ignored, directory, no_more, next, generate_dir}
use edward.Generators.Kinds.{Generator, visit_at, start_walk, indices}
use edward.Generators.VisitDir.{Files, there, missing, unreadable}

pub record Entry : Type 0 where
  pub name : Text
  pub is_link : Bool
  pub is_dir : Bool

-- Reading directories and links, and the package that reads ignore files, of which `I` is its
-- GitIgnore. `entry_at` is `os.Stat`, which follows links.
pub record Disk (I : Type 0) : Type 0 where
  pub files : Files
  pub compile_ignore_file : Text → Result Text I
  pub matches_path : I → Text → Bool
  pub read_dir : Text → Result Text (List Entry)
  pub read_link : Text → Result Text Text
  pub entry_at : Text → Result Text Entry

module _ {I : Type 0} (fp : FilePath) (disk : Disk I) where
  unfoldable pub load_ignores : Text → Result Text (Option I)
  load_ignores path =
      let ignore_file = fp.join path (codes ".edwardignore") in
      elim (disk.files.stat ignore_file) [
        | missing ↦ ok none
        | unreadable e ↦ err e
        | there ↦ elim (disk.compile_ignore_file ignore_file) [ ok i ↦ ok (some i) | err e ↦ err e ]
      ]

  unfoldable pub is_matched : Option I → Text → Bool
  is_matched none path = false
  is_matched (some i) path = disk.matches_path i path

  -- `Ignores` of a directory, from its own and those of its parent.
  unfoldable pub ignores_of : Option I → Option I → Option I
  ignores_of none parent = parent
  ignores_of (some i) parent = some i

  -- An entry of a directory, or what its link leads to.
  unfoldable pub resolve : Text → Entry → Result Text Entry
  resolve path e =
      if e.is_link
      then disk.read_link (fp.join path e.name) >>= (λ to. disk.entry_at (fp.join path to))
      else ok e

  unfoldable pub append_child :
      Result Text Directory → Option (Result Text Directories) → Option (Result Text Directories)
  append_child (err e) rest = some (err e)
  append_child (ok d) none = none
  append_child (ok d) (some (err e)) = some (err e)
  append_child (ok d) (some (ok ds)) = some (ok (next d ds))

  unfoldable pub add_built :
      Option (Result Text Directory)
      → Option (Result Text Directories)
      → Option (Result Text Directories)
  unfolding append_child
  add_built none rest = none
  add_built (some built) rest = append_child built rest

  unfoldable pub new_child :
      (Text → Option (Result Text Directory))
      → Text
      → Result Text Entry
      → Option (Result Text Directories)
      → Option (Result Text Directories)
  unfolding add_built
  new_child build path (err e) rest = some (err e)
  new_child build path (ok file) rest =
      if file.is_dir then add_built (build (fp.join path file.name)) rest else rest

  unfoldable pub new_children :
      (Text → Option (Result Text Directory)) → Text → List Entry → Option (Result Text Directories)
  unfolding new_child resolve
  new_children build path [] = some (ok no_more)
  new_children build path (e ∷ es) =
      new_child build path (resolve path e) (new_children build path es)

  unfoldable pub new_node : Text → Option (Result Text Directories) → Option (Result Text Directory)
  new_node path none = none
  new_node path (some (err e)) = some (err e)
  new_node path (some (ok ds)) = some (ok (directory path ds))

  unfoldable pub read_children :
      (Text → Option (Result Text Directory))
      → Text
      → Result Text (List Entry)
      → Option (Result Text Directory)
  unfolding new_children new_node
  read_children build path (err e) = some (err e)
  read_children build path (ok es) = new_node path (new_children build path es)

  unfoldable pub not_ignored :
      (Option I → Text → Option (Result Text Directory))
      → Text
      → Option I
      → Result Text (Option I)
      → Option (Result Text Directory)
  unfolding is_matched ignores_of read_children
  not_ignored build path parent (err e) = some (err e)
  not_ignored build path parent (ok own) =
      if is_matched own path || is_matched parent path
      then some (ok ignored)
      else read_children (build (ignores_of own parent)) path (disk.read_dir path)

  -- `newDirectory`, where `parent` is `parent.Ignores()`; none where the fuel, a bound on the depth,
  -- is not enough.
  unfoldable pub new_directory : ℕ → Option I → Text → Option (Result Text Directory)
  unfolding load_ignores not_ignored
  new_directory zero parent path = none
  new_directory (suc fuel) parent path =
      not_ignored (new_directory fuel) path parent (load_ignores path)

  -- `GeneratorCollection.Generate`: the error, and the generators after it.
  unfoldable pub walk_tree :
      Text → List Generator → Result Text Directory → Option Text × List Generator
  unfolding generate_dir visit_at start_walk indices
  walk_tree path gs (err e) = (some e, gs)
  walk_tree path gs (ok d) =
      generate_dir (visit_at fp disk.files) d (indices zero gs) (map (start_walk path) gs)

  unfoldable pub generate_under :
      Text
      → List Generator
      → Result Text Entry
      → Option (Result Text Directory)
      → Option (Option Text × List Generator)
  unfolding walk_tree
  generate_under path gs (err e) built = some (some e, gs)
  generate_under path gs (ok info) none =
      if info.is_dir then none else some (some (path ++ codes " is not a directory"), gs)
  generate_under path gs (ok info) (some built) =
      if info.is_dir
      then some (walk_tree path gs built)
      else some (some (path ++ codes " is not a directory"), gs)

  unfoldable pub generate_collection :
      ℕ → Text → List Generator → Option (Option Text × List Generator)
  unfolding generate_under new_directory
  generate_collection fuel path gs =
      generate_under path gs (disk.entry_at path) (new_directory fuel none path)
