-- ===== src/Generators/Allowed.antt =====
-- What ignore files keep out of the tree of generators/directory_tree.go.
use mathlib.Core.Path.{subst}
use edward.Base.{
  ℕ, zero, suc, ◌≡◌, refl, Bool, true, false, not, ◌&&◌, ◌||◌, Option, none, some, List, [], ◌∷◌,
  Result, ok, err, arith, if◌then◌else◌,
}
use edward.Base.Text.{Text, codes}
use edward.Generators.VisitDir.{there, missing, unreadable}
use edward.Config.{FilePath}
use edward.Generators.{Directory, Directories, directory, ignored, no_more, next}
use edward.Generators.Tree.{
  Entry, Disk, load_ignores, is_matched, ignores_of, resolve, append_child, add_built, new_child,
  new_children, new_node, read_children, not_ignored, new_directory,
}

module _ {I : Type 0} (fp : FilePath) (disk : Disk I) where
  -- The ignore file of a directory, where there is one that can be read.
  abbrev pub ignore_at : Text → Option I
  ignore_at path = elim (disk.files.stat (fp.join path (codes ".edwardignore"))) [
    | missing ↦ none
    | unreadable e ↦ none
    | there ↦ elim (disk.compile_ignore_file (fp.join path (codes ".edwardignore"))) [
      | ok i ↦ some i
      | err e ↦ none
    ]
  ]

  -- The ignore file of the first of some directories that has one.
  abbrev pub nearest : List Text → Option I
  nearest [] = none
  nearest (path ∷ paths) = elim (ignore_at path) [ some i ↦ some i | none ↦ nearest paths ]

  abbrev pub is_clear : Option I → Text → Bool
  is_clear none path = true
  is_clear (some i) path = not (disk.matches_path i path)

  -- A tree below the directories `above`, the nearest first: neither its own ignore file nor the nearest
  -- above it matches a directory, and so on below it.
  unfoldable mutual
    pub is_allowed : List Text → Directory → Bool
    is_allowed above ignored = true
    is_allowed above (directory path ds) =
        is_clear (ignore_at path) path
        && is_clear (nearest above) path
        && are_allowed (path ∷ above) ds

    pub are_allowed : List Text → Directories → Bool
    are_allowed above no_more = true
    are_allowed above (next d ds) = is_allowed above d && are_allowed above ds

  ignore_at-load :
      (path : Text) {own : Option I} → load_ignores fp disk path ≡ ok own → ignore_at path ≡ own
  unfolding load_ignores
  ignore_at-load path h = ground arith

  nearest-ignores_of :
      (path : Text) (above : List Text) {own : Option I}
      → ignore_at path ≡ own
      → ignores_of fp disk own (nearest above) ≡ nearest (path ∷ above)
  unfolding ignores_of
  nearest-ignores_of path above h = ground arith

  is_clear-is_matched :
      (i : Option I) (path : Text) → is_matched fp disk i path ≡ false → is_clear i path ≡ true
  unfolding is_matched
  is_clear-is_matched none path h = refl
  is_clear-is_matched (some i) path h = ground arith

  -- Whatever comes out is allowed.
  unfoldable allowed : List Text → Option (Result Text Directory) → Bool
  unfolding is_allowed
  allowed p none = true
  allowed p (some (err e)) = true
  allowed p (some (ok d)) = is_allowed p d

  unfoldable all_allowed : List Text → Option (Result Text Directories) → Bool
  unfolding is_allowed
  all_allowed p none = true
  all_allowed p (some (err e)) = true
  all_allowed p (some (ok ds)) = are_allowed p ds

  append_child-all_allowed :
      (p : List Text) (r : Result Text Directory) (rest : Option (Result Text Directories))
      → allowed p (some r) ≡ true
      → all_allowed p rest ≡ true
      → all_allowed p (append_child fp disk r rest) ≡ true
  unfolding append_child allowed all_allowed is_allowed
  append_child-all_allowed p (err e) rest a b = refl
  append_child-all_allowed p (ok d) none a b = refl
  append_child-all_allowed p (ok d) (some (err e)) a b = refl
  append_child-all_allowed p (ok d) (some (ok ds)) a b = ground arith

  add_built-all_allowed :
      (p : List Text) (o : Option (Result Text Directory)) (rest : Option (Result Text Directories))
      → allowed p o ≡ true
      → all_allowed p rest ≡ true
      → all_allowed p (add_built fp disk o rest) ≡ true
  unfolding add_built all_allowed
  add_built-all_allowed p none rest a b = refl
  add_built-all_allowed p (some r) rest a b = append_child-all_allowed p r rest a b

  module _ (p : List Text) (build : Text → Option (Result Text Directory))
      (builds : (path : Text) → allowed p (build path) ≡ true) (path : Text) where
    new_child-all_allowed :
        (res : Result Text Entry) (rest : Option (Result Text Directories))
        → all_allowed p rest ≡ true
        → all_allowed p (new_child fp disk build path res rest) ≡ true
    unfolding new_child all_allowed
    new_child-all_allowed (err e) rest b = refl
    new_child-all_allowed (ok file) rest b =
        elim (file.is_dir)
          as (λ d.
            all_allowed p
              (if d then add_built fp disk (build (fp.join path file.name)) rest else rest)
            ≡ true) [
              | true ↦
                  add_built-all_allowed p (build (fp.join path file.name)) rest
                    (builds (fp.join path file.name)) b
              | false ↦ b
            ]

    new_children-all_allowed :
        (es : List Entry) → all_allowed p (new_children fp disk build path es) ≡ true
    unfolding new_children all_allowed is_allowed
    new_children-all_allowed [] = refl
    new_children-all_allowed (e ∷ es) =
        new_child-all_allowed (resolve fp disk path e) (new_children fp disk build path es)
          (new_children-all_allowed es)

    new_node-allowed :
        (above : List Text) (o : Option (Result Text Directories))
        → path ∷ above ≡ p
        → is_clear (ignore_at path) path ≡ true
        → is_clear (nearest above) path ≡ true
        → all_allowed p o ≡ true
        → allowed above (new_node fp disk path o) ≡ true
    unfolding new_node allowed all_allowed is_allowed
    new_node-allowed above none q u v h = refl
    new_node-allowed above (some (err e)) q u v h = refl
    new_node-allowed above (some (ok ds)) q u v h = rw (u, v, q) h

    read_children-allowed :
        (above : List Text) (es : Result Text (List Entry))
        → path ∷ above ≡ p
        → is_clear (ignore_at path) path ≡ true
        → is_clear (nearest above) path ≡ true
        → allowed above (read_children fp disk build path es) ≡ true
    unfolding read_children allowed
    read_children-allowed above (err e) q u v = refl
    read_children-allowed above (ok es) q u v =
        new_node-allowed above (new_children fp disk build path es) q u v
          (new_children-all_allowed es)

  -- A directory whose ignore files were loaded.
  not_ignored-allowed :
      (build : Option I → Text → Option (Result Text Directory))
      → ((above : List Text) (path : Text) → allowed above (build (nearest above) path) ≡ true)
      → (path : Text) (above : List Text) (own : Result Text (Option I))
      → load_ignores fp disk path ≡ own
      → allowed above (not_ignored fp disk build path (nearest above) own) ≡ true
  unfolding not_ignored allowed is_allowed
  not_ignored-allowed build builds path above (err e) l = refl
  not_ignored-allowed build builds path above (ok own) l =
      let here = ignore_at-load path l in
      let at_path = nearest-ignores_of path above here in
      elim (is_matched fp disk own path || is_matched fp disk (nearest above) path)
          as (λ m.
            (is_matched fp disk own path || is_matched fp disk (nearest above) path) ≡ m
            → allowed above (
                if m
                then some (ok ignored)
                else read_children fp disk (build (ignores_of fp disk own (nearest above))) path
                    (disk.read_dir path))
              ≡ true) [
                | true ↦ λ h. refl
                | false ↦ λ h.
                    read_children-allowed (path ∷ above)
                      (build (ignores_of fp disk own (nearest above)))
                      (λ q. rw at_path (builds (path ∷ above) q)) path above (disk.read_dir path)
                      refl (rw here (is_clear-is_matched own path (ground (arith, h))))
                      (is_clear-is_matched (nearest above) path (ground (arith, h)))
              ]
        refl

  new_directory-allowed :
      (fuel : ℕ) (above : List Text) (path : Text)
      → allowed above (new_directory fp disk fuel (nearest above) path) ≡ true
  unfolding new_directory allowed
  new_directory-allowed zero above path = refl
  new_directory-allowed (suc fuel) above path =
      not_ignored-allowed (new_directory fp disk fuel) (new_directory-allowed fuel) path above
        (load_ignores fp disk path) refl

  -- Where the tree of a directory is built, no directory in it, except one left out as the nil
  -- pointer, is matched by its own ignore file or by that of the nearest directory above it that has
  -- one, of those in the tree.
  pub new_directory-is_allowed :
      (fuel : ℕ) (path : Text) {d : Directory}
      → new_directory fp disk fuel none path ≡ some (ok d)
      → is_allowed [] d ≡ true
  unfolding allowed
  new_directory-is_allowed fuel path eq =
      subst (λ o. allowed [] o ≡ true) eq (new_directory-allowed fuel [] path)
