-- ===== src/Generators/Walk.antt =====
-- What the walk of the generators keeps, of generators/directory_tree.go.
use edward.Base.{Option, none, some, List, [], ◌∷◌}
use edward.Base.Text.{Text}
use edward.Generators.{
  Visit, visited, skip_dir, skip_all, visit_failed, Directory, Directories, ignored, directory,
  no_more, next, visit_all, generate_dir, generate_dirs, Visits, go_on, end_here, fail, after_visit,
  after_visits, and_rest,
}

-- What every visit keeps, the walk keeps.
module _ {E G S : Type 0} (visit : G → Text → S → Visit E × S) (Kept : S → Type 0)
    (keeps : (g : G) (path : Text) (s : S) → Kept s → Kept (visit g path s).1) where
  after_visit-Kept :
      (g : G) (v : Visit E) (rest : Visits E G × S) (s : S)
      → Kept s
      → Kept rest.1
      → Kept (after_visit visit g v rest s).1
  after_visit-Kept g visited (go_on gs, s') s k r = r
  after_visit-Kept g visited (end_here, s') s k r = r
  after_visit-Kept g visited (fail e, s') s k r = r
  after_visit-Kept g skip_dir rest s k r = r
  after_visit-Kept g skip_all rest s k r = k
  after_visit-Kept g (visit_failed e) rest s k r = k

  visit_all-Kept : (gs : List G) (path : Text) (s : S) → Kept s → Kept (visit_all visit gs path s).1
  unfolding visit_all
  visit_all-Kept [] path s k = k
  visit_all-Kept (g ∷ gs) path s k =
      after_visit-Kept g (visit g path s).0 (visit_all visit gs path (visit g path s).1)
        (visit g path s).1 (keeps g path s k)
        (visit_all-Kept gs path (visit g path s).1 (keeps g path s k))

  and_rest-Kept :
      (r : Option E × S) (more : S → Option E × S)
      → Kept r.1
      → ((s : S) → Kept s → Kept (more s).1)
      → Kept (and_rest visit r more).1
  and_rest-Kept (some e, s) more k m = k
  and_rest-Kept (none, s) more k m = m s k

  after_visits-Kept :
      (r : Visits E G × S) (below : List G → S → Option E × S)
      → Kept r.1
      → ((gs : List G) (s : S) → Kept s → Kept (below gs s).1)
      → Kept (after_visits visit r below).1
  after_visits-Kept (go_on gs, s) below k m = m gs s k
  after_visits-Kept (end_here, s) below k m = k
  after_visits-Kept (fail e, s) below k m = k

  mutual
    unfolding generate_dir

    pub walk-Kept :
        (d : Directory) (gs : List G) (s : S) → Kept s → Kept (generate_dir visit d gs s).1
    walk-Kept d [] s k = k
    walk-Kept ignored (g ∷ gs) s k = k
    walk-Kept (directory path ds) (g ∷ gs) s k =
        after_visits-Kept (visit_all visit (g ∷ gs) path s) (generate_dirs visit ds)
          (visit_all-Kept (g ∷ gs) path s k) (walk_each-Kept ds)

    walk_each-Kept :
        (ds : Directories) (gs : List G) (s : S) → Kept s → Kept (generate_dirs visit ds gs s).1
    walk_each-Kept no_more gs s k = k
    walk_each-Kept (next d ds) gs s k =
        and_rest-Kept (generate_dir visit d gs s) (generate_dirs visit ds gs) (walk-Kept d gs s k)
          (walk_each-Kept ds gs)
