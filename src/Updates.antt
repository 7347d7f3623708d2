-- ===== src/Updates.antt =====
-- updates/updates.go: which of the tags of a repository is the latest version, and whether an update is
-- available. Package regexp and the library that compares versions are a record of calls, and git's
-- answer is its lines.
pub mod Greatest
mod Samples
use edward.Base.{
  ℕ, ◌≡◌, refl, Bool, true, false, not, Option, none, some, List, [], ◌∷◌, Result, ok, err, ◌>>=◌,
  if◌then◌else◌, ◌==◌, leb,
}
use edward.Base.Text.{Text, codes}

pub record Versions (V : Type 0) : Type 0 where
  pub find_id : Text → Text
  pub new_version : Text → Result Text V
  pub greater_than : V → V → Bool

-- `strings.Replace` of the first such code by nothing.
unfoldable pub remove_first : ℕ → Text → Text
remove_first c [] = []
remove_first c (x ∷ s) = let rest = remove_first c s in if x == c then s else x ∷ rest

-- The cached version: nothing there, or its age in hours and what is read.
pub data Cache : Type 0 where
  no_file : Cache
  stat_failed : Text → Cache
  cache_file : ℕ → Result Text Text → Cache

-- `getCachedVersion`: the version, if one is cached.
unfoldable pub get_cached_version : Cache → Result Text (Option Text)
get_cached_version no_file = ok none
get_cached_version (stat_failed e) = err e
get_cached_version (cache_file hours content) =
    if leb 1 hours then ok none else elim content [ err e ↦ err e | ok text ↦ ok (some text) ]

module _ {V : Type 0} (versions : Versions V) where
  abbrev pub match_of : Text → Text
  match_of line = remove_first 86 (remove_first 118 (versions.find_id line))

  abbrev pub pick : Text → Text → Result Text V → Result Text V → Result Text Text
  pick match greatest (err e) g = err e
  pick match greatest (ok m) (err e) = err e
  pick match greatest (ok m) (ok g) = ok (if versions.greater_than m g then match else greatest)

  abbrev pub or_match : Text → Text → Text
  or_match [] match = match
  or_match (x ∷ greatest) match = x ∷ greatest

  abbrev pub take_match : Text → Text → Result Text Text
  take_match [] greatest = ok greatest
  take_match (x ∷ match) greatest =
      pick (x ∷ match) greatest (versions.new_version (x ∷ match)) (versions.new_version greatest)

  -- The loop's body.
  unfoldable pub take_line : Text → Text → Result Text Text
  unfolding remove_first
  take_line greatest line = take_match (match_of line) (or_match greatest (match_of line))

  unfoldable pub take_lines : Text → List Text → Result Text Text
  unfolding take_line
  take_lines greatest [] = ok greatest
  take_lines greatest (line ∷ lines) = take_line greatest line >>= λ next. take_lines next lines

  -- `findLatestVersionTag`
  unfoldable pub find_latest_version_tag : List Text → Result Text Text
  unfolding take_lines
  find_latest_version_tag lines = take_lines [] lines

  -- The comparison at the end of UpdateAvailable. An error of reading a version is not passed on.
  abbrev pub compared : Text → Result Text V → Result Text V → Result Text (Bool × Text)
  compared latest (err e) current = ok (false, latest)
  compared latest (ok l) (err e) = ok (true, latest)
  compared latest (ok l) (ok c) = ok (versions.greater_than l c, latest)

  abbrev pub compare_with : Text → Text → Result Text (Bool × Text)
  compare_with current latest =
      compared latest (versions.new_version latest) (versions.new_version current)

  -- `cacheVersion` answers `written`.
  abbrev pub found_version : List Text → Option Text → Option Text → Result Text Text
  found_version lines written (some cached) = ok cached
  found_version lines written none = elim (find_latest_version_tag lines) [
    | err e ↦ err e
    | ok latest ↦ elim written [ none ↦ ok latest | some e ↦ err e ]
  ]

  -- `UpdateAvailable`
  unfoldable pub update_available :
      Result Text (List Text) → Cache → Option Text → Text → Result Text (Bool × Text)
  unfolding get_cached_version find_latest_version_tag
  update_available output cache written current = do
    lines ← output
    cached ← get_cached_version cache
    latest ← found_version lines written cached
    compare_with current latest
