-- ===== src/Config/Version.antt =====
-- The version check of `LoadConfig` in config/config.go.
use edward.Base.{◌≡◌, ◌⊎◌, inl, inr, Option-cases, true, none, some, ok, err, if◌then◌else◌}
use edward.Base.Text.{Text}
use edward.Services.{is_nonempty}
use edward.Config.{Config, unsupported_version}
use edward.Config.Load.{Machine, empty_config, check_version}
use edward.Config.Init.{init_maps}

module _ (m : Machine) (c : Config) (edward_version : Text)
    (asked : is_nonempty c.min_edward_version ≡ true)
    (known : is_nonempty edward_version ≡ true) where
  open m use {versions, paths, goos}
  open versions use {Version, new_version, less_than}

  -- Where both versions can be read, a configuration is refused exactly for asking for a later
  -- version; one that is not refused goes on to `initMaps`.
  pub check_version-readable :
      (min current : Version)
      → new_version c.min_edward_version ≡ some min
      → new_version edward_version ≡ some current
      → check_version m edward_version c ≡ (
          if less_than current min
          then err (unsupported_version c.min_edward_version)
          else init_maps paths goos c)
  unfolding check_version
  check_version-readable min current e f = rw (asked, known, e, f)

  -- Where the version that the configuration asks for, or Edward's own, cannot be read, the result is
  -- the configuration with nothing in it, and no error.
  pub check_version-unreadable :
      (new_version c.min_edward_version ≡ none) ⊎ (new_version edward_version ≡ none)
      → check_version m edward_version c ≡ ok empty_config
  unfolding check_version
  check_version-unreadable (inl e) = rw (asked, known, e)
  check_version-unreadable (inr f) = elim (Option-cases (new_version c.min_edward_version)) [
    | inl e ↦ rw (asked, known, e)
    | inr (min, e) ↦ rw (asked, known, e, f)
  ]
