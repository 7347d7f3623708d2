-- ===== src/Services.antt =====
-- services/services.go, services/serviceconfig.go and services/groupconfig.go: the data of services
-- and groups, and the operations on it that touch nothing outside. A pointer is its value here; the
-- components in which two pointers to one object matter keep their own store. Loggers and mutexes
-- are left out.
pub mod Fixtures
use edward.Base.{
  ℕ, ◌+◌, Bool, true, false, not, ◌||◌, Option, none, some, List, [], ◌∷◌, ◌++◌, Result, ok, err,
  ltb, ◌==◌, if◌then◌else◌, any,
}
use edward.Base.Text.{Text, text_eq, contains}

pub record LaunchChecks : Type 0 where
  pub log_text : Text
  pub ports : List ℕ
  pub wait : ℕ

pub record Commands : Type 0 where
  pub build : Text
  pub launch : Text
  pub stop : Text

pub record ServiceConfig : Type 0 where
  pub name : Text
  pub aliases : List Text
  pub description : Text
  pub path : Option Text
  pub requires_sudo : Bool
  pub commands : Commands
  pub launch_checks : Option LaunchChecks
  pub env : List Text
  pub platform : Text
  pub watch_json : Text
  pub warmup : Option Text
  pub config_file : Text
  pub lock_token : Text

pub record ServiceWatch : Type 0 where
  pub service : ServiceConfig
  pub included_paths : List Text
  pub excluded_paths : List Text

pub record OperationConfig : Type 0 where
  pub edward_executable : Text
  pub exclusions : List Text
  pub no_watch : Bool
  pub skip_build : Bool

pub record ContextOverride : Type 0 where
  pub env : List Text

-- `Matches`, of a service and of a group.
unfoldable pub matches : Text → List Text → Text → Bool
matches own aliases name = text_eq own name || any (λ alias. text_eq alias name) aliases

-- `IsExcluded`, which asks the service or group for its name.
unfoldable pub is_excluded : OperationConfig → Text → Bool
unfolding contains
is_excluded cfg name = contains name cfg.exclusions

-- `Merge`
unfoldable pub merge : ContextOverride → ContextOverride → ContextOverride
merge c m = record { env = m.env ++ c.env }

unfoldable pub is_nonempty {ℓ} : {A : Type ℓ} → List A → Bool
is_nonempty [] = false
is_nonempty (x ∷ xs) = true

abbrev pub count_if : Bool → ℕ
count_if true = 1
count_if false = 0

abbrev pub check_count : LaunchChecks → ℕ
check_count c =
    count_if (is_nonempty c.log_text)
    + count_if (is_nonempty c.ports)
    + count_if (not (c.wait == 0))

pub data ValidateError : Type 0 where
  multiple_launch_checks : ValidateError

unfoldable pub validate_checks : Option LaunchChecks → Result ValidateError Unit
validate_checks none = ok tt
validate_checks (some c) = if ltb 1 (check_count c) then err multiple_launch_checks else ok tt

unfoldable pub validate : ServiceConfig → Result ValidateError Unit
unfolding validate_checks is_nonempty
validate c = validate_checks c.launch_checks

unfoldable pub add_log_text : Text → Option LaunchChecks → LaunchChecks
add_log_text started (some c) = record c { log_text = started }
add_log_text started none = record { log_text = started; ports = []; wait = 0 }

abbrev pub apply_properties : Option Text → ServiceConfig → ServiceConfig
apply_properties none c = c
apply_properties (some started) c = record c {
  launch_checks = some (add_log_text started c.launch_checks);
}

-- `UnmarshalJSON` after the decoding: the deprecated `log_properties` become a launch check.
unfoldable pub unmarshal_service : Option Text → ServiceConfig → Result ValidateError ServiceConfig
unfolding validate add_log_text
unmarshal_service started c =
    let c' = apply_properties started c in elim (validate c') [ ok _ ↦ ok c' | err e ↦ err e ]

-- `MatchesPlatform`, on the system `goos`.
unfoldable pub matches_platform : Text → ServiceConfig → Bool
unfolding is_nonempty
matches_platform goos c = not (is_nonempty c.platform) || text_eq c.platform goos

-- `IsSudo`
unfoldable pub is_sudo : OperationConfig → ServiceConfig → Bool
unfolding is_excluded
is_sudo cfg c = if is_excluded cfg c.name then false else c.requires_sudo
