-- ===== src/Commands/Checks.antt =====
-- The launch checks that UnmarshalJSON of services/serviceconfig.go accepts, and the one of them that
-- waitUntilLive of services/command.go makes.
use edward.Base.{
  ok_injective, ◌∙◌, ℕ, ◌≡◌, refl, true, Option, some, List, [], ◌∷◌, Result, ok, err, arith, ap,
  sym, inl, inr, ◌==◌, Bool-cases,
}
use edward.Base.Text.{Text}
use edward.Services.{
  ServiceConfig, LaunchChecks, ValidateError, validate_checks, validate, unmarshal_service,
  apply_properties, is_nonempty,
}
use edward.Commands.{Check, has_text, listening, delay, any_port}
use edward.Commands.Launch.{select_check}

-- The configuration that asks for a check and for nothing else.
unfoldable pub configured : Check → LaunchChecks
configured (has_text text) = record { log_text = text; ports = []; wait = 0 }
configured (listening ports) = record { log_text = []; ports = ports; wait = 0 }
configured (delay wait) = record { log_text = []; ports = []; wait = wait }
configured any_port = record { log_text = []; ports = []; wait = 0 }

unset : (wait : ℕ) → (wait == 0) ≡ true → 0 ≡ wait
unset wait h = ground (arith, h)

configured-select :
    (text : Text) (ports : List ℕ) (wait : ℕ)
    → validate_checks (some (record { log_text = text; ports = ports; wait = wait })) ≡ ok tt
    → configured (select_check (some (record { log_text = text; ports = ports; wait = wait })))
      ≡ record { log_text = text; ports = ports; wait = wait }
unfolding configured select_check validate_checks is_nonempty
configured-select [] [] wait v = elim (Bool-cases (wait == 0)) [
  | inl h ↦ rw h (ap (λ w. record { log_text = []; ports = []; wait = w }) (unset wait h))
  | inr h ↦ rw h refl
]
configured-select [] (p ∷ ports) wait v =
    ap (λ w. record { log_text = []; ports = p ∷ ports; wait = w }) (unset wait (ground (arith, v)))
configured-select (c ∷ text) [] wait v =
    ap (λ w. record { log_text = c ∷ text; ports = []; wait = w }) (unset wait (ground (arith, v)))
configured-select (c ∷ text) (p ∷ ports) wait v = absurd (ground (arith, v))

accepted-ok :
    (r : Result ValidateError Unit) (c : ServiceConfig) {d : ServiceConfig}
    → ◌≡◌ {A = Result ValidateError ServiceConfig} (elim r [ ok _ ↦ ok c | err e ↦ err e ]) (ok d)
    → (r ≡ ok tt) × (c ≡ d)
accepted-ok (ok u) c h = (refl, ok_injective h)
accepted-ok (err e) c h = cc

checks-select :
    (checks : LaunchChecks)
    → validate_checks (some checks) ≡ ok tt
    → configured (select_check (some checks)) ≡ checks
checks-select checks = configured-select checks.log_text checks.ports checks.wait

-- Where UnmarshalJSON accepts a service that has launch checks, those of its deprecated properties
-- included, the one check that a start waits for is all that they ask for: they are what asks for it
-- and for nothing else.
pub unmarshal_service-select_check :
    (started : Option Text) (c : ServiceConfig) {d : ServiceConfig} (checks : LaunchChecks)
    → unmarshal_service started c ≡ ok d
    → d.launch_checks ≡ some checks
    → configured (select_check d.launch_checks) ≡ checks
unfolding unmarshal_service validate
unmarshal_service-select_check started c {d} checks u l =
    let a = accepted-ok (validate (apply_properties started c)) (apply_properties started c) u in
    rw l
      (checks-select checks (ap validate_checks (sym l) ∙ (ap (λ s. validate s) (sym a.1) ∙ a.0)))
