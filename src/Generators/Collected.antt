-- ===== src/Generators/Collected.antt =====
-- What is taken from the generators after their walk, of generators/generator_collection.go.
use mathlib.Core.List.{Perm}
use edward.Base.{◌≡◌, true, List}
use edward.Base.Text.{Text}
use edward.Base.Sort.{is_sorted, sort_by-is_sorted, sort_by-perm}
use edward.Services.{ServiceConfig}
use edward.Generators.{Walked, gather, for_targets, collected_services}

-- The services of a collection are sorted by their names, and are, each as often as it was found,
-- those that the generators without an error have found, of which only those with a name among the
-- targets are left where there are targets.
pub collected_services-is_sorted :
    (targets : List Text) (ws : List Walked)
    → (is_sorted (λ s. s.name) (collected_services targets ws) ≡ true)
      × Perm
          (collected_services targets ws)
          (for_targets (λ s. s.name) targets (gather (λ w. w.services) ws))
unfolding collected_services
collected_services-is_sorted targets ws =
    let found = for_targets (λ (s : ServiceConfig). s.name) targets (gather (λ w. w.services) ws) in
    (sort_by-is_sorted (λ s. s.name) found, sort_by-perm (λ s. s.name) found)
