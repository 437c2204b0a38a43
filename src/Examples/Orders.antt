-- ===== src/Examples/Orders.antt =====
-- The theorems about the order of services at two services (internal/core/deployment/ordering.go).
use hoster.Prelude.{ℕ, refl, ◌↔◌, List, [], ◌∷◌, In}
use hoster.Compose.{Service}
use hoster.Order.{names, topological_sort}
use hoster.Order.Relax.{Distinct}
use hoster.Order.Sorted.{DependenciesFirst}
use hoster.Order.Sorted.Result.{IsIteration, topological_sort_same}
use hoster.Prelude.{none, some, ◌⊎◌, ◌≡◌}
use hoster.Prelude.Dict.{update}
use hoster.Compose.Cycles.{
  detect_circular_dependencies, circular_dependency, search_all, has_cycle, visit_deps, collect,
  universe,
}
use hoster.Compose.Cycles.Paths.{Circle}
use hoster.Compose.Cycles.Detected.{dependencies, AllGrounded, detect_cases}
use hoster.Order.Accepted.{accepted_in_order}
use hoster.Examples.{service}

abbrev web_first : List (Service ℕ)
web_first = service "web" ("db" ∷ []) ∷ service "db" [] ∷ []

abbrev in_order : IsIteration (λ keys. keys)
in_order = record { same = λ keys x. refl; once = λ keys h. h }

topological_sort_same_example :
    let r = topological_sort (λ keys. keys) web_first in
    Distinct (names r) × ((s : Service ℕ) → In s r ↔ In s web_first)
topological_sort_same_example =
    topological_sort_same (λ keys. keys) in_order web_first (refl, (refl, tt))

-- Two services that wait for each other.
abbrev tangled : List (Service ℕ)
tangled = service "web" ("db" ∷ []) ∷ service "db" ("web" ∷ []) ∷ []

detect_cases_example :
    let deps = dependencies tangled in
    ((detect_circular_dependencies tangled ≡ some none)
      × (¬ (Circle deps))
      × AllGrounded deps tangled)
    ⊎ ((detect_circular_dependencies tangled ≡ some (some circular_dependency)) × Circle deps)
detect_cases_example = detect_cases tangled

accepted_in_order_example : DependenciesFirst [] (topological_sort (λ keys. keys) web_first)
unfolding detect_circular_dependencies search_all has_cycle visit_deps collect universe update
accepted_in_order_example =
    accepted_in_order web_first (refl, (refl, tt)) ((refl, tt), (tt, tt)) (λ keys. keys) in_order
      refl
