-- ===== src/Compose/Cycles.antt =====
-- internal/core/compose/parser.go, detectCircularDependencies: the depth-first search for a circle of
-- dependencies.
--
-- The map `visited`, in which a key is only ever set to true, is the list of those keys; `recStack` is
-- a function. The closure `hasCycle` is a function of the state that it captures. It takes fuel for the
-- depth of its calls: `none` means that the fuel ran out.
pub mod Paths
pub mod Walk
pub mod Detected
use hoster.Prelude.{
  ℕ, zero, suc, String, Bool, true, false, Option, none, some, List, [], ◌∷◌, ◌++◌, str_eq, mem,
  not, if◌then◌else◌, length,
}
use hoster.Prelude.Dict.{update}
use hoster.Compose.{Service}

pub data Error : Type 0 where
  circular_dependency : Error

pub record Search : Type 0 where
  pub visited : List String
  pub stack : String → Bool

abbrev pub Found : Type 0
Found = Option (Bool × Search)

-- `if found { return true }`, and then the rest with the state after the call.
abbrev pub unless_found : Found → (Search → Found) → Found
unless_found none rest = none
unless_found (some (true, st)) rest = some (true, st)
unless_found (some (false, st)) rest = rest st

-- The loop over the dependencies of a node, and the end of `hasCycle`.
unfoldable pub visit_deps : (String → Search → Found) → String → List String → Search → Found
visit_deps call node [] st = some (false, record st { stack = update st.stack node false })
visit_deps call node (dep ∷ deps) st =
    let rest = visit_deps call node deps in
    let into = unless_found (call dep st) rest in
    let past = rest st in
    if str_eq dep node
    then some (true, st)
    else if not (mem dep st.visited)
    then into
    else if st.stack dep
    then some (true, st)
    else past

-- `hasCycle`.
unfoldable pub has_cycle : (String → List String) → ℕ → String → Search → Found
has_cycle deps zero node st = none
has_cycle deps (suc fuel) node st =
    visit_deps (has_cycle deps fuel) node (deps node)
      (record { visited = node ∷ st.visited; stack = update st.stack node true })

abbrev verdict : Found → Option (Option Error)
verdict none = none
verdict (some (true, st)) = some (some circular_dependency)
verdict (some (false, st)) = some none

module _ {F : Type 0} where
  -- The map `deps`.
  unfoldable pub collect : (String → List String) → List (Service F) → String → List String
  collect m [] = m
  collect m (svc ∷ services) = collect (update m svc.name svc.depends_on) services

  -- The last loop.
  unfoldable pub search_all : (String → List String) → ℕ → List (Service F) → Search → Found
  search_all deps fuel [] st = some (false, st)
  search_all deps fuel (svc ∷ services) st =
      let rest = search_all deps fuel services in
      let into = unless_found (has_cycle deps fuel svc.name st) rest in
      let past = rest st in if not (mem svc.name st.visited) then into else past

  -- Every name that the services use.
  unfoldable pub universe : List (Service F) → List String
  universe [] = []
  universe (svc ∷ services) = svc.name ∷ (svc.depends_on ++ universe services)

  -- `detectCircularDependencies`: the error, or `none` for nil. Each call of `hasCycle` marks one more
  -- name as visited, so their number bounds the depth.
  unfoldable pub detect_circular_dependencies : List (Service F) → Option (Option Error)
  detect_circular_dependencies services = verdict (
      search_all (collect (λ k. []) services) (length (universe services)) services
        (record { visited = []; stack = λ k. false }))
