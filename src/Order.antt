-- ===== src/Order.antt =====
-- internal/core/deployment/ordering.go: the order in which the services of a deployment are started.
--
-- The maps of the source are functions: a key that is missing reads as the zero value. The order in
-- which Go runs over the keys of a map is not defined: it is the parameter `iterate`, which takes the
-- keys to the sequence of the run. The loop takes fuel, one unit for each service that the queue
-- gives out.
pub mod Relax
pub mod Loop
pub mod Build
pub mod Sorted
pub mod Accepted
use hoster.Prelude.{
  ℕ, zero, suc, String, Bool, true, false, Option, none, some, List, [], ◌∷◌, ◌++◌, str_eq, mem,
  if◌then◌else◌, length, map, any, ltb, filter,
}
use hoster.Prelude.Dict.{update}
use hoster.Prelude.Int.{ℤ, pos, negsuc}
use hoster.Compose.{Service}

-- `inDegree[dep]--`.
abbrev pub pred_ℤ : ℤ → ℤ
pred_ℤ (pos zero) = negsuc 0
pred_ℤ (pos (suc n)) = pos n
pred_ℤ (negsuc n) = negsuc (suc n)

abbrev pub is_zero : ℤ → Bool
is_zero (pos zero) = true
is_zero _ = false

-- What the queue is after one decrement.
abbrev pub enqueue : ℤ → String → List String → List String
enqueue degree dep queue = if is_zero degree then queue ++ dep ∷ [] else queue

-- The loop over `dependents[name]`: the in-degrees and the queue after it.
unfoldable pub relax : (String → ℤ) → List String → List String → (String → ℤ) × List String
relax degree queue [] = (degree, queue)
relax degree queue (dep ∷ deps) =
    let next = update degree dep (pred_ℤ (degree dep)) in
    relax next (enqueue (next dep) dep queue) deps

-- The keys of a map, each once.
unfoldable pub dedup : List String → List String
dedup [] = []
dedup (x ∷ xs) = let rest = dedup xs in if mem x xs then rest else x ∷ rest

-- The three maps of the dependency graph.
pub record Graph (F : Type 0) : Type 0 where
  pub service_map : String → Option (Service F)
  pub in_degree : String → ℤ
  pub dependents : String → List String

abbrev pub add_dependents : String → (String → List String) → List String → String → List String
add_dependents name m [] = m
add_dependents name m (dep ∷ deps) = add_dependents name (update m dep (m dep ++ name ∷ [])) deps

module _ {F : Type 0} where
  abbrev pub names : List (Service F) → List String
  names = map (λ s. s.name)

  -- The body of the first loop.
  abbrev pub add_service : Graph F → Service F → Graph F
  add_service g svc = record {
    service_map = update g.service_map svc.name (some svc);
    in_degree = update g.in_degree svc.name (pos (length svc.depends_on));
    dependents = add_dependents svc.name g.dependents svc.depends_on;
  }

  -- The first loop: the graph of a list of services, on top of `g`.
  unfoldable pub build : Graph F → List (Service F) → Graph F
  build g [] = g
  build g (svc ∷ services) = build (add_service g svc) services

  abbrev pub empty : Graph F
  empty = record { service_map = λ k. none; in_degree = λ k. pos 0; dependents = λ k. [] }

  abbrev append_found : List (Service F) → Option (Service F) → List (Service F)
  append_found result none = result
  append_found result (some svc) = result ++ svc ∷ []

  -- The loop `for len(queue) > 0`.
  unfoldable pub process :
      ℕ → Graph F → (String → ℤ) → List String → List (Service F) → List (Service F)
  process zero g degree queue result = result
  process (suc fuel) g degree [] result = result
  process (suc fuel) g degree (name ∷ queue) result =
      let (next, more) = relax degree queue (g.dependents name) in
      process fuel g next more (append_found result (g.service_map name))

  -- The last loop: the services that the result misses, in their order.
  unfoldable pub append_missing : List (Service F) → List (Service F) → List (Service F)
  append_missing result [] = result
  append_missing result (svc ∷ services) =
      append_missing
        (if any (λ r. str_eq r.name svc.name) result then result else result ++ svc ∷ []) services

  module _ (iterate : List String → List String) where
    -- `TopologicalSort`.
    unfoldable pub topological_sort : List (Service F) → List (Service F)
    topological_sort [] = []
    topological_sort (svc ∷ rest) =
        let services = svc ∷ rest in
        let g = build empty services in
        let queue =
          filter (λ name. is_zero (g.in_degree name)) (iterate (dedup (names services))) in
        let result = process (length services) g g.in_degree queue [] in
        if ltb (length result) (length services) then append_missing result services else result
