-- ===== src/Examples/Nodes.antt =====
-- The theorems about the choice of a node and limits at samples (internal/core/scheduler,
-- internal/core/auth, internal/core/limits).
use hoster.Prelude.{
  ℕ, ◌≡◌, refl, ◌↔◌, ◌⊎◌, inl, inr, true, false, none, some, List, [], ◌∷◌, In, All, any, length,
  arith, Bool-cases, if◌then◌else◌, ltb,
}
use hoster.Prelude.Int.{pos, ◌+ℤ◌, ◌≤ℤ◌, ◌<ℤ◌, add64, wrap64}
use hoster.Node.{Node, online, offline, is_available, has_all_capabilities}
use hoster.Scheduler.{
  ScheduleRequest, ScheduleResult, NodeCandidate, Error, no_capable_nodes, no_nodes_available,
  schedule, score_node, filter_online_nodes, filter_by_capabilities, filter_by_plan_capabilities,
  filter_by_capacity,
}
use hoster.Scheduler.Loop.{eligible}
use hoster.Scheduler.Choice.{Descending, IsSorting, schedule_best}
use hoster.Scheduler.Reasons.{is_incapable, schedule_refusal}
use hoster.Auth.{Resources, can_create_deployment, validate_resource_limits}
use hoster.Auth.Limits.{
  CurrentUsage, used, validate_deployment_creation, creation_iff, creation_within,
}
use hoster.Examples.{whole, node, user, small}

-- Insertion of a candidate before the first one with no higher score.
unfoldable place : NodeCandidate ℕ → List (NodeCandidate ℕ) → List (NodeCandidate ℕ)
place c [] = c ∷ []
place c (d ∷ ds) = let rest = place c ds in if ltb c.score d.score then d ∷ rest else c ∷ d ∷ ds

unfoldable insertion_sort : List (NodeCandidate ℕ) → List (NodeCandidate ℕ)
insertion_sort [] = []
insertion_sort (c ∷ cs) = place c (insertion_sort cs)

place_same :
    (c d : NodeCandidate ℕ) (cs : List (NodeCandidate ℕ)) → In d (place c cs) ↔ In d (c ∷ cs)
unfolding place
place_same c d [] = (λ m. m, λ m. m)
place_same c d (e ∷ cs) = elim (Bool-cases (ltb c.score e.score)) [
  | inr q ↦ rw q (λ m. m, λ m. m)
  | inl q ↦ rw q (swap (place_same c d cs))
]
  where
    swap :
        In d (place c cs) ↔ In d (c ∷ cs)
        → ((e ≡ d) ⊎ In d (place c cs)) ↔ ((c ≡ d) ⊎ (e ≡ d) ⊎ In d cs)
    swap h = (
      λ m. elim m [
        | inl p ↦ inr (inl p)
        | inr k ↦ elim (h.0 k) [ inl p ↦ inl p | inr l ↦ inr (inr l) ]
      ],
      λ m. elim m [
        | inl p ↦ inr (h.1 (inl p))
        | inr (inl p) ↦ inl p
        | inr (inr l) ↦ inr (h.1 (inr l))
      ],
    )

insertion_same :
    (cs : List (NodeCandidate ℕ)) (c : NodeCandidate ℕ) → In c (insertion_sort cs) ↔ In c cs
unfolding insertion_sort
insertion_same [] c = (λ m. m, λ m. m)
insertion_same (d ∷ cs) c =
    let (a, b) = place_same d c (insertion_sort cs) in
    let (f, g) = insertion_same cs c in
    (
      λ m. elim (a m) [ inl p ↦ inl p | inr k ↦ inr (f k) ],
      λ m. b (elim m [ inl p ↦ inl p | inr k ↦ inr (g k) ]),
    )

-- No candidate has a score above the bound.
abbrev IsBound : ℕ → List (NodeCandidate ℕ) → Type 0
IsBound b cs = All (λ d. ltb b d.score ≡ false) cs

lower : (a b : ℕ) (cs : List (NodeCandidate ℕ)) → ltb b a ≡ false → IsBound a cs → IsBound b cs
lower a b [] h k = tt
lower a b (c ∷ cs) h (p, k) = (ground arith, lower a b cs h k)

place-IsBound :
    (b : ℕ) (c : NodeCandidate ℕ) (cs : List (NodeCandidate ℕ))
    → ltb b c.score ≡ false
    → IsBound b cs
    → IsBound b (place c cs)
unfolding place
place-IsBound b c [] h k = (h, tt)
place-IsBound b c (d ∷ cs) h (p, k) = ground (arith, place-IsBound b c cs h k)

place_sorted :
    (c : NodeCandidate ℕ) (cs : List (NodeCandidate ℕ))
    → Descending whole cs
    → Descending whole (place c cs)
unfolding place
place_sorted c [] h = (tt, tt)
place_sorted c (d ∷ cs) (b, h) = elim (Bool-cases (ltb c.score d.score)) [
  | inl q ↦ rw q (place-IsBound d.score c cs (ground arith) b, place_sorted c cs h)
  | inr q ↦ rw q ((q, lower d.score c.score cs q b), (b, h))
]

insertion_sorted : (cs : List (NodeCandidate ℕ)) → Descending whole (insertion_sort cs)
unfolding insertion_sort
insertion_sorted [] = tt
insertion_sorted (c ∷ cs) = place_sorted c (insertion_sort cs) (insertion_sorted cs)

insertion-IsSorting : IsSorting whole insertion_sort
insertion-IsSorting = record { same = insertion_same; sorted = insertion_sorted }

abbrev request : List (Node ℕ) → ScheduleRequest ℕ
request nodes = record {
  available_nodes = nodes;
  required_resources = small;
  required_capabilities = "gpu" ∷ [];
  allowed_capabilities = "standard" ∷ "gpu" ∷ [];
}

abbrev two_nodes : List (Node ℕ)
two_nodes =
    node "node_a" online ("standard" ∷ "gpu" ∷ []) 2000
    ∷ node "node_b" online ("gpu" ∷ []) 4000
    ∷ []

schedule_best_example :
    let req = request two_nodes in
    ((n : Node ℕ) × (r : ScheduleResult ℕ) × In n (eligible whole req two_nodes)
      × (schedule whole insertion_sort req ≡ some (r, none))
      × (r.selected_node ≡ some n)
      × (r.selected_node_id ≡ n.reference_id)
      × (r.score ≡ score_node whole n small)
      × ((m : Node ℕ)
          → In m (eligible whole req two_nodes)
          → ltb r.score (score_node whole m small) ≡ false))
    ⊎ ((e : Error) × (r : ScheduleResult ℕ) × (eligible whole req two_nodes ≡ [])
        × (schedule whole insertion_sort req ≡ some (r, some e))
        × (r.selected_node ≡ none))
schedule_best_example =
    schedule_best whole (request two_nodes) insertion_sort insertion-IsSorting (λ x. ground arith)

abbrev plain_nodes : List (Node ℕ)
plain_nodes =
    node "node_c" online ("standard" ∷ []) 2000 ∷ node "node_d" offline ("gpu" ∷ []) 4000 ∷ []

schedule_refusal_example :
    let req = request plain_nodes in
    (e : Error) × (r : ScheduleResult ℕ) × (schedule whole insertion_sort req ≡ some (r, some e))
    × (r.considered_count ≡ length plain_nodes)
    × ((e ≡ no_capable_nodes) ↔ (any (is_incapable whole req) plain_nodes ≡ true))
    × ((e ≡ no_nodes_available) ↔ (filter_online_nodes plain_nodes ≡ []))
unfolding filter_by_capacity filter_by_plan_capabilities filter_by_capabilities filter_online_nodes
    is_available has_all_capabilities
schedule_refusal_example = schedule_refusal whole (request plain_nodes) refl insertion_sort

abbrev usage : CurrentUsage ℕ
usage = record {
  deployment_count = pos 1;
  total_cpu_cores = 1;
  total_memory_mb = pos 1000;
  total_disk_mb = pos 1000;
}

abbrev requested : Resources ℕ
requested = record { cpu_cores = 1; memory_mb = pos 512; disk_mb = pos 1024 }

creation_iff_example :
    ((validate_deployment_creation whole (user 5).plan_limits usage requested).allowed ≡ true) ↔ (
      ((can_create_deployment (user 5) (pos 1)).0 ≡ true)
      × ((validate_resource_limits whole (user 5) (used whole usage) requested).0 ≡ true))
creation_iff_example = creation_iff whole (user 5) usage requested refl

creation_within_example :
    (pos 1 <ℤ pos 3)
    × (ltb 4 2 ≡ false)
    × (pos 1000 +ℤ pos 512 ≤ℤ pos 4096)
    × (pos 1000 +ℤ pos 1024 ≤ℤ pos 20000)
unfolding validate_deployment_creation add64 wrap64 ◌+ℤ◌
creation_within_example =
    (creation_within whole (user 5).plan_limits usage requested (omega arith, omega arith)
        (omega arith, omega arith)).0
      refl
