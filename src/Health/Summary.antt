-- ===== src/Health/Summary.antt =====
-- What the summary of internal/core/monitoring/health.go says of the containers.
use hoster.Prelude.{
  ◌+◌, ◌≤◌, ◌≡◌, ◌≢◌, ◌↔◌, Bool, true, false, List, [], ◌∷◌, ◌||◌, length, filter, arith, All,
}
use hoster.Health.{
  healthy, unhealthy, degraded, unknown, ContainerHealth, Counts, count, count_all,
  aggregate_health,
}

abbrev pub is_unhealthy : ContainerHealth → Bool
is_unhealthy c = elim c.health [ unhealthy ↦ true | _ ↦ false ]

abbrev pub is_degraded : ContainerHealth → Bool
is_degraded c = elim c.health [ degraded ↦ true | unknown ↦ true | _ ↦ false ]

count_all-length :
    (n : Counts) (cs : List ContainerHealth)
    → ((count_all n cs).unhealthy_count ≡ n.unhealthy_count + length (filter is_unhealthy cs))
      × ((count_all n cs).degraded_count ≡ n.degraded_count + length (filter is_degraded cs))
unfolding count_all
count_all-length n [] = ground arith
count_all-length n (c ∷ cs) = ground (arith, count_all-length (count c.health n) cs)

every_unhealthy_iff :
    (cs : List ContainerHealth)
    → (length (filter is_unhealthy cs) ≡ length cs) ↔ All (λ c. is_unhealthy c ≡ true) cs
every_unhealthy_iff [] = ground arith
every_unhealthy_iff (c ∷ cs) = ground (arith, every_unhealthy_iff cs, at_most cs)
  where
    at_most : (cs : List ContainerHealth) → length (filter is_unhealthy cs) ≤ length cs
    at_most [] = omega arith
    at_most (c ∷ cs) = ground (arith, at_most cs)

untroubled_iff :
    (cs : List ContainerHealth)
    → ((length (filter is_unhealthy cs) ≡ 0) × (length (filter is_degraded cs) ≡ 0))
      ↔ All (λ c. (is_unhealthy c || is_degraded c) ≡ false) cs
untroubled_iff [] = ground arith
untroubled_iff (c ∷ cs) = ground (arith, untroubled_iff cs)

-- Of a deployment with containers, the health is never unknown; it is unhealthy exactly if every
-- container is, and healthy exactly if no container is unhealthy, degraded or of unknown health.
pub aggregate_health_cases :
    (c : ContainerHealth) (cs : List ContainerHealth)
    → let h = aggregate_health (c ∷ cs) in
      (h ≢ unknown)
      × ((h ≡ unhealthy) ↔ All (λ d. is_unhealthy d ≡ true) (c ∷ cs))
      × ((h ≡ healthy) ↔ All (λ d. (is_unhealthy d || is_degraded d) ≡ false) (c ∷ cs))
unfolding aggregate_health
aggregate_health_cases c cs = ground (
  arith,
  count_all-length (record { unhealthy_count = 0; degraded_count = 0 }) (c ∷ cs),
  every_unhealthy_iff (c ∷ cs),
  untroubled_iff (c ∷ cs),
)
