-- ===== src/Health.antt =====
-- internal/core/monitoring/health.go, with the types of internal/core/domain/monitoring.go: the health of
-- containers and of a deployment.
--
-- A health status is a string in the source: its constants are constructors here, and `other` is any
-- other text. A count of restarts is an integer.
pub mod Summary
use hoster.Prelude.{
  ℕ, suc, String, Bool, false, Option, none, some, List, [], ◌∷◌, ◌||◌, ◌==◌, not, ltb, length,
  if◌then◌else◌, str_eq,
}
use hoster.Prelude.Int.{ℤ, pos, ltb_ℤ}

pub data HealthStatus : Type 0 where
  healthy unhealthy degraded unknown : HealthStatus
  other : String → HealthStatus

pub record ContainerHealth : Type 0 where
  pub name : String
  pub status : String
  pub health : HealthStatus
  pub started_at : Option ℕ
  pub restarts : ℤ

-- The counters of the loop: the containers that are unhealthy, and those that count as degraded.
pub record Counts : Type 0 where
  pub unhealthy_count : ℕ
  pub degraded_count : ℕ

abbrev pub count : HealthStatus → Counts → Counts
count unhealthy n = record n { unhealthy_count = suc n.unhealthy_count }
count degraded n = record n { degraded_count = suc n.degraded_count }
count unknown n = record n { degraded_count = suc n.degraded_count }
count _ n = n

-- The loop of `AggregateHealth`.
unfoldable pub count_all : Counts → List ContainerHealth → Counts
count_all n [] = n
count_all n (c ∷ containers) = count_all (count c.health n) containers

abbrev judge : ℕ → Counts → HealthStatus
judge total n =
    if n.unhealthy_count == total
    then unhealthy
    else if ltb 0 n.unhealthy_count || ltb 0 n.degraded_count
    then degraded
    else healthy

-- `AggregateHealth`.
unfoldable pub aggregate_health : List ContainerHealth → HealthStatus
aggregate_health [] = unknown
aggregate_health (c ∷ containers) =
    judge (length (c ∷ containers))
      (count_all (record { unhealthy_count = 0; degraded_count = 0 }) (c ∷ containers))

abbrev reports : Option String → String → Bool
reports none s = false
reports (some r) s = str_eq r s

-- `DetermineContainerHealth`.
unfoldable pub determine_container_health : String → Option String → ℤ → HealthStatus
determine_container_health status health_check restarts =
    if not (str_eq status "running")
    then unhealthy
    else if reports health_check "unhealthy"
    then unhealthy
    else if ltb_ℤ (pos 3) restarts
    then degraded
    else if reports health_check "starting"
    then degraded
    else healthy
