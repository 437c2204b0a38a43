-- ===== src/Auth/Limits.antt =====
-- internal/core/limits/validation.go, and how it agrees with internal/core/auth/authorization.go.
use hoster.Prelude.{
  String, Bool, true, false, Option, none, some, [], ◌∷◌, ◌≡◌, ◌↔◌, mem, if◌then◌else◌, arith,
}
use hoster.Prelude.Float.{Float64}
use hoster.Prelude.Int.{ℤ, ◌+ℤ◌, ◌≤ℤ◌, ◌<ℤ◌, add64, ltb_ℤ, leb_ℤ, IsInt64, wrap64_of_IsInt64}
use hoster.Auth.{Context, PlanLimits, Resources, can_create_deployment, validate_resource_limits}

pub data Reason (F : Type 0) : Type 0 where
  no_reason : Reason F
  deployment_limit : ℤ → ℤ → Reason F
  cpu_limit : F → F → Reason F
  memory_limit disk_limit : ℤ → ℤ → Reason F
  capability_refused : String → Reason F

pub record ValidationResult (F : Type 0) : Type 0 where
  pub allowed : Bool
  pub reason : Reason F

pub record CurrentUsage (F : Type 0) : Type 0 where
  pub deployment_count : ℤ
  pub total_cpu_cores : F
  pub total_memory_mb : ℤ
  pub total_disk_mb : ℤ

module _ {F : Type 0} where
  abbrev reject : Reason F → ValidationResult F
  reject reason = record { allowed = false; reason = reason }

  abbrev accept : ValidationResult F
  accept = record { allowed = true; reason = no_reason }

  -- `ValidateDeploymentStart`.
  unfoldable pub validate_deployment_start : PlanLimits F → ℤ → ValidationResult F
  validate_deployment_start limits running = accept

  -- `ValidateCapability`.
  unfoldable pub validate_capability : PlanLimits F → String → ValidationResult F
  validate_capability limits capability = elim limits.allowed_capabilities [
    | [] ↦ accept
    | a ∷ more ↦
        if mem capability (a ∷ more) then accept else reject (capability_refused capability)
  ]

  -- `Ok` and `Error` of a result: nil, or the reason.
  unfoldable pub is_ok : ValidationResult F → Bool
  is_ok r = r.allowed

  unfoldable pub error : ValidationResult F → Option (Reason F)
  error r = if r.allowed then none else some r.reason

module _ (fl : Float64) where
  -- `ValidateDeploymentCreation`.
  unfoldable pub validate_deployment_creation :
      PlanLimits fl.F → CurrentUsage fl.F → Resources fl.F → ValidationResult fl.F
  validate_deployment_creation limits usage requested =
      let cpu = fl.add usage.total_cpu_cores requested.cpu_cores in
      let memory = add64 usage.total_memory_mb requested.memory_mb in
      let disk = add64 usage.total_disk_mb requested.disk_mb in
      if leb_ℤ limits.max_deployments usage.deployment_count
      then reject (deployment_limit usage.deployment_count limits.max_deployments)
      else if fl.lt limits.max_cpu_cores cpu
      then reject (cpu_limit cpu limits.max_cpu_cores)
      else if ltb_ℤ limits.max_memory_mb memory
      then reject (memory_limit memory limits.max_memory_mb)
      else if ltb_ℤ limits.max_disk_mb disk
      then reject (disk_limit disk limits.max_disk_mb)
      else accept

  -- The usage in the form of the other package.
  abbrev pub used : CurrentUsage fl.F → Resources fl.F
  used u = record {
    cpu_cores = u.total_cpu_cores;
    memory_mb = u.total_memory_mb;
    disk_mb = u.total_disk_mb;
  }

  -- The two packages decide alike: a creation is within the limits of a plan, as package limits says,
  -- exactly if package auth lets an authenticated user with that plan create a deployment and finds
  -- its resources within the limits.
  pub creation_iff :
      (ctx : Context fl.F) (usage : CurrentUsage fl.F) (requested : Resources fl.F)
      → ctx.authenticated ≡ true
      → ((validate_deployment_creation ctx.plan_limits usage requested).allowed ≡ true) ↔ (
          ((can_create_deployment ctx usage.deployment_count).0 ≡ true)
          × ((validate_resource_limits fl ctx (used usage) requested).0 ≡ true))
  unfolding validate_deployment_creation can_create_deployment validate_resource_limits
  creation_iff ctx usage requested a = rw a (ground arith)

  -- Where the sums fit in 64 bits, an accepted creation keeps every limit of the plan: one more
  -- deployment is within the maximum, and the totals of CPU, memory and disk do not exceed theirs; and
  -- a creation that keeps them all is accepted.
  pub creation_within :
      (limits : PlanLimits fl.F) (usage : CurrentUsage fl.F) (requested : Resources fl.F)
      → IsInt64 (usage.total_memory_mb +ℤ requested.memory_mb)
      → IsInt64 (usage.total_disk_mb +ℤ requested.disk_mb)
      → ((validate_deployment_creation limits usage requested).allowed ≡ true) ↔ (
          (usage.deployment_count <ℤ limits.max_deployments)
          × (fl.lt limits.max_cpu_cores (fl.add usage.total_cpu_cores requested.cpu_cores) ≡ false)
          × (usage.total_memory_mb +ℤ requested.memory_mb ≤ℤ limits.max_memory_mb)
          × (usage.total_disk_mb +ℤ requested.disk_mb ≤ℤ limits.max_disk_mb))
  unfolding validate_deployment_creation add64
  creation_within limits usage requested m d =
      rw (wrap64_of_IsInt64 _ m, wrap64_of_IsInt64 _ d) (ground arith)
