-- ===== src/Compose/Parser/Totals.antt =====
-- internal/core/compose/parser.go: CalculateResources, ValidateParsedSpec and the extraction of variables.
use hoster.Prelude.{
  ℕ, zero, suc, ◌+◌, ◌*◌, ◌-◌, ◌/◌, ◌<◌, ◌≡◌, refl, ◌∙◌, ap, String, Bool, none, some, List, [],
  ◌∷◌, ◌++◌, if◌then◌else◌, length, any, arith,
}
use hoster.Prelude.Dict.{Dict}
use hoster.Prelude.Float.{Float64}
use hoster.Prelude.Int.{ℤ, pos, negsuc, ltb_ℤ, wrap64, add64, wrap64_of_IsInt64, half64, ◌+ℤ◌}
use hoster.Prelude.Text.{Text, text_eq}
use hoster.Compose.{Service, ParsedSpec}
use hoster.Deployment.{Resources}
use hoster.Plan.Variables.{match, print}

-- `DefaultMemoryPerService` and `DefaultDiskPerVolume`.
abbrev pub default_memory_per_service : ℕ
default_memory_per_service = 268435456

abbrev pub default_disk_per_volume : ℕ
default_disk_per_volume = 1024

-- Go's division of an `int64` by a positive constant, which rounds towards 0.
abbrev negated : ℕ → ℤ
negated zero = pos 0
negated (suc n) = negsuc n

unfoldable pub quot_ℤ : ℤ → ℕ → ℤ
quot_ℤ (pos n) d = pos (n / d)
quot_ℤ (negsuc n) d = negated (suc n / d)

-- What a service adds to the memory.
abbrev pub memory_charge : ℤ → ℤ
memory_charge limit = if ltb_ℤ (pos 0) limit then limit else pos default_memory_per_service

-- The loop over the services, in bytes.
unfoldable pub total_memory : {F : Type 0} → ℤ → List (Service F) → ℤ
total_memory total [] = total
total_memory total (svc ∷ rest) =
    total_memory (add64 total (memory_charge svc.resources.memory_limit)) rest

module _ (fl : Float64) where
  unfoldable pub total_cpu : fl.F → List (Service fl.F) → fl.F
  total_cpu total [] = total
  total_cpu total (svc ∷ rest) =
      let limit = svc.resources.cpu_limit in
      total_cpu (fl.add total (if fl.lt (fl.of_int (pos 0)) limit then limit else fl.decimal 5 1))
        rest

  -- `CalculateResources`.
  unfoldable pub calculate_resources : ParsedSpec fl.F → Resources fl.F
  unfolding total_cpu total_memory quot_ℤ
  calculate_resources spec = record {
    cpu_cores = total_cpu (fl.of_int (pos 0)) spec.services;
    memory_mb = quot_ℤ (total_memory (pos 0) spec.services) 1048576;
    disk_mb = wrap64 (pos (length spec.volumes * default_disk_per_volume));
  }

  abbrev pub Problem : Type 0
  Problem = String × String

  abbrev report : Bool → Problem → List Problem → List Problem
  report bad p ps = if bad then p ∷ ps else ps

  -- The errors of one service, by its name and the field.
  unfoldable pub service_errors : Service fl.F → List Problem
  service_errors svc =
      let r = svc.resources in
      report (fl.lt r.cpu_limit (fl.of_int (pos 0))) (svc.name, "cpu_limit")
        (report (fl.lt r.cpu_reservation (fl.of_int (pos 0))) (svc.name, "cpu_reservation")
          (report (ltb_ℤ r.memory_limit (pos 0)) (svc.name, "memory_limit")
            (report (ltb_ℤ r.memory_reservation (pos 0)) (svc.name, "memory_reservation") [])))

  -- `ValidateParsedSpec`.
  unfoldable pub validate_services : List (Service fl.F) → List Problem
  unfolding service_errors
  validate_services [] = []
  validate_services (svc ∷ rest) = service_errors svc ++ validate_services rest

  unfoldable pub validate_parsed_spec : ParsedSpec fl.F → List Problem
  unfolding validate_services
  validate_parsed_spec spec = validate_services spec.services

-- FindAllStringSubmatch: the names of the matches from a place on.
unfoldable pub find_names : ℕ → Text → List Text
unfolding match
find_names skip [] = []
find_names (suc skip) (c ∷ s) = find_names skip s
find_names zero (c ∷ s) = elim (match (c ∷ s)) [
  | none ↦ find_names 0 s
  | some p ↦ p.name ∷ find_names (length (print p) - 1) s
]

-- The names that were not seen before, behind those that were.
unfoldable pub add_new : List Text → List Text → List Text
add_new vars [] = vars
add_new vars (name ∷ names) =
    add_new (if any (λ v. text_eq v name) vars then vars else vars ++ name ∷ []) names

unfoldable pub extract_from : List Text → Dict Text → List Text
unfolding find_names add_new
extract_from vars [] = vars
extract_from vars ((k, v) ∷ env) = extract_from (add_new vars (find_names 0 v)) env

unfoldable pub extract_each : {F : Type 0} → List Text → List (Service F) → List Text
unfolding extract_from
extract_each vars [] = vars
extract_each vars (svc ∷ rest) = extract_each (extract_from vars svc.environment) rest

-- `ExtractVariables`, for the order of the environment's entries.
unfoldable pub extract_variables : {F : Type 0} → ParsedSpec F → List Text
unfolding extract_each
extract_variables spec = extract_each [] spec.services

-- `ExtractVariablesFromYAML`.
unfoldable pub extract_variables_from_yaml : Text → List Text
unfolding find_names add_new
extract_variables_from_yaml yaml = add_new [] (find_names 0 yaml)

-- The bytes that a service is counted with: its limit, if that is positive, or else 256 MB.
abbrev pub bytes_of : ℤ → ℕ
bytes_of (pos zero) = 256 * 1048576
bytes_of (pos (suc n)) = suc n
bytes_of (negsuc n) = 256 * 1048576

abbrev pub memory_sum : {F : Type 0} → List (Service F) → ℕ
memory_sum [] = 0
memory_sum (svc ∷ rest) = bytes_of svc.resources.memory_limit + memory_sum rest

add64_charge :
    (a : ℕ) (b : ℤ)
    → a + bytes_of b < half64
    → add64 (pos a) (memory_charge b) ≡ pos (a + bytes_of b)
unfolding add64 ◌+ℤ◌ wrap64
add64_charge a (pos zero) h = ground arith
add64_charge a (pos (suc n)) h = ground arith
add64_charge a (negsuc n) h = ground arith

total_memory-sum :
    {F : Type 0} (services : List (Service F)) (a : ℕ)
    → a + memory_sum services < half64
    → total_memory (pos a) services ≡ pos (a + memory_sum services)
unfolding total_memory
total_memory-sum [] a h = ground arith
total_memory-sum (svc ∷ rest) a h =
    let b = svc.resources.memory_limit in
    rw (add64_charge a b (omega arith))
      (total_memory-sum rest (a + bytes_of b) (omega arith) ∙ ap pos (omega arith))

-- Where the sums fit in 64 bits, CalculateResources gives the megabytes, rounded down, of what the
-- services are counted with, each its memory limit if that is positive and else 256 MB, and 1024 MB of disk
-- for each volume.
pub calculate_resources_totals :
    (fl : Float64) (spec : ParsedSpec fl.F)
    → memory_sum spec.services < half64
    → length spec.volumes * 1024 < half64
    → ((calculate_resources fl spec).memory_mb ≡ pos (memory_sum spec.services / 1048576))
      × ((calculate_resources fl spec).disk_mb ≡ pos (length spec.volumes * 1024))
unfolding calculate_resources quot_ℤ
calculate_resources_totals fl spec h k = (
  rw (total_memory-sum spec.services 0 (omega arith))
      (let e : 0 + memory_sum spec.services ≡ memory_sum spec.services = omega arith in rw e refl),
  wrap64_of_IsInt64 (pos (length spec.volumes * 1024)) (k, omega arith),
)
