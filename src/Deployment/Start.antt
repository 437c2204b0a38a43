-- ===== src/Deployment/Start.antt =====
-- internal/core/deployment/planner.go: which transitions a start takes, and whether a stop is allowed.
use Prim.Native.String.{String}
use hoster.Prelude.{
  ℕ, ◌≡◌, refl, ◌≢◌, ◌↔◌, Bool, true, false, not, List, [], ◌∷◌, arith, if◌then◌else◌,
}
use hoster.Deployment.{
  Status, pending, scheduled, starting, running, stopping, stopped, deleting, deleted, failed,
  Deployment, status_eq, validate_transition,
}
use hoster.Deployment.Lifecycle.{
  ◌⟶◌, schedule, start, restart, retry, validate_complete, validate_sound,
}
use hoster.Deployment.Paths.{Arrives, Arrives-cons, Arrives-nil}

pub record StartPath : Type 0 where
  pub valid : Bool
  pub transitions : List Status
  pub error_reason : String

abbrev refuse : String → StartPath
refuse reason = record { valid = false; transitions = []; error_reason = reason }

abbrev path : List Status → StartPath
path ss = record { valid = true; transitions = ss; error_reason = "" }

-- `DetermineStartPath`.
unfoldable pub determine_start_path : Status → StartPath
determine_start_path pending = path (scheduled ∷ starting ∷ [])
determine_start_path stopped = path (starting ∷ [])
determine_start_path failed = path (starting ∷ [])
determine_start_path running = refuse "deployment is already running"
determine_start_path starting = refuse "deployment is already starting"
determine_start_path stopping = refuse "deployment is currently stopping"
determine_start_path deleting = refuse "deployment is being deleted"
determine_start_path deleted = refuse "cannot start deleted deployment"
determine_start_path scheduled = refuse "deployment is already scheduled"
determine_start_path _ = refuse "cannot start deployment in current state"

-- `CanStopDeployment`.
unfoldable pub can_stop_deployment : Status → Bool × String
can_stop_deployment s =
    if not (status_eq s running) then (false, "deployment is not running") else (true, "")

module _ {F : Type 0} where
  starts :
      (now : ℕ) (s : Status) (d : Deployment F)
      → d.status ≡ s
      → d.node_id ≢ ""
      → (determine_start_path s).valid ≡ true
      → Arrives now (determine_start_path s).transitions d starting
  unfolding determine_start_path
  starts now pending d p n v =
      Arrives-cons now _ d schedule p n
        (λ e q m. Arrives-cons now _ e start q m (λ f r _. Arrives-nil now f r))
  starts now stopped d p n v = Arrives-cons now _ d restart p n (λ f r _. Arrives-nil now f r)
  starts now failed d p n v = Arrives-cons now _ d retry p n (λ f r _. Arrives-nil now f r)
  starts now _ d p n v = cc

  -- The plan of a start is one that the state machine carries out: where `DetermineStartPath` calls
  -- the start valid, `Transition` accepts its transitions one after another on a deployment with a
  -- node, and the last leads to `starting`.
  pub start_path-Arrives :
      (now : ℕ) (d : Deployment F)
      → d.node_id ≢ ""
      → (determine_start_path d.status).valid ≡ true
      → Arrives now (determine_start_path d.status).transitions d starting
  start_path-Arrives now d n v = starts now d.status d refl n v

-- `DetermineStartPath` refuses a start for which the state machine has an edge only while the
-- deployment is scheduled.
pub refused_edge :
    (s : Status) → ((s ⟶ starting) × ((determine_start_path s).valid ≡ false)) ↔ (s ≡ scheduled)
unfolding determine_start_path validate_transition
refused_edge s =
    (λ (edge, refused). ground (arith, validate_complete edge), λ p. (rw p start, rw p))

-- A stop is allowed exactly where the state machine has an edge to `stopping`.
pub can_stop_iff : (s : Status) → ((can_stop_deployment s).0 ≡ true) ↔ (s ⟶ stopping)
unfolding can_stop_deployment validate_transition
can_stop_iff s =
    (λ h. validate_sound s stopping (ground arith), λ edge. ground (arith, validate_complete edge))
