-- ===== src/Deployment.antt =====
-- internal/core/domain/deployment.go: the record of a deployment and its state machine.
--
-- A method on `*Deployment` returns the record after the call and the error, `none` for nil. The
-- clock is an argument: `now` is the first reading of time.Now in the call, `later` the second. A
-- pointer to a time that may be nil is an `Option`. A status is a string in the source: its
-- constants are constructors here, and `other` is any other text. A name and a hostname are walked elsewhere, so
-- they are lists of bytes. CPU cores are of a type `F` that nothing here looks into (`float64` in the
-- source); a port and a database id are natural numbers.
pub mod Create
pub mod Lifecycle
pub mod Paths
pub mod Start
use hoster.Prelude.{
  ℕ, String, Bool, true, false, Option, none, some, List, [], ◌∷◌, ◌&&◌, if◌then◌else◌, str_eq, any,
}
use hoster.Prelude.Dict.{Dict}
use hoster.Prelude.Int.{ℤ}
use hoster.Prelude.Text.{Text}

pub data Status : Type 0 where
  pending scheduled starting running stopping stopped deleting deleted failed : Status
  other : String → Status

-- Equality of status strings. The text of `other` is none of the constants.
abbrev pub status_eq : Status → Status → Bool
status_eq pending pending = true
status_eq scheduled scheduled = true
status_eq starting starting = true
status_eq running running = true
status_eq stopping stopping = true
status_eq stopped stopped = true
status_eq deleting deleting = true
status_eq deleted deleted = true
status_eq failed failed = true
status_eq (other s) (other t) = str_eq s t
status_eq _ _ = false

pub data Error : Type 0 where
  template_not_published invalid_transition node_required : Error
  missing_variable : String → Error

pub data DomainType : Type 0 where
  auto custom : DomainType
  other : String → DomainType

pub data VerificationStatus : Type 0 where
  unneeded pending verified failed : VerificationStatus
  other : String → VerificationStatus

pub data VerificationMethod : Type 0 where
  no_method cname a_record : VerificationMethod
  other : String → VerificationMethod

pub record Domain : Type 0 where
  pub hostname : Text
  pub type : DomainType
  pub ssl_enabled : Bool
  pub ssl_expires_at : Option ℕ
  pub verification_status : VerificationStatus
  pub verification_method : VerificationMethod
  pub verified_at : Option ℕ
  pub last_check_error : String

pub record PortMapping : Type 0 where
  pub container_port : ℕ
  pub host_port : ℕ
  pub protocol : String

pub record ContainerInfo : Type 0 where
  pub id : String
  pub service_name : String
  pub image : String
  pub status : String
  pub ports : List PortMapping

pub record Resources (F : Type 0) : Type 0 where
  pub cpu_cores : F
  pub memory_mb : ℤ
  pub disk_mb : ℤ

pub record Deployment (F : Type 0) : Type 0 where
  pub id : ℕ
  pub reference_id : String
  pub name : Text
  pub template_id : ℕ
  pub template_ref_id : String
  pub template_version : Text
  pub customer_id : ℕ
  pub node_id : String
  pub status : Status
  pub variables : Dict String
  pub domains : List Domain
  pub containers : List ContainerInfo
  pub resources : Resources F
  pub proxy_port : ℕ
  pub error_message : String
  pub created_at : ℕ
  pub updated_at : ℕ
  pub started_at : Option ℕ
  pub stopped_at : Option ℕ

-- `validTransitions`. A status that is no key of the map reads as `none`.
unfoldable pub valid_transitions : Status → Option (List Status)
valid_transitions pending = some (scheduled ∷ [])
valid_transitions scheduled = some (starting ∷ [])
valid_transitions starting = some (running ∷ failed ∷ [])
valid_transitions running = some (stopping ∷ failed ∷ [])
valid_transitions stopping = some (stopped ∷ [])
valid_transitions stopped = some (starting ∷ deleting ∷ [])
valid_transitions deleting = some (deleted ∷ [])
valid_transitions failed = some (starting ∷ deleting ∷ [])
valid_transitions deleted = some []
valid_transitions (other s) = none

-- `ValidateTransition`.
unfoldable pub validate_transition : Status → Status → Option Error
unfolding valid_transitions
validate_transition from to = elim (valid_transitions from) [
  | none ↦ some invalid_transition
  | some allowed ↦ if any (λ s. status_eq s to) allowed then none else some invalid_transition
]

-- The statuses of the `case` in `TransitionToFailed`.
abbrev pub can_fail : Status → Bool
can_fail starting = true
can_fail running = true
can_fail stopping = true
can_fail _ = false

module _ {F : Type 0} where
  -- The assignments of `Transition`, after its checks.
  unfoldable pub enter : ℕ → ℕ → Status → Deployment F → Deployment F
  enter now later to d =
      let d₁ = record d { status = to; updated_at = now } in
      let d₂ = if status_eq to starting then record d₁ { error_message = "" } else d₁ in
      let d₃ = if status_eq to running then record d₂ { started_at = some later } else d₂ in
      if status_eq to stopped then record d₃ { stopped_at = some later } else d₃

  -- `Transition`.
  unfoldable pub transition : ℕ → ℕ → Status → Deployment F → Deployment F × Option Error
  transition now later to d = elim (validate_transition d.status to) [
    | some e ↦ (d, some e)
    | none ↦
        if status_eq to starting && str_eq d.node_id ""
        then (d, some node_required)
        else (enter now later to d, none)
  ]

  -- `TransitionToFailed`.
  unfoldable pub transition_to_failed : ℕ → String → Deployment F → Deployment F × Option Error
  transition_to_failed now message d =
      if can_fail d.status
      then (record d { status = failed; error_message = message; updated_at = now }, none)
      else (d, some invalid_transition)
