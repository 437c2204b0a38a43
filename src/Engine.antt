-- ===== src/Engine.antt =====
-- internal/engine: the state machines of the resources (schema.go, resources.go) and `Transition` of the
-- store (store.go).
--
-- A row is a map from columns to values; the values are those of Go's `any` that the driver returns.
-- `Get` and `Update`, which run SQL, are parameters.
pub mod Machines
pub mod Agreement
pub mod Store
pub mod Handlers
use hoster.Prelude.{
  zero, String, Bool, true, false, Option, none, some, List, [], ◌∷◌, str_eq, mem, if◌then◌else◌,
  not, Result, ok, err,
}
use hoster.Prelude.Dict.{Dict, lookup}
use hoster.Prelude.Int.{ℤ, pos}
use hoster.Prelude.Text.{Text}

-- What a row holds in a column: a value of the driver, or one that the store makes of it. A `float64`
-- stands by its whole part and whether it is 0; what json.Unmarshal and time.Parse give, by its text.
pub data Value : Type 0 where
  null : Value
  text bytes json time : String → Value
  int int64 : ℤ → Value
  float64 : ℤ → Bool → Value
  bool : Bool → Value

pub data Error : Type 0 where
  unknown_resource no_machine not_found : Error
  invalid_transition : String → String → Error
  guard_failed validation : String → Error
  encode_failed database : Text → Error

abbrev pub Row : Type 0
Row = Dict Value

-- A guard is `RequireField` of the column that it names.
pub record StateMachine : Type 0 where
  pub field : String
  pub initial : String
  pub transitions : Dict (List String)
  pub guards : Dict String
  pub on_enter : Dict String

-- `CanTransition`.
unfoldable pub can_transition : StateMachine → String → String → Bool
can_transition sm from to = elim (lookup from sm.transitions) [
  | none ↦ false
  | some allowed ↦ mem to allowed
]

-- The machine of `DeploymentResource`.
abbrev pub deployment_machine : StateMachine
deployment_machine = record {
  field = "status";
  initial = "pending";
  transitions =
      ("pending", "scheduled" ∷ [])
      ∷ ("scheduled", "starting" ∷ [])
      ∷ ("starting", "running" ∷ "failed" ∷ [])
      ∷ ("running", "stopping" ∷ "failed" ∷ [])
      ∷ ("stopping", "stopped" ∷ [])
      ∷ ("stopped", "starting" ∷ "deleting" ∷ [])
      ∷ ("deleting", "deleted" ∷ [])
      ∷ ("failed", "starting" ∷ "deleting" ∷ [])
      ∷ ("deleted", [])
      ∷ [];
  guards = ("starting", "node_id") ∷ [];
  on_enter =
      ("scheduled", "ScheduleDeployment")
      ∷ ("starting", "StartDeployment")
      ∷ ("stopping", "StopDeployment")
      ∷ ("deleting", "DeleteDeployment")
      ∷ ("running", "DeploymentRunning")
      ∷ ("failed", "DeploymentFailed")
      ∷ [];
}

-- The machine of `CloudProvisionResource`.
abbrev pub provision_machine : StateMachine
provision_machine = record {
  field = "status";
  initial = "pending";
  transitions =
      ("pending", "creating" ∷ "failed" ∷ "destroying" ∷ [])
      ∷ ("creating", "configuring" ∷ "failed" ∷ "destroying" ∷ [])
      ∷ ("configuring", "ready" ∷ "failed" ∷ "destroying" ∷ [])
      ∷ ("ready", "destroying" ∷ [])
      ∷ ("failed", "pending" ∷ "destroying" ∷ [])
      ∷ ("destroying", "destroyed" ∷ "failed" ∷ [])
      ∷ ("destroyed", [])
      ∷ [];
  guards = [];
  on_enter =
      ("creating", "ProvisionInstance")
      ∷ ("configuring", "ConfigureInstance")
      ∷ ("ready", "ProvisionReady")
      ∷ ("destroying", "DestroyInstance")
      ∷ [];
}

-- The guard of `RequireField`: whether it returns an error. The constants that it compares with are a
-- string and an `int`, so bytes and an `int64` are never equal to them.
unfoldable pub is_missing : Option Value → Bool
is_missing none = true
is_missing (some null) = true
is_missing (some (text s)) = str_eq s ""
is_missing (some (int (pos zero))) = true
is_missing _ = false

-- The state of a row: a string, or bytes, or else the empty string.
abbrev pub state_of : Option Value → String
state_of (some (text s)) = s
state_of (some (bytes s)) = s
state_of _ = ""

abbrev pub guard_error : StateMachine → Row → String → Option String
guard_error sm row to = elim (lookup to sm.guards) [
  | none ↦ none
  | some field ↦ if is_missing (lookup field row) then some field else none
]

abbrev pub command : Option String → String
command none = ""
command (some c) = c

abbrev pub finish : StateMachine → String → Result Error Row → Result Error (Row × String)
finish sm to (err e) = err e
finish sm to (ok row) = ok (row, command (lookup to sm.on_enter))

abbrev pub guarded :
    StateMachine → String → Option String → Result Error Row → Result Error (Row × String)
guarded sm to none updated = finish sm to updated
guarded sm to (some field) updated = err (guard_failed field)

module _ (get : String → Result Error Row)
    (update : String → String → Value → Result Error Row) where
  abbrev pub with_row :
      StateMachine → String → String → Result Error Row → Result Error (Row × String)
  with_row sm ref to (err e) = err e
  with_row sm ref to (ok row) =
      let from = state_of (lookup sm.field row) in
      let go = guarded sm to (guard_error sm row to) (update ref sm.field (text to)) in
      if not (can_transition sm from to) then err (invalid_transition from to) else go

  abbrev for_machine : Option StateMachine → String → String → Result Error (Row × String)
  for_machine none ref to = err no_machine
  for_machine (some sm) ref to = with_row sm ref to (get ref)

  -- `Transition`: the row after it and the command to dispatch. A resource may have no machine.
  unfoldable pub transition :
      (String → Option (Option StateMachine))
      → String
      → String
      → String
      → Result Error (Row × String)
  transition schema resource ref to = elim (schema resource) [
    | none ↦ err unknown_resource
    | some machine ↦ for_machine machine ref to
  ]
