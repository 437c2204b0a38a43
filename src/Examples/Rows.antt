-- ===== src/Examples/Rows.antt =====
-- The theorems about the engine at sample rows (internal/engine).
use hoster.Prelude.{
  ◌≡◌, ◌≢◌, refl, ◌⊎◌, inl, inr, ◌||◌, ◌&&◌, String, true, Option, none, some, [], ◌∷◌, Result, ok,
  err,
}
use hoster.Deployment as Domain
use hoster.Provision as Cloud
use hoster.Engine.{
  StateMachine, Row, Value, null, text, Error, can_transition, deployment_machine,
  provision_machine, transition, finish,
}
use hoster.Engine.Machines.{provision_machine_extra, is_none}
use hoster.Engine.Agreement.{transition_agrees}
use hoster.Examples.{deployment_at}

provision_machine_extra_example : can_transition provision_machine "creating" "destroying" ≡ (
    is_none (Cloud.validate_provision_transition Cloud.creating Cloud.destroying) || (true && true))
unfolding Cloud.is_valid_status
provision_machine_extra_example = provision_machine_extra Cloud.creating Cloud.destroying refl refl

-- The row of a deployment that is scheduled, on no node.
abbrev unplaced : Row
unplaced = ("status", text "scheduled") ∷ ("node_id", null) ∷ []

abbrev resources : String → Option (Option StateMachine)
resources name = some (some deployment_machine)

abbrev read : String → Result Error Row
read ref = ok unplaced

abbrev write : String → String → Value → Result Error Row
write ref column value = ok ((column, value) ∷ unplaced)

transition_agrees_example :
    (((Domain.transition 1 2 Domain.starting (deployment_at Domain.scheduled "")).1 ≡ none)
      × (transition read write resources "deployments" "depl_7" "starting"
          ≡ finish deployment_machine "starting" (write "depl_7" "status" (text "starting"))))
    ⊎ (((Domain.transition 1 2 Domain.starting (deployment_at Domain.scheduled "")).1 ≢ none)
        × ((e : Error) × ((other : String → String → Value → Result Error Row)
              → transition read other resources "deployments" "depl_7" "starting" ≡ err e)))
transition_agrees_example =
    transition_agrees read resources refl "depl_7" unplaced refl (deployment_at Domain.scheduled "")
      refl (inr (refl, inl refl)) 1 2 write Domain.starting refl refl
