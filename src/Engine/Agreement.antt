-- ===== src/Engine/Agreement.antt =====
-- `Transition` of the store (internal/engine/store.go) against `Transition` of a deployment
-- (internal/core/domain/deployment.go).
use hoster.Prelude.{
  ℕ, ◌≡◌, ◌≢◌, refl, ◌∙◌, ◌⊎◌, inl, inr, String, true, Option, none, some, ◌&&◌, not, str_eq,
  if◌then◌else◌, Result, ok, err, Bool-cases, Option-cases,
}
use hoster.Prelude.Dict.{lookup}
use hoster.Deployment as Domain
use hoster.Deployment.{Deployment, starting, status_eq, validate_transition}
use hoster.Server.{status_text}
use hoster.Engine.{
  StateMachine, Row, Value, null, text, Error, deployment_machine, guarded, guard_error, finish,
  is_missing, transition, guard_failed, invalid_transition,
}
use hoster.Engine.Machines.{is_known, is_none, deployment_machine_same}

-- The column of the node: its text, or for none also a null or no column.
abbrev pub HasNode : Row → String → Type 0
HasNode row node =
    (lookup "node_id" row ≡ some (text node))
    ⊎ ((node ≡ "") × ((lookup "node_id" row ≡ some null) ⊎ (lookup "node_id" row ≡ none)))

-- The guard of the deployment machine is the check for a node.
guard_at :
    (row : Row) (node : String) (to : Domain.Status)
    → is_known to ≡ true
    → HasNode row node
    → guard_error deployment_machine row (status_text to)
      ≡ (if status_eq to starting && str_eq node "" then some "node_id" else none)
unfolding is_missing
guard_at row node Domain.pending k h = refl
guard_at row node Domain.scheduled k h = refl
guard_at row node Domain.starting k (inl h) = rw h refl
guard_at row node Domain.starting k (inr (e, inl h)) = rw h (rw e refl)
guard_at row node Domain.starting k (inr (e, inr h)) = rw h (rw e refl)
guard_at row node Domain.running k h = refl
guard_at row node Domain.stopping k h = refl
guard_at row node Domain.stopped k h = refl
guard_at row node Domain.deleting k h = refl
guard_at row node Domain.deleted k h = refl
guard_at row node Domain.failed k h = refl
guard_at row node (Domain.other s) k h = cc

module _ {F : Type 0} (get : String → Result Error Row)
    (schema : String → Option (Option StateMachine))
    (registered : schema "deployments" ≡ some (some deployment_machine)) (ref : String) (row : Row)
    (stored : get ref ≡ ok row) (d : Deployment F)
    (status : lookup "status" row ≡ some (text (status_text d.status)))
    (node : HasNode row d.node_id) where
  opened :
      (update : String → String → Value → Result Error Row) (to : Domain.Status)
      → is_known d.status ≡ true
      → is_known to ≡ true
      → transition get update schema "deployments" ref (status_text to) ≡ (
          if not (is_none (validate_transition d.status to))
          then err (invalid_transition (status_text d.status) (status_text to))
          else guarded deployment_machine
              (status_text to)
              (if status_eq to starting && str_eq d.node_id "" then some "node_id" else none)
              (update ref "status" (text (status_text to))))
  unfolding transition
  opened update to k l =
      rw
        (
          transition,
          registered,
          stored,
          status,
          guard_at row d.node_id to l node,
          deployment_machine_same d.status to k l,
        )
        refl

  -- For the row of a deployment in the database, with known statuses, the store and the domain accept
  -- the same transitions: where `Transition` of the domain returns nil, that of the store updates the
  -- status and returns what the update returned, and where the domain returns an error, the store
  -- returns one that is the same whatever an update would return. A deployment without a node may have
  -- an empty text, a null or no value in the column of the node.
  pub transition_agrees :
      (now later : ℕ) (update : String → String → Value → Result Error Row) (to : Domain.Status)
      → is_known d.status ≡ true
      → is_known to ≡ true
      → (((Domain.transition now later to d).1 ≡ none)
          × (transition get update schema "deployments" ref (status_text to)
              ≡ finish deployment_machine
                  (status_text to)
                  (update ref "status" (text (status_text to)))))
        ⊎ (((Domain.transition now later to d).1 ≢ none)
            × ((e : Error) × ((other : String → String → Value → Result Error Row)
                  → transition get other schema "deployments" ref (status_text to) ≡ err e)))
  unfolding Domain.transition
  transition_agrees now later update to k l =
      elim (Option-cases (validate_transition d.status to)) [
        | inr (x, e) ↦ inr (
          rw (e, Domain.transition) (λ p. cc),
          (
            invalid_transition (status_text d.status) (status_text to),
            λ other. opened other to k l ∙ rw e refl,
          ),
        )
        | inl e ↦ elim (Bool-cases (status_eq to starting && str_eq d.node_id "")) [
          | inl b ↦ inr (
            rw (e, Domain.transition) (rw b (λ p. cc)),
            (guard_failed "node_id", λ other. opened other to k l ∙ rw e (rw b refl)),
          )
          | inr b ↦
              inl (rw (e, Domain.transition) (rw b refl), opened update to k l ∙ rw e (rw b refl))
        ]
      ]
