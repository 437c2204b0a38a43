-- ===== src/Examples/Deployments.antt =====
-- The theorems about deployments at sample deployments (internal/core/domain/deployment.go).
use hoster.Prelude.{◌≡◌, refl, ◌≢◌, ◌⊎◌, none, some, [], ◌∷◌, ok}
use hoster.Prelude.Text.{codes}
use hoster.Deployment.{
  pending, scheduled, starting, stopping, deleted, failed, invalid_transition, node_required,
  Deployment, validate_transition, transition, enter, transition_to_failed,
}
use hoster.Deployment.Lifecycle.{
  ◌⟶◌, Inv, Step, IsFresh, here, next, moved, transition_cases, Reach-Inv,
}
use hoster.Deployment.Paths.{Arrives, route, deletable, fail_beyond_table}
use hoster.Deployment.Start.{determine_start_path, start_path-Arrives}
use hoster.Deployment.Create.{new_deployment, new_deployment_iff}
use hoster.Examples.{deployment_at, blog}

transition_cases_example :
    let d = deployment_at scheduled "" in
    ((scheduled ⟶ starting)
      × (starting ≡ starting → d.node_id ≢ "")
      × (transition 1 2 starting d ≡ (enter 1 2 starting d, none)))
    ⊎ ((scheduled ⟶ starting)
        × (starting ≡ starting)
        × (d.node_id ≡ "")
        × (transition 1 2 starting d ≡ (d, some node_required)))
    ⊎ ((¬ (scheduled ⟶ starting)) × (transition 1 2 starting d ≡ (d, some invalid_transition)))
transition_cases_example = transition_cases 1 2 starting (deployment_at scheduled "")

-- A fresh deployment is scheduled, assigned to a node and started.
to_scheduled :
    Step
      (deployment_at pending "")
      (record (deployment_at pending "") { status = scheduled; updated_at = 1 })
unfolding transition enter validate_transition
to_scheduled = moved 1 1 scheduled refl

Reach-Inv_example : Inv (record (deployment_at pending "") { status = scheduled; updated_at = 1 })
Reach-Inv_example =
    Reach-Inv {e = record (deployment_at pending "") { status = scheduled; updated_at = 1 }}
      (record { waiting = refl; silent = refl }) (next here to_scheduled)

deletable_example : Arrives 1 (route pending) (deployment_at pending "node_1") deleted
deletable_example = deletable 1 (deployment_at pending "node_1") (λ t e. cc) (λ e. cc)

fail_beyond_table_example :
    ((transition_to_failed 1 "oom" (deployment_at stopping "n")).1 ≡ none)
    × (validate_transition stopping failed ≢ none)
fail_beyond_table_example = (fail_beyond_table 1 "oom" (deployment_at stopping "n")).1 refl

start_path-Arrives_example :
    Arrives 1 (determine_start_path failed).transitions (deployment_at failed "n") starting
unfolding determine_start_path
start_path-Arrives_example = start_path-Arrives 1 (deployment_at failed "n") (λ e. cc) refl

new_deployment_iff_example :
    (d : Deployment _) × (new_deployment "depl_1" (codes "a1b2c3") 1 blog 5 (("PASSWORD", "x") ∷ [])
      ≡ ok d)
    × IsFresh d
    × (d.node_id ≡ "")
    × (d.customer_id ≡ 5)
new_deployment_iff_example =
    (new_deployment_iff "depl_1" (codes "a1b2c3") 1 blog 5 (("PASSWORD", "x") ∷ [])).1
      (refl, (λ r e. cc, tt))
