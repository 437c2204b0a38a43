-- ===== src/Engine/Handlers/Stuck.antt =====
-- What a failed start leaves of a deployment: failDeployment and scheduleDeployment of
-- internal/engine/handlers.go.
use hoster.Prelude.{
  ◌≡◌, ◌≢◌, refl, ◌⊎◌, inl, inr, String, true, false, some, [], ◌∷◌, str_eq, ok, err, Bool-cases,
  arith, str_eq_iff,
}
use hoster.Prelude.Dict.{lookup}
use hoster.Engine.{Row, text, deployment_machine, can_transition, Error}
use hoster.Engine.Store.{Resource, get}
use hoster.Engine.Store.Rows.{IsPlain}
use hoster.Engine.Store.Moves.{IsTable, Holds, update-keeps}
use hoster.Engine.Store.Transitions.{transition-moves}
use hoster.Engine.Handlers.{
  Deps, Reason, failed, no_node, node_not_found, node_not_online, string_of, fail_deployment,
  schedule_deployment,
}

-- The node that a row names is not one that runs: it names none, or none is found, or it is not online.
abbrev pub Unusable : {S : Type 0} → Deps S → S → String → Type 0
Unusable d s node =
    (node ≡ "")
    ⊎ ((e : Error) × (get d.store s "nodes" node ≡ err e))
    ⊎ ((found : Row) × (get d.store s "nodes" node ≡ ok found)
        × (string_of (lookup "status" found) ≢ "online"))

named : (node : String) → str_eq node "" ≡ false → node ≢ ""
named node e empty = ground (arith, str_eq_iff node "")

offline : (status : String) → status ≢ "online" → str_eq status "online" ≡ false
offline status off = ground (arith, str_eq_iff status "online")

module _ {S : Type 0} (d : Deps S) (law : IsTable d.store.db) (res : Resource)
    (known : d.store.schema "deployments" ≡ some res)
    (machine : res.state_machine ≡ some deployment_machine)
    (plain : IsPlain "status" res.fields) where
  -- The deployment fails only from a status that has an edge to failed.
  pub fail_deployment-moves :
      (s : S) (ref from : String) (reason : Reason)
      → Holds d.store "deployments" ref s "status" from
      → Holds d.store "deployments" ref (fail_deployment d s ref reason).1 "status" from
        ⊎ (Holds d.store "deployments" ref (fail_deployment d s ref reason).1 "status" "failed"
            × (can_transition deployment_machine from "failed" ≡ true))
  unfolding fail_deployment
  fail_deployment-moves s ref from reason h =
      transition-moves d.store "deployments" ref res known law deployment_machine machine plain _
        from "failed"
        (update-keeps d.store "deployments" ref res known law s "status" from
          (("error_message", text (d.reason_text reason)) ∷ []) plain refl h)

  still_scheduled :
      (s : S) (ref : String) (reason : Reason)
      → Holds d.store "deployments" ref s "status" "scheduled"
      → Holds d.store "deployments" ref (fail_deployment d s ref reason).1 "status" "scheduled"
  unfolding can_transition
  still_scheduled s ref reason h = elim (fail_deployment-moves s ref "scheduled" reason h) [
    | inl w ↦ w
    | inr (w, e) ↦ cc
  ]

  -- Where the selected node cannot be used, scheduleDeployment returns the error of failDeployment, but
  -- the deployment does not become failed: its row still holds scheduled.
  pub schedule_deployment_stuck :
      (s : S) (row : Row)
      → Holds d.store "deployments" (string_of (lookup "reference_id" row)) s "status" "scheduled"
      → Unusable d s (string_of (lookup "node_id" row))
      → ((reason : Reason) × ((schedule_deployment d s row).0
            ≡ some (failed (string_of (lookup "reference_id" row)) reason)))
        × Holds d.store "deployments"
            (string_of (lookup "reference_id" row))
            (schedule_deployment d s row).1
            "status"
            "scheduled"
  unfolding schedule_deployment fail_deployment
  schedule_deployment_stuck s row h =
      let ref = string_of (lookup "reference_id" row) in
      let node = string_of (lookup "node_id" row) in
      elim (Bool-cases (str_eq node "")) [
        | inl e ↦
            λ u. rw (e, schedule_deployment) ((no_node, refl), still_scheduled s ref no_node h)
        | inr e ↦ λ u. elim u [
          | inl empty ↦ absurd (named node e empty)
          | inr (inl (x, f)) ↦
              rw (e, schedule_deployment)
                (rw f ((node_not_found node, refl), still_scheduled s ref (node_not_found node) h))
          | inr (inr (found, f, off)) ↦
              let status = string_of (lookup "status" found) in
              rw (e, schedule_deployment)
                (rw f (
                  rw (offline status off) (
                    (node_not_online node status, refl),
                    still_scheduled s ref (node_not_online node status) h,
                  )))
        ]
      ]
