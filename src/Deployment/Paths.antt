-- ===== src/Deployment/Paths.antt =====
-- Walks through the life of a deployment: internal/core/domain/deployment.go, Transition and
-- TransitionToFailed.
use Prim.Native.String.{String}
use hoster.Prelude.{
  ℕ, ◌≡◌, refl, ◌≢◌, ◌↔◌, inl, inr, Option, none, some, List, [], ◌∷◌, arith, sym, ◌∙◌, subst,
}
use hoster.Deployment.{
  Status, pending, scheduled, starting, running, stopping, stopped, deleting, deleted, failed,
  other, Error, Deployment, transition, transition_to_failed, enter, validate_transition,
}
use hoster.Deployment.Lifecycle.{
  ◌⟶◌, schedule, start, start_failed, crashed, stop_done, validate_complete, remove, discard,
  remove_done, Reach, here, next, Step, moved, broke, assigned, transition_cases,
}

-- The shortest way to `deleted`.
unfoldable pub route : Status → List Status
route pending = scheduled ∷ starting ∷ failed ∷ deleting ∷ deleted ∷ []
route scheduled = starting ∷ failed ∷ deleting ∷ deleted ∷ []
route starting = failed ∷ deleting ∷ deleted ∷ []
route running = failed ∷ deleting ∷ deleted ∷ []
route stopping = stopped ∷ deleting ∷ deleted ∷ []
route stopped = deleting ∷ deleted ∷ []
route failed = deleting ∷ deleted ∷ []
route deleting = deleted ∷ []
route _ = []

no_edge_from_deleted : {s to : Status} → s ⟶ to → s ≢ deleted
unfolding validate_transition
no_edge_from_deleted edge = λ p. ground (arith, validate_complete edge)

module _ {F : Type 0} where
  -- The rest of a walk, unless the transition before it failed.
  abbrev then_walk :
      (Deployment F → Deployment F × Option Error)
      → Deployment F × Option Error
      → Deployment F × Option Error
  then_walk rest (e, none) = rest e
  then_walk rest (e, some x) = (e, some x)

  -- The transitions of a list, one after another, up to the first error.
  unfoldable pub walk : ℕ → List Status → Deployment F → Deployment F × Option Error
  walk now [] d = (d, none)
  walk now (s ∷ ss) d = then_walk (walk now ss) (transition now now s d)

  -- The walk reaches a deployment of the given status, on the same node.
  abbrev pub Arrives : ℕ → List Status → Deployment F → Status → Type 0
  Arrives now ss d s =
      (e : Deployment F) × (walk now ss d ≡ (e, none)) × (e.status ≡ s) × (e.node_id ≡ d.node_id)

  transition_edge :
      (now : ℕ) {s to : Status} (d : Deployment F)
      → s ⟶ to
      → d.status ≡ s
      → d.node_id ≢ ""
      → transition now now to d ≡ (enter now now to d, none)
  transition_edge now {s} {to} d edge p node = elim (transition_cases now now to d) [
    | inl (_, _, r) ↦ r
    | inr (inl (_, _, empty, _)) ↦ absurd (node empty)
    | inr (inr (no_edge, _)) ↦ absurd (no_edge (subst (λ x. x ⟶ to) (sym p) edge))
  ]

  enter_keeps :
      (now : ℕ) (to : Status) (d : Deployment F)
      → ((enter now now to d).status ≡ to) × ((enter now now to d).node_id ≡ d.node_id)
  unfolding enter
  enter_keeps now to d = ground arith

  -- One more transition in front of a walk.
  pub Arrives-cons :
      (now : ℕ) {s to last : Status} (ss : List Status) (d : Deployment F)
      → s ⟶ to
      → d.status ≡ s
      → d.node_id ≢ ""
      → ((e : Deployment F) → e.status ≡ to → e.node_id ≢ "" → Arrives now ss e last)
      → Arrives now (to ∷ ss) d last
  unfolding walk
  Arrives-cons now {s} {to} ss d edge p node rest =
      let (status, same) = enter_keeps now to d in
      let (e, went, end, kept) = rest (enter now now to d) status (λ q. node (sym same ∙ q)) in
      (e, rw (transition_edge now d edge p node, walk) went, end, kept ∙ same)

  pub Arrives-nil : (now : ℕ) (d : Deployment F) {s : Status} → d.status ≡ s → Arrives now [] d s
  unfolding walk
  Arrives-nil now d p = (d, refl, p, refl)

  module _ (now : ℕ) where
    by_deleting :
        (d : Deployment F)
        → d.status ≡ deleting
        → d.node_id ≢ ""
        → Arrives now (deleted ∷ []) d deleted
    by_deleting d p n = Arrives-cons now [] d remove_done p n (λ e q _. Arrives-nil now e q)

    by_failed :
        (d : Deployment F)
        → d.status ≡ failed
        → d.node_id ≢ ""
        → Arrives now (deleting ∷ deleted ∷ []) d deleted
    by_failed d p n = Arrives-cons now _ d discard p n by_deleting

    by_stopped :
        (d : Deployment F)
        → d.status ≡ stopped
        → d.node_id ≢ ""
        → Arrives now (deleting ∷ deleted ∷ []) d deleted
    by_stopped d p n = Arrives-cons now _ d remove p n by_deleting

    by_starting :
        (d : Deployment F)
        → d.status ≡ starting
        → d.node_id ≢ ""
        → Arrives now (failed ∷ deleting ∷ deleted ∷ []) d deleted
    by_starting d p n = Arrives-cons now _ d start_failed p n by_failed

    by_scheduled :
        (d : Deployment F)
        → d.status ≡ scheduled
        → d.node_id ≢ ""
        → Arrives now (starting ∷ failed ∷ deleting ∷ deleted ∷ []) d deleted
    by_scheduled d p n = Arrives-cons now _ d start p n by_starting

    route_from :
        (s : Status) (d : Deployment F)
        → d.status ≡ s
        → ((t : String) → s ≢ other t)
        → d.node_id ≢ ""
        → Arrives now (route s) d deleted
    unfolding route
    route_from pending d p k n = Arrives-cons now _ d schedule p n by_scheduled
    route_from scheduled d p k n = by_scheduled d p n
    route_from starting d p k n = by_starting d p n
    route_from running d p k n = Arrives-cons now _ d crashed p n by_failed
    route_from stopping d p k n = Arrives-cons now _ d stop_done p n by_stopped
    route_from stopped d p k n = by_stopped d p n
    route_from failed d p k n = by_failed d p n
    route_from deleting d p k n = by_deleting d p n
    route_from deleted d p k n = Arrives-nil now d p
    route_from (other t) d p k n = absurd (k t refl)

  -- From every known status a deployment that has a node can be brought to `deleted` by calls of
  -- `Transition` that all succeed, those of `route`.
  pub deletable :
      (now : ℕ) (d : Deployment F)
      → ((t : String) → d.status ≢ other t)
      → d.node_id ≢ ""
      → Arrives now (route d.status) d deleted
  deletable now d k n = route_from now d.status d refl k n

  Step-deleted : {d e : Deployment F} → Step d e → d.status ≡ deleted → e.status ≡ deleted
  unfolding transition_to_failed
  Step-deleted {d} (moved now later to t) p = elim (transition_cases now later to d) [
    | inl (edge, _, _) ↦ absurd (no_edge_from_deleted edge p)
    | inr (inl (edge, _, _, _)) ↦ absurd (no_edge_from_deleted edge p)
    | inr (inr (_, r)) ↦ cc
  ]
  Step-deleted (broke now m t) p = ground arith
  Step-deleted (assigned node _ q) p = ground arith

  -- `deleted` is for ever: whatever calls follow, the deployment stays deleted.
  pub Reach-deleted : {d e : Deployment F} → Reach d e → d.status ≡ deleted → e.status ≡ deleted
  Reach-deleted here p = p
  Reach-deleted (next r s) p = Step-deleted s (Reach-deleted r p)

  -- `TransitionToFailed` succeeds where the table has no edge to `failed` exactly for a deployment that
  -- is stopping.
  pub fail_beyond_table :
      (now : ℕ) (m : String) (d : Deployment F)
      → (((transition_to_failed now m d).1 ≡ none) × (validate_transition d.status failed ≢ none))
        ↔ (d.status ≡ stopping)
  unfolding transition_to_failed validate_transition
  fail_beyond_table now m d = (λ h. ground arith, λ h. ground arith)
