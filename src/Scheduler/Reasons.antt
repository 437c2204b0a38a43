-- ===== src/Scheduler/Reasons.antt =====
-- The counts and the errors of `Schedule` (internal/core/scheduler/scheduler.go).
use hoster.Prelude.{
  ℕ, ◌+◌, ◌<◌, ◌≡◌, refl, ◌∙◌, sym, ap, ◌↔◌, String, Bool, true, false, some, List, [], ◌∷◌, ◌&&◌,
  not, filter, any, if◌then◌else◌, arith, length, map,
}
use hoster.Prelude.Float.{Float64}
use hoster.Node.{Node, is_available}
use hoster.Scheduler.{
  Error, no_nodes_available, no_capable_nodes, ScheduleRequest, ScheduleResult, NodeCandidate,
  left_out, schedule, select, no_candidate, unselected, filter_online_nodes,
}
use hoster.Scheduler.Loop.{
  eligible, eligible_kept, is_kept, is_capable, is_reason, candidate, tally, consider-reasons,
  consider-considered,
}
use hoster.Scheduler.Choice.{start, end, schedule_end, end-candidates}

module _ (fl : Float64) (req : ScheduleRequest fl.F) where
  -- The node is online and lacks a capability that the template requires.
  abbrev pub is_incapable : Node fl.F → Bool
  is_incapable n = is_available n && not (is_capable fl req req.required_capabilities n)

  incapable_reason :
      (n : Node fl.F)
      → is_reason fl req "missing_required_capabilities" (left_out fl req n) ≡ is_incapable n
  unfolding left_out
  incapable_reason n = ground arith

  incapable_tally :
      (nodes : List (Node fl.F))
      → (tally fl req "missing_required_capabilities" nodes ≡ 0) ↔ (any is_incapable nodes ≡ false)
  incapable_tally [] = ground arith
  incapable_tally (n ∷ nodes) = rw (incapable_reason n) (ground (arith, incapable_tally nodes))

  -- Where the loop sends one node that is online.
  online_reason :
      (n : Node fl.F)
      → (if is_available n then 1 else 0)
        ≡ (if is_reason fl req "missing_required_capabilities" (left_out fl req n) then 1 else 0)
          + (if is_reason fl req "plan_capabilities_mismatch" (left_out fl req n) then 1 else 0)
          + (if is_reason fl req "insufficient_capacity" (left_out fl req n) then 1 else 0)
          + (if is_kept fl req n then 1 else 0)
  unfolding left_out
  online_reason n = ground arith

  online_total :
      (nodes : List (Node fl.F))
      → length (filter_online_nodes nodes)
        ≡ tally fl req "missing_required_capabilities" nodes
          + tally fl req "plan_capabilities_mismatch" nodes
          + tally fl req "insufficient_capacity" nodes
          + length (filter (is_kept fl req) nodes)
  unfolding filter_online_nodes
  online_total [] = refl
  online_total (n ∷ nodes) = ground (arith, online_reason n, online_total nodes)

  end-reasons : (k : String) → (end fl req).reasons k ≡ tally fl req k req.available_nodes
  unfolding end start
  end-reasons k = omega (arith, consider-reasons fl req (start fl req) req.available_nodes k)

  length-nil : {A : Type 0} (xs : List A) → (xs ≡ []) ↔ (length xs ≡ 0)
  length-nil [] = ground arith
  length-nil (x ∷ xs) = (λ h. cc, λ h. absurd (omega (arith, h)))

  end-considered : (end fl req).considered ≡ length req.available_nodes
  unfolding end start
  end-considered = omega (arith, consider-considered fl req (start fl req) req.available_nodes)

  module _ (none_left : eligible fl req req.available_nodes ≡ []) where
    error_of_counts :
        (reasons : String → ℕ) (missing mismatch insufficient online : ℕ)
        → reasons "missing_required_capabilities" ≡ missing
        → reasons "plan_capabilities_mismatch" ≡ mismatch
        → reasons "insufficient_capacity" ≡ insufficient
        → online ≡ missing + mismatch + insufficient
        → ((no_candidate fl reasons ≡ no_capable_nodes) ↔ (0 < missing))
          × ((no_candidate fl reasons ≡ no_nodes_available) ↔ (online ≡ 0))
    unfolding no_candidate
    error_of_counts reasons missing mismatch insufficient online a b c d =
        ground (arith, a, b, c, d)

    online_counts :
        length (filter_online_nodes req.available_nodes)
        ≡ tally fl req "missing_required_capabilities" req.available_nodes
          + tally fl req "plan_capabilities_mismatch" req.available_nodes
          + tally fl req "insufficient_capacity" req.available_nodes
    online_counts = omega (
      arith,
      online_total req.available_nodes,
      ap length (sym (eligible_kept fl req req.available_nodes) ∙ none_left),
    )

    -- If no node is eligible, `Schedule` has looked at every node, and its error tells why: some node
    -- that is online lacks a required capability exactly for ErrNoCapableNodes, and no node is online
    -- exactly for ErrNoNodesAvailable.
    pub schedule_refusal :
        (sort : List (NodeCandidate fl.F) → List (NodeCandidate fl.F))
        → (e : Error) × (r : ScheduleResult fl.F) × (schedule fl sort req ≡ some (r, some e))
          × (r.considered_count ≡ length req.available_nodes)
          × ((e ≡ no_capable_nodes) ↔ (any is_incapable req.available_nodes ≡ true))
          × ((e ≡ no_nodes_available) ↔ (filter_online_nodes req.available_nodes ≡ []))
    unfolding select
    schedule_refusal sort =
        let empty = end-candidates fl req ∙ ap (map (candidate fl req)) none_left in
        let (capable, online) =
          error_of_counts (end fl req).reasons _ _ _ _ (end-reasons "missing_required_capabilities")
            (end-reasons "plan_capabilities_mismatch") (end-reasons "insufficient_capacity")
            online_counts in
        let none_lacks = incapable_tally req.available_nodes in
        let nil = length-nil (filter_online_nodes req.available_nodes) in
        (
          no_candidate fl (end fl req).reasons,
          unselected fl (end fl req).considered (end fl req).reasons,
          rw (schedule_end fl req sort, select, empty) refl,
          end-considered,
          ground (arith, capable, none_lacks),
          ground (arith, online, nil),
        )
