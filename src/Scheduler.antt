-- ===== src/Scheduler.antt =====
-- internal/core/scheduler/scheduler.go: the choice of a node for a deployment.
--
-- `float64` is the parameter `fl`. sort.Slice, whose order of equal elements is not defined, is the
-- parameter `sort`. The map of the reasons is a function: a key that is missing reads as zero.
pub mod Loop
pub mod Choice
pub mod Reasons
pub mod Capabilities
use hoster.Prelude.{
  ℕ, suc, String, Bool, true, false, Option, none, some, List, [], ◌∷◌, ◌++◌, ◌&&◌, not, filter,
  any, mem, if◌then◌else◌, ltb, ◌==◌,
}
use hoster.Prelude.Dict.{update}
use hoster.Prelude.Float.{Float64}
use hoster.Prelude.Int.{pos, sub64, ltb_ℤ}
use hoster.Deployment.{Resources}
use hoster.Node.{
  Node, is_available, has_all_capabilities, has_any_capability, available_cpu, available_memory,
  available_disk, can_handle,
}

pub data Error : Type 0 where
  no_nodes_available no_capable_nodes no_plan_capabilities insufficient_capacity : Error

pub record ScheduleRequest (F : Type 0) : Type 0 where
  pub available_nodes : List (Node F)
  pub required_resources : Resources F
  pub required_capabilities : List String
  pub allowed_capabilities : List String

pub record NodeCandidate (F : Type 0) : Type 0 where
  pub node : Node F
  pub score : F

pub record ScheduleResult (F : Type 0) : Type 0 where
  pub selected_node_id : String
  pub selected_node : Option (Node F)
  pub score : F
  pub considered_count : ℕ
  pub filtered_out_reasons : String → ℕ

abbrev pub not_empty : List String → Bool
not_empty [] = false
not_empty (x ∷ xs) = true

abbrev pub bump : (String → ℕ) → String → String → ℕ
bump m k = update m k (suc (m k))

module _ (fl : Float64) where
  -- A percentage cut to the range from 0 to 100.
  abbrev clamp : fl.F → fl.F
  clamp x =
      let low = if fl.lt x (fl.of_int (pos 0)) then fl.of_int (pos 0) else x in
      if fl.lt (fl.of_int (pos 100)) low then fl.of_int (pos 100) else low

  -- The share of a capacity that remains, or 0 where there is none.
  abbrev percent : Bool → fl.F → fl.F → fl.F
  percent present available total =
      if present
      then clamp (fl.mul (fl.div available total) (fl.of_int (pos 100)))
      else fl.of_int (pos 0)

  -- `ScoreNode`.
  unfoldable pub score_node : Node fl.F → Resources fl.F → fl.F
  score_node node required =
      let cap = node.capacity in
      let cpu =
        percent (fl.lt (fl.of_int (pos 0)) cap.cpu_cores)
          (fl.sub (available_cpu fl cap) required.cpu_cores) cap.cpu_cores in
      let memory =
        percent (ltb_ℤ (pos 0) cap.memory_mb)
          (fl.of_int (sub64 (available_memory cap) required.memory_mb)) (fl.of_int cap.memory_mb) in
      let disk =
        percent (ltb_ℤ (pos 0) cap.disk_mb)
          (fl.of_int (sub64 (available_disk cap) required.disk_mb)) (fl.of_int cap.disk_mb) in
      fl.add (fl.add (fl.mul cpu (fl.decimal 3 1)) (fl.mul memory (fl.decimal 4 1)))
        (fl.mul disk (fl.decimal 3 1))

  -- The reason for which the loop of `Schedule` leaves a node out.
  unfoldable pub left_out : ScheduleRequest fl.F → Node fl.F → Option String
  left_out req node =
      if not (is_available node)
      then some "not_online"
      else if not_empty req.required_capabilities
          && not (has_all_capabilities node req.required_capabilities)
      then some "missing_required_capabilities"
      else if not_empty req.allowed_capabilities
          && not (has_any_capability node req.allowed_capabilities)
      then some "plan_capabilities_mismatch"
      else if not (can_handle fl node.capacity req.required_resources)
      then some "insufficient_capacity"
      else none

  -- What the loop changes.
  pub record Round : Type 0 where
    pub considered : ℕ
    pub reasons : String → ℕ
    pub candidates : List (NodeCandidate fl.F)

  abbrev pub next_round : ScheduleRequest fl.F → Round → Node fl.F → Option String → Round
  next_round req r node (some reason) = record r {
    considered = suc r.considered;
    reasons = bump r.reasons reason;
  }
  next_round req r node none = record r {
    considered = suc r.considered;
    candidates =
        r.candidates ++ record { node = node; score = score_node node req.required_resources } ∷ [];
  }

  -- The loop over the nodes.
  unfoldable pub consider : ScheduleRequest fl.F → Round → List (Node fl.F) → Round
  consider req r [] = r
  consider req r (node ∷ nodes) = consider req (next_round req r node (left_out req node)) nodes

  -- The error where no candidate is left.
  unfoldable pub no_candidate : (String → ℕ) → Error
  no_candidate reasons =
      if ltb 0 (reasons "plan_capabilities_mismatch")
        && reasons "missing_required_capabilities" == 0
      then no_plan_capabilities
      else if ltb 0 (reasons "missing_required_capabilities")
      then no_capable_nodes
      else if ltb 0 (reasons "insufficient_capacity")
      then insufficient_capacity
      else no_nodes_available

  abbrev pub unselected : ℕ → (String → ℕ) → ScheduleResult fl.F
  unselected considered reasons = record {
    selected_node_id = "";
    selected_node = none;
    score = fl.of_int (pos 0);
    considered_count = considered;
    filtered_out_reasons = reasons;
  }

  module _ (sort : List (NodeCandidate fl.F) → List (NodeCandidate fl.F)) where
    -- The end of `Schedule`. Of an empty list there is no first element: `candidates[0]` panics, which
    -- is `none`.
    unfoldable pub select : Round → Option (ScheduleResult fl.F × Option Error)
    select r = elim r.candidates [
      | [] ↦ some (unselected r.considered r.reasons, some (no_candidate r.reasons))
      | c ∷ cs ↦ elim (sort (c ∷ cs)) [
        | [] ↦ none
        | best ∷ rest ↦ some (
          record {
            selected_node_id = best.node.reference_id;
            selected_node = some best.node;
            score = best.score;
            considered_count = r.considered;
            filtered_out_reasons = r.reasons;
          },
          none,
        )
      ]
    ]

    -- `Schedule`: the result and the error, `none` for nil.
    unfoldable pub schedule : ScheduleRequest fl.F → Option (ScheduleResult fl.F × Option Error)
    schedule req = elim req.available_nodes [
      | [] ↦ some (unselected 0 (λ k. 0), some no_nodes_available)
      | node ∷ nodes ↦ select (
          consider req (record { considered = 0; reasons = λ k. 0; candidates = [] })
            (node ∷ nodes))
    ]

  -- `FilterByCapacity`.
  unfoldable pub filter_by_capacity : List (Node fl.F) → Resources fl.F → List (Node fl.F)
  filter_by_capacity nodes required = filter (λ n. can_handle fl n.capacity required) nodes

module _ {F : Type 0} where
  -- `FilterOnlineNodes`.
  unfoldable pub filter_online_nodes : List (Node F) → List (Node F)
  filter_online_nodes nodes = filter is_available nodes

  -- `FilterByCapabilities`.
  unfoldable pub filter_by_capabilities : List (Node F) → List String → List (Node F)
  filter_by_capabilities nodes [] = nodes
  filter_by_capabilities nodes (c ∷ cs) = filter (λ n. has_all_capabilities n (c ∷ cs)) nodes

  -- `FilterByPlanCapabilities`.
  unfoldable pub filter_by_plan_capabilities : List (Node F) → List String → List (Node F)
  filter_by_plan_capabilities nodes [] = nodes
  filter_by_plan_capabilities nodes (c ∷ cs) = filter (λ n. has_any_capability n (c ∷ cs)) nodes

-- `CapabilitiesIntersect`.
unfoldable pub capabilities_intersect : List String → List String → Bool
capabilities_intersect [] b = true
capabilities_intersect (x ∷ a) [] = true
capabilities_intersect (x ∷ a) (y ∷ b) = any (λ cap. mem cap (x ∷ a)) (y ∷ b)

-- `ValidateCapabilityRequirements`.
unfoldable pub validate_capability_requirements : List String → List String → Option Error
validate_capability_requirements [] allowed = none
validate_capability_requirements (r ∷ required) [] = none
validate_capability_requirements (r ∷ required) (a ∷ allowed) =
    if any (λ req. not (mem req (a ∷ allowed))) (r ∷ required)
    then some no_plan_capabilities
    else none
