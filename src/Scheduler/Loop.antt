-- ===== src/Scheduler/Loop.antt =====
-- What the loop of `Schedule` (internal/core/scheduler/scheduler.go) leaves behind: the candidates are
-- the nodes that pass the package's filters, and each node left out is counted under its reason.
use hoster.Prelude.{
  ℕ, suc, ◌+◌, ◌≡◌, refl, ◌∙◌, sym, ap, String, Bool, true, false, Option, none, some, List, [],
  ◌∷◌, ◌++◌, ◌&&◌, not, filter, str_eq, str_eq_iff, arith, length, map, Option-cases, inl, inr,
}
use mathlib.Core.List.{append-nil, append_assoc}
use hoster.Prelude.Dict.{update_lem}
use hoster.Prelude.Float.{Float64}
use hoster.Node.{Node, has_all_capabilities, has_any_capability}
use hoster.Scheduler.{
  ScheduleRequest, NodeCandidate, score_node, left_out, Round, next_round, consider, not_empty,
  filter_online_nodes, filter_by_capabilities, filter_by_plan_capabilities, filter_by_capacity,
}

filter-filter :
    {A : Type 0} (p q : A → Bool) (xs : List A)
    → filter p (filter q xs) ≡ filter (λ x. q x && p x) xs
filter-filter p q [] = refl
filter-filter p q (x ∷ xs) = ground (arith, filter-filter p q xs)

filter_same :
    {A : Type 0} (p q : A → Bool) (xs : List A) → ((x : A) → p x ≡ q x) → filter p xs ≡ filter q xs
filter_same p q [] h = refl
filter_same p q (x ∷ xs) h = rw (h x, filter_same p q xs h)

filter_all : {A : Type 0} (xs : List A) → filter (λ x. true) xs ≡ xs
filter_all [] = refl
filter_all (x ∷ xs) = ap (◌∷◌ x) (filter_all xs)

module _ (fl : Float64) (req : ScheduleRequest fl.F) where
  -- The nodes that pass the four filters of the package, one after another.
  abbrev pub eligible : List (Node fl.F) → List (Node fl.F)
  eligible nodes =
      filter_by_capacity fl
        (filter_by_plan_capabilities
          (filter_by_capabilities (filter_online_nodes nodes) req.required_capabilities)
          req.allowed_capabilities)
        req.required_resources

  abbrev pub is_none : Option String → Bool
  is_none none = true
  is_none (some s) = false

  abbrev pub is_kept : Node fl.F → Bool
  is_kept n = is_none (left_out fl req n)

  abbrev pub is_capable : List String → Node fl.F → Bool
  is_capable required n = not (not_empty required && not (has_all_capabilities n required))

  abbrev pub is_allowed : List String → Node fl.F → Bool
  is_allowed allowed n = not (not_empty allowed && not (has_any_capability n allowed))

  by_capabilities :
      (nodes : List (Node fl.F)) (required : List String)
      → filter_by_capabilities nodes required ≡ filter (is_capable required) nodes
  unfolding filter_by_capabilities
  by_capabilities nodes [] = sym (filter_all nodes)
  by_capabilities nodes (c ∷ cs) =
      filter_same _ _ nodes (λ n. not_not (has_all_capabilities n (c ∷ cs)))
    where
      not_not : (b : Bool) → b ≡ not (not b)
      not_not b = ground arith

  by_plan :
      (nodes : List (Node fl.F)) (allowed : List String)
      → filter_by_plan_capabilities nodes allowed ≡ filter (is_allowed allowed) nodes
  unfolding filter_by_plan_capabilities
  by_plan nodes [] = sym (filter_all nodes)
  by_plan nodes (c ∷ cs) = filter_same _ _ nodes (λ n. not_not (has_any_capability n (c ∷ cs)))
    where
      not_not : (b : Bool) → b ≡ not (not b)
      not_not b = ground arith

  pub eligible_kept : (nodes : List (Node fl.F)) → eligible nodes ≡ filter is_kept nodes
  unfolding filter_by_capacity filter_online_nodes left_out
  eligible_kept nodes =
      rw
        (
          by_plan _ req.allowed_capabilities,
          by_capabilities _ req.required_capabilities,
          filter-filter,
          filter-filter,
          filter-filter,
        )
        (filter_same _ _ nodes (λ n. ground arith))

  abbrev pub candidate : Node fl.F → NodeCandidate fl.F
  candidate n = record { node = n; score = score_node fl n req.required_resources }

  pub consider-candidates :
      (r : Round fl) (nodes : List (Node fl.F))
      → (consider fl req r nodes).candidates ≡ r.candidates ++ map candidate (filter is_kept nodes)
  unfolding consider
  consider-candidates r [] = sym (append-nil r.candidates)
  consider-candidates r (n ∷ nodes) = elim (Option-cases (left_out fl req n)) [
    | inl e ↦
        rw (consider, e)
          (consider-candidates (next_round fl req r n none) nodes
            ∙ append_assoc r.candidates (candidate n ∷ []) _)
    | inr (s, e) ↦ rw (consider, e) (consider-candidates (next_round fl req r n (some s)) nodes)
  ]

  abbrev pub is_reason : String → Option String → Bool
  is_reason k none = false
  is_reason k (some s) = str_eq s k

  -- The nodes left out for a reason.
  abbrev pub tally : String → List (Node fl.F) → ℕ
  tally k nodes = length (filter (λ n. is_reason k (left_out fl req n)) nodes)

  pub consider-reasons :
      (r : Round fl) (nodes : List (Node fl.F)) (k : String)
      → (consider fl req r nodes).reasons k ≡ r.reasons k + tally k nodes
  unfolding consider
  consider-reasons r [] k = omega arith
  consider-reasons r (n ∷ nodes) k = elim (Option-cases (left_out fl req n)) [
    | inl e ↦ rw (consider, e) (consider-reasons (next_round fl req r n none) nodes k)
    | inr (s, e) ↦
        rw (consider, e)
          (ground (
            arith,
            consider-reasons (next_round fl req r n (some s)) nodes k,
            update_lem r.reasons s (suc (r.reasons s)) k,
            str_eq_iff s k,
          ))
  ]

  pub consider-considered :
      (r : Round fl) (nodes : List (Node fl.F))
      → (consider fl req r nodes).considered ≡ r.considered + length nodes
  unfolding consider
  consider-considered r [] = omega arith
  consider-considered r (n ∷ nodes) = elim (Option-cases (left_out fl req n)) [
    | inl e ↦
        rw (consider, e) (omega (arith, consider-considered (next_round fl req r n none) nodes))
    | inr (s, e) ↦
        rw (consider, e) (omega (arith, consider-considered (next_round fl req r n (some s)) nodes))
  ]
