-- ===== src/Scheduler/Choice.antt =====
-- What `Schedule` (internal/core/scheduler/scheduler.go) answers.
use hoster.Prelude.{
  All-In, ◌≡◌, refl, ◌∙◌, sym, ap, subst, ◌↔◌, false, none, some, List, [], ◌∷◌, map, inl, inr, In,
  All, ◌⊎◌,
}
use hoster.Prelude.Float.{Float64}
use hoster.Node.{Node}
use hoster.Scheduler.{
  Error, ScheduleRequest, ScheduleResult, NodeCandidate, score_node, Round, consider, select,
  schedule, no_candidate, unselected,
}
use hoster.Scheduler.Loop.{eligible, eligible_kept, candidate, consider-candidates}

-- No later candidate has a higher score than an earlier one.
abbrev pub Descending : (fl : Float64) → List (NodeCandidate fl.F) → Type 0
Descending fl [] = Unit
Descending fl (c ∷ cs) = All (λ d. fl.lt c.score d.score ≡ false) cs × Descending fl cs

-- What sort.Slice does with the test of `Schedule`, on scores that are numbers: the same elements, in
-- descending order.
pub record IsSorting (fl : Float64) (sort : List (NodeCandidate fl.F) → List (NodeCandidate fl.F))
    : Type 0 where
  pub same : (cs : List (NodeCandidate fl.F)) (c : NodeCandidate fl.F) → In c (sort cs) ↔ In c cs
  pub sorted : (cs : List (NodeCandidate fl.F)) → Descending fl (sort cs)

List-cases : {A : Type 0} (xs : List A) → (xs ≡ []) ⊎ ((y : A) × (ys : List A) × (xs ≡ y ∷ ys))
List-cases [] = inl refl
List-cases (y ∷ ys) = inr (y, ys, refl)

In-map :
    {A B : Type 0} (f : A → B) (b : B) (xs : List A)
    → In b (map f xs)
    → (a : A) × In a xs × (f a ≡ b)
In-map f b [] m = elim m [ ]
In-map f b (x ∷ xs) (inl e) = (x, inl refl, e)
In-map f b (x ∷ xs) (inr m) = let (a, n, e) = In-map f b xs m in (a, inr n, e)

map-nil : {A B : Type 0} (f : A → B) (xs : List A) → map f xs ≡ [] → xs ≡ []
map-nil f [] h = refl
map-nil f (x ∷ xs) h = cc

map-In : {A B : Type 0} (f : A → B) (a : A) (xs : List A) → In a xs → In (f a) (map f xs)
map-In f a [] m = elim m [ ]
map-In f a (x ∷ xs) (inl e) = inl (ap f e)
map-In f a (x ∷ xs) (inr m) = inr (map-In f a xs m)

module _ (fl : Float64) (req : ScheduleRequest fl.F) where
  unfoldable pub start : Round fl
  start = record { considered = 0; reasons = λ k. 0; candidates = [] }

  unfoldable pub end : Round fl
  end = consider fl req start req.available_nodes

  pub end-candidates : end.candidates ≡ map (candidate fl req) (eligible fl req req.available_nodes)
  unfolding end start
  end-candidates =
      rw (eligible_kept fl req req.available_nodes)
        (consider-candidates fl req start req.available_nodes)

  pub schedule_end :
      (sort : List (NodeCandidate fl.F) → List (NodeCandidate fl.F))
      → schedule fl sort req ≡ select fl sort end
  unfolding schedule select end start consider no_candidate
  schedule_end sort = elim (List-cases req.available_nodes) [
    | inl e ↦ rw e refl
    | inr (n, ns, e) ↦ rw e refl
  ]

  module _ (sort : List (NodeCandidate fl.F) → List (NodeCandidate fl.F)) where
    -- The answer with the node `best`.
    abbrev chosen : NodeCandidate fl.F → ScheduleResult fl.F
    chosen best = record {
      selected_node_id = best.node.reference_id;
      selected_node = some best.node;
      score = best.score;
      considered_count = end.considered;
      filtered_out_reasons = end.reasons;
    }

    -- With candidates, the answer is the first one after sorting; without, it is an error.
    schedule_candidates :
        (((best : NodeCandidate fl.F) × (rest : List (NodeCandidate fl.F)) × (sort end.candidates
              ≡ best ∷ rest)
            × (schedule fl sort req ≡ some (chosen best, none)))
          ⊎ ((c : NodeCandidate fl.F) × In c end.candidates × (sort end.candidates ≡ [])))
        ⊎ ((end.candidates ≡ [])
            × (schedule fl sort req
                ≡ some
                    (unselected fl end.considered end.reasons, some (no_candidate fl end.reasons))))
    unfolding select
    schedule_candidates = elim (List-cases end.candidates) [
      | inl e ↦ inr (e, rw (schedule_end sort, select, e) refl)
      | inr (c, cs, e) ↦ elim (List-cases (sort (c ∷ cs))) [
        | inl n ↦ inl (inr (c, rw e (inl refl), rw e n))
        | inr (best, rest, f) ↦
            inl (inl (best, rest, rw e f, rw (schedule_end sort, select, e) (rw f refl)))
      ]
    ]

  module _ (sort : List (NodeCandidate fl.F) → List (NodeCandidate fl.F))
      (s : IsSorting fl sort) where
    all-In : (c : NodeCandidate fl.F) → In c end.candidates → In c (sort end.candidates)
    all-In c m = (s.same end.candidates c).1 m

    best_of :
        (best : NodeCandidate fl.F) (rest : List (NodeCandidate fl.F))
        → sort end.candidates ≡ best ∷ rest
        → (n : Node fl.F) × In n (eligible fl req req.available_nodes) × (candidate fl req n ≡ best)
    best_of best rest e =
        In-map (candidate fl req) best _ (
          subst (λ cs. In best cs) end-candidates
            ((s.same end.candidates best).0 (rw e (inl refl))))

    beaten :
        (best : NodeCandidate fl.F) (rest : List (NodeCandidate fl.F))
        → sort end.candidates ≡ best ∷ rest
        → (fl.lt best.score best.score ≡ false)
        → (n : Node fl.F) → In n (eligible fl req req.available_nodes)
        → fl.lt best.score (score_node fl n req.required_resources) ≡ false
    beaten best rest e irr n m = among (
        subst (λ cs. In (candidate fl req n) cs) e
          (all-In (candidate fl req n) (
            subst (λ cs. In (candidate fl req n) cs) (sym end-candidates)
              (map-In (candidate fl req) n _ m))))
      where
        among :
            In (candidate fl req n) (best ∷ rest)
            → fl.lt best.score (score_node fl n req.required_resources) ≡ false
        among (inl p) = subst (λ c. fl.lt best.score c.score ≡ false) p irr
        among (inr q) =
            All-In (λ d. fl.lt best.score d.score ≡ false) (candidate fl req n) rest
              (subst (Descending fl) e (s.sorted end.candidates)).0 q

    -- `Schedule` always answers. With an eligible node, one that passes the four filters of the
    -- package, it selects one of these, of which no other has a higher score, without an error; if no
    -- node is eligible, it selects none and returns an error. The comparison of scores is that of
    -- numbers (no score is less than itself).
    pub schedule_best :
        ((x : fl.F) → fl.lt x x ≡ false)
        → ((n : Node fl.F) × (r : ScheduleResult fl.F) × In n (eligible fl req req.available_nodes)
            × (schedule fl sort req ≡ some (r, none))
            × (r.selected_node ≡ some n)
            × (r.selected_node_id ≡ n.reference_id)
            × (r.score ≡ score_node fl n req.required_resources)
            × ((m : Node fl.F)
                → In m (eligible fl req req.available_nodes)
                → fl.lt r.score (score_node fl m req.required_resources) ≡ false))
          ⊎ ((e : Error) × (r : ScheduleResult fl.F) × (eligible fl req req.available_nodes ≡ [])
              × (schedule fl sort req ≡ some (r, some e))
              × (r.selected_node ≡ none))
    schedule_best irr = elim (schedule_candidates sort) [
      | inl (inl (best, rest, e, a)) ↦
          let (n, m, p) = best_of best rest e in
          inl (
            n,
            chosen sort best,
            m,
            a,
            ap (λ c. some c.node) (sym p),
            ap (λ c. c.node.reference_id) (sym p),
            ap (λ c. c.score) (sym p),
            beaten best rest e (irr best.score),
          )
      | inl (inr (c, m, e)) ↦ absurd (subst (λ cs. In c cs) e (all-In c m))
      | inr (e, a) ↦ inr (_, _, map-nil (candidate fl req) _ (sym end-candidates ∙ e), a, refl)
    ]
