-- ===== src/Order/Sorted/Result.antt =====
-- The result of `TopologicalSort` (internal/core/deployment/ordering.go).
use hoster.Prelude.{
  ℕ, zero, suc, ◌≡◌, refl, String, Bool, true, false, List, [], ◌∷◌, ◌&&◌, mem, arith,
  if◌then◌else◌, Bool-cases, inl, inr, ap, ◌↔◌, All, In, length, filter, ltb,
}
use hoster.Prelude.Int.{pos}
use hoster.Compose.{Service}
use hoster.Order.{Graph, names, build, empty, append_missing, topological_sort, is_zero, dedup}
use hoster.Order.Relax.{remaining, Distinct}
use hoster.Order.Build.{deps_of, Describes, build-Describes, dedup-Distinct, remaining-nil}
use hoster.Order.Loop.{run, process-run, Inv}
use hoster.Order.Sorted.{Good, final, DependenciesFirst, IsFound, run-Good, remaining_none}
use hoster.Order.Sorted.Facts.{
  Good-length, Good-Distinct, Good-All, Good-DependenciesFirst, mem-final, IsAcyclic, all_given,
}
use hoster.Order.Sorted.Missing.{
  mem-filter, filter-Distinct, missing-names, missing-Distinct, missing-All, missing_none,
}
use hoster.Order.Sorted.Members.{All-IsFound, same_services}

-- The run over the keys of a map visits each key once, in any order.
pub record IsIteration (iterate : List String → List String) : Type 0 where
  pub same : (keys : List String) (x : String) → mem x (iterate keys) ≡ mem x keys
  pub once : (keys : List String) → Distinct keys → Distinct (iterate keys)

module _ {F : Type 0} where
  length-names : (part : List (Service F)) → length (names part) ≡ length part
  length-names [] = refl
  length-names (s ∷ part) = ap suc (length-names part)

module _ {F : Type 0} (services : List (Service F)) (iterate : List String → List String) where
  graph : Graph F
  graph = build empty services

  start : List String
  start = filter (λ name. is_zero (graph.in_degree name)) (iterate (dedup (names services)))

  out : List (Service F)
  out = run (length services) graph graph.in_degree start

  -- Both branches after the loop, as one.
  abbrev result : List (Service F)
  result = if ltb (length out) (length services) then append_missing out services else out

module _ {F : Type 0} (services : List (Service F)) (iterate : List String → List String)
    (it : IsIteration iterate) (different : Distinct (names services)) where
  described : Describes (graph services iterate) services
  unfolding graph
  described = build-Describes services different

  start_iff :
      (x : String)
      → (mem x (start services iterate) ≡ true)
        ↔ ((mem x (names services) ≡ true) × (remaining [] (deps_of services x) ≡ 0))
  unfolding start
  start_iff x =
      rw
        (
          mem-filter (λ name. is_zero ((graph services iterate).in_degree name)) x _,
          it.same _ x,
          dedup-Distinct _ different,
          described.degree x,
        )
        (zero_iff (mem x (names services)) (remaining [] (deps_of services x)))
    where
      zero_iff : (b : Bool) (n : ℕ) → ((b && is_zero (pos n)) ≡ true) ↔ ((b ≡ true) × (n ≡ 0))
      zero_iff b zero = ground arith
      zero_iff b (suc n) = ground arith

  start-Distinct : Distinct (start services iterate)
  unfolding start
  start-Distinct =
      filter-Distinct (λ name. is_zero ((graph services iterate).in_degree name)) _
        (it.once _ (rw (dedup-Distinct (names services) different) different))

  start-Inv : Inv services [] (graph services iterate).in_degree (start services iterate)
  start-Inv = record {
    degrees = described.degree;
    ready = λ x m z. (start_iff x).1 (m, z);
    queued = λ x m. (((start_iff x).0 m).0, refl, ((start_iff x).0 m).1);
    placed_done = λ x m. cc;
    distinct = start-Distinct;
  }

  out-Good : Good services [] (out services iterate)
  unfolding out
  out-Good =
      run-Good services (graph services iterate) described (length services) []
        (graph services iterate).in_degree (start services iterate) start-Inv
        (omega (arith, remaining-nil (names services), length-names services))

  nothing_missing :
      ltb (length (out services iterate)) (length services) ≡ false
      → (x : String) → mem x (names services) ≡ true
      → mem x (names (out services iterate)) ≡ true
  nothing_missing full x m = ground (
    arith,
    mem-final [] (out services iterate) x,
    remaining_none (final [] (out services iterate)) x (names services)
        (ground (
          arith,
          Good-length services [] (out services iterate) out-Good,
          remaining-nil (names services),
          length-names services,
        ))
        m,
  )

-- The code's two branches on the number of services.
sort_result :
    {F : Type 0} (iterate : List String → List String) (services : List (Service F))
    → topological_sort iterate services ≡ result services iterate
unfolding topological_sort out graph start run
sort_result iterate [] = refl
sort_result iterate (s ∷ rest) =
    rw (process-run (length (s ∷ rest)) (graph (s ∷ rest) iterate) _ (start (s ∷ rest) iterate) [])

module _ {F : Type 0} (iterate : List String → List String) (it : IsIteration iterate)
    (services : List (Service F)) (different : Distinct (names services)) where
  result_facts :
      let r = result services iterate in
      Distinct (names r)
      × All (IsFound services) r
      × ((x : String) → mem x (names services) ≡ true → mem x (names r) ≡ true)
  result_facts =
      let o = out services iterate in
      let good = out-Good services iterate it different in
      let once = (Good-Distinct services [] o good).0 in
      let found = Good-All services [] o good in
      elim (Bool-cases (ltb (length o) (length services))) [
        | inl e ↦ rw e (
          missing-Distinct o services once,
          missing-All (IsFound services) o services found
              (All-IsFound services services different (λ s m. m)),
          λ x m. ground (arith, missing-names o services x),
        )
        | inr e ↦ rw e (once, found, nothing_missing services iterate it different e)
      ]

  -- The services of the sorted list are those of the given one, each once, whatever the order in which
  -- Go runs over the map and whatever the dependencies, cycles included.
  pub topological_sort_same :
      let r = topological_sort iterate services in
      Distinct (names r) × ((s : Service F) → In s r ↔ In s services)
  topological_sort_same =
      let (once, found, complete) = result_facts in
      rw (sort_result iterate services) (once, same_services services _ different found complete)

  -- Where the loop gives out every service, each stands behind all that it depends on.
  pub topological_sort_given :
      ((given : List (Service F))
        → Good services [] given
        → (x : String) → mem x (names services) ≡ true
        → mem x (final [] given) ≡ true)
      → DependenciesFirst [] (topological_sort iterate services)
  topological_sort_given all =
      let o = out services iterate in
      let good = out-Good services iterate it different in
      let complete = λ (x : String) (m : mem x (names services) ≡ true).
        rw (mem-final [] o x) at (all o good x m) in
      rw (sort_result iterate services) (elim (Bool-cases (ltb (length o) (length services))) [
        | inl e ↦
            rw e (rw (missing_none o services complete) (Good-DependenciesFirst services [] o good))
        | inr e ↦ rw e (Good-DependenciesFirst services [] o good)
      ])

  -- If the dependencies are services of the list and go round in no circle, each service stands behind
  -- all that it depends on.
  pub topological_sort_first :
      (rank : String → ℕ)
      → IsAcyclic rank services services
      → DependenciesFirst [] (topological_sort iterate services)
  topological_sort_first rank acyclic = topological_sort_given (λ given good x m.
      all_given services rank given good acyclic (suc (rank x)) x (omega arith) m)
