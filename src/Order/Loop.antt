-- ===== src/Order/Loop.antt =====
-- The loop of `TopologicalSort` (internal/core/deployment/ordering.go) and its invariant, for services
-- with different names.
use hoster.Prelude.{
  mem-append, ℕ, zero, suc, ◌+◌, ◌<◌, ◌≡◌, ◌∙◌, String, true, false, Option, none, some, List, [],
  ◌∷◌, ◌++◌, ◌||◌, str_eq, str_eq_iff, str_eq_refl, mem, arith, Bool-cases, Option-cases, inl, inr,
  sym, ap, ◌↔◌,
}
use mathlib.Core.List.{append-nil, append_assoc}
use hoster.Prelude.Int.{ℤ, pos}
use hoster.Compose.{Service}
use hoster.Order.{Graph, names, relax, process}
use hoster.Order.Relax.{
  count, remaining, remaining-cons, Distinct, Distinct-append, fresh, relax_queue, relax_degree,
  fresh_iff, fresh-Distinct,
}
use hoster.Order.Build.{deps_of, deps_of_absent, Describes}

module _ {F : Type 0} where
  abbrev cons_found : Option (Service F) → List (Service F) → List (Service F)
  cons_found none rest = rest
  cons_found (some s) rest = s ∷ rest

  -- The services that the loop adds to the result.
  unfoldable pub run : ℕ → Graph F → (String → ℤ) → List String → List (Service F)
  run zero g degree queue = []
  run (suc fuel) g degree [] = []
  run (suc fuel) g degree (name ∷ queue) =
      let (next, more) = relax degree queue (g.dependents name) in
      cons_found (g.service_map name) (run fuel g next more)

  pub process-run :
      (fuel : ℕ) (g : Graph F) (degree : String → ℤ) (queue : List String)
      (result : List (Service F))
      → process fuel g degree queue result ≡ result ++ run fuel g degree queue
  unfolding process run
  process-run zero g degree queue result = sym (append-nil result)
  process-run (suc fuel) g degree [] result = sym (append-nil result)
  process-run (suc fuel) g degree (name ∷ queue) result =
      let next = relax degree queue (g.dependents name) in
      elim (Option-cases (g.service_map name)) [
        | inl e ↦ rw e (process-run fuel g next.0 next.1 result)
        | inr (s, e) ↦ rw e (
            process-run fuel g next.0 next.1 (result ++ s ∷ [])
            ∙ append_assoc result (s ∷ []) (run fuel g next.0 next.1))
      ]

module _ {F : Type 0} (services : List (Service F)) where
  -- What holds between two rounds: `placed` are the names that the queue has given out.
  pub record Inv (placed : List String) (degree : String → ℤ) (queue : List String) : Type 0 where
    pub degrees : (x : String) → degree x ≡ pos (remaining placed (deps_of services x))
    pub ready :
        (x : String)
        → mem x (names services) ≡ true
        → remaining placed (deps_of services x) ≡ 0
        → (mem x placed || mem x queue) ≡ true
    pub queued :
        (x : String)
        → mem x queue ≡ true
        → (mem x (names services) ≡ true)
          × (mem x placed ≡ false)
          × (remaining placed (deps_of services x) ≡ 0)
    pub placed_done : (x : String) → mem x placed ≡ true → remaining placed (deps_of services x) ≡ 0
    pub distinct : Distinct queue

  module _ (g : Graph F) (d : Describes g services) (placed : List String) (degree : String → ℤ)
      (n : String) (queue : List String) (h : Inv placed degree (n ∷ queue)) where
    head_fact :
        (mem n (names services) ≡ true)
        × (mem n placed ≡ false)
        × (remaining placed (deps_of services n) ≡ 0)
    head_fact = h.queued n (rw (str_eq_refl n))

    falls :
        (x : String)
        → remaining placed (deps_of services x)
          ≡ remaining (n ∷ placed) (deps_of services x) + count x (g.dependents n)
    falls x = rw (d.dependents x n) (remaining-cons placed n (deps_of services x) head_fact.1)

    degree_split :
        (x : String)
        → degree x ≡ pos (remaining (n ∷ placed) (deps_of services x) + count x (g.dependents n))
    degree_split x = h.degrees x ∙ ap pos (falls x)

    joins :
        (x : String)
        → (mem x (fresh degree (g.dependents n)) ≡ true)
          ↔ ((remaining (n ∷ placed) (deps_of services x) ≡ 0) × (0 < count x (g.dependents n)))
    joins x = fresh_iff degree (g.dependents n) x _ (degree_split x)

    -- A name that depends on `n` is a service, is not `n`, and was neither placed nor queued before.
    joins_new :
        (x : String)
        → 0 < count x (g.dependents n)
        → (mem x (names services) ≡ true)
          × (str_eq n x ≡ false)
          × (mem x placed ≡ false)
          × (mem x queue ≡ false)
    joins_new x many = (
      ground (arith, falls x, deps_of_absent services x),
      ground (arith, falls x, head_fact, str_eq_iff n x),
      ground (arith, falls x, h.placed_done x),
      ground (arith, falls x, h.queued x),
    )

    step_ready :
        (x : String)
        → mem x (names services) ≡ true
        → remaining (n ∷ placed) (deps_of services x) ≡ 0
        → (mem x (n ∷ placed) || mem x (queue ++ fresh degree (g.dependents n))) ≡ true
    step_ready x named left =
        ground
          (arith, mem-append x queue (fresh degree (g.dependents n)), joins x, falls x, h.ready x)

    step_queued :
        (x : String)
        → mem x (queue ++ fresh degree (g.dependents n)) ≡ true
        → (mem x (names services) ≡ true)
          × (mem x (n ∷ placed) ≡ false)
          × (remaining (n ∷ placed) (deps_of services x) ≡ 0)
    step_queued x m = elim (Bool-cases (mem x queue)) [
      | inl e ↦ ground (arith, h.queued x, falls x, str_eq_iff n x, h.distinct)
      | inr e ↦
          ground (arith, mem-append x queue (fresh degree (g.dependents n)), joins x, joins_new x)
    ]

    step-Distinct : Distinct (queue ++ fresh degree (g.dependents n))
    step-Distinct =
        Distinct-append queue (fresh degree (g.dependents n)) h.distinct.1
          (fresh-Distinct degree (g.dependents n) (λ x. (_, degree_split x)))
          (λ x m. ground (arith, joins x, joins_new x))

    pub step-Inv :
        Inv
          (n ∷ placed)
          (relax degree queue (g.dependents n)).0
          (relax degree queue (g.dependents n)).1
    step-Inv = rw (relax_queue degree queue (g.dependents n)) (record {
      degrees = λ x. relax_degree degree queue (g.dependents n) x _ (degree_split x);
      ready = step_ready;
      queued = step_queued;
      placed_done = λ x m. ground (arith, falls x, h.placed_done x, head_fact, str_eq_iff n x);
      distinct = step-Distinct;
    })
