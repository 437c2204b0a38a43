-- ===== src/Order/Accepted.antt =====
-- What the parser accepts is started in order: detectCircularDependencies
-- (internal/core/compose/parser.go) and TopologicalSort (internal/core/deployment/ordering.go).
use hoster.Prelude.{
  ◌≡◌, refl, ◌∙◌, sym, subst, String, true, false, none, some, List, [], ◌∷◌, mem, arith, str_eq,
  str_eq_iff, str_eq_refl, Bool-cases, inl, inr, All,
}
use hoster.Prelude.Dict.{update, update_lem}
use hoster.Compose.{Service}
use hoster.Compose.Cycles.{collect, detect_circular_dependencies}
use hoster.Compose.Cycles.Paths.{Grounded, grounded}
use hoster.Compose.Cycles.Detected.{dependencies, collect_absent, detect_cases}
use hoster.Order.{names, topological_sort}
use hoster.Order.Relax.{Distinct}
use hoster.Order.Build.{deps_of}
use hoster.Order.Sorted.{Good, final, DependenciesFirst}
use hoster.Order.Sorted.Facts.{Good-end, All-placed}
use hoster.Order.Sorted.Result.{IsIteration, topological_sort_given}

All-mem :
    (ds : List String) (P Q : String → Type 0)
    → All P ds
    → ((d : String) → mem d ds ≡ true → P d → Q d)
    → All Q ds
All-mem [] P Q h f = tt
All-mem (d ∷ ds) P Q (p, h) f =
    (f d (rw (str_eq_refl d) refl) p, All-mem ds P Q h (λ c m q. f c (ground arith) q))

module _ {F : Type 0} where
  -- Every dependency of some services is one of the services.
  abbrev pub AllDeclared : List (Service F) → List (Service F) → Type 0
  AllDeclared services part = All (λ s. All (λ d. mem d (names services) ≡ true) s.depends_on) part

  collect-deps_of :
      (m : String → List String) (services : List (Service F)) (x : String)
      → Distinct (names services)
      → mem x (names services) ≡ true
      → collect m services x ≡ deps_of services x
  unfolding collect
  collect-deps_of m [] x h named = cc
  collect-deps_of m (s ∷ services) x (new, h) named = elim (Bool-cases (str_eq s.name x)) [
    | inl e ↦
        let same : s.name ≡ x = (str_eq_iff s.name x).0 e in
        let absent : mem x (names services) ≡ false =
          subst (λ y. mem y (names services) ≡ false) same new in
        collect_absent (update m s.name s.depends_on) services x absent
        ∙ (update_lem m s.name s.depends_on x ∙ rw e refl)
    | inr e ↦ rw e (collect-deps_of (update m s.name s.depends_on) services x h (ground arith))
  ]

  declared :
      (services part : List (Service F)) (x : String)
      → AllDeclared services part
      → All (λ d. mem d (names services) ≡ true) (deps_of part x)
  declared services [] x h = tt
  declared services (s ∷ part) x (p, h) = elim (Bool-cases (str_eq s.name x)) [
    | inl e ↦ rw e p
    | inr e ↦ rw e (declared services part x h)
  ]

  module _ (services : List (Service F)) (different : Distinct (names services))
      (named : AllDeclared services services) where
    given :
        (out : List (Service F))
        → Good services [] out
        → (x : String) → Grounded (dependencies services) x
        → mem x (names services) ≡ true
        → mem x (final [] out) ≡ true
    given out good x (grounded f) m =
        let same = collect-deps_of (λ k. []) services x different m in
        Good-end services [] out good x m (
          All-placed (final [] out) (deps_of services x) (
            All-mem (deps_of services x) _ _ (declared services services x named)
              (λ d e n. given out good d (f d (subst (λ ds. mem d ds ≡ true) (sym same) e)) n)))

    -- Services that the parser's search for circles accepts are started in order: if they have
    -- different names and depend only on each other, TopologicalSort puts each behind all that it
    -- depends on, whatever the order in which Go runs over the map.
    pub accepted_in_order :
        (iterate : List String → List String)
        → IsIteration iterate
        → detect_circular_dependencies services ≡ some none
        → DependenciesFirst [] (topological_sort iterate services)
    accepted_in_order iterate it accepted = elim (detect_cases services) [
      | inr (e, c) ↦ cc
      | inl (e, none_comes_back, h) ↦
          topological_sort_given iterate it services different
            (λ out good x m. given out good x (h x m) m)
    ]
