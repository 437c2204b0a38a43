-- ===== src/Order/Build.antt =====
-- The graph that `TopologicalSort` builds (internal/core/deployment/ordering.go), for services with
-- different names: the maps hold what the list of services says.
use hoster.Prelude.{
  Bool-cases, inl, inr, true, suc, ◌+◌, ◌≡◌, refl, ◌∙◌, String, false, Option, none, some, List, [],
  ◌∷◌, ◌++◌, str_eq, str_eq_iff, mem, arith, if◌then◌else◌, length, ap,
}
use hoster.Prelude.Int.{pos}
use hoster.Compose.{Service}
use hoster.Prelude.Dict.{update}
use hoster.Order.{add_service, Graph, add_dependents, names, build, empty, dedup}
use hoster.Order.Relax.{count, remaining, Distinct}

module _ {F : Type 0} where
  -- What a service depends on; nothing for a name that is no service.
  abbrev pub deps_of : List (Service F) → String → List String
  deps_of [] x = []
  deps_of (s ∷ services) x =
      let rest = deps_of services x in if str_eq s.name x then s.depends_on else rest

  -- The service of a name.
  abbrev pub service_of : List (Service F) → String → Option (Service F)
  service_of [] x = none
  service_of (s ∷ services) x =
      let rest = service_of services x in if str_eq s.name x then some s else rest

  pub deps_of_absent :
      (services : List (Service F)) (x : String)
      → mem x (names services) ≡ false
      → deps_of services x ≡ []
  deps_of_absent [] x h = refl
  deps_of_absent (s ∷ services) x h = ground (arith, deps_of_absent services x)

  service_of_absent :
      (services : List (Service F)) (x : String)
      → mem x (names services) ≡ false
      → service_of services x ≡ none
  service_of_absent [] x h = refl
  service_of_absent (s ∷ services) x h = ground (arith, service_of_absent services x)

module _ {F : Type 0} where
  -- A name of the list has its service, with its dependencies.
  pub service_found :
      (services : List (Service F)) (x : String)
      → mem x (names services) ≡ true
      → (s : Service F) × (service_of services x ≡ some s)
        × (s.name ≡ x)
        × (deps_of services x ≡ s.depends_on)
  service_found [] x h = cc
  service_found (s ∷ services) x h = elim (Bool-cases (str_eq s.name x)) [
    | inl e ↦ (s, rw e, (str_eq_iff s.name x).0 e, rw e)
    | inr e ↦
        let (t, found, named, deps) = service_found services x (ground arith) in
        (t, rw e found, named, rw e deps)
  ]

pub count-append : (x : String) (xs ys : List String) → count x (xs ++ ys) ≡ count x xs + count x ys
count-append x [] ys = omega arith
count-append x (y ∷ xs) ys = ground (arith, count-append x xs ys)

pub remaining-nil : (ds : List String) → remaining [] ds ≡ length ds
remaining-nil [] = refl
remaining-nil (d ∷ ds) = ap suc (remaining-nil ds)

-- The dependents after the loop over the dependencies of one service.
count-add_dependents :
    (name : String) (m : String → List String) (deps : List String) (x n : String)
    → count x (add_dependents name m deps n)
      ≡ count x (m n) + (if str_eq name x then count n deps else 0)
unfolding update
count-add_dependents name m [] x n = ground arith
count-add_dependents name m (dep ∷ deps) x n = ground (
  arith,
  count-add_dependents name (update m dep (m dep ++ name ∷ [])) deps x n,
  str_eq_iff dep n,
  count-append x (m dep) (name ∷ []),
)

module _ {F : Type 0} where
  -- Go's map holds for each name the entry of the last service of that name; with different names
  -- that is the only one.
  build_degree :
      (g : Graph F) (services : List (Service F)) (x : String)
      → Distinct (names services)
      → (build g services).in_degree x
        ≡ (if mem x (names services) then pos (length (deps_of services x)) else g.in_degree x)
  unfolding build update
  build_degree g [] x h = refl
  build_degree g (s ∷ services) x (new, h) =
      ground (arith, build_degree (add_service g s) services x h, str_eq_iff s.name x)

  build_dependents :
      (g : Graph F) (services : List (Service F)) (x n : String)
      → Distinct (names services)
      → count x ((build g services).dependents n)
        ≡ count x (g.dependents n) + count n (deps_of services x)
  unfolding build
  build_dependents g [] x n h = omega arith
  build_dependents g (s ∷ services) x n (new, h) = ground (
    arith,
    build_dependents (add_service g s) services x n h,
    count-add_dependents s.name g.dependents s.depends_on x n,
    deps_of_absent services x,
    str_eq_iff s.name x,
  )

  build_service :
      (g : Graph F) (services : List (Service F)) (x : String)
      → Distinct (names services)
      → (build g services).service_map x
        ≡ (if mem x (names services) then service_of services x else g.service_map x)
  unfolding build update
  build_service g [] x h = refl
  build_service g (s ∷ services) x (new, h) =
      ground (arith, build_service (add_service g s) services x h, str_eq_iff s.name x)

  -- The graph of services with different names.
  pub record Describes (g : Graph F) (services : List (Service F)) : Type 0 where
    pub degree : (x : String) → g.in_degree x ≡ pos (remaining [] (deps_of services x))
    pub dependents : (x n : String) → count x (g.dependents n) ≡ count n (deps_of services x)
    pub service : (x : String) → g.service_map x ≡ service_of services x

  pub build-Describes :
      (services : List (Service F))
      → Distinct (names services)
      → Describes (build empty services) services
  build-Describes services h = record {
    degree = λ x. ground (
      arith,
      build_degree empty services x h,
      deps_of_absent services x,
      remaining-nil (deps_of services x),
    );
    dependents = λ x n. build_dependents empty services x n h ∙ ground arith;
    service = λ x. ground (arith, build_service empty services x h, service_of_absent services x);
  }

pub dedup-Distinct : (xs : List String) → Distinct xs → dedup xs ≡ xs
unfolding dedup
dedup-Distinct [] h = refl
dedup-Distinct (x ∷ xs) (new, h) = rw new (ap (◌∷◌ x) (dedup-Distinct xs h))
