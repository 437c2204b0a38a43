-- ===== src/Compose/Cycles/Detected.antt =====
-- What `detectCircularDependencies` (internal/core/compose/parser.go) finds.
use hoster.Prelude.{
  mem-append, ℕ, ◌≤◌, ◌≡◌, refl, subst, ◌∙◌, String, Bool, true, false, none, some, List, [], ◌∷◌,
  ◌⊎◌, mem, not, arith, str_eq, str_eq_iff, str_eq_refl, Bool-cases, inl, inr, length,
  length-filter-le, map,
}
use hoster.Prelude.Dict.{update, update_lem}
use hoster.Compose.{Service}
use hoster.Compose.Cycles.{
  Search, Found, has_cycle, collect, search_all, universe, circular_dependency,
  detect_circular_dependencies,
}
use hoster.Compose.Cycles.Paths.{no_return, first_edge, Grounded, Circle, left, left_mono}
use hoster.Compose.Cycles.Walk.{Known, Outcome, Outcome-bind, has_cycle-Promise}

-- No name is being searched.
abbrev Idle : Search → Type 0
Idle st = (x : String) → st.stack x ≡ false

-- All chains of dependencies of the services come to an end.
abbrev pub AllGrounded : {F : Type 0} → (String → List String) → List (Service F) → Type 0
AllGrounded deps services =
    (x : String) → mem x (map (λ s. s.name) services) ≡ true → Grounded deps x

module _ {F : Type 0} where
  collect-closed :
      (m : String → List String) (services : List (Service F)) (names : List String)
      → ((x d : String) → mem d (m x) ≡ true → mem d names ≡ true)
      → ((d : String) → mem d (universe services) ≡ true → mem d names ≡ true)
      → (x d : String) → mem d (collect m services x) ≡ true
      → mem d names ≡ true
  unfolding collect universe
  collect-closed m [] names h k x d e = h x d e
  collect-closed m (s ∷ services) names h k x d e =
      collect-closed (update m s.name s.depends_on) services names more
        (λ c f. k c (ground (arith, mem-append c s.depends_on (universe services)))) x d e
    where
      more : (x d : String) → mem d (update m s.name s.depends_on x) ≡ true → mem d names ≡ true
      more x d e = elim (Bool-cases (str_eq s.name x)) [
        | inl q ↦
            let f : mem d s.depends_on ≡ true = rw (update_lem m s.name s.depends_on x, q) at e in
            k d (ground (arith, mem-append d s.depends_on (universe services)))
        | inr q ↦ h x d (rw (update_lem m s.name s.depends_on x, q) at e)
      ]

  -- The map `deps` of the source.
  abbrev pub dependencies : List (Service F) → String → List String
  dependencies services = collect (λ k. []) services

  module _ (deps : String → List String) (names : List String)
      (closed : (x d : String) → mem d (deps x) ≡ true → mem d names ≡ true) (fuel : ℕ) where
    search :
        (part : List (Service F)) (st : Search)
        → ((x : String) → mem x (universe part) ≡ true → mem x names ≡ true)
        → left names st.visited ≤ fuel
        → Known deps names st
        → Idle st
        → Outcome deps names st (search_all deps fuel part st) (λ end. AllGrounded deps part)
    unfolding search_all universe
    search [] st inside enough k idle =
        inl (st, refl, record { seen = λ x m. m; less = λ x s. s; known = k }, λ x m. cc)
    search (s ∷ part) st inside enough k idle = elim (Bool-cases (mem s.name st.visited)) [
      | inr new ↦ rw new (
          Outcome-bind deps names (has_cycle deps fuel s.name st) (search_all deps fuel part) _ _
            (has_cycle-Promise deps names closed fuel s.name st
              (inside s.name (rw (str_eq_refl s.name) refl)) new enough k (λ x q. cc (idle x, q)))
            (λ mid a g. add g (
              search part mid inside_tail
                (omega (arith, left_mono names st.visited mid.visited a.seen, enough)) a.known
                (λ x. off (mid.stack x) (λ q. cc (idle x, a.less x q))))))
      | inl old ↦ rw old (
          add (elim (k s.name old) [ inl q ↦ cc (idle s.name, q) | inr g ↦ g ])
            (search part st inside_tail enough k idle))
    ]
      where
        off : (b : Bool) → ¬ (b ≡ true) → b ≡ false
        off true h = absurd (h refl)
        off false h = refl

        inside_tail : (x : String) → mem x (universe part) ≡ true → mem x names ≡ true
        inside_tail x m = inside x (ground (arith, mem-append x s.depends_on (universe part)))

        add :
            {mid : Search} {o : Found}
            → Grounded deps s.name
            → Outcome deps names mid o (λ end. AllGrounded deps part)
            → Outcome deps names mid o (λ end. AllGrounded deps (s ∷ part))
        add g (inr found) = inr found
        add g (inl (end, e, a, h)) = inl (
          end,
          e,
          a,
          λ x m. elim (Bool-cases (str_eq s.name x)) [
            | inl q ↦ subst (Grounded deps) ((str_eq_iff s.name x).0 q) g
            | inr q ↦ h x (ground arith)
          ],
        )

  pub collect_absent :
      (m : String → List String) (services : List (Service F)) (x : String)
      → mem x (map (λ s. s.name) services) ≡ false
      → collect m services x ≡ m x
  unfolding collect
  collect_absent m [] x h = refl
  collect_absent m (s ∷ services) x h =
      let e = collect_absent (update m s.name s.depends_on) services x (ground arith) in
      let f = update_lem m s.name s.depends_on x in
      let q : str_eq s.name x ≡ false = ground arith in e ∙ (f ∙ rw q refl)

  no_circle :
      (services : List (Service F))
      → AllGrounded (dependencies services) services
      → ¬ (Circle (dependencies services))
  no_circle services h (x, p) = elim (Bool-cases (mem x (map (λ s. s.name) services))) [
    | inl named ↦ no_return (dependencies services) (h x named) p
    | inr absent ↦
        let (y, e, _) = first_edge (dependencies services) p in
        cc (rw (collect_absent (λ k. []) services x absent) at e)
  ]

  -- The search answers within its fuel. It finds no error exactly if no chain of dependencies comes
  -- back to where it began, and then every chain that begins at a service comes to an end.
  pub detect_cases :
      (services : List (Service F))
      → let deps = dependencies services in
        ((detect_circular_dependencies services ≡ some none)
          × (¬ (Circle deps))
          × AllGrounded deps services)
        ⊎ ((detect_circular_dependencies services ≡ some (some circular_dependency)) × Circle deps)
  unfolding detect_circular_dependencies
  detect_cases services =
      elim (search (dependencies services) (universe services)
        (collect-closed (λ k. []) services (universe services) (λ x d e. cc) (λ d e. e))
        (length (universe services)) services (record { visited = []; stack = λ k. false })
        (λ x m. m) (length-filter-le (λ x. not (mem x [])) (universe services)) (λ x m. cc)
        (λ x. refl)) [
          | inl (end, e, a, h) ↦ inl (rw e refl, no_circle services h, h)
          | inr (end, e, c) ↦ inr (rw e refl, c)
        ]
