-- ===== src/Compose/Cycles/Walk.antt =====
-- The search of `hasCycle` (internal/core/compose/parser.go, detectCircularDependencies).
use hoster.Prelude.{
  ℕ, zero, suc, ◌≤◌, ◌≡◌, refl, subst, String, true, false, some, List, [], ◌∷◌, ◌⊎◌, mem, arith,
  str_eq, str_eq_iff, str_eq_refl, Bool-cases, inl, inr,
}
use hoster.Prelude.Dict.{update, update_lem}
use hoster.Compose.Cycles.{Search, Found, unless_found, visit_deps, has_cycle}
use hoster.Compose.Cycles.Paths.{
  Path⁺, edge, step, Grounded, grounded, Circle, left, left_mono, left_drop,
}

module _ (deps : String → List String) (names : List String) where
  -- A name that was visited is being searched, or all its chains end.
  abbrev pub Known : Search → Type 0
  Known st = (x : String) → mem x st.visited ≡ true → (st.stack x ≡ true) ⊎ Grounded deps x

  -- What a call leaves of the state before it.
  pub record After (st end : Search) : Type 0 where
    pub seen : (x : String) → mem x st.visited ≡ true → mem x end.visited ≡ true
    pub less : (x : String) → end.stack x ≡ true → st.stack x ≡ true
    pub known : Known end

  -- A call ends: it found a circle, or it leaves a state with the property.
  abbrev pub Outcome : Search → Found → (Search → Type 0) → Type 0
  Outcome st o P =
      ((end : Search) × (o ≡ some (false, end)) × After st end × P end)
      ⊎ ((end : Search) × (o ≡ some (true, end)) × Circle deps)

  -- The names being searched lead to this one.
  abbrev pub Leads : Search → String → Type 0
  Leads st node = (x : String) → st.stack x ≡ true → Path⁺ deps x node

  After-trans : {st mid end : Search} → After st mid → After mid end → After st end
  After-trans a b = record {
    seen = λ x m. b.seen x (a.seen x m);
    less = λ x m. a.less x (b.less x m);
    known = b.known;
  }

  pub Outcome-bind :
      {st : Search} (o : Found) (f : Search → Found) (P Q : Search → Type 0)
      → Outcome st o P
      → ((mid : Search) → After st mid → P mid → Outcome mid (f mid) Q)
      → Outcome st (unless_found o f) Q
  Outcome-bind o f P Q (inr (end, e, c)) rest = rw e (inr (end, refl, c))
  Outcome-bind {st = st} o f P Q (inl (mid, e, a, p)) rest = rw e (extend (rest mid a p))
    where
      extend : Outcome mid (f mid) Q → Outcome st (f mid) Q
      extend (inl (end, e, b, q)) = inl (end, e, After-trans a b, q)
      extend (inr found) = inr found

  -- What a call of `hasCycle` promises, with some fuel.
  abbrev pub Promise : ℕ → (String → Search → Found) → Type 0
  Promise fuel call =
      (node : String) (st : Search)
      → mem node names ≡ true
      → mem node st.visited ≡ false
      → left names st.visited ≤ fuel
      → Known st
      → Leads st node
      → Outcome st (call node st) (λ end. Grounded deps node)

  module _ (closed : (x d : String) → mem d (deps x) ≡ true → mem d names ≡ true) (fuel : ℕ)
      (call : String → Search → Found) (promise : Promise fuel call) (node : String) where
    -- The state at the end of the loop.
    popped :
        (st : Search)
        → Known st
        → Grounded deps node
        → After st (record st { stack = update st.stack node false })
    popped st k g = record {
      seen = λ x m. m;
      less = λ x m. ground (arith, update_lem st.stack node false x);
      known = λ x m. elim (Bool-cases (str_eq node x)) [
        | inl e ↦ inr (subst (Grounded deps) ((str_eq_iff node x).0 e) g)
        | inr e ↦ elim (k x m) [
          | inl s ↦ inl (rw (update_lem st.stack node false x, e) s)
          | inr h ↦ inr h
        ]
      ];
    }

    visit :
        (ds : List String) (st : Search)
        → ((d : String) → mem d ds ≡ true → mem d (deps node) ≡ true)
        → left names st.visited ≤ fuel
        → Known st
        → ((x : String) → st.stack x ≡ true → (node ≡ x) ⊎ Path⁺ deps x node)
        → ((d : String) → mem d (deps node) ≡ true → (mem d ds ≡ true) ⊎ Grounded deps d)
        → Outcome st
            (visit_deps call node ds st)
            (λ end. Grounded deps node × (end.stack node ≡ false))
    unfolding visit_deps
    visit [] st part enough k leads done =
        let g : Grounded deps node = grounded (λ d e. elim (done d e) [ inl m ↦ cc | inr h ↦ h ]) in
        inl (
          _,
          refl,
          popped st k g,
          (g, rw (update_lem st.stack node false node, str_eq_refl node) refl),
        )
    visit (dep ∷ ds) st part enough k leads done = elim (Bool-cases (str_eq dep node)) [
      | inl e ↦
          let same : dep ≡ node = (str_eq_iff dep node).0 e in
          rw e (inr (st, refl, (node, edge (subst (λ d. mem d (deps node) ≡ true) same to_dep))))
      | inr e ↦ elim (Bool-cases (mem dep st.visited)) [
        | inr new ↦
            rw (e, new)
              (Outcome-bind (call dep st) (visit_deps call node ds) _ _
                (promise dep st (closed node dep to_dep) new enough k (λ x s. leads_on (leads x s)))
                (λ mid a g.
                  visit ds mid part_tail
                    (omega (arith, left_mono names st.visited mid.visited a.seen, enough)) a.known
                    (λ x s. leads x (a.less x s)) (λ d f. less_done g d (done d f))))
        | inl old ↦ elim (Bool-cases (st.stack dep)) [
          | inl s ↦ rw (e, old, s) (inr (st, refl, (dep, circle (leads dep s))))
          | inr s ↦
              rw (e, old, s)
                (visit ds st part_tail enough k leads
                  (λ d f. less_done (elim (k dep old) [ inl t ↦ cc | inr g ↦ g ]) d (done d f)))
        ]
      ]
    ]
      where
        to_dep : mem dep (deps node) ≡ true
        to_dep = part dep (rw (str_eq_refl dep) refl)

        part_tail : (d : String) → mem d ds ≡ true → mem d (deps node) ≡ true
        part_tail d m = part d (ground arith)

        leads_on : {x : String} → (node ≡ x) ⊎ Path⁺ deps x node → Path⁺ deps x dep
        leads_on (inl same) = subst (λ x. Path⁺ deps x dep) same (edge to_dep)
        leads_on (inr p) = step p to_dep

        circle : (node ≡ dep) ⊎ Path⁺ deps dep node → Path⁺ deps dep dep
        circle h = leads_on h

        less_done :
            Grounded deps dep
            → (d : String) → (mem d (dep ∷ ds) ≡ true) ⊎ Grounded deps d
            → (mem d ds ≡ true) ⊎ Grounded deps d
        less_done g d (inr h) = inr h
        less_done g d (inl m) = elim (Bool-cases (str_eq dep d)) [
          | inl e ↦ inr (subst (Grounded deps) ((str_eq_iff dep d).0 e) g)
          | inr e ↦ inl (ground arith)
        ]

  module _ (closed : (x d : String) → mem d (deps x) ≡ true → mem d names ≡ true) where
    -- The state with which `hasCycle` enters its loop.
    abbrev push : String → Search → Search
    push node st = record { visited = node ∷ st.visited; stack = update st.stack node true }

    pushed : (node : String) (st : Search) → Known st → Known (push node st)
    pushed node st k x m = elim (Bool-cases (str_eq node x)) [
      | inl e ↦ inl (rw (update_lem st.stack node true x, e) refl)
      | inr e ↦ elim (k x (ground arith)) [
        | inl s ↦ inl (rw (update_lem st.stack node true x, e) s)
        | inr g ↦ inr g
      ]
    ]

    pushed-Leads :
        (node : String) (st : Search)
        → Leads st node
        → (x : String) → (push node st).stack x ≡ true
        → (node ≡ x) ⊎ Path⁺ deps x node
    pushed-Leads node st leads x s = elim (Bool-cases (str_eq node x)) [
      | inl e ↦ inl ((str_eq_iff node x).0 e)
      | inr e ↦ inr (leads x (rw (update_lem st.stack node true x, e) at s))
    ]

    pop :
        (node : String) (st : Search) {o : Found}
        → Outcome (push node st) o (λ end. Grounded deps node × (end.stack node ≡ false))
        → Outcome st o (λ end. Grounded deps node)
    pop node st (inr found) = inr found
    pop node st (inl (end, e, a, (g, off))) = inl (
      end,
      e,
      record {
        seen = λ x m. a.seen x (ground arith);
        less = λ x s. elim (Bool-cases (str_eq node x)) [
          | inl q ↦ let p : node ≡ x = (str_eq_iff node x).0 q in cc (p, s, off)
          | inr q ↦ rw (update_lem st.stack node true x, q) at (a.less x s)
        ];
        known = a.known;
      },
      g,
    )

    -- `hasCycle` keeps the promise with any fuel.
    pub has_cycle-Promise : (fuel : ℕ) → Promise fuel (has_cycle deps fuel)
    unfolding has_cycle
    has_cycle-Promise zero node st named new enough k leads =
        absurd (omega (arith, left_drop names st.visited node named new))
    has_cycle-Promise (suc fuel) node st named new enough k leads = pop node st (
        visit closed fuel (has_cycle deps fuel) (has_cycle-Promise fuel) node (deps node)
          (push node st) (λ d e. e)
          (omega (arith, left_drop names st.visited node named new, enough)) (pushed node st k)
          (λ x s. pushed-Leads node st leads x s) (λ d e. inl e))
