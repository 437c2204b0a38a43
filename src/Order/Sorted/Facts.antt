-- ===== src/Order/Sorted/Facts.antt =====
-- What follows from a good sequence of services (internal/core/deployment/ordering.go).
use hoster.Prelude.{
  ℕ, zero, suc, ◌+◌, ◌≤◌, ◌<◌, ◌≡◌, refl, String, true, false, List, [], ◌∷◌, ◌||◌, str_eq,
  str_eq_iff, str_eq_refl, mem, arith, Bool-cases, inl, inr, subst, All, length,
}
use hoster.Compose.{Service}
use hoster.Order.{names}
use hoster.Order.Relax.{remaining, remaining-cons, Distinct}
use hoster.Order.Build.{deps_of}
use hoster.Order.Sorted.{Good, final, DependenciesFirst, IsFound, count_pos}

pub All-placed :
    (placed ds : List String) → All (λ d. mem d placed ≡ true) ds → remaining placed ds ≡ 0
All-placed placed [] h = refl
All-placed placed (d ∷ ds) (p, h) = rw p (All-placed placed ds h)

placed-All : (placed ds : List String) → remaining placed ds ≡ 0 → All (λ d. mem d placed ≡ true) ds
placed-All placed [] h = tt
placed-All placed (d ∷ ds) h = ground (arith, placed-All placed ds)

pub mem-final :
    {F : Type 0} (placed : List String) (out : List (Service F)) (x : String)
    → mem x (final placed out) ≡ (mem x placed || mem x (names out))
mem-final placed [] x = ground arith
mem-final placed (s ∷ out) x = ground (arith, mem-final (s.name ∷ placed) out x)

module _ {F : Type 0} (services : List (Service F)) where
  pub Good-end :
      (placed : List String) (out : List (Service F))
      → Good services placed out
      → (x : String) → mem x (names services) ≡ true
      → remaining (final placed out) (deps_of services x) ≡ 0
      → mem x (final placed out) ≡ true
  Good-end placed [] h = h
  Good-end placed (s ∷ out) (_, _, _, _, h) = Good-end (s.name ∷ placed) out h

  pub Good-length :
      (placed : List String) (out : List (Service F))
      → Good services placed out
      → length out + remaining (final placed out) (names services)
        ≤ remaining placed (names services)
  Good-length placed [] h = omega arith
  Good-length placed (s ∷ out) (_, named, new, _, h) = omega (
    arith,
    Good-length (s.name ∷ placed) out h,
    remaining-cons placed s.name (names services) new,
    count_pos s.name (names services) named,
  )

  pub Good-Distinct :
      (placed : List String) (out : List (Service F))
      → Good services placed out
      → Distinct (names out) × ((x : String) → mem x (names out) ≡ true → mem x placed ≡ false)
  Good-Distinct placed [] h = (tt, λ x m. cc)
  Good-Distinct placed (s ∷ out) (_, _, new, _, h) =
      let (once, apart) = Good-Distinct (s.name ∷ placed) out h in
      (
        (ground (arith, apart s.name, str_eq_refl s.name), once),
        λ x m. ground (arith, apart x, str_eq_iff s.name x),
      )

  pub Good-All :
      (placed : List String) (out : List (Service F))
      → Good services placed out
      → All (IsFound services) out
  Good-All placed [] h = tt
  Good-All placed (s ∷ out) (found, _, _, _, h) = (found, Good-All (s.name ∷ placed) out h)

  pub Good-DependenciesFirst :
      (placed : List String) (out : List (Service F))
      → Good services placed out
      → DependenciesFirst placed out
  Good-DependenciesFirst placed [] h = tt
  Good-DependenciesFirst placed (s ∷ out) (_, _, _, left, h) =
      (placed-All placed s.depends_on left, Good-DependenciesFirst (s.name ∷ placed) out h)

-- Every dependency is a service, and a number can be given to each service that is larger than those of
-- its dependencies: no chain of dependencies comes back to where it began.
abbrev pub IsAcyclic : {F : Type 0} → (String → ℕ) → List (Service F) → List (Service F) → Type 0
IsAcyclic rank services part =
    All (λ s. All (λ d. (mem d (names services) ≡ true) × (rank d < rank s.name)) s.depends_on) part

module _ {F : Type 0} (services : List (Service F)) (rank : String → ℕ) where
  acyclic_deps :
      (part : List (Service F)) (x : String)
      → IsAcyclic rank services part
      → mem x (names part) ≡ true
      → All (λ d. (mem d (names services) ≡ true) × (rank d < rank x)) (deps_of part x)
  acyclic_deps [] x h m = tt
  acyclic_deps (s ∷ part) x (p, h) m = elim (Bool-cases (str_eq s.name x)) [
    | inl e ↦ rw e (
        subst (λ y. All (λ d. (mem d (names services) ≡ true) × (rank d < rank y)) s.depends_on)
          ((str_eq_iff s.name x).0 e) p)
    | inr e ↦ rw e (acyclic_deps part x h (ground arith))
  ]

  -- Every service is given out by the loop.
  pub all_given :
      (out : List (Service F))
      → Good services [] out
      → IsAcyclic rank services services
      → (k : ℕ) (x : String) → rank x < k
      → mem x (names services) ≡ true
      → mem x (final [] out) ≡ true
  all_given out h acyclic zero x lt m = absurd (omega arith)
  all_given out h acyclic (suc k) x lt m = Good-end services [] out h x m (
      All-placed (final [] out) (deps_of services x) (
        each (deps_of services x) (acyclic_deps services x acyclic m)
          (λ d named below. all_given out h acyclic k d (omega arith) named)))
    where
      each :
          (ds : List String)
          → All (λ d. (mem d (names services) ≡ true) × (rank d < rank x)) ds
          → ((d : String)
              → mem d (names services) ≡ true
              → rank d < rank x
              → mem d (final [] out) ≡ true)
          → All (λ d. mem d (final [] out) ≡ true) ds
      each [] t f = tt
      each (d ∷ ds) ((named, below), t) f = (f d named below, each ds t f)
