-- ===== src/Order/Sorted.antt =====
-- What `TopologicalSort` (internal/core/deployment/ordering.go) gives out, for services with different
-- names.
pub mod Facts
pub mod Missing
pub mod Members
pub mod Result
use hoster.Prelude.{
  ℕ, zero, suc, ◌≤◌, ◌<◌, ◌≡◌, ◌∙◌, String, true, false, some, List, [], ◌∷◌, str_eq_iff,
  str_eq_refl, mem, arith, Bool-cases, inl, inr, All,
}
use hoster.Prelude.Int.{ℤ}
use hoster.Compose.{Service}
use hoster.Order.{Graph, names, relax}
use hoster.Order.Relax.{count, remaining, remaining-cons}
use hoster.Order.Build.{deps_of, service_of, service_found, Describes}
use hoster.Order.Loop.{run, Inv, step-Inv}

remaining_pos :
    (placed : List String) (x : String) (ds : List String)
    → mem x ds ≡ true
    → mem x placed ≡ false
    → 0 < remaining placed ds
remaining_pos placed x [] m h = cc
remaining_pos placed x (d ∷ ds) m h = ground (arith, remaining_pos placed x ds, str_eq_iff d x)

pub count_pos : (x : String) (ds : List String) → mem x ds ≡ true → 0 < count x ds
count_pos x [] m = cc
count_pos x (d ∷ ds) m = ground (arith, count_pos x ds)

pub remaining_none :
    (placed : List String) (x : String) (ds : List String)
    → remaining placed ds ≡ 0
    → mem x ds ≡ true
    → mem x placed ≡ true
remaining_none placed x ds h m = elim (Bool-cases (mem x placed)) [
  | inl e ↦ e
  | inr e ↦ absurd (omega (arith, remaining_pos placed x ds m e))
]

-- The names placed after a list of services has been started.
abbrev pub final : {F : Type 0} → List String → List (Service F) → List String
final placed [] = placed
final placed (s ∷ out) = final (s.name ∷ placed) out

-- The dependencies of each service stand before it, or were placed before all.
abbrev pub DependenciesFirst : {F : Type 0} → List String → List (Service F) → Type 0
DependenciesFirst placed [] = Unit
DependenciesFirst placed (s ∷ out) =
    All (λ d. mem d placed ≡ true) s.depends_on × DependenciesFirst (s.name ∷ placed) out

module _ {F : Type 0} (services : List (Service F)) where
  -- The services come one by one from the list, each new and with all its dependencies placed; at the
  -- end no other service has all its dependencies placed.
  abbrev pub Good : List String → List (Service F) → Type 0
  Good placed [] =
      (x : String)
      → mem x (names services) ≡ true
      → remaining placed (deps_of services x) ≡ 0
      → mem x placed ≡ true
  Good placed (s ∷ out) =
      (service_of services s.name ≡ some s)
      × (mem s.name (names services) ≡ true)
      × (mem s.name placed ≡ false)
      × (remaining placed s.depends_on ≡ 0)
      × Good (s.name ∷ placed) out

  module _ (g : Graph F) (d : Describes g services) where
    pub run-Good :
        (fuel : ℕ) (placed : List String) (degree : String → ℤ) (queue : List String)
        → Inv services placed degree queue
        → remaining placed (names services) ≤ fuel
        → Good placed (run fuel g degree queue)
    unfolding run
    run-Good zero placed degree [] h f = λ x m z. ground (arith, h.ready x)
    run-Good (suc fuel) placed degree [] h f = λ x m z. ground (arith, h.ready x)
    run-Good zero placed degree (n ∷ queue) h f =
        let (named, new, _) = h.queued n (rw (str_eq_refl n)) in
        absurd (omega (arith, remaining_pos placed n (names services) named new))
    run-Good (suc fuel) placed degree (n ∷ queue) h f =
        let (named, new, left) = h.queued n (rw (str_eq_refl n)) in
        let (s, found, same, deps) = service_found services n named in
        let next = relax degree queue (g.dependents n) in
        let rest =
          run-Good fuel (n ∷ placed) next.0 next.1 (step-Inv services g d placed degree n queue h) (
            omega (
              arith,
              remaining-cons placed n (names services) new,
              count_pos n (names services) named,
            )) in
        rw (d.service n ∙ found) (rw same (found, named, new, (rw (← deps) left), rest))

  abbrev pub IsFound : Service F → Type 0
  IsFound s = service_of services s.name ≡ some s
