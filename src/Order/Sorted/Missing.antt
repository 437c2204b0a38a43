-- ===== src/Order/Sorted/Missing.antt =====
-- The services that the loop has not given out, which `TopologicalSort`
-- (internal/core/deployment/ordering.go) appends.
use hoster.Prelude.{
  mem-append, ◌≡◌, refl, String, Bool, true, List, [], ◌∷◌, ◌++◌, ◌&&◌, ◌||◌, str_eq, str_eq_iff,
  str_eq_refl, mem, arith, Bool-cases, inl, inr, ap, All, any, filter,
}
use hoster.Compose.{Service}
use hoster.Order.{names, append_missing}
use hoster.Order.Relax.{Distinct, Distinct-append}

module _ (p : String → Bool) where
  pub mem-filter : (x : String) (xs : List String) → mem x (filter p xs) ≡ (mem x xs && p x)
  mem-filter x [] = refl
  mem-filter x (y ∷ xs) = ground (arith, mem-filter x xs, str_eq_iff y x)

  pub filter-Distinct : (xs : List String) → Distinct xs → Distinct (filter p xs)
  filter-Distinct [] h = tt
  filter-Distinct (y ∷ xs) (new, h) = elim (Bool-cases (p y)) [
    | inl e ↦ rw e (ground (arith, mem-filter y xs), filter-Distinct xs h)
    | inr e ↦ rw e (filter-Distinct xs h)
  ]

module _ {F : Type 0} where
  any-names :
      (name : String) (result : List (Service F))
      → any (λ r. str_eq r.name name) result ≡ mem name (names result)
  any-names name [] = refl
  any-names name (r ∷ result) = rw (any-names name result)

  names-concat :
      (result : List (Service F)) (s : Service F)
      → names (result ++ s ∷ []) ≡ names result ++ s.name ∷ []
  names-concat [] s = refl
  names-concat (r ∷ result) s = ap (◌∷◌ r.name) (names-concat result s)

  All-concat :
      (P : Service F → Type 0) (result : List (Service F)) (s : Service F)
      → All P result
      → P s
      → All P (result ++ s ∷ [])
  All-concat P [] s h q = (q, tt)
  All-concat P (r ∷ result) s (p, h) q = (p, All-concat P result s h q)

  pub missing-names :
      (result services : List (Service F)) (x : String)
      → mem x (names (append_missing result services))
        ≡ (mem x (names result) || mem x (names services))
  unfolding append_missing
  missing-names result [] x = ground arith
  missing-names result (s ∷ services) x = elim (Bool-cases (mem s.name (names result))) [
    | inl e ↦
        rw (any-names s.name result)
          (rw e (ground (arith, missing-names result services x, str_eq_iff s.name x)))
    | inr e ↦ rw (any-names s.name result) (
        rw e (
          ground (
            arith,
            missing-names (result ++ s ∷ []) services x,
            names-concat result s,
            mem-append x (names result) (s.name ∷ []),
          )))
  ]

  pub missing-Distinct :
      (result services : List (Service F))
      → Distinct (names result)
      → Distinct (names (append_missing result services))
  unfolding append_missing
  missing-Distinct result [] h = h
  missing-Distinct result (s ∷ services) h = elim (Bool-cases (mem s.name (names result))) [
    | inl e ↦ rw (any-names s.name result) (rw e (missing-Distinct result services h))
    | inr e ↦ rw (any-names s.name result) (
        rw e (
          missing-Distinct (result ++ s ∷ []) services (
            rw (names-concat result s) (
              Distinct-append (names result) (s.name ∷ []) h (refl, tt)
                (λ x m. ground (arith, str_eq_iff s.name x))))))
  ]

  pub missing-All :
      (P : Service F → Type 0) (result services : List (Service F))
      → All P result
      → All P services
      → All P (append_missing result services)
  unfolding append_missing
  missing-All P result [] h k = h
  missing-All P result (s ∷ services) h (q, k) = elim (Bool-cases (mem s.name (names result))) [
    | inl e ↦ rw (any-names s.name result) (rw e (missing-All P result services h k))
    | inr e ↦
        rw (any-names s.name result)
          (rw e (missing-All P (result ++ s ∷ []) services (All-concat P result s h q) k))
  ]

  -- Where nothing is missing, nothing is appended.
  pub missing_none :
      (result services : List (Service F))
      → ((x : String) → mem x (names services) ≡ true → mem x (names result) ≡ true)
      → append_missing result services ≡ result
  unfolding append_missing
  missing_none result [] h = refl
  missing_none result (s ∷ services) h = rw (any-names s.name result) (
      rw (h s.name (rw (str_eq_refl s.name)))
        (missing_none result services (λ x m. h x (ground arith))))
