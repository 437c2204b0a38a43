-- ===== src/Compose/Cycles/Paths.antt =====
-- Chains of dependencies, and how many names a search has left (internal/core/compose/parser.go,
-- detectCircularDependencies).
use hoster.Prelude.{
  ℕ, suc, ◌≤◌, ◌≡◌, refl, sym, subst, String, true, false, List, [], ◌∷◌, ◌⊎◌, mem, not, filter,
  length, arith, str_eq_iff, inl, inr,
}

module _ (deps : String → List String) where
  -- A chain of one or more dependencies.
  pub data Path⁺ (x : String) : String → Type 0 where
    edge : {y : String} → mem y (deps x) ≡ true → Path⁺ x y
    step : {y z : String} → Path⁺ x y → mem z (deps y) ≡ true → Path⁺ x z

  -- Every chain of dependencies from here comes to an end.
  pub data Grounded : String → Type 0 where
    grounded : {x : String} → ((d : String) → mem d (deps x) ≡ true → Grounded d) → Grounded x

  -- Some chain of dependencies comes back to where it began.
  abbrev pub Circle : Type 0
  Circle = (x : String) × Path⁺ x x

  pub first_edge :
      {x z : String} → Path⁺ x z → (y : String) × (mem y (deps x) ≡ true) × ((y ≡ z) ⊎ Path⁺ y z)
  first_edge {z = z} (edge e) = (z, e, inl refl)
  first_edge (step {y = y} {z = z} p e) =
      let (w, f, rest) = first_edge p in
      (
        w,
        f,
        elim rest [
          | inl same ↦ inr (edge (subst (λ v. mem z (deps v) ≡ true) (sym same) e))
          | inr q ↦ inr (step q e)
        ],
      )

  -- No chain from a grounded name comes back to it.
  pub no_return : {x : String} → Grounded x → ¬ (Path⁺ x x)
  no_return {x} (grounded f) p =
      let (y, e, rest) = first_edge p in
      elim rest [
        | inl same ↦ no_return (f y e) (subst (λ v. Path⁺ v v) (sym same) p)
        | inr q ↦ no_return (f y e) (step q e)
      ]

-- The names that are not visited.
abbrev pub left : List String → List String → ℕ
left names visited = length (filter (λ x. not (mem x visited)) names)

pub left_mono :
    (names visited more : List String)
    → ((x : String) → mem x visited ≡ true → mem x more ≡ true)
    → left names more ≤ left names visited
left_mono [] visited more h = omega arith
left_mono (x ∷ names) visited more h = ground (arith, left_mono names visited more h, h x)

pub left_drop :
    (names visited : List String) (n : String)
    → mem n names ≡ true
    → mem n visited ≡ false
    → suc (left names (n ∷ visited)) ≤ left names visited
left_drop [] visited n m h = cc
left_drop (x ∷ names) visited n m h = ground (
  arith,
  left_drop names visited n,
  left_mono names visited (n ∷ visited) (λ y k. ground arith),
  str_eq_iff x n,
  str_eq_iff n x,
)
