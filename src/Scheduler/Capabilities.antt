-- ===== src/Scheduler/Capabilities.antt =====
-- The capabilities of a plan, of a template and of nodes: internal/core/scheduler/scheduler.go.
use hoster.Prelude.{
  ◌≡◌, ◌≢◌, refl, ◌↔◌, String, Bool, true, none, List, [], ◌∷◌, filter, any, mem, str_eq_iff,
  str_eq_refl, arith, Bool-cases, inl, inr, ◌⊎◌,
}
use hoster.Node.{Node, has_all_capabilities, has_any_capability}
use hoster.Scheduler.{
  capabilities_intersect, validate_capability_requirements, filter_by_capabilities,
  filter_by_plan_capabilities,
}

any_of_mem :
    (p : String → Bool) (x : String) (xs : List String)
    → mem x xs ≡ true
    → p x ≡ true
    → any p xs ≡ true
any_of_mem p x [] m h = cc
any_of_mem p x (y ∷ xs) m h = ground (arith, str_eq_iff y x, any_of_mem p x xs)

any_witness :
    (p : String → Bool) (xs : List String)
    → any p xs ≡ true
    → (x : String) × (mem x xs ≡ true) × (p x ≡ true)
any_witness p [] h = cc
any_witness p (y ∷ xs) h = elim (Bool-cases (p y)) [
  | inl e ↦ (y, rw (str_eq_refl y), e)
  | inr e ↦ let (x, m, q) = any_witness p xs (ground arith) in (x, rw m (ground arith), q)
]

-- Two lists of capabilities overlap, as `CapabilitiesIntersect` says, exactly if one of them is empty
-- or some capability is in both.
pub capabilities_intersect_iff :
    (a b : List String)
    → (capabilities_intersect a b ≡ true)
      ↔ ((a ≡ []) ⊎ (b ≡ []) ⊎ ((c : String) × (mem c a ≡ true) × (mem c b ≡ true)))
unfolding capabilities_intersect
capabilities_intersect_iff [] b = (λ h. inl refl, λ h. refl)
capabilities_intersect_iff (x ∷ a) [] = (λ h. inr (inl refl), λ h. refl)
capabilities_intersect_iff (x ∷ a) (y ∷ b) = (
  λ h. let (c, m, n) = any_witness (λ c. mem c (x ∷ a)) (y ∷ b) h in inr (inr (c, n, m)),
  λ h. elim h [
    | inl e ↦ cc
    | inr (inl e) ↦ cc
    | inr (inr (c, m, n)) ↦ any_of_mem (λ d. mem d (x ∷ a)) c (y ∷ b) n m
  ],
)

filter_idle :
    {A : Type 0} (p q : A → Bool) (xs : List A)
    → ((x : A) → q x ≡ true → p x ≡ true)
    → filter p (filter q xs) ≡ filter q xs
filter_idle p q [] h = refl
filter_idle p q (x ∷ xs) h = elim (Bool-cases (q x)) [
  | inl e ↦ rw e (rw (h x e) (rw (filter_idle p q xs h)))
  | inr e ↦ rw e (filter_idle p q xs h)
]

-- Once `ValidateCapabilityRequirements` has accepted what a template requires, and it requires
-- something, the plan takes no further node away: the nodes with the required capabilities are
-- permitted.
pub plan_filter_idle :
    {F : Type 0} (nodes : List (Node F)) (required allowed : List String)
    → required ≢ []
    → validate_capability_requirements required allowed ≡ none
    → filter_by_plan_capabilities (filter_by_capabilities nodes required) allowed
      ≡ filter_by_capabilities nodes required
unfolding filter_by_capabilities filter_by_plan_capabilities validate_capability_requirements
    has_all_capabilities has_any_capability
plan_filter_idle nodes [] allowed r v = absurd (r refl)
plan_filter_idle nodes (x ∷ required) [] r v = refl
plan_filter_idle nodes (x ∷ required) (a ∷ allowed) r v =
    filter_idle _ _ nodes
      (λ n h. any_of_mem (λ c. mem c n.capabilities) x (a ∷ allowed) (ground arith) (ground arith))
