-- ===== src/Dns/Custom.antt =====
-- How many custom domains a deployment can have: CanAddCustomDomain of internal/core/dns/verification.go.
use hoster.Prelude.{
  ℕ, suc, ◌+◌, ◌≡◌, Bool, none, some, List, [], ◌∷◌, ◌&&◌, if◌then◌else◌, any, leb, arith,
}
use hoster.Prelude.Text.{Text}
use hoster.Deployment.{Domain}
use hoster.Dns.{
  is_custom, add_to, can_add_custom_domain, domain_already_exists, max_domains_reached,
}

-- The number of custom domains.
abbrev pub count_custom : List Domain → ℕ
count_custom [] = 0
count_custom (d ∷ ds) = let rest = count_custom ds in if is_custom d.type then suc rest else rest

module _ (equal_fold : Text → Text → Bool) (hostname : Text) where
  abbrev pub is_taken : List Domain → Bool
  is_taken = any (λ d. is_custom d.type && equal_fold d.hostname hostname)

  add_to_cases :
      (n : ℕ) (ds : List Domain)
      → add_to equal_fold n ds hostname ≡ (
          if is_taken ds
          then some domain_already_exists
          else if leb 5 (n + count_custom ds)
          then some max_domains_reached
          else none)
  unfolding add_to
  add_to_cases n [] = ground arith
  add_to_cases n (d ∷ ds) = ground (arith, add_to_cases n ds, add_to_cases (suc n) ds)

  -- CanAddCustomDomain refuses a name that EqualFold finds among the custom domains of the deployment,
  -- however many there are, and else refuses exactly if there are five custom domains or more.
  pub can_add_custom_domain_cases :
      (ds : List Domain)
      → can_add_custom_domain equal_fold ds hostname ≡ (
          if is_taken ds
          then some domain_already_exists
          else if leb 5 (count_custom ds)
          then some max_domains_reached
          else none)
  unfolding can_add_custom_domain
  can_add_custom_domain_cases ds = ground (arith, add_to_cases 0 ds)
