-- ===== src/Examples/Templates.antt =====
-- The theorems about slugs and cloud provisions at sample inputs (internal/core/domain).
use hoster.Prelude.{◌≡◌, refl, ◌≢◌, ◌↔◌, true, false, none, All}
use hoster.Prelude.Text.{codes}
use hoster.Template.Slug.{
  generate_slug, replace_spaces, collapse, contains_double, StartsPlain, EndsPlain,
  generate_slug_tidy, slugify, is_label_char, slugify_safe,
}
use hoster.Prelude.{ℕ, ◌+◌, length, [], ◌∷◌, ◌||◌, ok}
use hoster.Prelude.Int.{pos}
use hoster.Template.{
  Template, publish, validate_name, validate_version, validate_compose_spec, validate_variables,
}
use hoster.Template.Create.{new_template, new_template_iff, AllNew, IsSound, validate_variables_iff}
use hoster.Health.{HealthStatus, healthy, unhealthy, ContainerHealth, aggregate_health}
use hoster.Health.Summary.{is_unhealthy, is_degraded, aggregate_health_cases}
use hoster.Examples.{small, blog}
use hoster.Provision.{hetzner, pending, CloudProvision, new_cloud_provision, set_step}
use hoster.Provision.Lifecycle.{Inv, here, next, stepped, new-Reach-Inv}

generate_slug_tidy_example :
    let slug = generate_slug (λ s. s) (codes " my  blog-") in
    let s = replace_spaces (codes " my  blog-") in
    (contains_double (collapse (length s) s) ≡ false)
    × ((more : ℕ) → collapse (length s + more) s ≡ collapse (length s) s)
    × (contains_double slug ≡ false)
    × StartsPlain slug
    × EndsPlain slug
generate_slug_tidy_example = generate_slug_tidy (λ s. s) (codes " my  blog-")

slugify_safe_example :
    All (λ c. is_label_char c ≡ true) (slugify (codes "My Blog!"))
    × (slugify (slugify (codes "My Blog!")) ≡ slugify (codes "My Blog!"))
    × (All (λ c. is_label_char c ≡ true) (codes "My Blog!")
        → slugify (codes "My Blog!") ≡ codes "My Blog!")
slugify_safe_example = slugify_safe (codes "My Blog!")

-- The provision that the example makes.
abbrev made : CloudProvision
made = record {
  id = 0;
  reference_id = "prov_1";
  creator_id = 2;
  credential_id = 4;
  credential_ref_id = "";
  provider = hetzner;
  status = pending;
  instance_name = "web";
  region = "eu";
  size = "small";
  provider_instance_id = "";
  public_ip = "";
  node_id = "";
  ssh_key_id = "";
  current_step = "";
  error_message = "";
  created_at = 1;
  updated_at = 1;
  completed_at = none;
}

new-Reach-Inv_example : Inv (set_step 2 "create" made)
unfolding new_cloud_provision
new-Reach-Inv_example =
    new-Reach-Inv "prov_1" 1 2 4 hetzner "web" "eu" "small" {p = made}
      {q = set_step 2 "create" made} refl (next here (stepped 2 "create" refl))

new_template_iff_example :
    (t : Template ℕ) × (new_template small
        (λ s. s)
        (λ s. s)
        "tmpl_1"
        1
        (codes "Blog")
        (codes "1.0.0")
        (codes "x")
      ≡ ok t)
    × (t.published ≡ false)
    × ((later : ℕ) → (publish later t).1 ≡ none)
    × ((later : ℕ) → (publish later t).0.published ≡ true)
unfolding validate_name validate_version validate_compose_spec
new_template_iff_example =
    (new_template_iff small (λ s. s) (λ s. s) "tmpl_1" 1 (codes "Blog") (codes "1.0.0")
        (codes "x")).1
      (refl, refl, refl)

validate_variables_iff_example : AllNew [] blog.variables × All IsSound blog.variables
unfolding validate_variables
validate_variables_iff_example = (validate_variables_iff blog.variables).0 refl

abbrev container : HealthStatus → ContainerHealth
container health = record {
  name = "web";
  status = "running";
  health = health;
  started_at = none;
  restarts = pos 0;
}

aggregate_health_cases_example :
    let cs = container unhealthy ∷ [] in
    let h = aggregate_health (container healthy ∷ cs) in
    (h ≢ HealthStatus.unknown)
    × ((h ≡ unhealthy) ↔ All (λ d. is_unhealthy d ≡ true) (container healthy ∷ cs))
    × ((h ≡ healthy)
        ↔ All (λ d. (is_unhealthy d || is_degraded d) ≡ false) (container healthy ∷ cs))
aggregate_health_cases_example =
    aggregate_health_cases (container healthy) (container unhealthy ∷ [])
