-- ===== src/Deployment/Create.antt =====
-- internal/core/domain/deployment.go: the creation of a deployment, its name and its domains.
--
-- uuid.New and the three random bytes of a name are arguments: the text of the identifier, and the
-- six hexadecimal digits.
use hoster.Prelude.{
  ℕ, ◌≡◌, refl, ◌≢◌, ◌↔◌, inl, inr, String, Bool, true, false, none, some, List, [], ◌∷◌, ◌++◌,
  arith, if◌then◌else◌, Result, ok, err, All, Option-cases, Bool-cases, not,
}
use hoster.Prelude.Dict.{Dict, lookup}
use hoster.Prelude.Text.{Text, codes, is_empty}
use hoster.Template.{Variable, Template}
use hoster.Template.Slug.{slugify}
use hoster.Deployment.{
  Error, template_not_published, missing_variable, DomainType, VerificationStatus,
  VerificationMethod, Domain, Deployment, Status,
}
use hoster.Deployment.Lifecycle.{IsFresh}

-- The variable is not required, or a value is provided for it.
abbrev pub is_given : Dict String → Variable → Bool
is_given provided v =
    if v.required then elim (lookup v.name provided) [ none ↦ false | some x ↦ true ] else true

-- `ValidateDeploymentVariables`.
unfoldable pub validate_deployment_variables : List Variable → Dict String → List Error
validate_deployment_variables [] provided = []
validate_deployment_variables (v ∷ vars) provided =
    let errs = validate_deployment_variables vars provided in
    if is_given provided v then errs else missing_variable v.name ∷ errs

-- `GenerateDeploymentName`.
unfoldable pub generate_deployment_name : Text → Text → Text
generate_deployment_name slug suffix = slug ++ codes "-" ++ suffix

module _ {F : Type 0} where
  created : String → Text → ℕ → Template F → ℕ → Dict String → Deployment F
  unfolding generate_deployment_name
  created uuid suffix now template customer_id variables = record {
    id = 0;
    reference_id = uuid;
    name = generate_deployment_name template.slug suffix;
    template_id = template.id;
    template_ref_id = template.reference_id;
    template_version = template.version;
    customer_id = customer_id;
    node_id = "";
    status = Status.pending;
    variables = variables;
    domains = [];
    containers = [];
    resources = template.resource_requirements;
    proxy_port = 0;
    error_message = "";
    created_at = now;
    updated_at = now;
    started_at = none;
    stopped_at = none;
  }

  -- `NewDeployment`.
  unfoldable pub new_deployment :
      String → Text → ℕ → Template F → ℕ → Dict String → Result Error (Deployment F)
  unfolding created
  new_deployment uuid suffix now template customer_id variables =
      if not template.published
      then err template_not_published
      else elim (validate_deployment_variables template.variables variables) [
        | [] ↦ ok (created uuid suffix now template customer_id variables)
        | e ∷ errs ↦ err e
      ]

-- `GenerateDomain`.
unfoldable pub generate_domain : Text → Text → Domain
generate_domain deployment_name base_domain = record {
  hostname = slugify deployment_name ++ codes "." ++ base_domain;
  type = DomainType.auto;
  ssl_enabled = false;
  ssl_expires_at = none;
  verification_status = VerificationStatus.unneeded;
  verification_method = VerificationMethod.no_method;
  verified_at = none;
  last_check_error = "";
}

-- `GenerateDomainForNode`.
unfoldable pub generate_domain_for_node : Text → Text → Text → Domain
unfolding generate_domain
generate_domain_for_node deployment_name node_base_domain global_base_domain =
    generate_domain deployment_name
      (if is_empty node_base_domain then global_base_domain else node_base_domain)

-- `NewCustomDomain`.
unfoldable pub new_custom_domain : Text → Domain
new_custom_domain hostname = record {
  hostname = hostname;
  type = DomainType.custom;
  ssl_enabled = false;
  ssl_expires_at = none;
  verification_status = VerificationStatus.pending;
  verification_method = VerificationMethod.cname;
  verified_at = none;
  last_check_error = "";
}

-- Every variable that is required has a value.
abbrev pub IsComplete : Dict String → List Variable → Type 0
IsComplete provided vars = All (λ v. v.required ≡ true → lookup v.name provided ≢ none) vars

validate-nil :
    (vars : List Variable) (provided : Dict String)
    → validate_deployment_variables vars provided ≡ []
    → IsComplete provided vars
unfolding validate_deployment_variables
validate-nil [] provided h = tt
validate-nil (v ∷ vars) provided h = ground (arith, validate-nil vars provided)

nil-validate :
    (vars : List Variable) (provided : Dict String)
    → IsComplete provided vars
    → validate_deployment_variables vars provided ≡ []
unfolding validate_deployment_variables
nil-validate [] provided h = refl
nil-validate (v ∷ vars) provided (p, h) =
    rw (nil-validate vars provided h) (elim (Option-cases (lookup v.name provided)) [
      | inl e ↦ elim (Bool-cases v.required) [ inl r ↦ absurd (p r e) | inr r ↦ rw r ]
      | inr (x, e) ↦ ground arith
    ])

module _ {F : Type 0} where
  module _ (uuid : String) (suffix : Text) (now : ℕ) (t : Template F) (customer : ℕ)
      (provided : Dict String) where
    fresh :
        (d : Deployment F)
        → new_deployment uuid suffix now t customer provided ≡ ok d
        → (t.published ≡ true) × IsComplete provided t.variables
    unfolding new_deployment
    fresh d h = elim (Bool-cases t.published) [
      | inr e ↦ ground arith
      | inl e ↦ (e, validate-nil t.variables provided (ground arith))
    ]

    makes :
        t.published ≡ true
        → IsComplete provided t.variables
        → new_deployment uuid suffix now t customer provided
          ≡ ok (created uuid suffix now t customer provided)
    unfolding new_deployment
    makes p h = rw (p, nil-validate t.variables provided h)

    -- A deployment is made exactly from a published template with a value, whatever it is, for each
    -- variable that it requires; it is then fresh, without a node, and the customer's.
    pub new_deployment_iff :
        ((d : Deployment F) × (new_deployment uuid suffix now t customer provided ≡ ok d)
          × IsFresh d
          × (d.node_id ≡ "")
          × (d.customer_id ≡ customer))
        ↔ ((t.published ≡ true) × IsComplete provided t.variables)
    unfolding created
    new_deployment_iff = (
      λ (d, h, _, _, _). fresh d h,
      λ (p, h). (
        created uuid suffix now t customer provided,
        makes p h,
        record { waiting = refl; silent = refl },
        refl,
        refl,
      ),
    )
