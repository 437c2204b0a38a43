-- ===== src/Template/Create.antt =====
-- internal/core/domain/template.go: the creation of a template, and what its validation finds.
use hoster.Prelude.{
  ℕ, ◌≡◌, ◌≢◌, refl, ◌↔◌, inl, inr, String, true, false, Option, none, some, List, [], ◌∷◌, mem,
  arith, Result, ok, err, Option-cases, All,
}
use hoster.Prelude.Int.{pos}
use hoster.Prelude.Text.{Text, is_empty}
use hoster.Deployment.{Resources}
use hoster.Template.{
  Template, Error, Variable, select, is_valid_type, variable_error, validate_from,
  validate_variables, validate_name, validate_version, validate_compose_spec, publish,
}
use hoster.Template.Slug.{generate_slug}

version_not_empty : (version : Text) → validate_version version ≡ none → is_empty version ≡ false
unfolding validate_version
version_not_empty version h = ground arith

module _ {F : Type 0} (no_resources : Resources F) (trim_space to_lower : Text → Text) where
  abbrev made : String → ℕ → Text → Text → Text → Template F
  made reference now name version spec = record {
    id = 0;
    reference_id = reference;
    name = name;
    slug = generate_slug to_lower name;
    description = "";
    version = version;
    compose_spec = spec;
    variables = [];
    config_files = [];
    resource_requirements = no_resources;
    required_capabilities = [];
    price_monthly = pos 0;
    category = "";
    tags = [];
    published = false;
    creator_id = 0;
    creator_ref_id = "";
    created_at = now;
    updated_at = now;
  }

  abbrev check : Option Error → Result Error (Template F) → Result Error (Template F)
  check none rest = rest
  check (some e) rest = err e

  -- `NewTemplate`; `reference` is the identifier that it makes, and the resources are the zero value.
  unfoldable pub new_template : String → ℕ → Text → Text → Text → Result Error (Template F)
  new_template reference now name version spec = check (validate_name name) (
      check (validate_version version)
        (check (validate_compose_spec trim_space spec) (ok (made reference now name version spec))))

  checks :
      (reference : String) (now : ℕ) (name version spec : Text) (t : Template F)
      → new_template reference now name version spec ≡ ok t
      → (validate_name name ≡ none)
        × (validate_version version ≡ none)
        × (validate_compose_spec trim_space spec ≡ none)
  unfolding new_template
  checks reference now name version spec t h = elim (Option-cases (validate_name name)) [
    | inr (e, n) ↦ cc (rw n at h)
    | inl n ↦ elim (Option-cases (validate_version version)) [
      | inr (e, v) ↦ cc (rw v at (rw n at h))
      | inl v ↦ elim (Option-cases (validate_compose_spec trim_space spec)) [
        | inr (e, c) ↦ cc (rw c at (rw v at (rw n at h)))
        | inl c ↦ (n, v, c)
      ]
    ]
  ]

  -- `NewTemplate` makes a template exactly from a valid name, a valid version and a compose
  -- specification that is not blank; it is not published, and `Publish` accepts it.
  pub new_template_iff :
      (reference : String) (now : ℕ) (name version spec : Text)
      → ((t : Template F) × (new_template reference now name version spec ≡ ok t)
          × (t.published ≡ false)
          × ((later : ℕ) → (publish later t).1 ≡ none)
          × ((later : ℕ) → (publish later t).0.published ≡ true))
        ↔ ((validate_name name ≡ none)
            × (validate_version version ≡ none)
            × (validate_compose_spec trim_space spec ≡ none))
  unfolding new_template publish
  new_template_iff reference now name version spec = (
    λ (t, h, _, _, _). checks reference now name version spec t h,
    λ (n, v, c). (
      made reference now name version spec,
      rw (n, v, c) refl,
      refl,
      λ later. rw (version_not_empty version v) refl,
      λ later. rw (version_not_empty version v) refl,
    ),
  )

-- A variable has a known type, and options if it is a selection.
abbrev pub IsSound : Variable → Type 0
IsSound v = (is_valid_type v.type ≡ true) × (v.type ≡ select → v.options ≢ [])

-- The names are not among those seen, and all different.
abbrev pub AllNew : List String → List Variable → Type 0
AllNew seen [] = Unit
AllNew seen (v ∷ vars) = (mem v.name seen ≡ false) × AllNew (v.name ∷ seen) vars

variable_error_iff : (v : Variable) → (variable_error v ≡ none) ↔ IsSound v
unfolding variable_error is_valid_type
variable_error_iff v = ground arith

validate_from-nil :
    (seen : List String) (vars : List Variable)
    → (validate_from seen vars ≡ []) ↔ (AllNew seen vars × All IsSound vars)
unfolding validate_from
validate_from-nil seen [] = ground arith
validate_from-nil seen (v ∷ vars) = elim (Option-cases (variable_error v)) [
  | inl e ↦ rw e (ground (arith, variable_error_iff v, e, validate_from-nil (v.name ∷ seen) vars))
  | inr (x, e) ↦ rw e (ground (arith, variable_error_iff v, e))
]

-- `ValidateVariables` finds no error exactly if the variables have different names and known types,
-- and each selection has options.
pub validate_variables_iff :
    (vars : List Variable) → (validate_variables vars ≡ []) ↔ (AllNew [] vars × All IsSound vars)
unfolding validate_variables
validate_variables_iff vars = validate_from-nil [] vars
