-- ===== src/Engine/Machines.antt =====
-- The state machines of internal/engine/resources.go against those of internal/core/domain.
use hoster.Prelude.{
  ◌≡◌, refl, inl, inr, String, Bool, true, false, Option, none, some, List, [], ◌∷◌, ◌||◌, ◌&&◌,
  not, arith, all, In, subst,
}
use hoster.Deployment as Domain
use hoster.Provision as Cloud
use hoster.Server.{status_text}
use hoster.Engine.{can_transition, deployment_machine, provision_machine}

-- The status is one of the constants.
abbrev pub is_known : Domain.Status → Bool
is_known (Domain.other s) = false
is_known _ = true

abbrev pub is_none : {A : Type 0} → Option A → Bool
is_none none = true
is_none (some x) = false

abbrev same : Bool → Bool → Bool
same true b = b
same false b = not b

same_sound : (a b : Bool) → same a b ≡ true → a ≡ b
same_sound a b h = ground arith

all_In : {A : Type 0} (p : A → Bool) (x : A) (xs : List A) → all p xs ≡ true → In x xs → p x ≡ true
all_In p x [] h m = elim m [ ]
all_In p x (y ∷ xs) h (inl e) = subst (λ z. p z ≡ true) e (ground arith)
all_In p x (y ∷ xs) h (inr m) = all_In p x xs (ground arith) m

module _ {A : Type 0} (statuses : List A) (f g : A → A → Bool) where
  -- Two tests that agree on a list of statuses agree on each pair of them.
  agree :
      all (λ a. all (λ b. same (f a b) (g a b)) statuses) statuses ≡ true
      → (a b : A) → In a statuses
      → In b statuses
      → f a b ≡ g a b
  agree h a b m n = same_sound (f a b) (g a b) (
      all_In (λ c. same (f a c) (g a c)) b statuses
        (all_In (λ c. all (λ d. same (f c d) (g c d)) statuses) a statuses h m) n)

abbrev deployment_statuses : List Domain.Status
deployment_statuses =
    Domain.pending ∷ Domain.scheduled ∷ Domain.starting ∷ Domain.running ∷ Domain.stopping
    ∷ Domain.stopped ∷ Domain.deleting ∷ Domain.deleted ∷ Domain.failed ∷ []

known-In : (a : Domain.Status) → is_known a ≡ true → In a deployment_statuses
known-In a h = ground arith

abbrev provision_statuses : List Cloud.Status
provision_statuses =
    Cloud.pending ∷ Cloud.creating ∷ Cloud.configuring ∷ Cloud.ready ∷ Cloud.failed
    ∷ Cloud.destroying ∷ Cloud.destroyed ∷ []

valid-In : (a : Cloud.Status) → Cloud.is_valid_status a ≡ true → In a provision_statuses
unfolding Cloud.is_valid_status
valid-In a h = ground arith

-- The constants of `ProvisionStatus`.
abbrev pub provision_text : Cloud.Status → String
provision_text Cloud.pending = "pending"
provision_text Cloud.creating = "creating"
provision_text Cloud.configuring = "configuring"
provision_text Cloud.ready = "ready"
provision_text Cloud.failed = "failed"
provision_text Cloud.destroying = "destroying"
provision_text Cloud.destroyed = "destroyed"
provision_text (Cloud.other s) = s

-- The provision is on its way to be ready.
abbrev pub is_under_way : Cloud.Status → Bool
is_under_way Cloud.pending = true
is_under_way Cloud.creating = true
is_under_way Cloud.configuring = true
is_under_way _ = false

-- The deployment machine of the engine allows the same transitions between known statuses as
-- `ValidateTransition` of the domain.
pub deployment_machine_same :
    (a b : Domain.Status)
    → is_known a ≡ true
    → is_known b ≡ true
    → can_transition deployment_machine (status_text a) (status_text b)
      ≡ is_none (Domain.validate_transition a b)
unfolding can_transition Domain.validate_transition
deployment_machine_same a b h k =
    agree deployment_statuses
      (λ c d. can_transition deployment_machine (status_text c) (status_text d))
      (λ c d. is_none (Domain.validate_transition c d)) refl a b (known-In a h) (known-In b k)

-- The provision machine of the engine allows, between valid statuses, the transitions of
-- `ValidateProvisionTransition` and besides them exactly those to `destroying` from a provision on its
-- way to be ready.
pub provision_machine_extra :
    (a b : Cloud.Status)
    → Cloud.is_valid_status a ≡ true
    → Cloud.is_valid_status b ≡ true
    → can_transition provision_machine (provision_text a) (provision_text b) ≡ (
        is_none (Cloud.validate_provision_transition a b)
        || (is_under_way a && Cloud.status_eq b Cloud.destroying))
unfolding can_transition Cloud.validate_provision_transition
provision_machine_extra a b h k =
    agree provision_statuses
      (λ c d. can_transition provision_machine (provision_text c) (provision_text d))
      (λ c d.
        is_none (Cloud.validate_provision_transition c d)
        || (is_under_way c && Cloud.status_eq d Cloud.destroying))
      refl a b (valid-In a h) (valid-In b k)
