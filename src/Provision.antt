-- ===== src/Provision.antt =====
-- internal/core/domain/cloud.go: cloud credentials, cloud provisions and the state machine of a
-- provision.
--
-- time.Now and uuid.New are arguments. A provider type and a status are strings in the source: their
-- constants are constructors here, and `other` is any other text.
pub mod Lifecycle
use hoster.Prelude.{
  ℕ, String, Bool, true, false, Option, none, some, List, [], ◌∷◌, ◌||◌, not, if◌then◌else◌, str_eq,
  any, ltb, ◌==◌, Result, ok, err, length,
}
use hoster.Prelude.Text.{Text, is_empty}

pub data ProviderType : Type 0 where
  aws digital_ocean hetzner : ProviderType
  other : String → ProviderType

-- `ProviderType.IsValid`.
unfoldable pub is_valid_provider : ProviderType → Bool
is_valid_provider (other s) = false
is_valid_provider _ = true

-- `ProviderType.DisplayName`.
unfoldable pub display_name : ProviderType → String
display_name aws = "AWS"
display_name digital_ocean = "DigitalOcean"
display_name hetzner = "Hetzner"
display_name (other s) = s

pub data Status : Type 0 where
  pending creating configuring ready failed destroying destroyed : Status
  other : String → Status

abbrev pub status_eq : Status → Status → Bool
status_eq pending pending = true
status_eq creating creating = true
status_eq configuring configuring = true
status_eq ready ready = true
status_eq failed failed = true
status_eq destroying destroying = true
status_eq destroyed destroyed = true
status_eq (other s) (other t) = str_eq s t
status_eq _ _ = false

-- `ProvisionStatus.IsValid`.
unfoldable pub is_valid_status : Status → Bool
is_valid_status (other s) = false
is_valid_status _ = true

-- `ProvisionStatus.IsTerminal`.
unfoldable pub is_terminal : Status → Bool
is_terminal s = status_eq s destroyed

-- `ProvisionStatus.IsActive`.
unfoldable pub is_active : Status → Bool
is_active s =
    status_eq s pending || status_eq s creating || status_eq s configuring || status_eq s destroying

pub data Error : Type 0 where
  credential_name_required credential_name_too_short credential_name_too_long : Error
  invalid_provider_type credentials_required creator_id_required : Error
  instance_name_required region_required size_required credential_required : Error
  invalid_transition : Error

-- `validProvisionTransitions`.
unfoldable pub valid_transitions : Status → Option (List Status)
valid_transitions pending = some (creating ∷ failed ∷ [])
valid_transitions creating = some (configuring ∷ failed ∷ [])
valid_transitions configuring = some (ready ∷ failed ∷ [])
valid_transitions ready = some (destroying ∷ [])
valid_transitions failed = some (pending ∷ destroying ∷ [])
valid_transitions destroying = some (destroyed ∷ failed ∷ [])
valid_transitions destroyed = some []
valid_transitions (other s) = none

-- `ValidateProvisionTransition`.
unfoldable pub validate_provision_transition : Status → Status → Option Error
unfolding valid_transitions
validate_provision_transition from to = elim (valid_transitions from) [
  | none ↦ some invalid_transition
  | some allowed ↦ if any (λ s. status_eq s to) allowed then none else some invalid_transition
]

pub record CloudCredential : Type 0 where
  pub id : ℕ
  pub reference_id : String
  pub creator_id : ℕ
  pub name : Text
  pub provider : ProviderType
  pub credentials_encrypted : Text
  pub default_region : String
  pub created_at : ℕ
  pub updated_at : ℕ

pub record CloudProvision : Type 0 where
  pub id : ℕ
  pub reference_id : String
  pub creator_id : ℕ
  pub credential_id : ℕ
  pub credential_ref_id : String
  pub provider : ProviderType
  pub status : Status
  pub instance_name : String
  pub region : String
  pub size : String
  pub provider_instance_id : String
  pub public_ip : String
  pub node_id : String
  pub ssh_key_id : String
  pub current_step : String
  pub error_message : String
  pub created_at : ℕ
  pub updated_at : ℕ
  pub completed_at : Option ℕ

-- `ValidateCredentialName`.
unfoldable pub validate_credential_name : Text → Option Error
validate_credential_name name =
    if is_empty name
    then some credential_name_required
    else if ltb (length name) 3
    then some credential_name_too_short
    else if ltb 100 (length name)
    then some credential_name_too_long
    else none

-- `NewCloudCredential`.
unfoldable pub new_cloud_credential :
    String → ℕ → ℕ → Text → ProviderType → Text → String → Result Error CloudCredential
unfolding validate_credential_name is_valid_provider
new_cloud_credential uuid now creator_id name provider encrypted default_region =
    elim (validate_credential_name name) [
      | some e ↦ err e
      | none ↦
          if not (is_valid_provider provider)
          then err invalid_provider_type
          else if is_empty encrypted
          then err credentials_required
          else if creator_id == 0
          then err creator_id_required
          else ok (record {
            id = 0;
            reference_id = uuid;
            creator_id = creator_id;
            name = name;
            provider = provider;
            credentials_encrypted = encrypted;
            default_region = default_region;
            created_at = now;
            updated_at = now;
          })
    ]

-- `NewCloudProvision`.
unfoldable pub new_cloud_provision :
    String
    → ℕ
    → (creator_id credential_id : ℕ) → ProviderType
    → (name region size : String) → Result Error CloudProvision
unfolding is_valid_provider
new_cloud_provision uuid now creator_id credential_id provider name region size =
    if creator_id == 0
    then err creator_id_required
    else if credential_id == 0
    then err credential_required
    else if not (is_valid_provider provider)
    then err invalid_provider_type
    else if str_eq name ""
    then err instance_name_required
    else if str_eq region ""
    then err region_required
    else if str_eq size ""
    then err size_required
    else ok (record {
      id = 0;
      reference_id = uuid;
      creator_id = creator_id;
      credential_id = credential_id;
      credential_ref_id = "";
      provider = provider;
      status = pending;
      instance_name = name;
      region = region;
      size = size;
      provider_instance_id = "";
      public_ip = "";
      node_id = "";
      ssh_key_id = "";
      current_step = "";
      error_message = "";
      created_at = now;
      updated_at = now;
      completed_at = none;
    })

-- The assignments of `Transition`, after its check. `later` is the second reading of the clock.
unfoldable pub enter : ℕ → ℕ → Status → CloudProvision → CloudProvision
enter now later to p =
    let p₁ = record p { status = to; updated_at = now } in
    let p₂ =
      if status_eq to ready || status_eq to destroyed
      then record p₁ { completed_at = some later }
      else p₁ in
    if status_eq to pending then record p₂ { error_message = ""; current_step = "" } else p₂

-- `Transition`.
unfoldable pub transition : ℕ → ℕ → Status → CloudProvision → CloudProvision × Option Error
transition now later to p = elim (validate_provision_transition p.status to) [
  | some e ↦ (p, some e)
  | none ↦ (enter now later to p, none)
]

-- `TransitionToFailed`.
unfoldable pub transition_to_failed : ℕ → String → CloudProvision → CloudProvision × Option Error
transition_to_failed now message p = elim (validate_provision_transition p.status failed) [
  | some e ↦ (p, some e)
  | none ↦ (record p { status = failed; error_message = message; updated_at = now }, none)
]

-- `SetStep`.
unfoldable pub set_step : ℕ → String → CloudProvision → CloudProvision
set_step now step p = record p { current_step = step; updated_at = now }
