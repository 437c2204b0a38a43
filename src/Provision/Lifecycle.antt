-- ===== src/Provision/Lifecycle.antt =====
-- What holds of a cloud provision over its whole life: internal/core/domain/cloud.go.
use Prim.Native.String.{String}
use hoster.Prelude.{
  ℕ, ◌≡◌, refl, ◌≢◌, ◌↔◌, inl, inr, Bool, true, false, none, some, arith, Option-cases, ok,
  str_eq_iff,
}
use hoster.Provision.{
  ProviderType, Status, pending, creating, configuring, ready, failed, destroying, destroyed, other,
  Error, CloudProvision, validate_provision_transition, transition, transition_to_failed, set_step,
  enter, is_terminal, is_valid_status, new_cloud_provision,
}

-- An error of an earlier attempt may still be recorded.
abbrev may_have_error : Status → Bool
may_have_error failed = true
may_have_error destroying = true
may_have_error destroyed = true
may_have_error _ = false

-- The provision is ready, or was destroyed.
abbrev is_complete : Status → Bool
is_complete ready = true
is_complete destroyed = true
is_complete _ = false

pub record Inv (p : CloudProvision) : Type 0 where
  pub known : is_valid_status p.status ≡ true
  pub clean : may_have_error p.status ≡ false → p.error_message ≡ ""
  pub completed : is_complete p.status ≡ true → p.completed_at ≢ none
  pub owned : (p.creator_id ≢ 0) × (p.credential_id ≢ 0)
  pub named : (p.instance_name ≢ "") × (p.region ≢ "") × (p.size ≢ "")

-- One call of a method that returns no error.
pub data Step (p q : CloudProvision) : Type 0 where
  moved : (now later : ℕ) (to : Status) → transition now later to p ≡ (q, none) → Step p q
  broke : (now : ℕ) (m : String) → transition_to_failed now m p ≡ (q, none) → Step p q
  stepped : (now : ℕ) (s : String) → q ≡ set_step now s p → Step p q

pub data Reach (p : CloudProvision) : CloudProvision → Type 0 where
  here : Reach p p
  next : {q r : CloudProvision} → Reach p q → Step q r → Reach p r

new-Inv :
    (uuid : String) (now creator cred : ℕ) (provider : ProviderType) (name region size : String)
    (p : CloudProvision)
    → new_cloud_provision uuid now creator cred provider name region size ≡ ok p
    → Inv p
unfolding new_cloud_provision is_valid_status
new-Inv uuid now creator cred provider name region size p h =
    ground (arith, str_eq_iff name "", str_eq_iff region "", str_eq_iff size "")

refused-transition :
    (now later : ℕ) (to : Status) (p q : CloudProvision) (x : Error)
    → validate_provision_transition p.status to ≡ some x
    → transition now later to p ≢ (q, none)
unfolding transition
refused-transition now later to p q x e t = ground (arith, e)

accepted-transition :
    (now later : ℕ) (to : Status) (p q : CloudProvision)
    → validate_provision_transition p.status to ≡ none
    → transition now later to p ≡ (q, none)
    → enter now later to p ≡ q
unfolding transition
accepted-transition now later to p q e t = ground (arith, e)

enter-Inv :
    (now later : ℕ) (to : Status) (p : CloudProvision)
    → Inv p
    → validate_provision_transition p.status to ≡ none
    → Inv (enter now later to p)
unfolding enter validate_provision_transition is_valid_status
enter-Inv now later to p h e = ground arith

moved-Inv :
    (now later : ℕ) (to : Status) (p q : CloudProvision)
    → Inv p
    → transition now later to p ≡ (q, none)
    → Inv q
moved-Inv now later to p q h t = elim (Option-cases (validate_provision_transition p.status to)) [
  | inr (x, e) ↦ absurd (refused-transition now later to p q x e t)
  | inl e ↦ rw (← accepted-transition now later to p q e t) (enter-Inv now later to p h e)
]

broke-Inv :
    (now : ℕ) (m : String) (p q : CloudProvision)
    → Inv p
    → transition_to_failed now m p ≡ (q, none)
    → Inv q
unfolding transition_to_failed is_valid_status
broke-Inv now m p q h t = ground arith

stepped-Inv : (now : ℕ) (s : String) (p : CloudProvision) → Inv p → Inv (set_step now s p)
unfolding set_step
stepped-Inv now s p h = ground arith

Step-Inv : {p q : CloudProvision} → Step p q → Inv p → Inv q
Step-Inv {p} {q} (moved now later to t) h = moved-Inv now later to p q h t
Step-Inv {p} {q} (broke now m t) h = broke-Inv now m p q h t
Step-Inv {p} (stepped now s e) h = rw e (stepped-Inv now s p h)

Reach-Inv : {p q : CloudProvision} → Inv p → Reach p q → Inv q
Reach-Inv h here = h
Reach-Inv h (next r s) = Step-Inv s (Reach-Inv h r)

-- Whatever methods are called on a provision that `NewCloudProvision` made: its status is a known one;
-- an error message stands only in `failed`, `destroying` and `destroyed`; a provision that is ready or
-- destroyed has a time of completion; and creator, credential, name, region and size are never empty.
pub new-Reach-Inv :
    (uuid : String) (now creator cred : ℕ) (provider : ProviderType) (name region size : String)
    {p q : CloudProvision}
    → new_cloud_provision uuid now creator cred provider name region size ≡ ok p
    → Reach p q
    → Inv q
new-Reach-Inv uuid now creator cred provider name region size {p} h r =
    Reach-Inv (new-Inv uuid now creator cred provider name region size p h) r

-- A valid status is terminal exactly if the table has no transition out of it.
pub terminal_iff :
    (s : Status)
    → is_valid_status s ≡ true
    → (is_terminal s ≡ true) ↔ ((to : Status) → validate_provision_transition s to ≢ none)
unfolding is_terminal validate_provision_transition is_valid_status
terminal_iff pending v = (λ h. cc, λ h. absurd (h creating refl))
terminal_iff creating v = (λ h. cc, λ h. absurd (h failed refl))
terminal_iff configuring v = (λ h. cc, λ h. absurd (h failed refl))
terminal_iff ready v = (λ h. cc, λ h. absurd (h destroying refl))
terminal_iff failed v = (λ h. cc, λ h. absurd (h pending refl))
terminal_iff destroying v = (λ h. cc, λ h. absurd (h failed refl))
terminal_iff destroyed v = (λ h to e. cc, λ h. refl)
terminal_iff (other s) v = (λ h. cc, λ h. cc)
