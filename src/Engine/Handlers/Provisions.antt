-- ===== src/Engine/Handlers/Provisions.antt =====
-- destroyProvision of internal/engine/handlers.go, on the state of the database.
--
-- The decryption of credentials and the cloud provider are parameters, and so is the text of a reason.
-- An instance is one of the cloud, whose state is a part of `S`.
use hoster.Prelude.{
  zero, ◌≡◌, ◌↔◌, refl, sym, subst, ◌⊎◌, inl, inr, String, Bool, true, false, Option, none, some,
  [], ◌∷◌, str_eq, str_eq_iff, if◌then◌else◌, Result, ok, err, arith, Bool-cases, Option-cases,
  Result-cases,
}
use hoster.Prelude.Dict.{lookup}
use hoster.Prelude.Int.{ℤ, pos}
use hoster.Prelude.Text.{Text}
use hoster.Engine.{text, bytes, Row, Error}
use hoster.Engine.Store.{Store, get_by_id, update, remove, transition}
use hoster.Engine.Handlers.{to_int}

pub data Reason : Type 0 where
  no_credential_id : Reason
  no_credential : ℤ → Error → Reason
  not_decrypted no_provider not_destroyed : Text → Reason

pub record DestroyRequest : Type 0 where
  pub provider_instance_id : String
  pub instance_name : String
  pub region : String

-- `crypto.Decrypt` with its key, `NewProvider` for a type and credentials, and `DestroyInstance` of the
-- provider; `none` for no error.
pub record Cloud (S : Type 0) : Type 0 where
  pub decrypt : String → Result Text String
  pub new_provider : String → String → Option Text
  pub destroy_instance : S → String → String → DestroyRequest → Option Text × S
  pub reason_text : Reason → String

-- `strVal` of a column.
unfoldable pub str_val : Row → String → String
str_val row name = elim (lookup name row) [ some (text s) ↦ s | some (bytes s) ↦ s | _ ↦ "" ]

abbrev pub is_zero : ℤ → Bool
is_zero (pos zero) = true
is_zero _ = false

abbrev pub request_of : Row → DestroyRequest
request_of row = record {
  provider_instance_id = str_val row "provider_instance_id";
  instance_name = str_val row "instance_name";
  region = str_val row "region";
}

no_instance : {x : String} → str_eq x "" ≡ false → x ≡ "" → false ≡ true
no_instance {x} a q = ground (arith, str_eq_iff x "")

module _ {S : Type 0} (st : Store S) (cloud : Cloud S) where
  -- `failProvision`. The errors of its two calls are dropped.
  unfoldable pub fail_provision : S → String → Reason → Option (String × Reason) × S
  fail_provision s ref reason =
      let noted =
        (update st s "cloud_provisions" ref
          (("error_message", text (cloud.reason_text reason)) ∷ [])).1 in
      (some (ref, reason), (transition st noted "cloud_provisions" ref "failed").1)

  abbrev pub delete_node : S → Row → S
  delete_node s row =
      let node = str_val row "node_id" in if str_eq node "" then s else (remove st s "nodes" node).1

  -- From the answer of the provider on.
  unfoldable pub after_destroy : Row → Option Text × S → Option (String × Reason) × S
  unfolding fail_provision
  after_destroy row done =
      let ref = str_val row "reference_id" in
      elim done.0 [
        | some e ↦ fail_provision done.1 ref (not_destroyed e)
        | none ↦ (none, delete_node (transition st done.1 "cloud_provisions" ref "destroyed").1 row)
      ]

  -- From the decrypted credentials on.
  unfoldable pub call_provider : S → Row → String → Option (String × Reason) × S
  unfolding after_destroy fail_provision
  call_provider s row secret =
      let type = str_val row "provider" in
      elim (cloud.new_provider type secret) [
        | some e ↦ fail_provision s (str_val row "reference_id") (no_provider e)
        | none ↦ after_destroy row (cloud.destroy_instance s type secret (request_of row))
      ]

  -- From the row of the credential on.
  unfoldable pub with_credential : S → Row → Row → Option (String × Reason) × S
  unfolding call_provider fail_provision
  with_credential s row credential = elim (cloud.decrypt (str_val credential "credentials")) [
    | err e ↦ fail_provision s (str_val row "reference_id") (not_decrypted e)
    | ok secret ↦ call_provider s row secret
  ]

  abbrev pub look_up : S → Row → ℤ → Result Error Row → Option (String × Reason) × S
  look_up s row id (err e) = fail_provision s (str_val row "reference_id") (no_credential id e)
  look_up s row id (ok credential) = with_credential s row credential

  -- `destroyProvision`.
  unfoldable pub destroy_provision : S → Row → Option (String × Reason) × S
  unfolding with_credential fail_provision to_int
  destroy_provision s row =
      let ref = str_val row "reference_id" in
      let id = to_int (lookup "credential_id" row) in
      let found = look_up s row id (get_by_id st s "cloud_credentials" id) in
      if str_eq (str_val row "provider_instance_id") ""
      then (none, (transition st s "cloud_provisions" ref "destroyed").1)
      else if is_zero id
      then fail_provision s ref no_credential_id
      else found

  -- The provider of the row has destroyed its instance, with the credential that the row names.
  abbrev pub IsDestroyed : S → Row → Type 0
  IsDestroyed s row =
      (is_zero (to_int (lookup "credential_id" row)) ≡ false)
      × (credential : Row) × (get_by_id st s "cloud_credentials"
            (to_int (lookup "credential_id" row))
          ≡ ok credential)
      × (secret : String) × (cloud.decrypt (str_val credential "credentials") ≡ ok secret)
      × (cloud.new_provider (str_val row "provider") secret ≡ none)
      × ((cloud.destroy_instance s (str_val row "provider") secret (request_of row)).0 ≡ none)

  call_provider-none :
      (s : S) (row : Row) (secret : String)
      → ((call_provider s row secret).0 ≡ none) ↔ (
          (cloud.new_provider (str_val row "provider") secret ≡ none)
          × ((cloud.destroy_instance s (str_val row "provider") secret (request_of row)).0 ≡ none))
  unfolding call_provider after_destroy fail_provision
  call_provider-none s row secret =
      elim (Option-cases (cloud.new_provider (str_val row "provider") secret)) [
        | inr (x, e) ↦ rw (call_provider, e) (λ h. cc, λ h. cc)
        | inl e ↦
            elim (Option-cases
              (cloud.destroy_instance s (str_val row "provider") secret (request_of row)).0) [
                | inr (x, f) ↦ rw (call_provider, e) (rw (after_destroy, f) (λ h. cc, λ h. cc))
                | inl f ↦
                    rw (call_provider, e) (rw (after_destroy, f) (λ h. (refl, refl), λ h. refl))
              ]
      ]

  with_credential-none :
      (s : S) (row credential : Row)
      → ((with_credential s row credential).0 ≡ none) ↔ (
          (secret : String) × (cloud.decrypt (str_val credential "credentials") ≡ ok secret)
          × (cloud.new_provider (str_val row "provider") secret ≡ none)
          × ((cloud.destroy_instance s (str_val row "provider") secret (request_of row)).0 ≡ none))
  unfolding with_credential fail_provision
  with_credential-none s row credential =
      elim (Result-cases (cloud.decrypt (str_val credential "credentials"))) [
        | inl (x, e) ↦ rw (with_credential, e) (λ h. cc, λ (k, d, n, r). cc)
        | inr (secret, e) ↦
            rw (with_credential, e)
              (
                λ h. let (n, r) = (call_provider-none s row secret).0 h in (secret, refl, n, r),
                λ (k, d, n, r).
                    let same : secret ≡ k = cc in
                    subst (λ w. (call_provider s row w).0 ≡ none) (sym same)
                      ((call_provider-none s row k).1 (n, r)),
              )
      ]

  -- destroyProvision returns nil exactly if the provision never had an instance, or if the credential
  -- that it names is found and decrypted and the provider has destroyed the instance with it.
  pub destroy_provision_iff :
      (s : S) (row : Row)
      → ((destroy_provision s row).0 ≡ none)
        ↔ (str_val row "provider_instance_id" ≡ "") ⊎ IsDestroyed s row
  unfolding destroy_provision fail_provision
  destroy_provision_iff s row = elim (Bool-cases (str_eq (str_val row "provider_instance_id") "")) [
    | inl a ↦ rw (destroy_provision, a) (λ h. inl ((str_eq_iff _ "").0 a), λ h. refl)
    | inr a ↦ elim (Bool-cases (is_zero (to_int (lookup "credential_id" row)))) [
      | inl z ↦
          rw (destroy_provision, a)
            (rw z (
              λ h. cc,
              λ m. elim m [
                | inl q ↦ let no = no_instance a q in cc
                | inr (t, k, g, w, d, n, r) ↦ cc
              ],
            ))
      | inr z ↦
          elim (Result-cases
            (get_by_id st s "cloud_credentials" (to_int (lookup "credential_id" row)))) [
              | inl (x, e) ↦
                  rw (destroy_provision, a)
                    (rw z (
                      rw e (
                        λ h. cc,
                        λ m. elim m [
                          | inl q ↦ let no = no_instance a q in cc
                          | inr (t, k, g, w, d, n, r) ↦ cc
                        ],
                      )))
              | inr (credential, e) ↦
                  rw (destroy_provision, a)
                    (rw z (
                      rw e (
                        λ h.
                            let (w, d, n, r) = (with_credential-none s row credential).0 h in
                            inr (refl, credential, refl, w, d, n, r),
                        λ m. elim m [
                          | inl q ↦ let no = no_instance a q in cc
                          | inr (t, k, g, w, d, n, r) ↦
                              let same : credential ≡ k = cc in
                              subst (λ c. (with_credential s row c).0 ≡ none) (sym same)
                                ((with_credential-none s row k).1 (w, d, n, r))
                        ],
                      )))
            ]
    ]
  ]
