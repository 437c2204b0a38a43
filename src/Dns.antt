-- ===== src/Dns.antt =====
-- internal/core/dns/verification.go: custom domains and the check of their DNS records.
--
-- strings.EqualFold and strings.ToLower are parameters, and so is strings.TrimSpace; an IP address is
-- its text. The regular expression of a hostname is a split at its dots.
pub mod Custom
use hoster.Prelude.{
  ℕ, zero, suc, ◌+◌, String, Bool, true, false, Option, none, some, List, [], ◌∷◌, ◌++◌, ◌&&◌, ◌||◌,
  not, if◌then◌else◌, ◌==◌, ltb, leb, length, any, all,
}
use hoster.Prelude.Text.{Text, codes, is_empty, is_digit, is_lower, is_upper, strip_suffix, text_eq}
use hoster.Deployment.{Domain, DomainType, VerificationMethod, no_method, cname, a_record}

pub data Error : Type 0 where
  invalid_hostname hostname_too_long domain_already_exists max_domains_reached cannot_remove_auto :
      Error

abbrev pub max_custom_domains : ℕ
max_custom_domains = 5

abbrev is_letter : ℕ → Bool
is_letter c = is_upper c || is_lower c

abbrev is_alphanumeric : ℕ → Bool
is_alphanumeric c = is_letter c || is_digit c

-- `[a-zA-Z0-9]([a-zA-Z0-9\-]{0,61}[a-zA-Z0-9])?`: at most 63 bytes, with no dash at an end.
unfoldable pub ends_well : Text → Bool
ends_well [] = false
ends_well (c ∷ []) = is_alphanumeric c
ends_well (c ∷ d ∷ s) = ends_well (d ∷ s)

unfoldable pub is_label : Text → Bool
unfolding ends_well
is_label [] = false
is_label (c ∷ s) =
    is_alphanumeric c
    && (all (λ b. is_alphanumeric b || b == b'-') s
        && (ends_well (c ∷ s) && leb (length (c ∷ s)) 63))

-- `[a-zA-Z]{2,}`.
unfoldable pub is_top_level : Text → Bool
is_top_level s = all is_letter s && leb 2 (length s)

-- The labels between the dots.
unfoldable pub labels : Text → List Text
labels [] = [] ∷ []
labels (c ∷ s) = elim (labels s) [
  | [] ↦ (c ∷ []) ∷ []
  | l ∷ ls ↦ if c == b'.' then [] ∷ l ∷ ls else (c ∷ l) ∷ ls
]

-- Labels with a dot behind each, and the top level.
unfoldable pub is_hostname : List Text → Bool
unfolding is_label is_top_level
is_hostname [] = false
is_hostname (l ∷ []) = false
is_hostname (l ∷ top ∷ []) = is_label l && is_top_level top
is_hostname (l ∷ m ∷ k ∷ ls) = is_label l && is_hostname (m ∷ k ∷ ls)

abbrev is_custom : DomainType → Bool
is_custom DomainType.custom = true
is_custom _ = false

pub record VerificationInput : Type 0 where
  pub hostname : Text
  pub cname_records : List Text
  pub a_records : List Text
  pub lookup_error : Text

pub record VerificationResult : Type 0 where
  pub verified : Bool
  pub method : VerificationMethod
  pub error : Text

pub record DnsInstruction : Type 0 where
  pub type : String
  pub name : Text
  pub value : Text
  pub priority : String

module _ (to_lower trim_space : Text → Text) where
  -- `ValidateCustomDomain`.
  unfoldable pub validate_custom_domain : Text → Option Error
  unfolding labels is_hostname
  validate_custom_domain hostname =
      let name = trim_space (to_lower hostname) in
      if is_empty name
      then some invalid_hostname
      else if ltb 253 (length name)
      then some hostname_too_long
      else if not (is_hostname (labels name))
      then some invalid_hostname
      else none

abbrev pub without_dot : Text → Text
without_dot s = elim (strip_suffix (codes ".") s) [ none ↦ s | some r ↦ r ]

module _ (equal_fold : Text → Text → Bool) where
  -- The loop of `CanAddCustomDomain`, with the number of custom domains so far.
  unfoldable pub add_to : ℕ → List Domain → Text → Option Error
  add_to count [] hostname = if leb max_custom_domains count then some max_domains_reached else none
  add_to count (d ∷ ds) hostname =
      let next = add_to (if is_custom d.type then suc count else count) ds hostname in
      if is_custom d.type && equal_fold d.hostname hostname
      then some domain_already_exists
      else next

  -- `CanAddCustomDomain`.
  unfoldable pub can_add_custom_domain : List Domain → Text → Option Error
  unfolding add_to
  can_add_custom_domain existing hostname = add_to 0 existing hostname

  abbrev pub points_to : Text → List Text → Bool
  points_to expected records = any (λ r. equal_fold (without_dot r) expected) records

  abbrev pub has_address : List Text → List Text → Bool
  has_address expected addresses = any (λ a. any (λ e. text_eq a e) expected) addresses

  -- `Verify`.
  unfoldable pub verify : VerificationInput → Text → List Text → VerificationResult
  verify input expected ips =
      if not (is_empty input.lookup_error)
      then record {
        verified = false;
        method = no_method;
        error = codes "DNS lookup failed: " ++ input.lookup_error;
      }
      else if points_to expected input.cname_records
      then record { verified = true; method = cname; error = [] }
      else if has_address ips input.a_records
      then record { verified = true; method = a_record; error = [] }
      else record {
        verified = false;
        method = no_method;
        error = codes "DNS records do not point to the expected target";
      }

-- `GenerateInstructions`.
unfoldable pub generate_instructions : Text → Text → Text → List DnsInstruction
generate_instructions custom_domain auto_domain node_ip =
    record { type = "CNAME"; name = custom_domain; value = auto_domain; priority = "recommended" }
    ∷ (if is_empty node_ip
        then []
        else record { type = "A"; name = custom_domain; value = node_ip; priority = "alternative" }
          ∷ [])

-- `FindAutoDomain`.
unfoldable pub find_auto_domain : List Domain → Text
find_auto_domain [] = []
find_auto_domain (d ∷ ds) = elim d.type [ DomainType.auto ↦ d.hostname | _ ↦ find_auto_domain ds ]
