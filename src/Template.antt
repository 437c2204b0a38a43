-- ===== src/Template.antt =====
-- internal/core/domain/template.go: templates, their variables and their publication.
--
-- The name and the slug are walked, so they are lists of bytes. The type of a variable is a string in
-- the source: its constants are constructors here, and `other` is any other text. Prices are in cents,
-- as integers.
pub mod Slug
pub mod Create
use hoster.Prelude.{
  ℕ, String, Bool, true, false, Option, none, some, List, [], ◌∷◌, ◌&&◌, ◌||◌, not, if◌then◌else◌,
  all, mem, ltb, ◌==◌, length,
}
use Prim.Native.Nat.{pred}
use hoster.Prelude.Int.{ℤ, pos, ltb_ℤ}
use hoster.Prelude.Text.{Text, is_empty, is_digit, is_lower, is_upper}
use hoster.Deployment.{Resources}

pub data Error : Type 0 where
  name_required name_too_short name_too_long name_invalid_chars : Error
  version_required version_invalid_format : Error
  price_negative : Error
  variable_duplicate variable_invalid_type variable_options_required : Error
  compose_required publish_requires_version : Error

pub data VariableType : Type 0 where
  text number boolean password select : VariableType
  other : String → VariableType

-- `VariableType.IsValid`.
unfoldable pub is_valid_type : VariableType → Bool
is_valid_type (other s) = false
is_valid_type _ = true

abbrev pub is_select : VariableType → Bool
is_select select = true
is_select _ = false

pub record Variable : Type 0 where
  pub name : String
  pub label : String
  pub description : String
  pub type : VariableType
  pub default : String
  pub required : Bool
  pub options : List String
  pub validation : String

pub record ConfigFile : Type 0 where
  pub name : String
  pub path : String
  pub content : String
  pub mode : String

pub record Template (F : Type 0) : Type 0 where
  pub id : ℕ
  pub reference_id : String
  pub name : Text
  pub slug : Text
  pub description : String
  pub version : Text
  pub compose_spec : Text
  pub variables : List Variable
  pub config_files : List ConfigFile
  pub resource_requirements : Resources F
  pub required_capabilities : List String
  pub price_monthly : ℤ
  pub category : String
  pub tags : List String
  pub published : Bool
  pub creator_id : ℕ
  pub creator_ref_id : String
  pub created_at : ℕ
  pub updated_at : ℕ

-- The class `[a-zA-Z0-9\s\-]` of `nameRegex`.
unfoldable pub is_name_char : ℕ → Bool
is_name_char c =
    is_lower c
    || is_upper c
    || is_digit c
    || c == 9
    || c == 10
    || c == 12
    || c == 13
    || c == 32
    || c == b'-'

-- `ValidateName`.
unfoldable pub validate_name : Text → Option Error
unfolding is_name_char
validate_name name =
    if is_empty name
    then some name_required
    else if ltb (length name) 3
    then some name_too_short
    else if ltb 100 (length name)
    then some name_too_long
    else if not (all is_name_char name)
    then some name_invalid_chars
    else none

-- The regular expression `^\d+\.\d+\.\d+$` of `versionRegex`, read from the left: `dots` more dots are
-- to come, and `seen` says that the group under way has a digit.
unfoldable pub match_version : ℕ → Bool → Text → Bool
match_version dots seen [] = dots == 0 && seen
match_version dots seen (c ∷ s) =
    let digit = match_version dots true s in
    let dot = match_version (pred dots) false s in
    if is_digit c then digit else if c == b'.' && seen && ltb 0 dots then dot else false

-- `ValidateVersion`.
unfoldable pub validate_version : Text → Option Error
unfolding match_version
validate_version version =
    if is_empty version
    then some version_required
    else if not (match_version 2 false version)
    then some version_invalid_format
    else none

-- `ValidatePrice`.
unfoldable pub validate_price : ℤ → Option Error
validate_price price = if ltb_ℤ price (pos 0) then some price_negative else none

-- One round of the loop of `ValidateVariables`: the errors found, in order. `seen` holds the names of
-- the map that are true.
unfoldable pub variable_error : Variable → Option Error
variable_error v =
    if not (is_valid_type v.type)
    then some variable_invalid_type
    else if is_select v.type && length v.options == 0
    then some variable_options_required
    else none

abbrev pub cons_error : Option Error → List Error → List Error
cons_error none es = es
cons_error (some e) es = e ∷ es

unfoldable pub validate_from : List String → List Variable → List Error
unfolding variable_error is_valid_type
validate_from seen [] = []
validate_from seen (v ∷ vars) =
    let again = variable_duplicate ∷ validate_from seen vars in
    let first = cons_error (variable_error v) (validate_from (v.name ∷ seen) vars) in
    if mem v.name seen then again else first

-- `ValidateVariables`.
unfoldable pub validate_variables : List Variable → List Error
unfolding validate_from
validate_variables vars = validate_from [] vars

module _ (trim_space : Text → Text) where
  -- `ValidateComposeSpec`. strings.TrimSpace, which cuts the white space of Unicode, is a parameter.
  unfoldable pub validate_compose_spec : Text → Option Error
  validate_compose_spec spec = if is_empty (trim_space spec) then some compose_required else none

  -- `ValidateTemplate`: every error, in the order of the checks.
  unfoldable pub validate_template : {F : Type 0} → Template F → List Error
  unfolding validate_name validate_version validate_price validate_compose_spec validate_variables
  validate_template t = cons_error (validate_name t.name) (
      cons_error (validate_version t.version) (
        cons_error (validate_price t.price_monthly)
          (cons_error (validate_compose_spec t.compose_spec) (validate_variables t.variables))))

module _ {F : Type 0} where
  -- `Publish`.
  unfoldable pub publish : ℕ → Template F → Template F × Option Error
  publish now t =
      if is_empty t.version
      then (t, some publish_requires_version)
      else (record t { published = true; updated_at = now }, none)

  -- `Unpublish`.
  unfoldable pub unpublish : ℕ → Template F → Template F
  unpublish now t = record t { published = false; updated_at = now }
