-- ===== src/Examples/Created.antt =====
-- The theorems about Create and destroyProvision at sample resources (internal/engine/store.go and
-- handlers.go).
use hoster.Prelude.{
  ◌≡◌, ◌⊎◌, refl, sym, String, true, false, none, some, List, [], ◌∷◌, Result, ok, All,
}
use hoster.Prelude.Dict.{lookup, assign}
use hoster.Prelude.Int.{ℤ, pos}
use hoster.Prelude.Text.{Text}
use hoster.Engine.{text, int64, Row, deployment_machine}
use hoster.Engine.Store.{
  Database, Store, Field, Resource, string_type, encode_fields, encode_field, has_type, get_by_id,
  get_by_field,
}
use hoster.Engine.Store.Validate.{IsGood, validate, field_error, is_absent, value_error, text_error}
use hoster.Engine.Store.Create.{
  create, prepare, apply_defaults, apply_computed, insert_row, present, encrypt_fields,
  encrypt_field,
}
use hoster.Engine.Store.Created.{create_starts}
use hoster.Engine.Handlers.{to_int}
use hoster.Engine.Handlers.Provisions.{
  Cloud, IsDestroyed, str_val, after_destroy, call_provider, with_credential, destroy_provision,
  destroy_provision_iff,
}

abbrev column : String → Field
column name = record {
  name = name;
  type = string_type;
  required = false;
  default_value = none;
  min_int = none;
  max_int = none;
  min_len = none;
  max_len = none;
  pattern = none;
  encrypted = false;
  computed = none;
}

-- A table without rows, of a name and a status.
abbrev apps : Resource
apps = record {
  name = "apps";
  ref_prefix = "app_";
  fields =
      record (column "name") { required = true; min_len = some 3 }
      ∷ record (column "status") { default_value = some (text "pending") }
      ∷ [];
  state_machine = some deployment_machine;
}

abbrev no_rows : Database Row
no_rows = record {
  select = λ s table name v. ok none;
  update = λ s table columns ref. (ok 0, s);
  delete_row = λ s table ref. (ok 0, s);
  used_proxy_ports = λ s node. ok [];
}

abbrev app_store : Store Row
app_store = record {
  db = no_rows;
  schema = λ name. some apps;
  now = λ s. "2024-01-01T00:00:00Z";
  parse_json = λ t. none;
  parse_time = λ t. none;
  marshal = λ v. ok "{}";
}

abbrev keep_row : Row → String → List String → Row → Result Text ℤ × Row
keep_row s table columns row = (ok (pos 1), row)

abbrev uuid : String
uuid = "0123456789abcdef"

abbrev named : Row
named = ("name", text "Blog") ∷ []

abbrev stored : Row
stored =
    ("name", text "Blog")
    ∷ ("reference_id", text "app_01234567")
    ∷ ("status", text "pending")
    ∷ ("created_at", text "2024-01-01T00:00:00Z")
    ∷ ("updated_at", text "2024-01-01T00:00:00Z")
    ∷ ("id", int64 (pos 1))
    ∷ []

create_starts_example :
    (lookup "status" stored ≡ some (text "pending"))
    × All (λ f. IsGood f (lookup f.name (prepare apps uuid named))) apps.fields
unfolding create prepare apply_defaults apply_computed assign insert_row present encrypt_fields
    encrypt_field encode_fields encode_field has_type validate field_error is_absent value_error
    text_error
create_starts_example =
    create_starts app_store keep_row none [] "apps" apps deployment_machine uuid named stored refl
      refl refl
      (
        λ h. cc,
        (λ h. (λ v e. let same : text "pending" ≡ v = cc in sym same, refl, refl, refl), tt),
      )
      (refl, refl, refl, refl) refl

-- A provision whose credential is found; every provider destroys.
abbrev provisions_store : Store Row
provisions_store = record app_store {
  db = record no_rows {
    select = λ s table name v. ok (some (("credentials", text "sealed") ∷ []));
  };
}

abbrev cloud : Cloud Row
cloud = record {
  decrypt = λ sealed. ok "token";
  new_provider = λ type secret. none;
  destroy_instance = λ s type secret request. (none, s);
  reason_text = λ r. "reason";
}

abbrev provision : Row
provision =
    ("reference_id", text "prov_1")
    ∷ ("provider", text "hetzner")
    ∷ ("provider_instance_id", text "42")
    ∷ ("credential_id", int64 (pos 1))
    ∷ []

destroy_provision_iff_example :
    (str_val provision "provider_instance_id" ≡ "")
    ⊎ IsDestroyed provisions_store cloud provision provision
unfolding destroy_provision with_credential call_provider after_destroy str_val to_int get_by_id
    get_by_field
destroy_provision_iff_example =
    (destroy_provision_iff provisions_store cloud provision provision).0 refl
