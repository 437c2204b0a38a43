-- ===== src/Engine/Store/Create.antt =====
-- Create of internal/engine/store.go.
--
-- The INSERT, Encrypt and the new UUID are parameters; a store without an encryption key has no
-- Encrypt. A failure of Encrypt or of json.Marshal is `encode_failed`.
use Prim.Native.String.{slice, ◌++◌ as ◌&◌}
use hoster.Prelude.{
  String, true, false, Option, none, some, List, [], ◌∷◌, ◌++◌, str_eq, if◌then◌else◌, Result, ok,
  err,
}
use hoster.Prelude.Dict.{lookup, assign}
use hoster.Prelude.Int.{ℤ}
use hoster.Prelude.Text.{Text}
use hoster.Engine.{
  Value, text, bytes, int64, Row, StateMachine, Error, unknown_resource, validation, encode_failed,
  database,
}
use hoster.Engine.Store.{Field, Resource, Store, encode_fields}
use hoster.Engine.Store.Validate.{Complaint, validate}

-- `RefPrefix`, and the first eight bytes of the UUID or all of it.
abbrev pub reference_id : String → String → String
reference_id prefix uuid = if str_eq prefix "" then uuid else prefix & slice uuid 0 8

abbrev pub with_default : Field → Row → Row
with_default f row = elim (lookup f.name row) [
  | some v ↦ row
  | none ↦ elim f.default_value [ none ↦ row | some v ↦ assign row f.name v ]
]

unfoldable pub apply_defaults : List Field → Row → Row
apply_defaults [] row = row
apply_defaults (f ∷ fields) row = apply_defaults fields (with_default f row)

abbrev pub with_computed : Field → Row → Row
with_computed f row = elim f.computed [ none ↦ row | some c ↦ assign row f.name (c row) ]

unfoldable pub apply_computed : List Field → Row → Row
apply_computed [] row = row
apply_computed (f ∷ fields) row = apply_computed fields (with_computed f row)

abbrev pub with_initial : Option StateMachine → Row → Row
with_initial none row = row
with_initial (some sm) row = elim (lookup sm.field row) [
  | some v ↦ row
  | none ↦ assign row sm.field (text sm.initial)
]

-- What `Create` validates.
unfoldable pub prepare : Resource → String → Row → Row
unfolding apply_defaults apply_computed
prepare res uuid row = with_initial res.state_machine (
    apply_computed res.fields (
      apply_defaults res.fields
        (assign row "reference_id" (text (reference_id res.ref_prefix uuid)))))

-- The columns of the INSERT.
unfoldable pub present : List Field → Row → List String
present [] row = []
present (f ∷ fields) row = elim (lookup f.name row) [
  | none ↦ present fields row
  | some v ↦ f.name ∷ present fields row
]

abbrev pub insert_columns : List Field → Row → List String
insert_columns fields row =
    "reference_id" ∷ (present fields row ++ "created_at" ∷ "updated_at" ∷ [])

abbrev pub plaintext : Value → String
plaintext (text s) = s
plaintext (bytes s) = s
plaintext _ = ""

abbrev pub Encrypt : Type 0
Encrypt = Option (String → Result Text String)

-- The value of an encrypted field.
abbrev pub encrypt_value : Encrypt → Value → Result Text Value
encrypt_value none v = ok v
encrypt_value (some encrypt) v = elim (encrypt (plaintext v)) [
  | err e ↦ if str_eq (plaintext v) "" then ok v else err e
  | ok c ↦ if str_eq (plaintext v) "" then ok v else ok (bytes c)
]

abbrev pub encrypted : String → Row → Result Text Value → Result Error Row
encrypted name row (err e) = err (encode_failed e)
encrypted name row (ok v) = ok (assign row name v)

unfoldable pub encrypt_field : Encrypt → Field → Row → Result Error Row
encrypt_field key f row = elim f.encrypted [
  | false ↦ ok row
  | true ↦ elim (lookup f.name row) [
    | none ↦ ok row
    | some v ↦ encrypted f.name row (encrypt_value key v)
  ]
]

-- The loop over the encrypted fields.
unfoldable pub encrypt_fields : Encrypt → List Field → Row → Result Error Row
unfolding encrypt_field
encrypt_fields key [] row = ok row
encrypt_fields key (f ∷ fields) row = elim (encrypt_field key f row) [
  | err e ↦ err e
  | ok next ↦ encrypt_fields key fields next
]

module _ {S : Type 0} (st : Store S) (insert : S → String → List String → Row → Result Text ℤ × S)
    (key : Encrypt) where
  -- What `Create` makes of the id of the new row.
  abbrev pub inserted : Row → Result Text ℤ → Result Error Row
  inserted row (err e) = err (database e)
  inserted row (ok id) = ok (assign row "id" (int64 id))

  -- `Create` from the INSERT on.
  unfoldable pub insert_row : S → Resource → String → Row → Result Error Row × S
  unfolding present encrypt_fields
  insert_row s res resource row = elim (encrypt_fields key res.fields row) [
    | err e ↦ (err e, s)
    | ok secret ↦ elim (encode_fields st res.fields secret) [
      | err e ↦ (err e, s)
      | ok final ↦
          let done = insert s resource (insert_columns res.fields row) final in
          (inserted final done.0, done.1)
    ]
  ]

  abbrev pub create_in :
      S → Resource → String → Row → Option (String × Complaint) → Result Error Row × S
  create_in s res resource row (some (name, c)) = (err (validation name), s)
  create_in s res resource row none =
      let now = text (st.now s) in
      insert_row s res resource (assign (assign row "created_at" now) "updated_at" now)

  -- `Create`.
  unfoldable pub create : S → String → String → Row → Result Error Row × S
  unfolding prepare insert_row
  create s resource uuid row = elim (st.schema resource) [
    | none ↦ (err unknown_resource, s)
    | some res ↦
        let ready = prepare res uuid row in
        create_in s res resource ready (validate res.fields ready)
  ]
