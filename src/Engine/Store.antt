-- ===== src/Engine/Store.antt =====
-- The store of internal/engine/store.go, over a table of rows.
--
-- The database is a parameter, `Database`: each field is one SQL statement, with the state of the
-- database as an argument and, for a write, as a result. A row is read by one column. What
-- json.Unmarshal, json.Marshal and time.Parse give are parameters too.
pub mod Rows
pub mod Moves
pub mod Transitions
pub mod Validate
pub mod Create
pub mod Created
use hoster.Prelude.{
  ℕ, zero, suc, String, Bool, true, false, Option, none, some, List, [], ◌∷◌, str_eq, map, not,
  ◌&&◌, ◌||◌, if◌then◌else◌, Result, ok, err, ltb,
}
use hoster.Prelude.Dict.{Dict, lookup, assign, delete}
use hoster.Prelude.Int.{ℤ, pos, negsuc, ltb_ℤ}
use hoster.Prelude.Text.{Text, codes}
use hoster.Engine.{
  Value, null, text, bytes, json, time, int, int64, float64, bool, Row, StateMachine, Error,
  unknown_resource, no_machine, not_found, invalid_transition, guard_failed, validation,
  encode_failed, database, can_transition, state_of, guard_error, command,
}

pub data FieldType : Type 0 where
  string_type text_type int_type float_type bool_type json_type timestamp_type ref_type
        soft_ref_type :
      FieldType

-- The fields that the store reads. A pattern is a test on texts.
pub record Field : Type 0 where
  pub name : String
  pub type : FieldType
  pub required : Bool
  pub default_value : Option Value
  pub min_int : Option ℤ
  pub max_int : Option ℤ
  pub min_len : Option ℕ
  pub max_len : Option ℕ
  pub pattern : Option (String → Bool)
  pub encrypted : Bool
  pub computed : Option (Row → Value)

pub record Resource : Type 0 where
  pub name : String
  pub ref_prefix : String
  pub fields : List Field
  pub state_machine : Option StateMachine

-- The SQL statements; `none` for no row. An `UPDATE` gives the number of rows that it changed.
pub record Database (S : Type 0) : Type 0 where
  pub select : S → String → String → Value → Result Text (Option Row)
  pub update : S → String → Row → String → Result Text ℕ × S
  pub delete_row : S → String → String → Result Text ℕ × S
  pub used_proxy_ports : S → String → Result Text (List Row)

pub record Store (S : Type 0) : Type 0 where
  pub db : Database S
  pub schema : String → Option Resource
  pub now : S → String
  pub parse_json : String → Option Value
  pub parse_time : String → Option Value
  pub marshal : Value → Result Text String

abbrev pub or_else : Option Value → Value → Value
or_else none v = v
or_else (some w) v = w

abbrev from_bytes : Value → Value
from_bytes (bytes b) = text b
from_bytes v = v

-- The first loop of `decodeRow`.
unfoldable pub decode_bytes : Row → Row
decode_bytes [] = []
decode_bytes ((k, v) ∷ row) = (k, from_bytes v) ∷ decode_bytes row

abbrev is_zero_int : ℤ → Bool
is_zero_int (pos zero) = true
is_zero_int _ = false

abbrev to_bool : Value → Value
to_bool (int64 n) = bool (not (is_zero_int n))
to_bool (int n) = bool (not (is_zero_int n))
to_bool (float64 n nought) = bool (not nought)
to_bool v = v

-- A string that is not empty, through a parser.
abbrev through : (String → Option Value) → Value → Value
through parse (text s) = if str_eq s "" then text s else or_else (parse s) (text s)
through parse v = v

-- `if v, ok := row[name]; ok { row[name] = f(v) }`.
unfoldable pub change : String → (Value → Value) → Row → Row
change name f row = elim (lookup name row) [ none ↦ row | some v ↦ assign row name (f v) ]

unfoldable pub has_type : FieldType → FieldType → Bool
has_type bool_type bool_type = true
has_type json_type json_type = true
has_type timestamp_type timestamp_type = true
has_type _ _ = false

-- A loop over the fields of one type.
unfoldable pub change_fields : FieldType → (Value → Value) → List Field → Row → Row
unfolding change has_type
change_fields t f [] row = row
change_fields t f (field ∷ fields) row =
    change_fields t f fields (if has_type t field.type then change field.name f row else row)

module _ {S : Type 0} (st : Store S) where
  -- `decodeRow`. An empty text is no time, so the first two columns are read like the others.
  unfoldable pub decode_row : Resource → Row → Row
  unfolding decode_bytes change_fields
  decode_row res row =
      let plain = decode_bytes row in
      let bools = change_fields bool_type to_bool res.fields plain in
      let jsons = change_fields json_type (through st.parse_json) res.fields bools in
      let dated =
        change "updated_at" (through st.parse_time)
          (change "created_at" (through st.parse_time) jsons) in
      change_fields timestamp_type (through st.parse_time) res.fields dated

  abbrev found : Resource → Result Text (Option Row) → Result Error Row
  found res (err e) = err (database e)
  found res (ok none) = err not_found
  found res (ok (some row)) = ok (decode_row res row)

  -- `GetByField`, and with it `Get` and `GetByID`.
  unfoldable pub get_by_field : S → String → String → Value → Result Error Row
  unfolding decode_row
  get_by_field s resource field value = elim (st.schema resource) [
    | none ↦ err unknown_resource
    | some res ↦ found res (st.db.select s resource field value)
  ]

  unfoldable pub get : S → String → String → Result Error Row
  unfolding get_by_field
  get s resource ref = get_by_field s resource "reference_id" (text ref)

  unfoldable pub get_by_id : S → String → ℤ → Result Error Row
  unfolding get_by_field
  get_by_id s resource id = get_by_field s resource "id" (int id)

  -- The value of a JSON field, encoded.
  unfoldable pub encode : Value → Result Text Value
  encode null = ok null
  encode (text t) = ok (text t)
  encode (bytes b) = ok (text b)
  encode v = elim (st.marshal v) [ err e ↦ err e | ok t ↦ ok (text t) ]

  abbrev encoded : String → Row → Result Text Value → Result Error Row
  encoded name row (err e) = err (encode_failed e)
  encoded name row (ok v) = ok (assign row name v)

  -- One field of the loop over the JSON fields.
  unfoldable pub encode_field : Field → Row → Result Error Row
  unfolding encode has_type
  encode_field field row = elim (has_type json_type field.type) [
    | false ↦ ok row
    | true ↦ elim (lookup field.name row) [
      | none ↦ ok row
      | some v ↦ encoded field.name row (encode v)
    ]
  ]

  -- The loop over the JSON fields.
  unfoldable pub encode_fields : List Field → Row → Result Error Row
  unfolding encode_field
  encode_fields [] row = ok row
  encode_fields (field ∷ fields) row = elim (encode_field field row) [
    | err e ↦ err e
    | ok next ↦ encode_fields fields next
  ]

  -- What `Update` makes of the number of rows.
  abbrev pub reread : S → String → String → Result Text ℕ → Result Error Row
  reread s resource ref (err e) = err (database e)
  reread s resource ref (ok zero) = err not_found
  reread s resource ref (ok (suc n)) = get s resource ref

  abbrev updated : String → String → Result Text ℕ × S → Result Error Row × S
  updated resource ref done = (reread done.1 resource ref done.0, done.1)

  -- `Update`. The columns that it sets are never empty: it sets `updated_at`.
  unfoldable pub update : S → String → String → Row → Result Error Row × S
  unfolding get encode_fields
  update s resource ref fields = elim (st.schema resource) [
    | none ↦ (err unknown_resource, s)
    | some res ↦
        let kept = delete "created_at" (delete "id" (delete "reference_id" fields)) in
        let dated = assign kept "updated_at" (text (st.now s)) in
        elim (encode_fields res.fields dated) [
          | err e ↦ (err e, s)
          | ok columns ↦ updated resource ref (st.db.update s resource columns ref)
        ]
  ]

  abbrev deleted : Result Text ℕ × S → Option Error × S
  deleted (err e, s) = (some (database e), s)
  deleted (ok zero, s) = (some not_found, s)
  deleted (ok (suc n), s) = (none, s)

  -- `Delete`.
  unfoldable pub remove : S → String → String → Option Error × S
  remove s resource ref = elim (st.schema resource) [
    | none ↦ (some unknown_resource, s)
    | some res ↦ deleted (st.db.delete_row s resource ref)
  ]

  abbrev pub with_command : StateMachine → String → Result Error Row → Result Error (Row × String)
  with_command sm to (err e) = err e
  with_command sm to (ok row) = ok (row, command (lookup to sm.on_enter))

  -- `Transition` from its guard on.
  unfoldable pub enter_state :
      S → String → String → String → StateMachine → Option String → Result Error (Row × String) × S
  unfolding update
  enter_state s resource ref to sm (some field) = (err (guard_failed field), s)
  enter_state s resource ref to sm none =
      let done = update s resource ref ((sm.field, text to) ∷ []) in
      (with_command sm to done.0, done.1)

  -- `Transition` from the row that it read on. The state of the database is that of the update.
  unfoldable pub transition_from :
      S → String → String → String → StateMachine → Row → Result Error (Row × String) × S
  unfolding enter_state
  transition_from s resource ref to sm row =
      let from = state_of (lookup sm.field row) in
      let go = enter_state s resource ref to sm (guard_error sm row to) in
      if not (can_transition sm from to) then (err (invalid_transition from to), s) else go

  abbrev transition_read :
      S
      → String
      → String
      → String
      → StateMachine
      → Result Error Row
      → Result Error (Row × String) × S
  transition_read s resource ref to sm (err e) = (err e, s)
  transition_read s resource ref to sm (ok row) = transition_from s resource ref to sm row

  abbrev transition_machine :
      S → String → String → String → Option StateMachine → Result Error (Row × String) × S
  transition_machine s resource ref to none = (err no_machine, s)
  transition_machine s resource ref to (some sm) =
      transition_read s resource ref to sm (get s resource ref)

  -- `Transition`, with the state of the database.
  unfoldable pub transition : S → String → String → String → Result Error (Row × String) × S
  unfolding transition_from get
  transition s resource ref to = elim (st.schema resource) [
    | none ↦ (err unknown_resource, s)
    | some res ↦ transition_machine s resource ref to res.state_machine
  ]
