-- ===== src/Engine/Store/Rows.antt =====
-- What the store of internal/engine/store.go reads of a row that it wrote.
use hoster.Prelude.{
  ◌≡◌, refl, ◌∙◌, subst, ◌⊎◌, inl, inr, String, false, some, List, [], ◌∷◌, str_eq, ◌&&◌, ◌||◌, ok,
  arith, Bool-cases, Option-cases, Result-cases,
}
use hoster.Prelude.Dict.{lookup, assign, delete, lookup-assign, lookup-delete}
use hoster.Engine.{Value, null, text, bytes, Row}
use hoster.Engine.Store.{
  FieldType, Field, Resource, Store, bool_type, json_type, timestamp_type, has_type, change,
  change_fields, decode_bytes, decode_row, encode, encode_field, encode_fields,
}

-- No field of the column's name has the type.
abbrev pub Untouched : String → FieldType → List Field → Type 0
Untouched k t [] = Unit
Untouched k t (f ∷ fs) = ((str_eq f.name k && has_type t f.type) ≡ false) × Untouched k t fs

-- The values of a column are not changed on the way.
abbrev pub IsPlain : String → List Field → Type 0
IsPlain k fs =
    Untouched k bool_type fs
    × Untouched k json_type fs
    × Untouched k timestamp_type fs
    × ((str_eq "created_at" k
          || (str_eq "updated_at" k || (str_eq "id" k || str_eq "reference_id" k)))
        ≡ false)

decode_bytes-lookup :
    (k t : String) (row : Row)
    → (lookup k row ≡ some (text t)) ⊎ (lookup k row ≡ some (bytes t))
    → lookup k (decode_bytes row) ≡ some (text t)
unfolding decode_bytes
decode_bytes-lookup k t [] h = ground arith
decode_bytes-lookup k t ((j, null) ∷ row) h = ground (arith, decode_bytes-lookup k t row)
decode_bytes-lookup k t ((j, v) ∷ row) h = ground (arith, decode_bytes-lookup k t row)

change-other :
    (k name : String) (f : Value → Value) (row : Row)
    → str_eq name k ≡ false
    → lookup k (change name f row) ≡ lookup k row
unfolding change
change-other k name f row h = elim (Option-cases (lookup name row)) [
  | inl e ↦ rw (e, change) refl
  | inr (v, e) ↦ rw (e, change) (lookup-assign k row name (f v) ∙ rw h refl)
]

change_fields-other :
    (k : String) (t : FieldType) (f : Value → Value) (fs : List Field) (row : Row)
    → Untouched k t fs
    → lookup k (change_fields t f fs row) ≡ lookup k row
unfolding change_fields
change_fields-other k t f [] row h = refl
change_fields-other k t f (g ∷ fs) row (h, hs) = elim (Bool-cases (has_type t g.type)) [
  | inr e ↦ rw e (change_fields-other k t f fs row hs)
  | inl e ↦ rw e (
      change_fields-other k t f fs (change g.name f row) hs
      ∙ change-other k g.name f row (ground arith))
]

module _ {S : Type 0} (st : Store S) where
  -- A plain column of a row reads as it was stored; bytes read as a text.
  pub decode_row-plain :
      (res : Resource) (k t : String) (row : Row)
      → IsPlain k res.fields
      → (lookup k row ≡ some (text t)) ⊎ (lookup k row ≡ some (bytes t))
      → lookup k (decode_row st res row) ≡ some (text t)
  unfolding decode_row
  decode_row-plain res k t row (b, j, d, n) h =
      change_fields-other k timestamp_type _ res.fields _ d
      ∙ (change-other k "updated_at" _ _ (ground arith)
          ∙ (change-other k "created_at" _ _ (ground arith)
              ∙ (change_fields-other k json_type _ res.fields _ j
                  ∙ (change_fields-other k bool_type _ res.fields _ b
                      ∙ decode_bytes-lookup k t row h))))

encode_field-other :
    {S : Type 0} (st : Store S) (k : String) (g : Field) (row next : Row)
    → (str_eq g.name k && has_type json_type g.type) ≡ false
    → encode_field st g row ≡ ok next
    → lookup k next ≡ lookup k row
unfolding encode_field
encode_field-other st k g row next h = elim (Bool-cases (has_type json_type g.type)) [
  | inr e ↦ rw (e, encode_field) (λ p. cc)
  | inl e ↦ elim (Option-cases (lookup g.name row)) [
    | inl f ↦ rw (e, encode_field) (rw f (λ p. cc))
    | inr (v, f) ↦ elim (Result-cases (encode st v)) [
      | inl (x, c) ↦ rw (e, encode_field) (rw f (rw c (λ p. cc)))
      | inr (w, c) ↦
          rw (e, encode_field)
            (rw f (
              rw c (λ p.
                let q : assign row g.name w ≡ next = cc in
                subst (λ r. lookup k r ≡ lookup k row) q
                  (lookup-assign k row g.name w ∙ ground (arith)))))
    ]
  ]
]

pub encode_fields-other :
    {S : Type 0} (st : Store S) (k : String) (fs : List Field) (row next : Row)
    → Untouched k json_type fs
    → encode_fields st fs row ≡ ok next
    → lookup k next ≡ lookup k row
unfolding encode_fields
encode_fields-other st k [] row next h = λ e. cc
encode_fields-other st k (g ∷ fs) row next (h, hs) = elim (Result-cases (encode_field st g row)) [
  | inl (x, e) ↦ rw (e, encode_fields) (λ p. cc)
  | inr (mid, e) ↦
      rw (e, encode_fields)
        (λ p. encode_fields-other st k fs mid next hs p ∙ encode_field-other st k g row mid h e)
]

-- The columns that `Update` writes.
pub columns-plain :
    {S : Type 0} (st : Store S) (k now : String) (fs : List Field) (fields columns : Row)
    → IsPlain k fs
    → encode_fields st fs (
        assign
          (delete "created_at" (delete "id" (delete "reference_id" fields)))
          "updated_at"
          (text now))
      ≡ ok columns
    → lookup k columns ≡ lookup k fields
columns-plain st k now fs fields columns (b, j, d, n) e =
    encode_fields-other st k fs _ columns j e
    ∙ (lookup-assign k _ "updated_at" (text now)
        ∙ ground (
          arith,
          lookup-delete k "created_at" (delete "id" (delete "reference_id" fields)),
          lookup-delete k "id" (delete "reference_id" fields),
          lookup-delete k "reference_id" fields,
        ))
