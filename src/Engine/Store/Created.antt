-- ===== src/Engine/Store/Created.antt =====
-- The state that Create of internal/engine/store.go gives to a new row.
use hoster.Prelude.{
  ◌≡◌, refl, ◌∙◌, ap, sym, subst, ◌⊎◌, inl, inr, String, true, false, none, some, List, [], ◌∷◌,
  str_eq, Result, ok, All, str_eq_refl, arith, Bool-cases, Option-cases, Result-cases,
}
use hoster.Prelude.Dict.{lookup, assign, lookup-assign}
use hoster.Prelude.Int.{ℤ}
use hoster.Prelude.Text.{Text}
use hoster.Engine.{Value, text, int64, Row, StateMachine}
use hoster.Engine.Store.{Field, Resource, Store, json_type, has_type, encode_fields}
use hoster.Engine.Store.Rows.{Untouched, encode_fields-other}
use hoster.Engine.Store.Validate.{validate, validate_iff, IsGood}
use hoster.Engine.Store.Create.{
  with_default, apply_defaults, with_computed, apply_computed, with_initial, prepare, Encrypt,
  encrypt_value, encrypt_field, encrypt_fields, reference_id, insert_columns, insert_row, create,
}

module _ (k initial : String) where
  -- A field of the column's name has the initial state for its default or none, and the store changes
  -- its value in no other way.
  abbrev pub Leaves : Field → Type 0
  Leaves f =
      str_eq f.name k ≡ true
      → ((v : Value) → f.default_value ≡ some v → v ≡ text initial)
        × (f.computed ≡ none)
        × (f.encrypted ≡ false)
        × (has_type json_type f.type ≡ false)

  abbrev Starts : Row → Type 0
  Starts row = (lookup k row ≡ none) ⊎ (lookup k row ≡ some (text initial))

  assign-other :
      (row : Row) (name : String) (v : Value)
      → str_eq name k ≡ false
      → lookup k (assign row name v) ≡ lookup k row
  assign-other row name v h = lookup-assign k row name v ∙ rw h refl

  with_default-Starts :
      (f : Field) (row : Row) → Leaves f → Starts row → Starts (with_default f row)
  with_default-Starts f row l = elim (Option-cases (lookup f.name row)) [
    | inr (v, e) ↦ rw (e, with_default) (λ s. s)
    | inl e ↦ elim (Option-cases f.default_value) [
      | inl d ↦ rw (e, with_default) (rw d (λ s. s))
      | inr (v, d) ↦
          rw (e, with_default)
            (rw d (λ s. elim (Bool-cases (str_eq f.name k)) [
              | inl q ↦ inr (lookup-assign k row f.name v ∙ rw q (ap (λ w. some w) ((l q).0 v d)))
              | inr q ↦
                  subst (λ o. (o ≡ none) ⊎ (o ≡ some (text initial)))
                    (sym (assign-other row f.name v q)) s
            ]))
    ]
  ]

  apply_defaults-Starts :
      (fields : List Field) (row : Row)
      → All Leaves fields
      → Starts row
      → Starts (apply_defaults fields row)
  unfolding apply_defaults
  apply_defaults-Starts [] row l s = s
  apply_defaults-Starts (f ∷ fields) row (l, ls) s =
      apply_defaults-Starts fields (with_default f row) ls (with_default-Starts f row l s)

  with_computed-other :
      (f : Field) (row : Row) → Leaves f → lookup k (with_computed f row) ≡ lookup k row
  with_computed-other f row l = elim (Option-cases f.computed) [
    | inl e ↦ rw (e, with_computed) refl
    | inr (c, e) ↦
        rw (e, with_computed)
          (elim (Bool-cases (str_eq f.name k)) [
            | inl q ↦ let idle = (l q).1 in cc
            | inr q ↦ assign-other row f.name (c row) q
          ])
  ]

  apply_computed-other :
      (fields : List Field) (row : Row)
      → All Leaves fields
      → lookup k (apply_computed fields row) ≡ lookup k row
  unfolding apply_computed
  apply_computed-other [] row l = refl
  apply_computed-other (f ∷ fields) row (l, ls) =
      apply_computed-other fields (with_computed f row) ls ∙ with_computed-other f row l

  untouched : (fields : List Field) → All Leaves fields → Untouched k json_type fields
  untouched [] l = tt
  untouched (f ∷ fields) (l, ls) = (ground (arith, l), untouched fields ls)

  module _ (key : Encrypt) where
    encrypt_field-other :
        (f : Field) (row next : Row)
        → Leaves f
        → encrypt_field key f row ≡ ok next
        → lookup k next ≡ lookup k row
    unfolding encrypt_field
    encrypt_field-other f row next l = elim (Bool-cases f.encrypted) [
      | inr e ↦ rw (e, encrypt_field) (λ h. cc)
      | inl e ↦ elim (Option-cases (lookup f.name row)) [
        | inl g ↦ rw (e, encrypt_field) (rw g (λ h. cc))
        | inr (v, g) ↦ elim (Result-cases (encrypt_value key v)) [
          | inl (x, c) ↦ rw (e, encrypt_field) (rw g (rw c (λ h. cc)))
          | inr (w, c) ↦
              rw (e, encrypt_field)
                (rw g (
                  rw c (λ h.
                    let same : assign row f.name w ≡ next = cc in
                    subst (λ r. lookup k r ≡ lookup k row) same
                      (elim (Bool-cases (str_eq f.name k)) [
                        | inl q ↦ let idle = (l q).2 in cc
                        | inr q ↦ assign-other row f.name w q
                      ]))))
        ]
      ]
    ]

    encrypt_fields-other :
        (fields : List Field) (row next : Row)
        → All Leaves fields
        → encrypt_fields key fields row ≡ ok next
        → lookup k next ≡ lookup k row
    unfolding encrypt_fields
    encrypt_fields-other [] row next l = λ h. cc
    encrypt_fields-other (f ∷ fields) row next (l, ls) =
        elim (Result-cases (encrypt_field key f row)) [
          | inl (x, e) ↦ rw (e, encrypt_fields) (λ h. cc)
          | inr (mid, e) ↦
              rw (e, encrypt_fields)
                (λ h. encrypt_fields-other fields mid next ls h ∙ encrypt_field-other f row mid l e)
        ]

-- The column is none of those that the store writes itself.
abbrev pub IsFree : String → Type 0
IsFree k =
    (str_eq "created_at" k ≡ false)
    × (str_eq "updated_at" k ≡ false)
    × (str_eq "id" k ≡ false)
    × (str_eq "reference_id" k ≡ false)

lookup-with_initial :
    (sm : StateMachine) (row : Row)
    → Starts sm.field sm.initial row
    → lookup sm.field (with_initial (some sm) row) ≡ some (text sm.initial)
lookup-with_initial sm row = elim (Option-cases (lookup sm.field row)) [
  | inr (v, e) ↦ rw (e, with_initial) (λ s. elim s [ inl q ↦ cc | inr q ↦ e ∙ q ])
  | inl e ↦
      rw (e, with_initial)
        (λ s.
          lookup-assign sm.field row sm.field (text sm.initial) ∙ rw (str_eq_refl sm.field) refl)
]

module _ {S : Type 0} (st : Store S) (insert : S → String → List String → Row → Result Text ℤ × S)
    (key : Encrypt) (s : S) (resource : String) (res : Resource) (sm : StateMachine) where
  insert_row-other :
      (made row : Row)
      → All (Leaves sm.field sm.initial) res.fields
      → IsFree sm.field
      → (insert_row st insert key s res resource made).0 ≡ ok row
      → lookup sm.field row ≡ lookup sm.field made
  unfolding insert_row
  insert_row-other made row l (a, b, c, d) =
      elim (Result-cases (encrypt_fields key res.fields made)) [
        | inl (x, e) ↦ rw (e, insert_row) (λ h. cc)
        | inr (secret, e) ↦ elim (Result-cases (encode_fields st res.fields secret)) [
          | inl (x, f) ↦ rw (e, insert_row) (rw f (λ h. cc))
          | inr (final, f) ↦
              elim (Result-cases (insert s resource (insert_columns res.fields made) final).0) [
                | inl (x, g) ↦ rw (e, insert_row) (rw f (rw g (λ h. cc)))
                | inr (id, g) ↦
                    rw (e, insert_row)
                      (rw f (
                        rw g (λ h.
                          let same : assign final "id" (int64 id) ≡ row = cc in
                          subst (λ r. lookup sm.field r ≡ lookup sm.field made) same
                            (assign-other sm.field sm.initial final "id" (int64 id) c
                              ∙ (encode_fields-other st sm.field res.fields secret final
                                    (untouched sm.field sm.initial res.fields l) f
                                  ∙ encrypt_fields-other sm.field sm.initial key res.fields made
                                      secret l e)))))
              ]
        ]
      ]

  prepare_starts :
      (uuid : String) (values : Row)
      → res.state_machine ≡ some sm
      → lookup sm.field values ≡ none
      → All (Leaves sm.field sm.initial) res.fields
      → IsFree sm.field
      → lookup sm.field (prepare res uuid values) ≡ some (text sm.initial)
  unfolding prepare
  prepare_starts uuid values m n l (a, b, c, d) =
      rw (prepare, m)
        (let k = sm.field in
          let i = sm.initial in
          let first = assign values "reference_id" (text (reference_id res.ref_prefix uuid)) in
          let filled = apply_defaults res.fields first in
          lookup-with_initial sm (apply_computed res.fields filled) (
            subst (λ o. (o ≡ none) ⊎ (o ≡ some (text i)))
              (sym (apply_computed-other k i res.fields filled l))
              (apply_defaults-Starts k i res.fields first l
                (inl (assign-other k i values "reference_id" _ d ∙ n)))))

  -- A row that Create makes of values without a state starts in the initial state of its machine, and
  -- the values that it checked are good for every field; no field may change the column of the state,
  -- and the store may not write that column itself.
  pub create_starts :
      (uuid : String) (values row : Row)
      → st.schema resource ≡ some res
      → res.state_machine ≡ some sm
      → lookup sm.field values ≡ none
      → All (Leaves sm.field sm.initial) res.fields
      → IsFree sm.field
      → (create st insert key s resource uuid values).0 ≡ ok row
      → (lookup sm.field row ≡ some (text sm.initial))
        × All (λ f. IsGood f (lookup f.name (prepare res uuid values))) res.fields
  unfolding create
  create_starts uuid values row q m n l free =
      elim (Option-cases (validate res.fields (prepare res uuid values))) [
        | inr (x, e) ↦ rw (q, create) (rw e (λ h. cc))
        | inl e ↦
            rw (q, create)
              (rw e (λ h.
                let (a, b, c, d) = free in
                let k = sm.field in
                let i = sm.initial in
                let ready = prepare res uuid values in
                let now = text (st.now s) in
                let made = assign ready "created_at" now in
                (
                  insert_row-other (assign made "updated_at" now) row l free h
                      ∙ (assign-other k i made "updated_at" now b
                          ∙ (assign-other k i ready "created_at" now a
                              ∙ prepare_starts uuid values m n l free)),
                  (validate_iff res.fields ready).0 e,
                )))
      ]
