-- ===== src/Engine/Store/Moves.antt =====
-- What `Update` and `Transition` of internal/engine/store.go do to the state of a row.
use hoster.Prelude.{
  ℕ, zero, suc, ◌≡◌, ◌≢◌, refl, ◌∙◌, ◌⊎◌, inl, inr, String, none, some, Result, ok, err, arith,
  Result-cases,
}
use hoster.Prelude.Text.{Text}
use hoster.Prelude.Dict.{lookup, assign, delete}
use hoster.Engine.{text, bytes, Row}
use hoster.Engine.Store.{
  Resource, Database, Store, encode_fields, decode_row, reread, get, get_by_field, update,
}
use hoster.Engine.Store.Rows.{IsPlain, decode_row-plain, columns-plain}

-- What the store relies on of an `UPDATE ... WHERE reference_id = ?`: one that fails, or that finds no
-- row, changes nothing; one that finds the row sets the columns that it names to their texts, and
-- leaves the other columns.
pub record IsTable {S : Type 0} (db : Database S) : Type 0 where
  pub failed :
      (s : S) (table : String) (columns : Row) (ref : String) (e : Text)
      → (db.update s table columns ref).0 ≡ err e
      → (db.update s table columns ref).1 ≡ s
  pub missed :
      (s : S) (table : String) (columns : Row) (ref : String)
      → (db.update s table columns ref).0 ≡ ok 0
      → (db.update s table columns ref).1 ≡ s
  pub written :
      (s : S) (table : String) (columns : Row) (ref : String) (n : ℕ) (row : Row)
      → db.select s table "reference_id" (text ref) ≡ ok (some row)
      → (db.update s table columns ref).0 ≡ ok (suc n)
      → (row' : Row) × (db.select (db.update s table columns ref).1 table "reference_id" (text ref)
          ≡ ok (some row'))
        × ((k : String) → lookup k columns ≡ none → lookup k row' ≡ lookup k row)
        × ((k t : String) → lookup k columns ≡ some (text t) → lookup k row' ≡ some (text t))

module _ {S : Type 0} (st : Store S) (resource ref : String) where
  -- The row of the resource holds a text in a column.
  abbrev pub Holds : S → String → String → Type 0
  Holds s k t =
      (row : Row) × (st.db.select s resource "reference_id" (text ref) ≡ ok (some row))
      × ((lookup k row ≡ some (text t)) ⊎ (lookup k row ≡ some (bytes t)))

  module _ (res : Resource) (known : st.schema resource ≡ some res) where
    -- It reads as that text.
    pub get-Holds :
        (s : S) (k t : String)
        → IsPlain k res.fields
        → Holds s k t
        → (row : Row) × (get st s resource ref ≡ ok row) × (lookup k row ≡ some (text t))
    unfolding get get_by_field
    get-Holds s k t plain (row, e, h) = (
      decode_row st res row,
      rw (known, get_by_field) (rw e refl),
      decode_row-plain st res k t row plain h,
    )

    module _ (law : IsTable st.db) where
      unread :
          (s : S) (r : Result Text ℕ)
          → ((n : ℕ) → r ≢ ok (suc n))
          → (row : Row) → reread st s resource ref r ≢ ok row
      unread s (err e) never row q = cc
      unread s (ok zero) never row q = cc
      unread s (ok (suc n)) never row q = absurd (never n refl)

      -- A statement that does not name the column keeps it.
      statement_keeps :
          (s : S) (k t : String) (columns : Row)
          → lookup k columns ≡ none
          → Holds s k t
          → Holds (st.db.update s resource columns ref).1 k t
      statement_keeps s k t columns n (row, e, h) =
          elim (Result-cases (st.db.update s resource columns ref).0) [
            | inl (x, f) ↦ rw (law.failed s resource columns ref x f) (row, e, h)
            | inr (zero, f) ↦ rw (law.missed s resource columns ref f) (row, e, h)
            | inr (suc m, f) ↦
                let (row', e', same, new) = law.written s resource columns ref m row e f in
                (row', e', rw (same k n) h)
          ]

      -- One that sets it to a text writes it, or changes nothing.
      statement_writes :
          (s : S) (k t t' : String) (columns : Row)
          → lookup k columns ≡ some (text t')
          → Holds s k t
          → (Holds (st.db.update s resource columns ref).1 k t
              × ((n : ℕ) → (st.db.update s resource columns ref).0 ≢ ok (suc n)))
            ⊎ Holds (st.db.update s resource columns ref).1 k t'
      statement_writes s k t t' columns n (row, e, h) =
          elim (Result-cases (st.db.update s resource columns ref).0) [
            | inl (x, f) ↦ inl (rw (law.failed s resource columns ref x f) (row, e, h), λ m q. cc)
            | inr (zero, f) ↦
                inl (rw (law.missed s resource columns ref f) (row, e, h), λ m q. ground arith)
            | inr (suc m, f) ↦
                let (row', e', same, new) = law.written s resource columns ref m row e f in
                inr (row', e', inl (new k t' n))
          ]

      -- `Update` keeps a column that it is not given.
      pub update-keeps :
          (s : S) (k t : String) (fields : Row)
          → IsPlain k res.fields
          → lookup k fields ≡ none
          → Holds s k t
          → Holds (update st s resource ref fields).1 k t
      unfolding update
      update-keeps s k t fields plain n h =
          let dated =
            assign (delete "created_at" (delete "id" (delete "reference_id" fields))) "updated_at"
              (text (st.now s)) in
          elim (Result-cases (encode_fields st res.fields dated)) [
            | inl (x, e) ↦ rw (known, update) (rw e h)
            | inr (columns, e) ↦
                rw (known, update)
                  (rw e (
                    statement_keeps s k t columns
                      (columns-plain st k (st.now s) res.fields fields columns plain e ∙ n) h))
          ]

      -- `Update` writes a text that it is given, and where it returns a row it has written it.
      pub update-writes :
          (s : S) (k t t' : String) (fields : Row)
          → IsPlain k res.fields
          → lookup k fields ≡ some (text t')
          → Holds s k t
          → (Holds (update st s resource ref fields).1 k t
              × ((row : Row) → (update st s resource ref fields).0 ≢ ok row))
            ⊎ Holds (update st s resource ref fields).1 k t'
      unfolding update
      update-writes s k t t' fields plain n h =
          let dated =
            assign (delete "created_at" (delete "id" (delete "reference_id" fields))) "updated_at"
              (text (st.now s)) in
          elim (Result-cases (encode_fields st res.fields dated)) [
            | inl (x, e) ↦ rw (known, update) (rw e (inl (h, λ row q. cc)))
            | inr (columns, e) ↦
                rw (known, update)
                  (rw e
                    (elim (statement_writes s k t t' columns
                      (columns-plain st k (st.now s) res.fields fields columns plain e ∙ n) h) [
                        | inr w ↦ inr w
                        | inl (w, never) ↦ inl (
                          w,
                          unread (st.db.update s resource columns ref).1
                              (st.db.update s resource columns ref).0 never,
                        )
                      ]))
          ]
