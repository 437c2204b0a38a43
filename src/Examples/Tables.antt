-- ===== src/Examples/Tables.antt =====
-- The theorems about the store and the handlers at a sample table (internal/engine).
use hoster.Prelude.{
  ℕ, suc, ◌≡◌, refl, inl, inr, String, Bool, Option, none, some, [], ◌∷◌, ◌++◌, ◌&&◌, str_eq,
  Result, ok, err, if◌then◌else◌, arith, Bool-cases, ap, ◌∙◌,
}
use hoster.Prelude.Dict.{lookup, assign, delete}
use hoster.Prelude.Int.{pos}
use hoster.Prelude.Text.{Text}
use hoster.Engine.{Value, text, int64, Row, not_found, deployment_machine, can_transition}
use hoster.Engine.Store.{
  Database, Store, Resource, get, get_by_field, transition_from, update, decode_row, decode_bytes,
  change_fields, change, encode_fields,
}
use hoster.Engine.Store.Moves.{IsTable, Holds}
use hoster.Engine.Store.Transitions.{
  Follows, transitions, transitions-Follows, interleaved_transitions,
}
use hoster.Engine.Handlers.{Deps, Reason, failed, schedule_deployment}
use hoster.Engine.Handlers.Stuck.{schedule_deployment_stuck}

-- A database of one row, "depl_7" of the deployments.
abbrev here : String → String → Bool
here table ref = str_eq table "deployments" && str_eq ref "depl_7"

abbrev select_row : Row → String → Value → Result Text (Option Row)
select_row s table (text ref) = if here table ref then ok (some s) else ok none
select_row s table v = ok none

abbrev one_row : Database Row
one_row = record {
  select = λ s table column v. select_row s table v;
  update = λ s table columns ref. if here table ref then (ok 1, columns ++ s) else (ok 0, s);
  delete_row = λ s table ref. (ok 0, s);
  used_proxy_ports = λ s node. ok ((("proxy_port", int64 (pos 30000)) ∷ []) ∷ []);
}

lookup-append :
    (k : String) (a b : Row)
    → (lookup k a ≡ none → lookup k (a ++ b) ≡ lookup k b)
      × ((v : Value) → lookup k a ≡ some v → lookup k (a ++ b) ≡ some v)
lookup-append k [] b = (λ h. refl, λ v h. cc)
lookup-append k ((j, w) ∷ a) b =
    let (p, q) = lookup-append k a b in (λ h. ground (arith, p), λ v h. ground (arith, q v))

module _ (s : Row) (table : String) (columns : Row) (ref : String) where
  one_row-failed :
      (e : Text)
      → (one_row.update s table columns ref).0 ≡ err e
      → (one_row.update s table columns ref).1 ≡ s
  one_row-failed e = elim (Bool-cases (here table ref)) [
    | inl b ↦ rw b (λ h. cc)
    | inr b ↦ rw b (λ h. refl)
  ]

  one_row-missed :
      (one_row.update s table columns ref).0 ≡ ok 0 → (one_row.update s table columns ref).1 ≡ s
  one_row-missed = elim (Bool-cases (here table ref)) [
    | inl b ↦ rw b (λ h. ground arith)
    | inr b ↦ rw b (λ h. refl)
  ]

  one_row-written :
      (n : ℕ) (row : Row)
      → one_row.select s table "reference_id" (text ref) ≡ ok (some row)
      → (one_row.update s table columns ref).0 ≡ ok (suc n)
      → (row' : Row) × (one_row.select
            (one_row.update s table columns ref).1
            table
            "reference_id"
            (text ref)
          ≡ ok (some row'))
        × ((k : String) → lookup k columns ≡ none → lookup k row' ≡ lookup k row)
        × ((k t : String) → lookup k columns ≡ some (text t) → lookup k row' ≡ some (text t))
  one_row-written n row = elim (Bool-cases (here table ref)) [
    | inl b ↦ rw b (λ e h.
        let same : s ≡ row = cc in
        (
          columns ++ s,
          refl,
          λ k q. (lookup-append k columns s).0 q ∙ ap (λ r. lookup k r) same,
          λ k t q. (lookup-append k columns s).1 (text t) q,
        ))
    | inr b ↦ rw b (λ e h. cc)
  ]

one_row-IsTable : IsTable one_row
one_row-IsTable = record {
  failed = one_row-failed;
  missed = one_row-missed;
  written = one_row-written;
}

abbrev deployments : Resource
deployments = record {
  name = "deployments";
  ref_prefix = "";
  fields = [];
  state_machine = some deployment_machine;
}

abbrev nodes : Resource
nodes = record { name = "nodes"; ref_prefix = "node_"; fields = []; state_machine = none }

abbrev store : Store Row
store = record {
  db = one_row;
  schema = λ name.
      if str_eq name "deployments"
      then some deployments
      else if str_eq name "nodes"
      then some nodes
      else none;
  now = λ s. "2024-01-01T00:00:00Z";
  parse_json = λ t. none;
  parse_time = λ t. none;
  marshal = λ v. ok "{}";
}

abbrev row_in : String → Row
row_in status =
    ("reference_id", text "depl_7") ∷ ("status", text status) ∷ ("node_id", text "node_1") ∷ []

transitions-Follows_example :
    (t : String) × Holds store "deployments" "depl_7"
      (transitions store "deployments" "depl_7" (row_in "running") ("stopping" ∷ "running" ∷ []))
      "status"
      t
    × Follows deployment_machine "running" t
transitions-Follows_example =
    transitions-Follows store "deployments" "depl_7" deployments refl one_row-IsTable
      deployment_machine refl (tt, tt, tt, refl) (row_in "running") "running"
      ("stopping" ∷ "running" ∷ []) (row_in "running", refl, inl refl)

abbrev deps : Deps Row
deps = record {
  store = store;
  node_pool = none;
  base_domain = "";
  marshal_domain = λ d. "";
  reason_text = λ r. "reason";
  bill = λ s row event. s;
}

-- The table has no node.
schedule_deployment_stuck_example :
    ((reason : Reason) × ((schedule_deployment deps (row_in "scheduled") (row_in "scheduled")).0
        ≡ some (failed "depl_7" reason)))
    × Holds store "deployments" "depl_7"
        (schedule_deployment deps (row_in "scheduled") (row_in "scheduled")).1
        "status"
        "scheduled"
unfolding get get_by_field
schedule_deployment_stuck_example =
    schedule_deployment_stuck deps one_row-IsTable deployments refl refl (tt, tt, tt, refl)
      (row_in "scheduled") (row_in "scheduled") (row_in "scheduled", refl, inl refl)
      (inr (inl (not_found, refl)))

abbrev moved : String → Row → Row
moved to row = ("status", text to) ∷ ("updated_at", text "2024-01-01T00:00:00Z") ∷ row

-- One call stops a deployment, the other marks it as failed; there is no edge from stopping to failed.
interleaved_transitions_example :
    let first =
      transition_from store
        (row_in "running")
        "deployments"
        "depl_7"
        "stopping"
        deployment_machine
        (row_in "running") in
    let second =
      transition_from store first.1 "deployments" "depl_7" "failed" deployment_machine
        (row_in "running") in
    ((x : Row × String) × (first.0 ≡ ok x))
    × Holds store "deployments" "depl_7" first.1 "status" "stopping"
    × ((y : Row × String) × (second.0 ≡ ok y))
    × Holds store "deployments" "depl_7" second.1 "status" "failed"
unfolding update get get_by_field decode_row decode_bytes change_fields change encode_fields delete
    assign can_transition
interleaved_transitions_example =
    interleaved_transitions store "deployments" "depl_7" deployments refl one_row-IsTable
      deployment_machine refl (tt, tt, tt, refl) (row_in "running") "running" "stopping" "failed"
      (row_in "running") (moved "stopping" (row_in "running"))
      (moved "failed" (moved "stopping" (row_in "running"))) (row_in "running", refl, inl refl) refl
      (refl, refl) (refl, refl) refl refl
