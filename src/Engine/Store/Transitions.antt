-- ===== src/Engine/Store/Transitions.antt =====
-- `Transition` of internal/engine/store.go on a row, alone and interleaved with another.
use hoster.Prelude.{
  ◌≡◌, ◌≢◌, refl, subst, ◌⊎◌, inl, inr, String, true, Option, none, some, List, [], ◌∷◌, Result, ok,
  err, Bool-cases, str_eq_refl,
}
use hoster.Prelude.Dict.{lookup}
use hoster.Engine.{text, Row, StateMachine, Error, can_transition, state_of, guard_error, command}
use hoster.Engine.Store.{
  Resource, Store, get, update, transition, enter_state, transition_from, with_command,
}
use hoster.Engine.Store.Rows.{IsPlain}
use hoster.Engine.Store.Moves.{IsTable, Holds, get-Holds, update-writes}

-- The states that a machine leads to.
pub data Follows (sm : StateMachine) (from : String) : String → Type 0 where
  here : Follows sm from from
  step : {t to : String} → Follows sm from t → can_transition sm t to ≡ true → Follows sm from to

module _ {S : Type 0} (st : Store S) (resource ref : String) where
  -- Calls of `Transition` on one row, one after the other, whatever they return.
  unfoldable pub transitions : S → List String → S
  transitions s [] = s
  transitions s (to ∷ tos) = transitions (transition st s resource ref to).1 tos

uncommanded :
    {S : Type 0} (st : Store S) (sm : StateMachine) (to : String) (r : Result Error Row)
    → ((row : Row) → r ≢ ok row)
    → (x : Row × String) → with_command st sm to r ≢ ok x
uncommanded st sm to (err e) never x q = cc
uncommanded st sm to (ok row) never x q = absurd (never row refl)

module _ {S : Type 0} (st : Store S) (resource ref : String) (res : Resource)
    (known : st.schema resource ≡ some res) (law : IsTable st.db) (sm : StateMachine)
    (machine : res.state_machine ≡ some sm) (plain : IsPlain sm.field res.fields) where
  enter_state-moves :
      (s : S) (cur to : String) (guard : Option String)
      → Holds st resource ref s sm.field cur
      → (Holds st resource ref (enter_state st s resource ref to sm guard).1 sm.field cur
          × ((x : Row × String) → (enter_state st s resource ref to sm guard).0 ≢ ok x))
        ⊎ Holds st resource ref (enter_state st s resource ref to sm guard).1 sm.field to
  unfolding enter_state
  enter_state-moves s cur to (some f) h = inl (h, λ x q. cc)
  enter_state-moves s cur to none h =
      let fields : Row = (sm.field, text to) ∷ [] in
      elim (update-writes st resource ref res known law s sm.field cur to fields plain
        (rw (str_eq_refl sm.field) refl) h) [
          | inr w ↦ inr w
          | inl (w, never) ↦ inl (w, uncommanded st sm to (update st s resource ref fields).0 never)
        ]

  -- `Transition` from a row that was read at any time before: it moves the row along an edge of the
  -- machine from the state that it read, or leaves it and returns an error.
  pub transition_from-moves :
      (s : S) (cur to : String) (row : Row)
      → Holds st resource ref s sm.field cur
      → (Holds st resource ref (transition_from st s resource ref to sm row).1 sm.field cur
          × ((x : Row × String) → (transition_from st s resource ref to sm row).0 ≢ ok x))
        ⊎ (Holds st resource ref (transition_from st s resource ref to sm row).1 sm.field to
            × (can_transition sm (state_of (lookup sm.field row)) to ≡ true))
  unfolding transition_from
  transition_from-moves s cur to row h =
      elim (Bool-cases (can_transition sm (state_of (lookup sm.field row)) to)) [
        | inr e ↦ rw (e, transition_from) (inl (h, λ x q. cc))
        | inl e ↦
            rw (e, transition_from)
              (elim (enter_state-moves s cur to (guard_error sm row to) h) [
                | inl w ↦ inl w
                | inr w ↦ inr (w, refl)
              ])
      ]

  -- `Transition` moves the row along an edge of the machine, or leaves it.
  pub transition-moves :
      (s : S) (cur to : String)
      → Holds st resource ref s sm.field cur
      → Holds st resource ref (transition st s resource ref to).1 sm.field cur
        ⊎ (Holds st resource ref (transition st s resource ref to).1 sm.field to
            × (can_transition sm cur to ≡ true))
  unfolding transition
  transition-moves s cur to h =
      let (row, e, c) = get-Holds st resource ref res known s sm.field cur plain h in
      rw (known, transition)
        (rw machine (
          rw e (elim (transition_from-moves s cur to row h) [
            | inl (w, never) ↦ inl w
            | inr (w, p) ↦ inr (w, rw c at p)
          ])))

  transitions-from :
      (first : String) (s : S) (cur : String) (tos : List String)
      → Holds st resource ref s sm.field cur
      → Follows sm first cur
      → (t : String) × Holds st resource ref (transitions st resource ref s tos) sm.field t
        × Follows sm first t
  unfolding transitions
  transitions-from first s cur [] h f = (cur, h, f)
  transitions-from first s cur (to ∷ tos) h f = elim (transition-moves s cur to h) [
    | inl w ↦ transitions-from first (transition st s resource ref to).1 cur tos w f
    | inr (w, p) ↦ transitions-from first (transition st s resource ref to).1 to tos w (step f p)
  ]

  -- Calls of `Transition` that come one after the other, whatever they ask for and whether the
  -- database fails or not, leave the row in a state that the machine leads to from the first.
  pub transitions-Follows :
      (s : S) (from : String) (tos : List String)
      → Holds st resource ref s sm.field from
      → (t : String) × Holds st resource ref (transitions st resource ref s tos) sm.field t
        × Follows sm from t
  transitions-Follows s from tos h = transitions-from from s from tos h here

  -- A call that succeeds has moved the row.
  arrived :
      (s : S) (cur to : String) (row : Row) {x : Row × String}
      → Holds st resource ref s sm.field cur
      → (transition_from st s resource ref to sm row).0 ≡ ok x
      → Holds st resource ref (transition_from st s resource ref to sm row).1 sm.field to
  arrived s cur to row {x} h p = elim (transition_from-moves s cur to row h) [
    | inl (w, never) ↦ absurd (never x p)
    | inr (w, f) ↦ w
  ]

  -- The state that a row holds is the one that is read.
  read_state :
      (s : S) (from : String) (row : Row)
      → Holds st resource ref s sm.field from
      → get st s resource ref ≡ ok row
      → state_of (lookup sm.field row) ≡ from
  read_state s from row h e =
      let (row', e', c) = get-Holds st resource ref res known s sm.field from plain h in
      let same : row' ≡ row = cc in
      subst (λ r. state_of (lookup sm.field r) ≡ from) same (rw c refl)

  -- `Transition` after its read succeeds where the machine has the edge, the guard returns no error and
  -- the update succeeds.
  transition_from-ok :
      (s : S) (to : String) (row written : Row)
      → can_transition sm (state_of (lookup sm.field row)) to ≡ true
      → guard_error sm row to ≡ none
      → (update st s resource ref ((sm.field, text to) ∷ [])).0 ≡ ok written
      → ((transition_from st s resource ref to sm row).0
          ≡ ok (written, command (lookup to sm.on_enter)))
        × ((transition_from st s resource ref to sm row).1
            ≡ (update st s resource ref ((sm.field, text to) ∷ [])).1)
  unfolding transition_from enter_state
  transition_from-ok s to row written edge guard done =
      rw (transition_from, edge) (rw guard (rw done (refl, refl)))

  -- Two calls of `Transition` that both read the row before either writes it: where the machine has an
  -- edge from the state that was read to each of the two targets, no guard refuses and the two updates
  -- succeed, both calls succeed, and the row goes to the first target and from there to the second,
  -- whether the machine has an edge between the two or not.
  pub interleaved_transitions :
      (s : S) (from a b : String) (row first second : Row)
      → Holds st resource ref s sm.field from
      → get st s resource ref ≡ ok row
      → (can_transition sm from a ≡ true) × (can_transition sm from b ≡ true)
      → (guard_error sm row a ≡ none) × (guard_error sm row b ≡ none)
      → (update st s resource ref ((sm.field, text a) ∷ [])).0 ≡ ok first
      → (update st
          (update st s resource ref ((sm.field, text a) ∷ [])).1
          resource
          ref
          ((sm.field, text b) ∷ [])).0
        ≡ ok second
      → let one = transition_from st s resource ref a sm row in
        let two = transition_from st one.1 resource ref b sm row in
        ((x : Row × String) × (one.0 ≡ ok x))
        × Holds st resource ref one.1 sm.field a
        × ((y : Row × String) × (two.0 ≡ ok y))
        × Holds st resource ref two.1 sm.field b
  interleaved_transitions s from a b row first second h e (ea, eb) (ga, gb) p q =
      let read = read_state s from row h e in
      let s1 = (transition_from st s resource ref a sm row).1 in
      let (x, left) = transition_from-ok s a row first (rw read ea) ga p in
      let (y, right) = transition_from-ok s1 b row second (rw read eb) gb (rw left q) in
      let moved = arrived s from a row h x in ((_, x), moved, (_, y), arrived s1 a b row moved y)
