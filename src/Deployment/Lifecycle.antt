-- ===== src/Deployment/Lifecycle.antt =====
-- What holds of a deployment over its whole life: internal/core/domain/deployment.go, Transition and
-- TransitionToFailed, in any order and with any arguments.
use Prim.Native.String.{String}
use hoster.Prelude.{
  ℕ, ◌≡◌, refl, ◌≢◌, ◌&&◌, str_eq, Bool-cases, Option-cases, ◌⊎◌, inl, inr, Bool, true, false,
  Option, none, some, arith, str_eq_iff,
}
use hoster.Deployment.{
  Status, pending, scheduled, starting, running, stopping, stopped, deleting, deleted, failed,
  other, Error, invalid_transition, node_required, Deployment, validate_transition, transition,
  transition_to_failed, enter, status_eq,
}

-- The diagram of the life of a deployment.
infix 40 ◌⟶◌
pub data ◌⟶◌ : Status → Status → Type 0 where
  schedule : pending ⟶ scheduled
  start : scheduled ⟶ starting
  started : starting ⟶ running
  start_failed : starting ⟶ failed
  stop : running ⟶ stopping
  crashed : running ⟶ failed
  stop_done : stopping ⟶ stopped
  restart : stopped ⟶ starting
  retry : failed ⟶ starting
  remove : stopped ⟶ deleting
  discard : failed ⟶ deleting
  remove_done : deleting ⟶ deleted

pub ruleset edges = (
  schedule, start, started, start_failed, stop, crashed, stop_done, restart, retry, remove, discard,
  remove_done,
)

-- The table of the code has the edges of the diagram and no other.
pub validate_sound : (a b : Status) → validate_transition a b ≡ none → a ⟶ b
unfolding validate_transition
validate_sound a b h = grind (arith, edges)

pub validate_complete : {a b : Status} → a ⟶ b → validate_transition a b ≡ none
unfolding validate_transition
validate_complete schedule = refl
validate_complete start = refl
validate_complete started = refl
validate_complete start_failed = refl
validate_complete stop = refl
validate_complete crashed = refl
validate_complete stop_done = refl
validate_complete restart = refl
validate_complete retry = refl
validate_complete remove = refl
validate_complete discard = refl
validate_complete remove_done = refl

validate_error :
    (a b : Status) (x : Error)
    → validate_transition a b ≡ some x
    → validate_transition a b ≡ some invalid_transition
unfolding validate_transition
validate_error a b x e = ground arith

validate_cases :
    (a b : Status)
    → ((a ⟶ b) × (validate_transition a b ≡ none))
      ⊎ ((¬ (a ⟶ b)) × (validate_transition a b ≡ some invalid_transition))
validate_cases a b = elim (Option-cases (validate_transition a b)) [
  | inl e ↦ inl (validate_sound a b e, e)
  | inr (x, e) ↦ inr (λ edge. cc (validate_complete edge), validate_error a b x e)
]

-- The deployment has been sent to a node.
abbrev pub is_placed : Status → Bool
is_placed pending = false
is_placed scheduled = false
is_placed (other s) = false
is_placed _ = true

-- An error of an earlier attempt may still be recorded.
abbrev pub may_have_error : Status → Bool
may_have_error failed = true
may_have_error deleting = true
may_have_error deleted = true
may_have_error _ = false

-- The containers have run since the last start.
abbrev pub has_run : Status → Bool
has_run running = true
has_run stopping = true
has_run stopped = true
has_run _ = false

abbrev pub IsSome : {A : Type 0} → Option A → Type 0
IsSome none = ⊥
IsSome (some a) = Unit

module _ {F : Type 0} where
  pub record Inv (d : Deployment F) : Type 0 where
    pub known : (s : String) → d.status ≢ other s
    pub placed : is_placed d.status ≡ true → d.node_id ≢ ""
    pub clean : may_have_error d.status ≡ false → d.error_message ≡ ""
    pub ran : has_run d.status ≡ true → IsSome d.started_at
    pub ended : d.status ≡ stopped → IsSome d.stopped_at

  -- One event in the life of a deployment. Only the choice of a node comes from outside these files.
  pub data Step (d e : Deployment F) : Type 0 where
    moved : (now later : ℕ) (to : Status) → transition now later to d ≡ (e, none) → Step d e
    broke : (now : ℕ) (m : String) → transition_to_failed now m d ≡ (e, none) → Step d e
    assigned : (node : String) → node ≢ "" → e ≡ record d { node_id = node } → Step d e

  pub data Reach (d : Deployment F) : Deployment F → Type 0 where
    here : Reach d d
    next : {e f : Deployment F} → Reach d e → Step e f → Reach d f

  -- A deployment as `NewDeployment` makes it.
  pub record IsFresh (d : Deployment F) : Type 0 where
    pub waiting : d.status ≡ pending
    pub silent : d.error_message ≡ ""

  pub IsFresh-Inv : (d : Deployment F) → IsFresh d → Inv d
  IsFresh-Inv d h = ground arith

  -- `Transition` answers nil exactly along an edge of the diagram, to `starting` only with a node, and
  -- then assigns; in any other case the deployment stays as it was.
  pub transition_cases :
      (now later : ℕ) (to : Status) (d : Deployment F)
      → ((d.status ⟶ to)
          × (to ≡ starting → d.node_id ≢ "")
          × (transition now later to d ≡ (enter now later to d, none)))
        ⊎ ((d.status ⟶ to)
            × (to ≡ starting)
            × (d.node_id ≡ "")
            × (transition now later to d ≡ (d, some node_required)))
        ⊎ ((¬ (d.status ⟶ to)) × (transition now later to d ≡ (d, some invalid_transition)))
  unfolding transition
  transition_cases now later to d = elim (validate_cases d.status to) [
    | inr (none_such, e) ↦ inr (inr (none_such, rw (e, transition)))
    | inl (edge, e) ↦ elim (Bool-cases (status_eq to starting && str_eq d.node_id "")) [
      | inl b ↦ inr (inl (edge, starting_of b, no_node_of b, rw (e, transition) (rw b)))
      | inr b ↦ inl (edge, node_of b, rw (e, transition) (rw b))
    ]
  ]
    where
      starting_of : (status_eq to starting && str_eq d.node_id "") ≡ true → to ≡ starting
      starting_of b = ground arith

      no_node_of : (status_eq to starting && str_eq d.node_id "") ≡ true → d.node_id ≡ ""
      no_node_of b = ground (arith, str_eq_iff d.node_id "")

      node_of :
          (status_eq to starting && str_eq d.node_id "") ≡ false → to ≡ starting → d.node_id ≢ ""
      node_of b e = ground (arith, str_eq_iff d.node_id "")

  enter-Inv :
      (now later : ℕ) {s to : Status} (d : Deployment F)
      → s ⟶ to
      → d.status ≡ s
      → (to ≡ starting → d.node_id ≢ "")
      → Inv d
      → Inv (enter now later to d)
  unfolding enter
  enter-Inv now later d schedule p node h = ground arith
  enter-Inv now later d start p node h = ground arith
  enter-Inv now later d started p node h = ground arith
  enter-Inv now later d start_failed p node h = ground arith
  enter-Inv now later d stop p node h = ground arith
  enter-Inv now later d crashed p node h = ground arith
  enter-Inv now later d stop_done p node h = ground arith
  enter-Inv now later d restart p node h = ground arith
  enter-Inv now later d retry p node h = ground arith
  enter-Inv now later d remove p node h = ground arith
  enter-Inv now later d discard p node h = ground arith
  enter-Inv now later d remove_done p node h = ground arith

  broke-Inv :
      (now : ℕ) (m : String) (d e : Deployment F)
      → Inv d
      → transition_to_failed now m d ≡ (e, none)
      → Inv e
  unfolding transition_to_failed
  broke-Inv now m d e h t = ground arith

  assigned-Inv :
      (d : Deployment F) (node : String) → node ≢ "" → Inv d → Inv (record d { node_id = node })
  assigned-Inv d node p h = record {
    known = h.known;
    placed = λ _. p;
    clean = h.clean;
    ran = h.ran;
    ended = h.ended;
  }

  Step-Inv : {d e : Deployment F} → Step d e → Inv d → Inv e
  Step-Inv {d} {e} (moved now later to t) h = elim (transition_cases now later to d) [
    | inl (edge, node, r) ↦ ground (arith, enter-Inv now later d edge refl node h)
    | inr (inl (_, _, _, r)) ↦ cc
    | inr (inr (_, r)) ↦ cc
  ]
  Step-Inv {d} {e} (broke now m t) h = broke-Inv now m d e h t
  Step-Inv {d} (assigned node p q) h = rw q (assigned-Inv d node p h)

  -- Every deployment that events lead to from a fresh one satisfies the invariant: it has a known
  -- status; past `scheduled` it has a node; an error message stands only in `failed`, `deleting` and
  -- `deleted`; while it runs, stops or is stopped it has a start time, and once stopped a stop time.
  pub Reach-Inv : {d e : Deployment F} → IsFresh d → Reach d e → Inv e
  Reach-Inv {d} f here = IsFresh-Inv d f
  Reach-Inv f (next r s) = Step-Inv s (Reach-Inv f r)
