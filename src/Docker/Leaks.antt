-- ===== src/Docker/Leaks.antt =====
-- The containers that StartDeployment (internal/shell/docker/orchestrator.go) creates, and those that
-- remain.
pub mod Steps
pub mod Failed
use hoster.Prelude.{
  ℕ, ◌≡◌, ◌≢◌, refl, sym, ap, ◌∙◌, subst, ◌↔◌, ◌⊎◌, ◌||◌, String, Bool, true, false, Option, none,
  some, List, [], ◌∷◌, ◌++◌, ◌&&◌, not, str_eq, str_eq_iff, str_eq_refl, mem, mem-append, arith,
  Bool-cases, Option-cases, Result-cases, inl, inr, if◌then◌else◌, Result, ok, err, filter,
}
use hoster.Prelude.Dict.{Dict, assign}
use hoster.Prelude.Float.{Float64}
use hoster.Prelude.Text.{Text, codes}
use hoster.Plan.{volume_name, network_name}
use hoster.Compose.{Service, Volume, ParsedSpec}
use hoster.Order.{names}
use hoster.Order.Relax.{Distinct}
use hoster.Order.{topological_sort}
use hoster.Order.Sorted.Result.{IsIteration, topological_sort_same}
use hoster.Deployment as Domain
use hoster.Deployment.{Deployment}
use hoster.Docker.{
  EventType, container_created, image_pulling, Call, create_network, create_volume, remove_network,
  image_exists, pull_image, list_containers, create_container, start_container, stop_container,
  remove_container, inspect_container, record_event, Orchestrator,
}
use hoster.Docker.Configs.{ConfigError}
use hoster.Docker.Prepare.{
  Failure, create_failed, record_event_if, create_volumes, pull, pull_images, start_error,
  create_deployment_network, create_deployment_volume, drop_network,
}
use hoster.Docker.Start.{
  cleanup, give_up, acquire, look, launch, spec_of, start_services, start_all, with_network,
  start_deployment,
}

-- The containers that calls created and that no later call asked to remove.
unfoldable pub remaining : {F : Type 0} → List (Call F) → List String
remaining [] = []
remaining (create_container spec (ok id) ∷ h) = id ∷ remaining h
remaining (remove_container id e ∷ h) = filter (λ j. not (str_eq j id)) (remaining h)
remaining (create_container spec (err e) ∷ h) = remaining h
remaining (create_network n a ∷ h) = remaining h
remaining (create_volume n a ∷ h) = remaining h
remaining (remove_network n a ∷ h) = remaining h
remaining (image_exists n a ∷ h) = remaining h
remaining (pull_image n a ∷ h) = remaining h
remaining (list_containers n a ∷ h) = remaining h
remaining (start_container n a ∷ h) = remaining h
remaining (stop_container n a ∷ h) = remaining h
remaining (inspect_container n a ∷ h) = remaining h
remaining (record_event n a ∷ h) = remaining h

-- The containers of a map, and its keys.
unfoldable pub ids : Dict String → List String
ids [] = []
ids ((name, id) ∷ m) = id ∷ ids m

pub mem-filter :
    (s id : String) (l : List String)
    → mem s (filter (λ j. not (str_eq j id)) l) ≡ true
    → (mem s l ≡ true) × (str_eq s id ≡ false)
mem-filter s id [] h = cc
mem-filter s id (x ∷ l) h =
    ground (arith, mem-filter s id l, str_eq_iff x s, str_eq_iff x id, str_eq_iff s id)

pub first_or_rest :
    (id s : String) (l : List String)
    → mem s (id ∷ l) ≡ true
    → (mem s l ≡ true) ⊎ (◌≡◌ {A = Result Text String} (ok id) (ok s))
first_or_rest id s l m = elim (Bool-cases (str_eq id s)) [
  | inl e ↦ inr (ap ok ((str_eq_iff id s).0 e))
  | inr e ↦ inl (ground arith)
]

unfoldable pub keys : Dict String → List String
keys [] = []
keys ((name, id) ∷ m) = name ∷ keys m

-- A new key stands at the end.
assign_new :
    (m : Dict String) (k v : String)
    → mem k (keys m) ≡ false
    → (keys (assign m k v) ≡ keys m ++ k ∷ []) × (ids (assign m k v) ≡ ids m ++ v ∷ [])
unfolding assign keys ids
assign_new [] k v h = (refl, refl)
assign_new ((j, w) ∷ m) k v h =
    let (p, q) = assign_new m k v (ground arith) in
    let e : str_eq j k ≡ false = ground arith in rw e (ap (λ l. j ∷ l) p, ap (λ l. w ∷ l) q)

-- The names are none of the keys.
abbrev pub AreNew : Dict String → List String → Type 0
AreNew m [] = Unit
AreNew m (n ∷ ns) = (mem n (keys m) ≡ false) × AreNew m ns

pub AreNew-nil : (ns : List String) → AreNew [] ns
unfolding keys
AreNew-nil [] = tt
AreNew-nil (n ∷ ns) = (refl, AreNew-nil ns)

pub assign-AreNew :
    (m : Dict String) (k v : String) (ns : List String)
    → mem k (keys m) ≡ false
    → mem k ns ≡ false
    → AreNew m ns
    → AreNew (assign m k v) ns
assign-AreNew m k v [] f h a = tt
assign-AreNew m k v (n ∷ ns) f h (x, a) = (
  rw ((assign_new m k v f).0)
      (rw (mem-append n (keys m) (k ∷ [])) (ground (arith, str_eq_iff k n, str_eq_iff n k))),
  assign-AreNew m k v ns f (ground arith) a,
)

pub assign-mem :
    (m : Dict String) (k v s : String)
    → mem k (keys m) ≡ false
    → (mem s (ids m) ≡ true) ⊎ (v ≡ s)
    → mem s (ids (assign m k v)) ≡ true
assign-mem m k v s f h =
    rw ((assign_new m k v f).1)
      (rw (mem-append s (ids m) (v ∷ [])) (ground (arith, h, str_eq_iff v s)))

-- A failure leaves no container but those of `base`.
abbrev pub Kept :
    {F : Type 0} {A : Type 0} → List String → Result Failure A × List (Call F) → Type 0
Kept base (ok a, h) = Unit
Kept base (err f, h) = (s : String) → mem s (remaining h) ≡ true → mem s base ≡ true
