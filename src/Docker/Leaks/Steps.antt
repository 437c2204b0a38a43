-- ===== src/Docker/Leaks/Steps.antt =====
-- The containers that each step of StartDeployment (internal/shell/docker/orchestrator.go) leaves.
use hoster.Prelude.{
  ◌≡◌, refl, ◌∙◌, ◌⊎◌, String, true, false, Option, List, [], ◌∷◌, str_eq, str_eq_iff, mem, arith,
  Bool-cases, Option-cases, Result-cases, inl, inr, ok,
}
use hoster.Prelude.Dict.{Dict}
use hoster.Prelude.Float.{Float64}
use hoster.Prelude.Text.{Text, codes}
use hoster.Plan.{volume_name}
use hoster.Compose.{Service, Volume}
use hoster.Deployment.{Deployment}
use hoster.Docker.{
  EventType, container_created, image_pulling, Call, image_exists, create_container, stop_container,
  remove_container, Orchestrator,
}
use hoster.Docker.Prepare.{
  record_event_if, create_volumes, pull, pull_images, start_error, create_deployment_volume,
}
use hoster.Docker.Start.{cleanup, give_up, acquire, look, launch, spec_of}
use hoster.Docker.Leaks.{remaining, ids, mem-filter, first_or_rest}

module _ {fl : Float64} (o : Orchestrator fl) where
  -- The clean-up removes each container of the map, and creates none.
  cleanup-remaining :
      (created : Dict String) (h : List (Call fl.F)) (s : String)
      → mem s (remaining (cleanup o created h)) ≡ true
      → (mem s (remaining h) ≡ true) × (mem s (ids created) ≡ false)
  unfolding cleanup remaining ids
  cleanup-remaining [] h s m = (m, refl)
  cleanup-remaining ((name, id) ∷ created) h s m =
      let stopped = stop_container id (o.docker.stop_container h id) ∷ h in
      let removed = remove_container id (o.docker.remove_container stopped id) ∷ stopped in
      let (p, q) = cleanup-remaining created removed s m in
      let (a, b) = mem-filter s id (remaining h) p in
      (a, ground (arith, str_eq_iff s id, str_eq_iff id s))

  record_event_if-remaining :
      (t : EventType) (n : String) (h : List (Call fl.F))
      → remaining (record_event_if o t n h) ≡ remaining h
  unfolding record_event_if remaining
  record_event_if-remaining t n h = ground arith

  -- The clean-up of a failure leaves none of the containers of the map.
  pub give_up-remaining :
      ((m : Dict String) (s : String)
        → mem s (ids m) ≡ true
        → mem s (ids (o.iterate_created m)) ≡ true)
      → (network : Text) (created : Dict String) (h : List (Call fl.F)) (s : String)
      → mem s (remaining (give_up o network created h)) ≡ true
      → (mem s (remaining h) ≡ true) × (mem s (ids created) ≡ false)
  unfolding give_up remaining
  give_up-remaining it network created h s m =
      let (a, b) = cleanup-remaining (o.iterate_created created) h s m in
      (a, ground (arith, it created s))

  look-remaining :
      (svc : Service fl.F) (id : String) (h : List (Call fl.F))
      → remaining (look o svc id h).1 ≡ remaining h
  unfolding look remaining
  look-remaining svc id h = elim (Result-cases (o.docker.inspect_container h id)) [
    | inl (x, e) ↦ rw (e, look) refl
    | inr (info, e) ↦ rw (e, look) refl
  ]

  pub launch-remaining :
      (existing : String → Option String) (svc : Service fl.F) (id : String) (h : List (Call fl.F))
      → remaining (launch o existing svc id h).1 ≡ remaining h
  unfolding launch remaining
  launch-remaining existing svc id h =
      elim (Bool-cases (start_error (o.docker.start_container h id))) [
        | inl e ↦ rw (e, launch) refl
        | inr e ↦ rw (e, launch) (look-remaining svc id _ ∙ record_event_if-remaining _ svc.name _)
      ]

  pub create_volumes-remaining :
      (deployment : String) (network : Text) (vols : List Volume) (h : List (Call fl.F))
      → remaining (create_volumes o deployment network vols h).1 ≡ remaining h
  unfolding create_volumes remaining
  create_volumes-remaining deployment network [] h = refl
  create_volumes-remaining deployment network (vol ∷ vols) h =
      let made = create_deployment_volume o (volume_name deployment (codes vol.name)) h in
      elim (Bool-cases vol.external) [
        | inl e ↦ rw (e, create_volumes) (create_volumes-remaining deployment network vols h)
        | inr e ↦ elim (Result-cases made.0) [
          | inl (x, f) ↦ rw (e, create_volumes) (rw f refl)
          | inr (id, f) ↦
              rw (e, create_volumes)
                (rw f (create_volumes-remaining deployment network vols made.1))
        ]
      ]

  pull-remaining :
      (image : String) (h : List (Call fl.F)) → remaining (pull o image h).1 ≡ remaining h
  unfolding pull remaining
  pull-remaining image h =
      elim (Option-cases (o.docker.pull_image (record_event_if o image_pulling image h) image)) [
        | inl e ↦
            rw (e, pull) (record_event_if-remaining _ image _ ∙ record_event_if-remaining _ image _)
        | inr (x, e) ↦ rw (e, pull) (record_event_if-remaining _ image _)
      ]

  pub pull_images-remaining :
      (services : List (Service fl.F)) (h : List (Call fl.F))
      → remaining (pull_images o services h).1 ≡ remaining h
  unfolding pull_images remaining
  pull_images-remaining [] h = refl
  pull_images-remaining (svc ∷ rest) h =
      let exists = o.docker.image_exists h svc.image in
      let asked = image_exists svc.image exists ∷ h in
      elim (Bool-cases (str_eq svc.image "")) [
        | inl e ↦ rw (e, pull_images) (pull_images-remaining rest h)
        | inr e ↦ elim (Bool-cases exists) [
          | inl f ↦ rw (e, pull_images) (rw f (pull_images-remaining rest asked))
          | inr f ↦ elim (Option-cases (pull o svc.image asked).0) [
            | inl g ↦
                rw (e, pull_images)
                  (rw f (
                    rw g (
                      pull_images-remaining rest (pull o svc.image asked).1
                      ∙ pull-remaining svc.image asked)))
            | inr (x, g) ↦ rw (e, pull_images) (rw f (rw g (pull-remaining svc.image asked)))
          ]
        ]
      ]

  module _ (deployment : Deployment fl.F) (mounts : Dict Text) (primary : String) where
    pub acquire-remaining :
        (existing : String → Option String) (svc : Service fl.F) (h : List (Call fl.F)) (s : String)
        → mem s (remaining (acquire o deployment mounts primary existing svc h).1) ≡ true
        → (mem s (remaining h) ≡ true)
          ⊎ ((acquire o deployment mounts primary existing svc h).0 ≡ ok s)
    unfolding acquire remaining
    acquire-remaining existing svc h s = elim (Option-cases (existing svc.name)) [
      | inr (id, e) ↦ rw (e, acquire) (λ m. inl m)
      | inl e ↦
          elim (Result-cases
            (o.docker.create_container h (spec_of o deployment mounts primary svc))) [
              | inl (x, f) ↦ rw (e, acquire) (rw f (λ m. inl m))
              | inr (id, f) ↦
                  rw (e, acquire)
                    (rw f (
                      rw
                        (record_event_if-remaining container_created svc.name
                          (create_container (spec_of o deployment mounts primary svc) (ok id) ∷ h))
                        (λ m. first_or_rest id s (remaining h) m)))
            ]
    ]
