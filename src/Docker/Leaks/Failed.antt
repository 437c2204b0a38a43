-- ===== src/Docker/Leaks/Failed.antt =====
-- What a failed StartDeployment (internal/shell/docker/orchestrator.go) leaves in Docker.
use hoster.Prelude.{
  ◌≡◌, refl, ◌∙◌, ◌⊎◌, String, true, false, Option, List, [], ◌∷◌, ◌++◌, mem, Option-cases,
  Result-cases, inl, inr, Result, ok, err,
}
use hoster.Prelude.Dict.{Dict, assign}
use hoster.Prelude.Float.{Float64}
use hoster.Prelude.Text.{Text}
use hoster.Plan.{network_name}
use hoster.Compose.{Service, ParsedSpec}
use hoster.Order.{names}
use hoster.Order.Relax.{Distinct}
use hoster.Order.{topological_sort}
use hoster.Order.Sorted.Result.{IsIteration, topological_sort_same}
use hoster.Deployment as Domain
use hoster.Deployment.{Deployment}
use hoster.Docker.{Call, list_containers, Orchestrator}
use hoster.Docker.Configs.{ConfigError}
use hoster.Docker.Prepare.{create_volumes, pull_images, create_deployment_network}
use hoster.Docker.Start.{
  give_up, acquire, launch, start_services, start_all, with_network, start_deployment,
}
use hoster.Docker.Leaks.{remaining, ids, keys, AreNew, AreNew-nil, assign-AreNew, assign-mem, Kept}
use hoster.Docker.Leaks.Steps.{
  give_up-remaining, launch-remaining, acquire-remaining, create_volumes-remaining,
  pull_images-remaining,
}

module _ {fl : Float64} (o : Orchestrator fl) where
  module _ (deployment : Deployment fl.F) (mounts : Dict Text) (primary : String) where
    module _ (network : Text) (existing : String → Option String) (base : List String)
        (it : (m : Dict String) (s : String)
          → mem s (ids m) ≡ true
          → mem s (ids (o.iterate_created m)) ≡ true) where
      -- What remains is of `base` or in the map.
      abbrev Known : Dict String → List (Call fl.F) → Type 0
      Known created h =
          (s : String)
          → mem s (remaining h) ≡ true
          → (mem s base ≡ true) ⊎ (mem s (ids created) ≡ true)

      give_up-Known :
          (created : Dict String) (h : List (Call fl.F))
          → Known created h
          → (s : String) → mem s (remaining (give_up o network created h)) ≡ true
          → mem s base ≡ true
      give_up-Known created h k s m =
          let (a, b) = give_up-remaining o it network created h s m in
          elim (k s a) [ inl e ↦ e | inr e ↦ cc ]

      acquire-Known :
          (svc : Service fl.F) (created : Dict String) (h : List (Call fl.F)) (id : String)
          → mem svc.name (keys created) ≡ false
          → (acquire o deployment mounts primary existing svc h).0 ≡ ok id
          → Known created h
          → Known
              (assign created svc.name id)
              (acquire o deployment mounts primary existing svc h).1
      acquire-Known svc created h id f e k s m =
          elim (acquire-remaining o deployment mounts primary existing svc h s m) [
            | inl a ↦ elim (k s a) [
              | inl b ↦ inl b
              | inr c ↦ inr (assign-mem created svc.name id s f (inl c))
            ]
            | inr q ↦ let same : id ≡ s = cc in inr (assign-mem created svc.name id s f (inr same))
          ]

      launch-Known :
          (svc : Service fl.F) (created : Dict String) (h : List (Call fl.F)) (id : String)
          → Known created h
          → Known created (launch o existing svc id h).1
      launch-Known svc created h id k s m = k s (rw (launch-remaining o existing svc id h) at m)

      start_services-Kept :
          (rest : List (Service fl.F)) (created : Dict String) (infos : List Domain.ContainerInfo)
          (h : List (Call fl.F))
          → Distinct (names rest)
          → AreNew created (names rest)
          → Known created h
          → Kept base
              (start_services o deployment mounts primary network existing rest created infos h)
      unfolding start_services
      start_services-Kept [] created infos h d n k = tt
      start_services-Kept (svc ∷ rest) created infos h (new, d) (f, n) k =
          let acquired = acquire o deployment mounts primary existing svc h in
          elim (Result-cases acquired.0) [
            | inl (x, e) ↦
                rw (e, start_services)
                  (give_up-Known created acquired.1 (λ s m.
                    elim (acquire-remaining o deployment mounts primary existing svc h s m) [
                      | inl a ↦ k s a
                      | inr q ↦ cc
                    ]))
            | inr (id, e) ↦
                let now = assign created svc.name id in
                let launched = launch o existing svc id acquired.1 in
                let known : Known now launched.1 =
                  launch-Known svc now acquired.1 id (acquire-Known svc created h id f e k) in
                elim (Result-cases launched.0) [
                  | inl (x, g) ↦ rw (e, start_services) (rw g (give_up-Known now launched.1 known))
                  | inr (info, g) ↦
                      rw (e, start_services)
                        (rw g (
                          start_services-Kept rest now (infos ++ info ∷ []) launched.1 d
                            (assign-AreNew created svc.name id (names rest) f new n) known))
                ]
          ]

  module _
      (it : (m : Dict String) (s : String)
        → mem s (ids m) ≡ true
        → mem s (ids (o.iterate_created m)) ≡ true)
      (run : IsIteration o.iterate_names) where
    start_all-Kept :
        (deployment : Deployment fl.F) (mounts : Dict Text) (spec : ParsedSpec fl.F)
        (network : Text) (h : List (Call fl.F)) (base : List String)
        → Distinct (names spec.services)
        → remaining h ≡ base
        → Kept base (start_all o deployment mounts spec network h)
    unfolding start_all remaining
    start_all-Kept deployment mounts spec network h base d e =
        start_services-Kept deployment mounts _ network _ base it
          (topological_sort o.iterate_names spec.services) [] []
          (list_containers deployment.reference_id _ ∷ h)
          ((topological_sort_same o.iterate_names run spec.services d).0) (AreNew-nil _)
          (λ s m. inl (rw (← e) m))

    with_network-Kept :
        (deployment : Deployment fl.F) (mounts : Dict Text) (spec : ParsedSpec fl.F) (id : Text)
        (h : List (Call fl.F)) (base : List String)
        → Distinct (names spec.services)
        → remaining h ≡ base
        → Kept base (with_network o deployment mounts spec id h)
    unfolding with_network
    with_network-Kept deployment mounts spec id h base d e =
        let volumes = create_volumes o deployment.reference_id id spec.volumes h in
        let pulled = pull_images o spec.services volumes.1 in
        let same : remaining volumes.1 ≡ base =
          create_volumes-remaining o deployment.reference_id id spec.volumes h ∙ e in
        let still : remaining pulled.1 ≡ base =
          pull_images-remaining o spec.services volumes.1 ∙ same in
        elim (Option-cases volumes.0) [
          | inr (x, f) ↦ rw (f, with_network) (λ s m. rw same at m)
          | inl f ↦ elim (Option-cases pulled.0) [
            | inr (x, g) ↦ rw (f, with_network) (rw g (λ s m. rw still at m))
            | inl g ↦
                rw (f, with_network)
                  (rw g (start_all-Kept deployment mounts spec id pulled.1 base d still))
          ]
        ]

    -- A StartDeployment that fails, at whatever step and however Docker answers, has asked Docker to
    -- remove every container that it created: no container remains that did not before. The parser
    -- gives services with different names, and a run over a Go map visits all of its keys.
    pub start_deployment-Kept :
        (deployment : Deployment fl.F) (compose_spec : Text)
        (written : Result ConfigError (Dict Text)) (h : List (Call fl.F))
        → ((spec : ParsedSpec fl.F)
            → o.parse_compose_spec compose_spec ≡ ok spec
            → Distinct (names spec.services))
        → Kept (remaining h) (start_deployment o deployment compose_spec written h)
    unfolding start_deployment create_deployment_network remaining
    start_deployment-Kept deployment compose_spec (err e) h d = λ s m. m
    start_deployment-Kept deployment compose_spec (ok mounts) h d =
        let name = network_name deployment.reference_id in
        elim (Result-cases (o.parse_compose_spec compose_spec)) [
          | inl (x, e) ↦ rw (e, start_deployment) (λ s m. m)
          | inr (spec, e) ↦
              let made = create_deployment_network o name h in
              elim (Result-cases made.0) [
                | inl (x, f) ↦ rw (e, start_deployment) (rw f (λ s m. m))
                | inr (id, f) ↦
                    rw (e, start_deployment)
                      (rw f (
                        with_network-Kept deployment mounts spec id made.1 (remaining h) (d spec e)
                          refl))
              ]
        ]
