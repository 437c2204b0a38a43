-- ===== src/Docker/InOrder.antt =====
-- The order in which StartDeployment (internal/shell/docker/orchestrator.go) starts the services.
use mathlib.Core.List.{append-nil}
use hoster.Prelude.{
  ◌≡◌, refl, sym, subst, ap, ◌∙◌, ◌↔◌, String, Option, none, some, List, [], ◌∷◌, ◌++◌, map,
  Bool-cases, Option-cases, Result-cases, inl, inr, Result, ok, err, In,
}
use hoster.Prelude.Dict.{Dict, assign}
use hoster.Prelude.Float.{Float64}
use hoster.Prelude.Text.{Text}
use hoster.Compose.{Service, ParsedSpec}
use hoster.Compose.Cycles.{detect_circular_dependencies}
use hoster.Deployment as Domain
use hoster.Deployment.{Deployment}
use hoster.Order.{names, topological_sort}
use hoster.Order.Accepted.{AllDeclared, accepted_in_order}
use hoster.Order.Relax.{Distinct}
use hoster.Order.Sorted.{DependenciesFirst}
use hoster.Order.Sorted.Result.{IsIteration, topological_sort_same}
use hoster.Plan.{network_name}
use hoster.Docker.{Call, Orchestrator}
use hoster.Docker.Configs.{ConfigError}
use hoster.Docker.Prepare.{create_volumes, pull_images, create_deployment_network, start_error}
use hoster.Docker.Start.{
  look, launch, acquire, start_services, start_all, with_network, start_deployment,
}

-- The services of the containers that are returned.
abbrev pub service_names : List Domain.ContainerInfo → List String
service_names = map (λ c. c.service_name)

one_more :
    (infos : List Domain.ContainerInfo) (info : Domain.ContainerInfo) (n : String)
    (ns : List String)
    → info.service_name ≡ n
    → service_names (infos ++ info ∷ []) ++ ns ≡ service_names infos ++ n ∷ ns
one_more [] info n ns e = rw e refl
one_more (i ∷ infos) info n ns e = ap (λ l. i.service_name ∷ l) (one_more infos info n ns e)

module _ {fl : Float64} (o : Orchestrator fl) where
  look-ok :
      (svc : Service fl.F) (id : String) (h : List (Call fl.F)) (info : Domain.ContainerInfo)
      → (look o svc id h).0 ≡ ok info
      → info.service_name ≡ svc.name
  unfolding look
  look-ok svc id h info = elim (Result-cases (o.docker.inspect_container h id)) [
    | inl (x, e) ↦ rw (e, look) (λ p. cc)
    | inr (i, e) ↦ rw (e, look) (λ p. cc)
  ]

  launch-ok :
      (existing : String → Option String) (svc : Service fl.F) (id : String) (h : List (Call fl.F))
      (info : Domain.ContainerInfo)
      → (launch o existing svc id h).0 ≡ ok info
      → info.service_name ≡ svc.name
  unfolding launch
  launch-ok existing svc id h info =
      elim (Bool-cases (start_error (o.docker.start_container h id))) [
        | inl e ↦ rw (e, launch) (λ p. cc)
        | inr e ↦ rw (e, launch) (λ p. look-ok svc id _ info p)
      ]

  start_services-names :
      (deployment : Deployment fl.F) (mounts : Dict Text) (primary : String) (network : Text)
      (existing : String → Option String) (rest : List (Service fl.F)) (created : Dict String)
      (infos : List Domain.ContainerInfo) (h : List (Call fl.F)) (all : List Domain.ContainerInfo)
      → (start_services o deployment mounts primary network existing rest created infos h).0
        ≡ ok all
      → service_names all ≡ service_names infos ++ names rest
  unfolding start_services
  start_services-names deployment mounts primary network existing [] created infos h all =
      λ p. let e : infos ≡ all = cc in rw e (sym (append-nil _))
  start_services-names deployment mounts primary network existing (svc ∷ rest) created infos h all =
      let acquired = acquire o deployment mounts primary existing svc h in
      elim (Result-cases acquired.0) [
        | inl (x, e) ↦ rw (e, start_services) (λ p. cc)
        | inr (id, e) ↦
            let launched = launch o existing svc id acquired.1 in
            let now = assign created svc.name id in
            elim (Result-cases launched.0) [
              | inl (x, g) ↦ rw (e, start_services) (rw g (λ p. cc))
              | inr (info, g) ↦
                  rw (e, start_services)
                    (rw g (λ p.
                      start_services-names deployment mounts primary network existing rest now
                        (infos ++ info ∷ []) launched.1 all p
                      ∙ one_more infos info svc.name (names rest)
                          (launch-ok existing svc id acquired.1 info g)))
            ]
      ]

  start_deployment-names :
      (deployment : Deployment fl.F) (compose_spec : Text)
      (written : Result ConfigError (Dict Text)) (h : List (Call fl.F)) (spec : ParsedSpec fl.F)
      (all : List Domain.ContainerInfo)
      → o.parse_compose_spec compose_spec ≡ ok spec
      → (start_deployment o deployment compose_spec written h).0 ≡ ok all
      → service_names all ≡ names (topological_sort o.iterate_names spec.services)
  unfolding start_deployment with_network start_all
  start_deployment-names deployment compose_spec (err x) h spec all e = λ p. cc
  start_deployment-names deployment compose_spec (ok mounts) h spec all e =
      let made = create_deployment_network o (network_name deployment.reference_id) h in
      elim (Result-cases made.0) [
        | inl (x, f) ↦ rw (e, start_deployment) (rw f (λ p. cc))
        | inr (id, f) ↦
            let volumes = create_volumes o deployment.reference_id id spec.volumes made.1 in
            let pulled = pull_images o spec.services volumes.1 in
            elim (Option-cases volumes.0) [
              | inr (x, g) ↦ rw (e, start_deployment) (rw f (rw (g, with_network) (λ p. cc)))
              | inl g ↦ elim (Option-cases pulled.0) [
                | inr (x, i) ↦
                    rw (e, start_deployment) (rw f (rw (g, with_network) (rw i (λ p. cc))))
                | inl i ↦
                    rw (e, start_deployment)
                      (rw f (
                        rw (g, with_network)
                          (rw i (λ p.
                            start_services-names deployment mounts _ id _
                              (topological_sort o.iterate_names spec.services) [] [] _ all p))))
              ]
            ]
      ]

  -- A StartDeployment that succeeds returns a container for each service of the specification, each once
  -- and each behind those of all the services that it depends on, if the names differ, the services
  -- depend only on each other, and the parser's search for circles accepts them.
  pub start_deployment_in_order :
      (deployment : Deployment fl.F) (compose_spec : Text)
      (written : Result ConfigError (Dict Text)) (h : List (Call fl.F)) (spec : ParsedSpec fl.F)
      (all : List Domain.ContainerInfo)
      → IsIteration o.iterate_names
      → o.parse_compose_spec compose_spec ≡ ok spec
      → Distinct (names spec.services)
      → AllDeclared spec.services spec.services
      → detect_circular_dependencies spec.services ≡ some none
      → (start_deployment o deployment compose_spec written h).0 ≡ ok all
      → Distinct (service_names all)
        × (out : List (Service fl.F)) × (service_names all ≡ names out)
        × DependenciesFirst [] out
        × ((s : Service fl.F) → In s out ↔ In s spec.services)
  start_deployment_in_order deployment compose_spec written h spec all it e different named accepted
        p =
      let (once, same) = topological_sort_same o.iterate_names it spec.services different in
      let started = start_deployment-names deployment compose_spec written h spec all e p in
      (
        subst Distinct (sym started) once,
        topological_sort o.iterate_names spec.services,
        started,
        accepted_in_order spec.services different named o.iterate_names it accepted,
        same,
      )
