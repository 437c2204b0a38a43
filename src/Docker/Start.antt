-- ===== src/Docker/Start.antt =====
-- StartDeployment of internal/shell/docker/orchestrator.go.
--
-- Each function takes the history of the calls to Docker and returns its result with the history
-- after it.
use hoster.Prelude.{
  String, Option, none, some, List, [], ◌∷◌, ◌++◌, str_eq, if◌then◌else◌, Result, ok, err,
}
use hoster.Prelude.Dict.{Dict, assign}
use hoster.Prelude.Float.{Float64}
use hoster.Prelude.Text.{Text}
use hoster.Compose.{Service, ParsedSpec}
use hoster.Deployment as Domain
use hoster.Deployment.{Deployment}
use hoster.Order.{topological_sort}
use hoster.Plan.{network_name, container_name, convert_ports}
use hoster.Docker.{
  ContainerSpec, EventType, container_created, container_started, container_restarted, Call,
  list_containers, create_container, start_container, stop_container, remove_container,
  inspect_container, Orchestrator,
}
use hoster.Docker.Configs.{ConfigError}
use hoster.Docker.Spec.{build_container_spec}
use hoster.Docker.Prepare.{
  Failure, start_error, by_service, primary_service, containers_of, record_event_if,
  create_deployment_network, drop_network, create_volumes, pull_images, config_failed, parse_failed,
  network_failed, create_failed, start_failed, inspect_failed,
}

module _ {fl : Float64} where
  module _ (o : Orchestrator fl) where
    -- `cleanupCreatedContainers`, on the containers in the order of the run over their map.
    unfoldable pub cleanup : Dict String → List (Call fl.F) → List (Call fl.F)
    cleanup [] h = h
    cleanup ((name, id) ∷ created) h =
        let stopped = stop_container id (o.docker.stop_container h id) ∷ h in
        cleanup created (remove_container id (o.docker.remove_container stopped id) ∷ stopped)

    -- What a failure in the last loop leads to.
    unfoldable pub give_up : Text → Dict String → List (Call fl.F) → List (Call fl.F)
    unfolding cleanup drop_network
    give_up network created h = drop_network o network (cleanup (o.iterate_created created) h)

    abbrev start_event : (String → Option String) → String → EventType
    start_event existing name = elim (existing name) [
      | some id ↦ container_restarted
      | none ↦ container_started
    ]

    -- The look at a container that was started.
    unfoldable pub look :
        Service fl.F
        → String
        → List (Call fl.F)
        → Result Failure Domain.ContainerInfo × List (Call fl.F)
    look svc id h =
        let a = o.docker.inspect_container h id in
        let looked = inspect_container id a ∷ h in
        elim a [
          | err e ↦ (err (inspect_failed svc.name), looked)
          | ok info ↦ (
            ok (record {
              id = info.id;
              service_name = svc.name;
              image = svc.image;
              status = info.status;
              ports = convert_ports info.ports;
            }),
            looked,
          )
        ]

    -- The start of a container.
    unfoldable pub launch :
        (String → Option String)
        → Service fl.F
        → String
        → List (Call fl.F)
        → Result Failure Domain.ContainerInfo × List (Call fl.F)
    unfolding look record_event_if
    launch existing svc id h =
        let a = o.docker.start_container h id in
        let tried = start_container id a ∷ h in
        if start_error a
        then (err (start_failed svc.name), tried)
        else look svc id (record_event_if o (start_event existing svc.name) svc.name tried)

    module _ (deployment : Deployment fl.F) (mounts : Dict Text) (primary : String) where
      abbrev pub spec_of : Service fl.F → ContainerSpec fl.F
      spec_of svc =
          build_container_spec fl o.parse_duration deployment svc
            (container_name deployment.reference_id svc.name) (network_name deployment.reference_id)
            (o.iterate_mounts mounts) (str_eq svc.name primary)

      -- The container of a service: one that exists, or a new one.
      unfoldable pub acquire :
          (String → Option String)
          → Service fl.F
          → List (Call fl.F)
          → Result Text String × List (Call fl.F)
      unfolding record_event_if
      acquire existing svc h =
          let spec = spec_of svc in
          let a = o.docker.create_container h spec in
          elim (existing svc.name) [
            | some id ↦ (ok id, h)
            | none ↦ elim a [
              | err e ↦ (err e, create_container spec (err e) ∷ h)
              | ok id ↦ (
                ok id,
                record_event_if o container_created svc.name (create_container spec (ok id) ∷ h),
              )
            ]
          ]

      -- The last loop.
      unfoldable pub start_services :
          Text
          → (String → Option String)
          → List (Service fl.F)
          → Dict String
          → List Domain.ContainerInfo
          → List (Call fl.F)
          → Result Failure (List Domain.ContainerInfo) × List (Call fl.F)
      start_services network existing [] created infos h = (ok infos, h)
      start_services network existing (svc ∷ rest) created infos h =
          let acquired = acquire existing svc h in
          elim acquired.0 [
            | err e ↦ (err (create_failed svc.name), give_up network created acquired.1)
            | ok id ↦
                let now = assign created svc.name id in
                let launched = launch existing svc id acquired.1 in
                elim launched.0 [
                  | err f ↦ (err f, give_up network now launched.1)
                  | ok info ↦
                      start_services network existing rest now (infos ++ info ∷ []) launched.1
                ]
          ]

    -- From the list of the containers that exist on.
    unfoldable pub start_all :
        Deployment fl.F
        → Dict Text
        → ParsedSpec fl.F
        → Text
        → List (Call fl.F)
        → Result Failure (List Domain.ContainerInfo) × List (Call fl.F)
    start_all deployment mounts spec network h =
        let a = o.docker.list_containers h deployment.reference_id in
        let services = topological_sort o.iterate_names spec.services in
        start_services deployment mounts (primary_service services) network
          (by_service (λ j. none) (containers_of a)) services [] []
          (list_containers deployment.reference_id a ∷ h)

    unfoldable pub with_network :
        Deployment fl.F
        → Dict Text
        → ParsedSpec fl.F
        → Text
        → List (Call fl.F)
        → Result Failure (List Domain.ContainerInfo) × List (Call fl.F)
    with_network deployment mounts spec id h =
        let volumes = create_volumes o deployment.reference_id id spec.volumes h in
        elim volumes.0 [
          | some f ↦ (err f, volumes.1)
          | none ↦
              let pulled = pull_images o spec.services volumes.1 in
              elim pulled.0 [
                | some f ↦ (err f, pulled.1)
                | none ↦ start_all deployment mounts spec id pulled.1
              ]
        ]

    -- `StartDeployment`; `written` is what writing the config files came to.
    unfoldable pub start_deployment :
        Deployment fl.F
        → Text
        → Result ConfigError (Dict Text)
        → List (Call fl.F)
        → Result Failure (List Domain.ContainerInfo) × List (Call fl.F)
    start_deployment deployment compose_spec written h = elim written [
      | err e ↦ (err config_failed, h)
      | ok mounts ↦ elim (o.parse_compose_spec compose_spec) [
        | err e ↦ (err parse_failed, h)
        | ok spec ↦
            let made = create_deployment_network o (network_name deployment.reference_id) h in
            elim made.0 [
              | err e ↦ (err network_failed, made.1)
              | ok id ↦ with_network deployment mounts spec id made.1
            ]
      ]
    ]
