-- ===== src/Docker/Prepare.antt =====
-- StartDeployment of internal/shell/docker/orchestrator.go before it starts containers: the network, the
-- volumes and the images, and what it reads.
--
-- Each function takes the history of the calls to Docker and returns its result with the history
-- after it.
use hoster.Prelude.{
  String, Bool, true, false, Option, none, some, List, [], ◌∷◌, ◌||◌, str_eq, if◌then◌else◌, Result,
  ok, err,
}
use hoster.Prelude.Dict.{lookup}
use hoster.Prelude.Float.{Float64}
use hoster.Prelude.Text.{Text, codes, is_empty, strip_prefix}
use hoster.Compose.{Service, Volume}
use hoster.Plan.{volume_name, label_service}
use hoster.Docker.{
  ContainerInfo, EventType, image_pulling, image_pulled, Call, create_network, create_volume,
  remove_network, image_exists, pull_image, record_event, Orchestrator,
}

pub data Failure : Type 0 where
  config_failed parse_failed network_failed : Failure
  volume_failed pull_failed create_failed start_failed inspect_failed : String → Failure

abbrev is_some : Option Text → Bool
is_some none = false
is_some (some s) = true

-- strings.Contains.
unfoldable pub contains : Text → Text → Bool
contains [] sub = is_empty sub
contains (c ∷ s) sub = is_some (strip_prefix sub (c ∷ s)) || contains s sub

-- The answer of a creation: a resource that exists already is used by its name.
unfoldable pub reuse : Text → Result Text Text → Result Text Text
reuse name (ok id) = ok id
reuse name (err e) = if contains e (codes "already exists") then ok name else err e

-- An error of StartContainer that is ignored.
unfoldable pub start_error : Option Text → Bool
unfolding contains
start_error none = false
start_error (some e) =
    if contains e (codes "already started") || contains e (codes "is already running")
    then false
    else true

-- The containers of the deployment by the service of their label.
unfoldable pub by_service : (String → Option String) → List ContainerInfo → String → Option String
by_service m [] = m
by_service m (c ∷ cs) =
    by_service
      (λ j. elim (lookup label_service c.labels) [
        | none ↦ m j
        | some s ↦ if str_eq j s then some c.id else m j
      ])
      cs

abbrev pub containers_of : Result Text (List ContainerInfo) → List ContainerInfo
containers_of (ok cs) = cs
containers_of (err e) = []

-- The primary service: the first in order that has a port.
unfoldable pub primary_service : {F : Type 0} → List (Service F) → String
primary_service [] = ""
primary_service (svc ∷ rest) = elim svc.ports [ [] ↦ primary_service rest | p ∷ ps ↦ svc.name ]

module _ {fl : Float64} where
  module _ (o : Orchestrator fl) where
    unfoldable pub record_event_if : EventType → String → List (Call fl.F) → List (Call fl.F)
    record_event_if t name h = if o.has_store then record_event t name ∷ h else h

    -- `createDeploymentNetwork`, `createDeploymentVolume`.
    unfoldable pub create_deployment_network :
        Text → List (Call fl.F) → Result Text Text × List (Call fl.F)
    create_deployment_network name h =
        let a = o.docker.create_network h name in (reuse name a, create_network name a ∷ h)

    unfoldable pub create_deployment_volume :
        Text → List (Call fl.F) → Result Text Text × List (Call fl.F)
    create_deployment_volume name h =
        let a = o.docker.create_volume h name in (reuse name a, create_volume name a ∷ h)

    unfoldable pub drop_network : Text → List (Call fl.F) → List (Call fl.F)
    drop_network id h = remove_network id (o.docker.remove_network h id) ∷ h

    -- The loop over the volumes.
    unfoldable pub create_volumes :
        String → Text → List Volume → List (Call fl.F) → Option Failure × List (Call fl.F)
    unfolding create_deployment_volume drop_network
    create_volumes deployment network [] h = (none, h)
    create_volumes deployment network (vol ∷ vols) h =
        let made = create_deployment_volume (volume_name deployment (codes vol.name)) h in
        elim vol.external [
          | true ↦ create_volumes deployment network vols h
          | false ↦ elim made.0 [
            | err e ↦ (some (volume_failed vol.name), drop_network network made.1)
            | ok id ↦ create_volumes deployment network vols made.1
          ]
        ]

    -- A pull, with its events.
    unfoldable pub pull : String → List (Call fl.F) → Option Failure × List (Call fl.F)
    unfolding record_event_if
    pull image h =
        let asked = record_event_if image_pulling image h in
        let a = o.docker.pull_image asked image in
        elim a [
          | some e ↦ (some (pull_failed image), pull_image image (some e) ∷ asked)
          | none ↦ (none, record_event_if image_pulled image (pull_image image none ∷ asked))
        ]

    -- The loop over the images.
    unfoldable pub pull_images :
        List (Service fl.F) → List (Call fl.F) → Option Failure × List (Call fl.F)
    unfolding pull
    pull_images [] h = (none, h)
    pull_images (svc ∷ rest) h =
        let exists = o.docker.image_exists h svc.image in
        let asked = image_exists svc.image exists ∷ h in
        elim (str_eq svc.image "") [
          | true ↦ pull_images rest h
          | false ↦ elim exists [
            | true ↦ pull_images rest asked
            | false ↦ elim (pull svc.image asked).0 [
              | some f ↦ (some f, (pull svc.image asked).1)
              | none ↦ pull_images rest (pull svc.image asked).1
            ]
          ]
        ]
