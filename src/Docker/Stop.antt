-- ===== src/Docker/Stop.antt =====
-- StopDeployment, RemoveDeployment, WaitForHealthy and RefreshContainerInfo of
-- internal/shell/docker/orchestrator.go.
use Prim.Native.Char.{code}
use hoster.Prelude.{
  ℕ, suc, String, Bool, true, false, Option, none, some, List, [], ◌∷◌, ◌==◌, map, str_eq, leb,
  if◌then◌else◌, not, Result, ok, err,
}
use hoster.Prelude.Dict.{lookup}
use hoster.Prelude.Float.{Float64}
use hoster.Prelude.Text.{Text}
use hoster.Deployment as Domain
use hoster.Deployment.{Deployment}
use hoster.Plan.{network_name, convert_ports, label_service}
use hoster.Docker.{
  ContainerInfo, container_stopped, Call, remove_network, list_containers, stop_container,
  remove_container, inspect_container, Orchestrator,
}
use hoster.Docker.Prepare.{record_event_if}

-- The service of a container's label; a label that is missing reads as the empty text.
abbrev label_or_empty : Option String → String
label_or_empty none = ""
label_or_empty (some s) = s

-- How many underscores a name has, and its part after the last.
unfoldable pub underscores : String → ℕ
underscores String.[] = 0
underscores (String.◌∷◌ c s) = let rest = underscores s in if code c == b'_' then suc rest else rest

unfoldable pub last_part : String → String
unfolding underscores
last_part String.[] = String.[]
last_part (String.◌∷◌ c s) =
    let rest = last_part s in
    if underscores s == 0 then if code c == b'_' then s else String.◌∷◌ c s else rest

-- The service of a container: its label, or the last of at least three parts of its name.
unfoldable pub service_of : ContainerInfo → String
unfolding underscores last_part
service_of c = elim (lookup label_service c.labels) [
  | some s ↦ s
  | none ↦ if leb 2 (underscores c.name) then last_part c.name else ""
]

unfoldable pub info_of : ContainerInfo → Domain.ContainerInfo
unfolding service_of
info_of c = record {
  id = c.id;
  service_name = service_of c;
  image = c.image;
  status = c.status;
  ports = convert_ports c.ports;
}

-- The verdict on one container of `checkAllContainersHealthy`.
pub data Verdict : Type 0 where
  fine waiting unhealthy inspect_failed : Verdict

unfoldable pub judge : Result Text ContainerInfo → Verdict
judge (err e) = inspect_failed
judge (ok info) =
    if not (str_eq info.health "")
    then if str_eq info.health "unhealthy"
      then unhealthy
      else if not (str_eq info.health "healthy")
      then waiting
      else fine
    else if not (str_eq info.status "running")
    then waiting
    else fine

pub data HealthError : Type 0 where
  inspect container_unhealthy : String → HealthError

-- What the select of `WaitForHealthy` sees: the end of the context, or a tick, with whether the clock
-- is past the deadline.
pub data Wake : Type 0 where
  cancelled : Wake
  tick : Bool → Wake

pub data Waited : Type 0 where
  healthy timed_out context_done still_waiting : Waited
  check_failed : HealthError → Waited

module _ {fl : Float64} (o : Orchestrator fl) where
  -- `checkAllContainersHealthy`.
  unfoldable pub check_all_containers_healthy :
      List Domain.ContainerInfo → List (Call fl.F) → Result HealthError Bool × List (Call fl.F)
  unfolding judge
  check_all_containers_healthy [] h = (ok true, h)
  check_all_containers_healthy (c ∷ cs) h =
      let a = o.docker.inspect_container h c.id in
      let looked = inspect_container c.id a ∷ h in
      elim (judge a) [
        | fine ↦ check_all_containers_healthy cs looked
        | waiting ↦ (ok false, looked)
        | unhealthy ↦ (err (container_unhealthy c.service_name), looked)
        | inspect_failed ↦ (err (inspect c.service_name), looked)
      ]

  -- `WaitForHealthy`, on what its select sees.
  unfoldable pub wait_for_healthy :
      Deployment fl.F → List Wake → List (Call fl.F) → Waited × List (Call fl.F)
  unfolding check_all_containers_healthy
  wait_for_healthy deployment [] h = (still_waiting, h)
  wait_for_healthy deployment (cancelled ∷ wakes) h = (context_done, h)
  wait_for_healthy deployment (tick late ∷ wakes) h =
      let checked = check_all_containers_healthy deployment.containers h in
      elim checked.0 [
        | err e ↦ (check_failed e, checked.1)
        | ok true ↦ (healthy, checked.1)
        | ok false ↦ elim late [
          | true ↦ (timed_out, checked.1)
          | false ↦ wait_for_healthy deployment wakes checked.1
        ]
      ]

  -- A container is stopped if it runs; a failure is passed over.
  unfoldable pub stop_running : ContainerInfo → Bool → List (Call fl.F) → List (Call fl.F)
  unfolding record_event_if
  stop_running c noted h =
      let a = o.docker.stop_container h c.id in
      let stopped = stop_container c.id a ∷ h in
      let event =
        record_event_if o container_stopped (label_or_empty (lookup label_service c.labels))
          stopped in
      if str_eq c.status "running"
      then elim a [ some e ↦ stopped | none ↦ if noted then event else stopped ]
      else h

  unfoldable pub stop_each : List ContainerInfo → List (Call fl.F) → List (Call fl.F)
  unfolding stop_running
  stop_each [] h = h
  stop_each (c ∷ cs) h = stop_each cs (stop_running c true h)

  -- `StopDeployment`: whether it returns nil.
  unfoldable pub stop_deployment :
      Deployment fl.F → List (Call fl.F) → Option Text × List (Call fl.F)
  stop_deployment deployment h =
      let a = o.docker.list_containers h deployment.reference_id in
      let listed = list_containers deployment.reference_id a ∷ h in
      elim a [ err e ↦ (some e, listed) | ok cs ↦ (none, stop_each cs listed) ]

  unfoldable pub remove_each : List ContainerInfo → List (Call fl.F) → List (Call fl.F)
  unfolding stop_running
  remove_each [] h = h
  remove_each (c ∷ cs) h =
      let stopped = stop_running c false h in
      remove_each cs (remove_container c.id (o.docker.remove_container stopped c.id) ∷ stopped)

  -- `RemoveDeployment`.
  unfoldable pub remove_deployment :
      Deployment fl.F → List (Call fl.F) → Option Text × List (Call fl.F)
  unfolding remove_each
  remove_deployment deployment h =
      let a = o.docker.list_containers h deployment.reference_id in
      let name = network_name deployment.reference_id in
      elim a [
        | err e ↦ (some e, list_containers deployment.reference_id (err e) ∷ h)
        | ok cs ↦
            let removed = remove_each cs (list_containers deployment.reference_id (ok cs) ∷ h) in
            (none, remove_network name (o.docker.remove_network removed name) ∷ removed)
      ]

  -- `RefreshContainerInfo`.
  unfoldable pub refresh_container_info :
      Deployment fl.F
      → List (Call fl.F)
      → Result Text (List Domain.ContainerInfo) × List (Call fl.F)
  unfolding info_of
  refresh_container_info deployment h =
      let a = o.docker.list_containers h deployment.reference_id in
      elim a [
        | err e ↦ (err e, list_containers deployment.reference_id (err e) ∷ h)
        | ok cs ↦ (ok (map info_of cs), list_containers deployment.reference_id (ok cs) ∷ h)
      ]
