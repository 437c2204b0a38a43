-- ===== src/Docker.antt =====
-- internal/shell/docker: what the orchestrator (orchestrator.go) hands to Docker (types.go) and what
-- Docker answers.
--
-- Docker is a parameter: the interface `Client`, whose answers are functions of the calls that were
-- made before. A history lists these with their answers, the last call first. An error is its text.
-- The code slices the id of a container for the log, so the ids that Docker gives must have twelve
-- bytes; that is not modelled.
pub mod Spec
pub mod Configs
pub mod FileNames
pub mod Prepare
pub mod Start
pub mod Leaks
pub mod InOrder
pub mod Planned
pub mod Stop
use hoster.Prelude.{ℕ, String, Bool, Option, List, [], ◌∷◌, Result}
use hoster.Prelude.Dict.{Dict}
use hoster.Prelude.Text.{Text}
use hoster.Compose.{ParsedSpec}
use hoster.Plan.{PortBinding, VolumePlan, RestartPolicyPlan, ResourcePlan, HealthCheckPlan}
use hoster.Prelude.Float.{Float64}
use hoster.Prelude.Int.{ℤ}

pub record ContainerSpec (F : Type 0) : Type 0 where
  pub name : Text
  pub image : String
  pub command : List String
  pub entrypoint : List String
  pub env : Dict Text
  pub labels : String → Option String
  pub ports : List PortBinding
  pub volumes : List VolumePlan
  pub networks : List Text
  pub network_aliases : List (Text × List String)
  pub working_dir : String
  pub user : String
  pub restart_policy : RestartPolicyPlan
  pub resources : ResourcePlan F
  pub health_check : Option HealthCheckPlan

-- The times and the exit code, which the orchestrator does not read, are left out.
pub record ContainerInfo : Type 0 where
  pub id : String
  pub name : String
  pub image : String
  pub status : String
  pub state : String
  pub health : String
  pub ports : List PortBinding
  pub labels : Dict String

pub data EventType : Type 0 where
  image_pulling image_pulled container_created container_started container_stopped
        container_restarted :
      EventType

-- A call with its answer; a call without a result has `none` for nil.
pub data Call (F : Type 0) : Type 0 where
  create_network create_volume : Text → Result Text Text → Call F
  remove_network : Text → Option Text → Call F
  image_exists : String → Bool → Call F
  pull_image : String → Option Text → Call F
  list_containers : String → Result Text (List ContainerInfo) → Call F
  create_container : ContainerSpec F → Result Text String → Call F
  start_container stop_container remove_container : String → Option Text → Call F
  inspect_container : String → Result Text ContainerInfo → Call F
  record_event : EventType → String → Call F

-- The part of `Client` that the orchestrator calls. `list_containers` filters by the label of a
-- deployment.
pub record Client (F : Type 0) : Type 0 where
  pub create_network : List (Call F) → Text → Result Text Text
  pub create_volume : List (Call F) → Text → Result Text Text
  pub remove_network : List (Call F) → Text → Option Text
  pub image_exists : List (Call F) → String → Bool
  pub pull_image : List (Call F) → String → Option Text
  pub list_containers : List (Call F) → String → Result Text (List ContainerInfo)
  pub create_container : List (Call F) → ContainerSpec F → Result Text String
  pub start_container : List (Call F) → String → Option Text
  pub stop_container : List (Call F) → String → Option Text
  pub remove_container : List (Call F) → String → Option Text
  pub inspect_container : List (Call F) → String → Result Text ContainerInfo

-- The orchestrator, with what else it calls: the parser, time.ParseDuration, and the order in which
-- Go runs over its three maps.
pub record Orchestrator (fl : Float64) : Type 0 where
  pub docker : Client fl.F
  pub has_store : Bool
  pub parse_compose_spec : Text → Result Text (ParsedSpec fl.F)
  pub parse_duration : Text → Option ℤ
  pub iterate_names : List String → List String
  pub iterate_mounts : Dict Text → Dict Text
  pub iterate_created : Dict String → Dict String
