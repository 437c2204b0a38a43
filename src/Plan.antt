-- ===== src/Plan.antt =====
-- internal/core/deployment: the plan of a container (container.go, types.go), the names of its
-- resources (naming.go) and its ports (ports.go).
--
-- Numbers of cores are those of the parameter `fl`; a duration is a number of nanoseconds, and
-- `time.ParseDuration` is a parameter. A map that is only read by its keys is a function.
pub mod Variables
pub mod Substitution
pub mod Names
use hoster.Prelude.{
  ℕ, String, Bool, Option, none, some, List, [], ◌∷◌, ◌++◌, map, str_eq, if◌then◌else◌,
}
use hoster.Prelude.Dict.{Dict, update}
use hoster.Prelude.Float.{Float64}
use hoster.Prelude.Int.{ℤ, pos, ltb_ℤ}
use hoster.Prelude.Text.{Text, codes, is_empty}
use hoster.Compose.{
  Service, Port, VolumeMount, VolumeMountType, RestartPolicy, HealthCheck, Volume, ServiceResources,
}
use hoster.Deployment.{PortMapping}
use hoster.Plan.Variables.{substitute_variables}

-- `NetworkName`, `VolumeName` and `ContainerName`.
unfoldable pub network_name : String → Text
network_name deployment = codes "hoster_" ++ codes deployment

unfoldable pub volume_name : String → Text → Text
volume_name deployment volume = codes "hoster_" ++ (codes deployment ++ (codes "_" ++ volume))

unfoldable pub container_name : String → String → Text
container_name deployment service =
    codes "hoster_" ++ (codes deployment ++ (codes "_" ++ codes service))

pub record PortBinding : Type 0 where
  pub container_port : ℕ
  pub host_port : ℕ
  pub protocol : String
  pub host_ip : String

-- `ConvertPorts`.
unfoldable pub convert_port : PortBinding → PortMapping
convert_port p = record {
  container_port = p.container_port;
  host_port = p.host_port;
  protocol = if str_eq p.protocol "" then "tcp" else p.protocol;
}

unfoldable pub convert_ports : List PortBinding → List PortMapping
convert_ports ports = map convert_port ports

pub record VolumePlan : Type 0 where
  pub source : Text
  pub target : String
  pub read_only : Bool

pub record RestartPolicyPlan : Type 0 where
  pub name : String
  pub maximum_retry_count : ℕ

pub record ResourcePlan (F : Type 0) : Type 0 where
  pub cpu_limit : F
  pub memory_limit : ℤ

pub record HealthCheckPlan : Type 0 where
  pub test : List String
  pub interval : ℤ
  pub timeout : ℤ
  pub retries : ℤ
  pub start_period : ℤ

pub record ContainerPlan (F : Type 0) : Type 0 where
  pub name : Text
  pub image : String
  pub command : List String
  pub entrypoint : List String
  pub env : Dict Text
  pub labels : String → Option String
  pub ports : List PortBinding
  pub volumes : List VolumePlan
  pub networks : List Text
  pub restart_policy : RestartPolicyPlan
  pub resources : ResourcePlan F
  pub health_check : Option HealthCheckPlan

abbrev pub label_managed : String
label_managed = "com.hoster.managed"

abbrev pub label_deployment : String
label_deployment = "com.hoster.deployment"

abbrev pub label_template : String
label_template = "com.hoster.template"

abbrev pub label_service : String
label_service = "com.hoster.service"

-- The labels that the program sets.
unfoldable pub base_labels : String → String → String → String → Option String
base_labels deployment template service =
    update
      (update
        (update (update (λ k. none) label_managed (some "true")) label_deployment (some deployment))
        label_template (some template))
      label_service (some service)

-- The last loop: the labels of the service, on top.
unfoldable pub copy_labels : (String → Option String) → Dict String → String → Option String
copy_labels labels [] = labels
copy_labels labels ((k, v) ∷ m) = copy_labels (update labels k (some v)) m

-- The loop over the environment.
unfoldable pub merge_env : Dict String → Dict Text → Dict Text
merge_env variables [] = []
merge_env variables ((k, v) ∷ env) = (k, substitute_variables v variables) ∷ merge_env variables env

abbrev pub bind_port : Port → PortBinding
bind_port p = record {
  container_port = p.target;
  host_port = p.published;
  protocol = p.protocol;
  host_ip = p.host_ip;
}

abbrev pub volume_source : String → VolumeMountType → Text → Text
volume_source deployment VolumeMountType.volume source = volume_name deployment source
volume_source deployment _ source = source

abbrev pub mount_volume : String → VolumeMount → VolumePlan
mount_volume deployment v = record {
  source = volume_source deployment v.type v.source;
  target = v.target;
  read_only = v.read_only;
}

-- `mapRestartPolicy`.
unfoldable pub map_restart_policy : RestartPolicy → RestartPolicyPlan
map_restart_policy RestartPolicy.always = record { name = "always"; maximum_retry_count = 0 }
map_restart_policy RestartPolicy.on_failure = record {
  name = "on-failure";
  maximum_retry_count = 0;
}
map_restart_policy RestartPolicy.unless_stopped = record {
  name = "unless-stopped";
  maximum_retry_count = 0;
}
map_restart_policy _ = record { name = "no"; maximum_retry_count = 0 }

module _ (parse_duration : Text → Option ℤ) where
  abbrev parsed : Option ℤ → ℤ
  parsed none = pos 0
  parsed (some d) = d

  -- One of the three durations of a health check.
  unfoldable pub duration : Text → ℤ
  duration t = if is_empty t then pos 0 else parsed (parse_duration t)

  abbrev pub plan_health_check : Option HealthCheck → Option HealthCheckPlan
  plan_health_check none = none
  plan_health_check (some h) = some (record {
    test = h.test;
    interval = duration h.interval;
    timeout = duration h.timeout;
    retries = h.retries;
    start_period = duration h.start_period;
  })

module _ (fl : Float64) where
  unfoldable pub plan_resources : ServiceResources fl.F → ResourcePlan fl.F
  plan_resources r = record {
    cpu_limit = if fl.lt (fl.of_int (pos 0)) r.cpu_limit then r.cpu_limit else fl.of_int (pos 0);
    memory_limit = if ltb_ℤ (pos 0) r.memory_limit then r.memory_limit else pos 0;
  }

pub record BuildContainerPlanParams (F : Type 0) : Type 0 where
  pub deployment_id : String
  pub template_id : String
  pub service_name : String
  pub service : Service F
  pub variables : Dict String
  pub network_name : Text
  pub volumes : List Volume

-- `BuildContainerPlan`.
unfoldable pub build_container_plan :
    (fl : Float64) → (Text → Option ℤ) → BuildContainerPlanParams fl.F → ContainerPlan fl.F
build_container_plan fl parse_duration params =
    let svc = params.service in
    record {
      name = container_name params.deployment_id params.service_name;
      image = svc.image;
      command = svc.command;
      entrypoint = svc.entrypoint;
      env = merge_env params.variables svc.environment;
      labels =
          copy_labels (base_labels params.deployment_id params.template_id params.service_name)
            svc.labels;
      ports = map bind_port svc.ports;
      volumes = map (mount_volume params.deployment_id) svc.volumes;
      networks = params.network_name ∷ [];
      restart_policy = map_restart_policy svc.restart;
      resources = plan_resources fl svc.resources;
      health_check = plan_health_check parse_duration svc.health_check;
    }
