-- ===== src/Docker/Spec.antt =====
-- buildContainerSpec of internal/shell/docker/orchestrator.go.
use hoster.Prelude.{
  ℕ, Bool, true, false, Option, List, [], ◌∷◌, ◌++◌, ◌&&◌, map, not, if◌then◌else◌, ltb,
}
use hoster.Prelude.Dict.{Dict}
use hoster.Prelude.Float.{Float64}
use hoster.Prelude.Int.{ℤ}
use hoster.Prelude.Text.{Text}
use hoster.Compose.{Service, Port}
use hoster.Deployment.{Deployment}
use hoster.Plan.{
  PortBinding, VolumePlan, base_labels, copy_labels, merge_env, mount_volume, map_restart_policy,
  plan_health_check, plan_resources,
}
use hoster.Docker.{ContainerSpec}

-- The binding of one port: the proxy port takes the place of the first of the primary service.
unfoldable pub bind_port : Bool → ℕ → Port → PortBinding
bind_port proxied proxy_port p = record {
  container_port = p.target;
  host_port = if proxied then proxy_port else p.published;
  protocol = p.protocol;
  host_ip = if proxied then "0.0.0.0" else p.host_ip;
}

-- The loop over the ports.
unfoldable pub bind_ports : Bool → ℕ → Bool → List Port → List PortBinding
unfolding bind_port
bind_ports is_primary proxy_port used [] = []
bind_ports is_primary proxy_port used (p ∷ ports) =
    let proxied = is_primary && (ltb 0 proxy_port && not used) in
    bind_port proxied proxy_port p
    ∷ bind_ports is_primary proxy_port (if proxied then true else used) ports

-- The loop over the config files.
unfoldable pub mount_configs : Dict Text → List VolumePlan
mount_configs [] = []
mount_configs ((container_path, host_path) ∷ mounts) =
    record { source = host_path; target = container_path; read_only = true } ∷ mount_configs mounts

-- `buildContainerSpec`; `mounts` are the config files in the order of the run over their map.
unfoldable pub build_container_spec :
    (fl : Float64)
    → (Text → Option ℤ)
    → Deployment fl.F
    → Service fl.F
    → Text
    → Text
    → Dict Text
    → Bool
    → ContainerSpec fl.F
unfolding bind_ports mount_configs
build_container_spec fl parse_duration deployment svc name network mounts is_primary = record {
  name = name;
  image = svc.image;
  command = svc.command;
  entrypoint = svc.entrypoint;
  env = merge_env deployment.variables svc.environment;
  labels =
      copy_labels (base_labels deployment.reference_id deployment.template_ref_id svc.name)
        svc.labels;
  ports = bind_ports is_primary deployment.proxy_port false svc.ports;
  volumes = map (mount_volume deployment.reference_id) svc.volumes ++ mount_configs mounts;
  networks = network ∷ [];
  network_aliases = (network, svc.name ∷ []) ∷ [];
  working_dir = "";
  user = "";
  restart_policy = map_restart_policy svc.restart;
  resources = plan_resources fl svc.resources;
  health_check = plan_health_check parse_duration svc.health_check;
}
