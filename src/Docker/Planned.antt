-- ===== src/Docker/Planned.antt =====
-- buildContainerSpec of internal/shell/docker/orchestrator.go against BuildContainerPlan of
-- internal/core/deployment/container.go.
use hoster.Prelude.{
  ℕ, ◌≡◌, refl, String, Bool, true, false, Option, List, [], ◌∷◌, ◌++◌, map, ◌&&◌, ltb, arith,
  if◌then◌else◌,
}
use hoster.Prelude.Dict.{Dict}
use hoster.Prelude.Float.{Float64}
use hoster.Prelude.Int.{ℤ}
use hoster.Prelude.Text.{Text}
use hoster.Compose.{Service, Port, Volume}
use hoster.Deployment.{Deployment}
use hoster.Plan.{PortBinding, ContainerPlan, build_container_plan, container_name, bind_port}
use hoster.Docker.{ContainerSpec}
use hoster.Docker.Spec.{bind_ports, build_container_spec, mount_configs}

-- The proxy port in place of the published one.
abbrev pub through_proxy : ℕ → PortBinding → PortBinding
through_proxy proxy_port b = record b { host_port = proxy_port; host_ip = "0.0.0.0" }

-- The ports of the plan, with the proxy port at the first of the primary service.
abbrev pub first_proxied : Bool → ℕ → List PortBinding → List PortBinding
first_proxied is_primary proxy_port [] = []
first_proxied is_primary proxy_port (b ∷ bs) =
    if is_primary && ltb 0 proxy_port then through_proxy proxy_port b ∷ bs else b ∷ bs

bind_ports-used :
    (is_primary : Bool) (proxy_port : ℕ) (ports : List Port)
    → bind_ports is_primary proxy_port true ports ≡ map bind_port ports
unfolding bind_ports
bind_ports-used is_primary proxy_port [] = refl
bind_ports-used is_primary proxy_port (p ∷ ports) =
    ground (arith, bind_ports-used is_primary proxy_port ports)

bind_ports-unproxied :
    (is_primary : Bool) (proxy_port : ℕ) (ports : List Port)
    → (is_primary && ltb 0 proxy_port) ≡ false
    → bind_ports is_primary proxy_port false ports ≡ map bind_port ports
unfolding bind_ports
bind_ports-unproxied is_primary proxy_port [] e = refl
bind_ports-unproxied is_primary proxy_port (p ∷ ports) e =
    ground (arith, bind_ports-unproxied is_primary proxy_port ports)

bind_ports-first :
    (is_primary : Bool) (proxy_port : ℕ) (ports : List Port)
    → bind_ports is_primary proxy_port false ports
      ≡ first_proxied is_primary proxy_port (map bind_port ports)
unfolding bind_ports
bind_ports-first is_primary proxy_port [] = refl
bind_ports-first is_primary proxy_port (p ∷ ports) = ground (
  arith,
  bind_ports-used is_primary proxy_port ports,
  bind_ports-unproxied is_primary proxy_port ports,
)

-- The plan of a service of a deployment.
abbrev pub plan_of :
    (fl : Float64) (parse_duration : Text → Option ℤ) (deployment : Deployment fl.F)
    (svc : Service fl.F) (network : Text) (volumes : List Volume)
    → ContainerPlan fl.F
plan_of fl parse_duration deployment svc network volumes =
    build_container_plan fl parse_duration (record {
      deployment_id = deployment.reference_id;
      template_id = deployment.template_ref_id;
      service_name = svc.name;
      service = svc;
      variables = deployment.variables;
      network_name = network;
      volumes = volumes;
    })

-- The two agree.
pub record Matches {F : Type 0} (spec : ContainerSpec F) (plan : ContainerPlan F)
    (is_primary : Bool) (proxy_port : ℕ) (mounts : Dict Text) : Type 0 where
  pub name : spec.name ≡ plan.name
  pub image : spec.image ≡ plan.image
  pub command : spec.command ≡ plan.command
  pub entrypoint : spec.entrypoint ≡ plan.entrypoint
  pub env : spec.env ≡ plan.env
  pub labels : (k : String) → spec.labels k ≡ plan.labels k
  pub ports : spec.ports ≡ first_proxied is_primary proxy_port plan.ports
  pub volumes : spec.volumes ≡ plan.volumes ++ mount_configs mounts
  pub networks : spec.networks ≡ plan.networks
  pub restart_policy : spec.restart_policy ≡ plan.restart_policy
  pub resources : spec.resources ≡ plan.resources
  pub health_check : spec.health_check ≡ plan.health_check

-- buildContainerSpec makes of a service what BuildContainerPlan plans for it, field by field, except
-- that the first port of the primary service is bound to the proxy port, if the deployment has one,
-- and that the config files are mounted behind the volumes.
pub build_container_spec-Matches :
    (fl : Float64) (parse_duration : Text → Option ℤ) (deployment : Deployment fl.F)
    (svc : Service fl.F) (network : Text) (volumes : List Volume) (mounts : Dict Text)
    (is_primary : Bool)
    → Matches
        (build_container_spec fl parse_duration deployment svc
          (container_name deployment.reference_id svc.name)
          network
          mounts
          is_primary)
        (plan_of fl parse_duration deployment svc network volumes)
        is_primary
        deployment.proxy_port
        mounts
unfolding build_container_spec build_container_plan
build_container_spec-Matches fl parse_duration deployment svc network volumes mounts is_primary =
    record {
      name = refl;
      image = refl;
      command = refl;
      entrypoint = refl;
      env = refl;
      labels = λ k. refl;
      ports = bind_ports-first is_primary deployment.proxy_port svc.ports;
      volumes = refl;
      networks = refl;
      restart_policy = refl;
      resources = refl;
      health_check = refl;
    }
