-- ===== src/Examples/Containers.antt =====
-- The theorems about container plans and the orchestrator at sample deployments
-- (internal/core/deployment, internal/shell/docker).
use hoster.Prelude.{
  ℕ, ◌≡◌, ◌↔◌, refl, subst, String, true, none, some, Option, List, [], ◌∷◌, Result, ok, err, In,
  length, if◌then◌else◌, ltb,
}
use hoster.Prelude.Dict.{assign, update}
use hoster.Prelude.Int.{ℤ}
use hoster.Prelude.Text.{Text, codes}
use hoster.Compose.{Service, ParsedSpec}
use hoster.Compose.Cycles.{
  detect_circular_dependencies, search_all, has_cycle, visit_deps, collect, universe,
}
use hoster.Deployment as Domain
use hoster.Order.{names, topological_sort, process, dedup, build, relax}
use hoster.Order.Relax.{Distinct}
use hoster.Order.Sorted.{DependenciesFirst}
use hoster.Order.Sorted.Result.{IsIteration}
use hoster.Plan.{container_name, convert_ports}
use hoster.Plan.Variables.{substitute_variables, is_start, is_word}
use hoster.Plan.Substitution.{literal, hole, text_of, filled, substitute_variables_fills}
use hoster.Docker.{Client, ContainerInfo, Orchestrator}
use hoster.Docker.Configs.{sanitize_file_name}
use hoster.Docker.FileNames.{IsClean, sanitize_file_name-IsClean}
use hoster.Docker.InOrder.{service_names, start_deployment_in_order}
use hoster.Docker.Leaks.{remaining, Kept}
use hoster.Docker.Leaks.Failed.{start_deployment-Kept}
use hoster.Docker.Planned.{Matches, plan_of, build_container_spec-Matches}
use hoster.Docker.Prepare.{
  by_service, reuse, start_error, create_deployment_network, create_volumes, pull_images,
  record_event_if,
}
use hoster.Docker.Spec.{build_container_spec}
use hoster.Docker.Start.{
  start_deployment, with_network, start_all, start_services, acquire, launch, look,
}
use hoster.Examples.{whole, service, deployment_at}

-- "http://${HOST}:${PORT:-80}/"
substitute_variables_fills_example :
    let pieces =
      literal (codes "http://")
      ∷ hole (record { name = codes "HOST"; default = none })
      ∷ literal (codes ":")
      ∷ hole (record { name = codes "PORT"; default = some (codes "80") })
      ∷ [] in
    substitute_variables (text_of pieces) (("HOST", "db") ∷ [])
    ≡ filled (("HOST", "db") ∷ []) pieces
unfolding is_start is_word
substitute_variables_fills_example =
    substitute_variables_fills (("HOST", "db") ∷ [])
      (literal (codes "http://")
        ∷ hole (record { name = codes "HOST"; default = none })
        ∷ literal (codes ":")
        ∷ hole (record { name = codes "PORT"; default = some (codes "80") })
        ∷ [])
      (refl, ((refl, refl), (refl, ((refl, refl), tt))))

sanitize_file_name-IsClean_example :
    IsClean (sanitize_file_name (codes "/etc/app.conf"))
    × (IsClean (codes "/etc/app.conf")
        → sanitize_file_name (codes "/etc/app.conf") ≡ codes "/etc/app.conf")
sanitize_file_name-IsClean_example = sanitize_file_name-IsClean (codes "/etc/app.conf")

abbrev no_durations : Text → Option ℤ
no_durations t = none

-- The web service needs the database.
abbrev shop : ParsedSpec ℕ
shop = record {
  services = service "web" ("db" ∷ []) ∷ service "db" [] ∷ [];
  networks = [];
  volumes = [];
}

abbrev running : String → ContainerInfo
running id = record {
  id = id;
  name = id;
  image = "image";
  status = "running";
  state = "running";
  health = "";
  ports = [];
  labels = [];
}

-- A daemon that creates at most `room` containers.
abbrev daemon : ℕ → Client ℕ
daemon room = record {
  create_network = λ h name. ok name;
  create_volume = λ h name. ok name;
  remove_network = λ h id. none;
  image_exists = λ h image. true;
  pull_image = λ h image. none;
  list_containers = λ h d. ok [];
  create_container = λ h spec.
      if ltb (length (remaining h)) room
      then ok (if ltb 0 (length (remaining h)) then "second" else "first")
      else err (codes "no room");
  start_container = λ h id. none;
  stop_container = λ h id. none;
  remove_container = λ h id. none;
  inspect_container = λ h id. ok (running id);
}

abbrev orchestrator : ℕ → Orchestrator whole
orchestrator room = record {
  docker = daemon room;
  has_store = true;
  parse_compose_spec = λ t. ok shop;
  parse_duration = no_durations;
  iterate_names = λ keys. keys;
  iterate_mounts = λ m. m;
  iterate_created = λ m. m;
}

abbrev in_order : IsIteration (λ keys. keys)
in_order = record { same = λ keys x. refl; once = λ keys h. h }

different :
    (spec : ParsedSpec ℕ)
    → (◌≡◌ {A = Result Text (ParsedSpec ℕ)} (ok shop) (ok spec))
    → Distinct (names spec.services)
different spec e =
    let same : shop ≡ spec = cc in subst (λ s. Distinct (names s.services)) same (refl, (refl, tt))

-- The second container is not created, and the first is removed.
start_deployment-Kept_example : Kept [] (
    start_deployment
      (orchestrator 1)
      (deployment_at Domain.starting "node")
      (codes "services:")
      (ok [])
      [])
unfolding remaining
start_deployment-Kept_example =
    start_deployment-Kept (orchestrator 1) (λ m s h. h) in_order
      (deployment_at Domain.starting "node") (codes "services:") (ok []) [] different

build_container_spec-Matches_example :
    Matches
      (build_container_spec whole no_durations
        (deployment_at Domain.starting "node")
        (service "web" [])
        (container_name "depl_7" "web")
        (codes "net")
        []
        true)
      (plan_of whole no_durations
        (deployment_at Domain.starting "node")
        (service "web" [])
        (codes "net")
        [])
      true
      30000
      []
build_container_spec-Matches_example =
    build_container_spec-Matches whole no_durations (deployment_at Domain.starting "node")
      (service "web" []) (codes "net") [] [] true

abbrev started : String → String → Domain.ContainerInfo
started id name = record {
  id = id;
  service_name = name;
  image = "image";
  status = "running";
  ports = [];
}

start_deployment_in_order_example :
    Distinct (service_names (started "first" "db" ∷ started "second" "web" ∷ []))
    × (out : List (Service ℕ)) × (service_names (started "first" "db" ∷ started "second" "web" ∷ [])
        ≡ names out)
    × DependenciesFirst [] out
    × ((s : Service ℕ) → In s out ↔ In s shop.services)
unfolding start_deployment with_network start_all start_services acquire launch look by_service
    reuse start_error create_deployment_network create_volumes pull_images record_event_if
    convert_ports process dedup build relax update assign topological_sort
    detect_circular_dependencies search_all has_cycle visit_deps collect universe remaining
start_deployment_in_order_example =
    start_deployment_in_order (orchestrator 5) (deployment_at Domain.starting "node")
      (codes "services:") (ok []) [] shop (started "first" "db" ∷ started "second" "web" ∷ [])
      in_order refl (refl, (refl, tt)) ((refl, tt), (tt, tt)) refl refl
