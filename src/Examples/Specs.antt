-- ===== src/Examples/Specs.antt =====
-- The theorems about compose specifications and domains at sample inputs (internal/core/compose,
-- internal/core/dns).
use hoster.Prelude.{
  ℕ, ◌≡◌, ◌≢◌, refl, String, false, none, some, List, [], ◌∷◌, Result, ok, arith, leb,
  if◌then◌else◌,
}
use hoster.Prelude.Dict.{update}
use hoster.Prelude.Int.{pos}
use hoster.Prelude.Text.{Text, codes, text_eq}
use hoster.Deployment.{Domain}
use hoster.Deployment.Create.{new_custom_domain}
use hoster.Compose.{Service, ParsedSpec, RestartPolicy, bind}
use hoster.Compose.Cycles.{
  detect_circular_dependencies, search_all, has_cycle, visit_deps, collect, universe,
}
use hoster.Compose.Loaded.{
  Project, LoadedService, convert_service, convert_services, check_unsupported_features,
  check_extends, parse_digits, published_port, convert_environment, mount_type,
}
use hoster.Compose.Parser.{
  parse_compose_spec, convert_project, check_services, validate_ports, port_error,
}
use hoster.Compose.Parser.Accepts.{Accepted, parse_compose_spec-Accepted}
use hoster.Compose.Parser.Totals.{calculate_resources, calculate_resources_totals}
use hoster.Dns.{can_add_custom_domain, domain_already_exists, max_domains_reached}
use hoster.Dns.Custom.{is_taken, count_custom, can_add_custom_domain_cases}
use hoster.Examples.{whole, service}

abbrev loaded : String → List String → LoadedService ℕ
loaded name deps = record {
  name = name;
  image = "image";
  command = [];
  entrypoint = [];
  build = none;
  extends_file = none;
  ports = record { target = 80; published = codes "8080"; protocol = "tcp"; host_ip = "" } ∷ [];
  environment = ("A", some (codes "1")) ∷ ("B", none) ∷ [];
  volumes = record { type = ""; source = codes "./data"; target = "/data"; read_only = false } ∷ [];
  networks = [];
  depends_on = deps;
  restart = RestartPolicy.always;
  labels = [];
  health_check = none;
  limits = some (record { cpus = 2; memory_bytes = pos 1048576 });
  reservations = none;
}

-- A web server and its database.
abbrev web_project : Project ℕ
web_project = record {
  services = loaded "web" ("db" ∷ []) ∷ loaded "db" [] ∷ [];
  networks = [];
  volumes = [];
  secrets = [];
  configs = [];
}

abbrev load_web : Text → Result Text (Project ℕ)
load_web yaml = ok web_project

abbrev two_services : ParsedSpec ℕ
two_services = record {
  services = service "web" ("db" ∷ []) ∷ service "db" [] ∷ [];
  networks = [];
  volumes = record { name = "data"; driver = ""; external = false; labels = [] } ∷ [];
}

calculate_resources_totals_example :
    ((calculate_resources whole two_services).memory_mb ≡ pos 512)
    × ((calculate_resources whole two_services).disk_mb ≡ pos 1024)
calculate_resources_totals_example =
    calculate_resources_totals whole two_services (omega arith) (omega arith)

abbrev shop : List Domain
shop = new_custom_domain (codes "shop.io") ∷ []

can_add_custom_domain_cases_example : can_add_custom_domain text_eq shop (codes "shop.io") ≡ (
    if is_taken text_eq (codes "shop.io") shop
    then some domain_already_exists
    else if leb 5 (count_custom shop)
    then some max_domains_reached
    else none)
can_add_custom_domain_cases_example = can_add_custom_domain_cases text_eq (codes "shop.io") shop

-- What the code makes of a service.
abbrev converted : String → List String → Service ℕ
converted name deps = record {
  name = name;
  image = "image";
  build = none;
  command = [];
  entrypoint = [];
  ports = record { target = 80; published = 8080; protocol = "tcp"; host_ip = "" } ∷ [];
  environment = ("A", codes "1") ∷ [];
  volumes =
      record { type = bind; source = codes "./data"; target = "/data"; read_only = false } ∷ [];
  networks = [];
  depends_on = deps;
  restart = RestartPolicy.always;
  resources = record {
    cpu_limit = 2;
    cpu_reservation = 0;
    memory_limit = pos 1048576;
    memory_reservation = pos 0;
  };
  health_check = none;
  labels = [];
}

abbrev web_spec : ParsedSpec ℕ
web_spec = record {
  services = converted "web" ("db" ∷ []) ∷ converted "db" [] ∷ [];
  networks = [];
  volumes = [];
}

parse_compose_spec-Accepted_example :
    (project : Project ℕ) × (load_web (codes "services:") ≡ ok project)
    × (project.services ≢ [])
    × Accepted 0 project web_spec
unfolding parse_compose_spec convert_project check_unsupported_features check_extends
    convert_services convert_service mount_type published_port parse_digits convert_environment
    check_services validate_ports port_error detect_circular_dependencies search_all has_cycle
    visit_deps collect universe update
parse_compose_spec-Accepted_example =
    parse_compose_spec-Accepted 0 load_web (codes "services:") web_spec refl
