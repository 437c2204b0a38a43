-- ===== src/Examples.antt =====
-- Sample data for the tests: a deployment, services, nodes and plans.
mod Deployments
mod Templates
mod Orders
mod Nodes
mod Requests
mod Containers
mod Rows
mod Tables
mod Specs
mod Ports
mod Created
use hoster.Prelude.{ℕ, ◌+◌, ◌-◌, ◌*◌, ◌/◌, String, true, none, List, [], ◌∷◌, ltb, leb}
use hoster.Prelude.Float.{Float64}
use hoster.Prelude.Int.{pos, pos_part}
use hoster.Prelude.Text.{codes}
use hoster.Deployment.{Deployment, Status, Resources}
use hoster.Template.{Template, Variable, VariableType}
use hoster.Compose.{Service, RestartPolicy}
use hoster.Node.{Node, NodeStatus}
use hoster.Auth.{Context}

-- Whole numbers in place of floating-point ones.
abbrev pub whole : Float64
whole = record {
  F = ℕ;
  lt = ltb;
  le = leb;
  add = λ a b. a + b;
  sub = λ a b. a - b;
  mul = λ a b. a * b;
  div = λ a b. a / b;
  of_int = pos_part;
  decimal = λ n k. n;
}

abbrev pub small : Resources ℕ
small = record { cpu_cores = 1; memory_mb = pos 512; disk_mb = pos 1024 }

-- A deployment with a status, on a node.
abbrev pub deployment_at : Status → String → Deployment ℕ
deployment_at status node = record {
  id = 7;
  reference_id = "depl_7";
  name = codes "blog-a1b2c3";
  template_id = 3;
  template_ref_id = "tmpl_3";
  template_version = codes "1.0.0";
  customer_id = 5;
  node_id = node;
  status = status;
  variables = [];
  domains = [];
  containers = [];
  resources = small;
  proxy_port = 30000;
  error_message = "";
  created_at = 100;
  updated_at = 100;
  started_at = none;
  stopped_at = none;
}

abbrev pub password : Variable
password = record {
  name = "PASSWORD";
  label = "";
  description = "";
  type = VariableType.password;
  default = "";
  required = true;
  options = [];
  validation = "";
}

abbrev pub blog : Template ℕ
blog = record {
  id = 3;
  reference_id = "tmpl_3";
  name = codes "Blog";
  slug = codes "blog";
  description = "";
  version = codes "1.0.0";
  compose_spec = codes "services:";
  variables = password ∷ [];
  config_files = [];
  resource_requirements = small;
  required_capabilities = [];
  price_monthly = pos 500;
  category = "";
  tags = [];
  published = true;
  creator_id = 2;
  creator_ref_id = "user_2";
  created_at = 10;
  updated_at = 10;
}

-- A service with its dependencies.
abbrev pub service : String → List String → Service ℕ
service name deps = record {
  name = name;
  image = "image";
  build = none;
  command = [];
  entrypoint = [];
  ports = [];
  environment = [];
  volumes = [];
  networks = [];
  depends_on = deps;
  restart = RestartPolicy.never;
  resources = record {
    cpu_limit = 0;
    cpu_reservation = 0;
    memory_limit = pos 0;
    memory_reservation = pos 0;
  };
  health_check = none;
  labels = [];
}

-- A node of some memory, with capabilities.
abbrev pub node : String → NodeStatus → List String → ℕ → Node ℕ
node name status caps memory = record {
  id = 1;
  reference_id = name;
  name = codes "node";
  creator_id = 2;
  ssh_host = "10.0.0.1";
  ssh_port = pos 22;
  ssh_user = "root";
  ssh_key_id = 0;
  ssh_key_ref_id = "";
  docker_socket = "";
  status = status;
  capabilities = caps;
  capacity = record {
    cpu_cores = 4;
    memory_mb = pos memory;
    disk_mb = pos 10000;
    cpu_used = 1;
    memory_used_mb = pos 100;
    disk_used_mb = pos 0;
  };
  location = "";
  last_health_check = none;
  error_message = "";
  provider_type = "";
  provision_id = "";
  base_domain = "";
  created_at = 0;
  updated_at = 0;
}

abbrev pub user : ℕ → Context ℕ
user id = record {
  user_id = id;
  reference_id = "user";
  plan_id = "basic";
  plan_limits = record {
    max_deployments = pos 3;
    max_cpu_cores = 4;
    max_memory_mb = pos 4096;
    max_disk_mb = pos 20000;
    allowed_capabilities = "standard" ∷ [];
  };
  key_id = "";
  organization_id = "";
  authenticated = true;
}
