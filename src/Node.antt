-- ===== src/Node.antt =====
-- internal/core/domain/node.go: the nodes that run deployments, their capacity and their capabilities.
--
-- CPU figures are Go's `float64`, the parameter `fl`; memory and disk are `int64`, whose differences
-- wrap around. A status is a string in the source: its constants are constructors here, and `other` is
-- any other text. The clock, uuid.New, net.ParseIP and the regular expression of host names are
-- arguments.
use hoster.Prelude.{
  ℕ, String, Bool, true, false, Option, none, some, List, [], ◌∷◌, ◌&&◌, ◌||◌, any, all, mem,
  if◌then◌else◌, str_eq, ltb, ◌==◌, Result, ok, err, length,
}
use hoster.Prelude.Float.{Float64}
use hoster.Prelude.Int.{ℤ, pos, sub64, ltb_ℤ, leb_ℤ}
use hoster.Prelude.Text.{Text, is_empty}
use hoster.Deployment.{Resources}

pub data NodeStatus : Type 0 where
  online offline maintenance : NodeStatus
  other : String → NodeStatus

pub data Error : Type 0 where
  name_required name_too_short name_too_long : Error
  host_required host_invalid port_invalid user_required : Error
  capabilities_required capability_empty creator_required : Error

-- `NodeStatus.IsValid`.
unfoldable pub is_valid_status : NodeStatus → Bool
is_valid_status (other s) = false
is_valid_status _ = true

-- `NodeStatus.IsAvailable`.
abbrev pub is_available_status : NodeStatus → Bool
is_available_status online = true
is_available_status _ = false

pub record NodeCapacity (F : Type 0) : Type 0 where
  pub cpu_cores : F
  pub memory_mb : ℤ
  pub disk_mb : ℤ
  pub cpu_used : F
  pub memory_used_mb : ℤ
  pub disk_used_mb : ℤ

pub record Node (F : Type 0) : Type 0 where
  pub id : ℕ
  pub reference_id : String
  pub name : Text
  pub creator_id : ℕ
  pub ssh_host : String
  pub ssh_port : ℤ
  pub ssh_user : String
  pub ssh_key_id : ℕ
  pub ssh_key_ref_id : String
  pub docker_socket : String
  pub status : NodeStatus
  pub capabilities : List String
  pub capacity : NodeCapacity F
  pub location : String
  pub last_health_check : Option ℕ
  pub error_message : String
  pub provider_type : String
  pub provision_id : String
  pub base_domain : String
  pub created_at : ℕ
  pub updated_at : ℕ

-- The tail of `AvailableMemory` and `AvailableDisk`: what is below zero counts as zero.
abbrev pub at_least_zero : ℤ → ℤ
at_least_zero avail = if ltb_ℤ avail (pos 0) then pos 0 else avail

module _ {F : Type 0} where
  -- `AvailableMemory`.
  unfoldable pub available_memory : NodeCapacity F → ℤ
  available_memory c = at_least_zero (sub64 c.memory_mb c.memory_used_mb)

  -- `AvailableDisk`.
  unfoldable pub available_disk : NodeCapacity F → ℤ
  available_disk c = at_least_zero (sub64 c.disk_mb c.disk_used_mb)

  -- `HasCapability`.
  abbrev pub has_capability : Node F → String → Bool
  has_capability n cap = mem cap n.capabilities

  -- `HasAllCapabilities`.
  unfoldable pub has_all_capabilities : Node F → List String → Bool
  has_all_capabilities n caps = all (has_capability n) caps

  -- `HasAnyCapability`.
  unfoldable pub has_any_capability : Node F → List String → Bool
  has_any_capability n [] = true
  has_any_capability n (cap ∷ caps) = any (has_capability n) (cap ∷ caps)

  -- `Node.IsAvailable`.
  unfoldable pub is_available : Node F → Bool
  is_available n = is_available_status n.status

module _ (fl : Float64) where
  -- `AvailableCPU`.
  unfoldable pub available_cpu : NodeCapacity fl.F → fl.F
  available_cpu c =
      let avail = fl.sub c.cpu_cores c.cpu_used in
      if fl.lt avail (fl.of_int (pos 0)) then fl.of_int (pos 0) else avail

  -- `CanHandle`.
  unfoldable pub can_handle : NodeCapacity fl.F → Resources fl.F → Bool
  can_handle c required =
      fl.le required.cpu_cores (available_cpu c)
      && leb_ℤ required.memory_mb (available_memory c)
      && leb_ℤ required.disk_mb (available_disk c)

  -- `ApplySystemInfo`.
  unfoldable pub apply_system_info :
      Node fl.F → fl.F → (mem_total mem_used disk_total disk_used : ℤ) → fl.F → Node fl.F
  apply_system_info node cpu_cores mem_total mem_used disk_total disk_used cpu_used_pct =
      record node {
        capacity = record {
          cpu_cores = cpu_cores;
          memory_mb = mem_total;
          disk_mb = disk_total;
          cpu_used = fl.div (fl.mul cpu_cores cpu_used_pct) (fl.of_int (pos 100));
          memory_used_mb = mem_used;
          disk_used_mb = disk_used;
        };
      }

-- `ValidateNodeName`.
unfoldable pub validate_node_name : Text → Option Error
validate_node_name name =
    if is_empty name
    then some name_required
    else if ltb (length name) 3
    then some name_too_short
    else if ltb 100 (length name)
    then some name_too_long
    else none

-- `ValidateSSHHost`; the two tests are those of net.ParseIP and of the regular expression.
unfoldable pub validate_ssh_host : (is_ip is_hostname : String → Bool) → String → Option Error
validate_ssh_host is_ip is_hostname host =
    if str_eq host ""
    then some host_required
    else if is_ip host
    then none
    else if is_hostname host
    then none
    else some host_invalid

-- `ValidateSSHPort`.
unfoldable pub validate_ssh_port : ℤ → Option Error
validate_ssh_port port =
    if ltb_ℤ port (pos 1) || ltb_ℤ (pos 65535) port then some port_invalid else none

-- `ValidateSSHUser`.
unfoldable pub validate_ssh_user : String → Option Error
validate_ssh_user user = if str_eq user "" then some user_required else none

-- `ValidateCapabilities`.
unfoldable pub validate_capabilities : List String → Option Error
validate_capabilities [] = some capabilities_required
validate_capabilities (cap ∷ caps) =
    if any (λ c. str_eq c "") (cap ∷ caps) then some capability_empty else none

-- `if err := ...; err != nil { return nil, err }`.
abbrev check : {A : Type 0} → Option Error → Result Error A → Result Error A
check none rest = rest
check (some e) rest = err e

module _ (fl : Float64) (is_ip is_hostname : String → Bool) where
  -- `NewNode`; `reference_id` is what `GenerateNodeID` answers.
  unfoldable pub new_node :
      String
      → ℕ
      → ℕ
      → Text
      → (ssh_host ssh_user : String) → ℤ
      → List String
      → Result Error (Node fl.F)
  new_node reference_id now creator_id name ssh_host ssh_user ssh_port capabilities =
      check (validate_node_name name) (
        check (validate_ssh_host is_ip is_hostname ssh_host) (
          check (validate_ssh_port ssh_port) (
            check (validate_ssh_user ssh_user) (
              check (validate_capabilities capabilities) (
                if creator_id == 0
                then err creator_required
                else ok (record {
                  id = 0;
                  reference_id = reference_id;
                  name = name;
                  creator_id = creator_id;
                  ssh_host = ssh_host;
                  ssh_port = ssh_port;
                  ssh_user = ssh_user;
                  ssh_key_id = 0;
                  ssh_key_ref_id = "";
                  docker_socket = "/var/run/docker.sock";
                  status = offline;
                  capabilities = capabilities;
                  capacity = record {
                    cpu_cores = fl.of_int (pos 0);
                    memory_mb = pos 0;
                    disk_mb = pos 0;
                    cpu_used = fl.of_int (pos 0);
                    memory_used_mb = pos 0;
                    disk_used_mb = pos 0;
                  };
                  location = "";
                  last_health_check = none;
                  error_message = "";
                  provider_type = "";
                  provision_id = "";
                  base_domain = "";
                  created_at = now;
                  updated_at = now;
                }))))))
