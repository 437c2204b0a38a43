-- ===== src/Auth.antt =====
-- internal/core/auth/authorization.go, and the types of internal/core/auth/context.go: who may do what,
-- and the limits of a plan.
--
-- `float64` is the parameter `fl`; memory and disk are `int64`, whose sums wrap around. A count is an
-- integer. The texts that fmt.Sprintf writes are constructors that hold its arguments.
pub mod Rights
pub mod Limits
use hoster.Prelude.{ℕ, String, Bool, true, false, List, ◌&&◌, not, ◌==◌, if◌then◌else◌}
use hoster.Prelude.Float.{Float64}
use hoster.Prelude.Int.{ℤ, add64, ltb_ℤ, leb_ℤ}
use hoster.Deployment as Domain
use hoster.Deployment.{Deployment}
use hoster.Template.{Template}
use hoster.Node.{Node}
use hoster.Provision.{CloudCredential, CloudProvision}

pub record PlanLimits (F : Type 0) : Type 0 where
  pub max_deployments : ℤ
  pub max_cpu_cores : F
  pub max_memory_mb : ℤ
  pub max_disk_mb : ℤ
  pub allowed_capabilities : List String

pub record Context (F : Type 0) : Type 0 where
  pub user_id : ℕ
  pub reference_id : String
  pub plan_id : String
  pub plan_limits : PlanLimits F
  pub key_id : String
  pub organization_id : String
  pub authenticated : Bool

pub record Resources (F : Type 0) : Type 0 where
  pub cpu_cores : F
  pub memory_mb : ℤ
  pub disk_mb : ℤ

pub data Reason (F : Type 0) : Type 0 where
  no_reason authentication_required : Reason F
  plan_limit_reached : ℤ → Reason F
  cpu_exceeded : F → F → Reason F
  memory_exceeded disk_exceeded : ℤ → ℤ → Reason F

-- SSHKey of internal/core/domain/node.go.
pub record SshKey : Type 0 where
  pub id : ℕ
  pub reference_id : String
  pub creator_id : ℕ
  pub name : String
  pub private_key_encrypted : List ℕ
  pub fingerprint : String
  pub created_at : ℕ

module _ {F : Type 0} where
  -- The test that the functions repeat: the user is logged in and is the owner.
  abbrev pub is_owner : Context F → ℕ → Bool
  is_owner ctx owner = ctx.authenticated && ctx.user_id == owner

  -- `CanViewTemplate`.
  unfoldable pub can_view_template : Context F → Template F → Bool
  can_view_template ctx template =
      if template.published then true else is_owner ctx template.creator_id

  -- `CanModifyTemplate`.
  unfoldable pub can_modify_template : Context F → Template F → Bool
  can_modify_template ctx template = is_owner ctx template.creator_id

  -- `CanDeleteTemplate`.
  unfoldable pub can_delete_template : Context F → Template F → Bool
  can_delete_template ctx template = is_owner ctx template.creator_id

  -- `CanPublishTemplate`.
  unfoldable pub can_publish_template : Context F → Template F → Bool
  can_publish_template ctx template = is_owner ctx template.creator_id

  -- `CanViewDeployment`.
  unfoldable pub can_view_deployment : Context F → Deployment F → Bool
  can_view_deployment ctx deployment = is_owner ctx deployment.customer_id

  -- `CanManageDeployment`.
  unfoldable pub can_manage_deployment : Context F → Deployment F → Bool
  can_manage_deployment ctx deployment = is_owner ctx deployment.customer_id

  -- `CanDeleteDeployment`.
  unfoldable pub can_delete_deployment : Context F → Deployment F → Bool
  can_delete_deployment ctx deployment = is_owner ctx deployment.customer_id

  -- `CanViewNode`.
  unfoldable pub can_view_node : Context F → Node F → Bool
  can_view_node ctx node = is_owner ctx node.creator_id

  -- `CanManageNode`.
  unfoldable pub can_manage_node : Context F → Node F → Bool
  can_manage_node ctx node = is_owner ctx node.creator_id

  -- `CanViewSSHKey`.
  unfoldable pub can_view_ssh_key : Context F → SshKey → Bool
  can_view_ssh_key ctx key = is_owner ctx key.creator_id

  -- `CanManageSSHKey`.
  unfoldable pub can_manage_ssh_key : Context F → SshKey → Bool
  can_manage_ssh_key ctx key = is_owner ctx key.creator_id

  -- `CanViewCloudCredential`.
  unfoldable pub can_view_cloud_credential : Context F → CloudCredential → Bool
  can_view_cloud_credential ctx cred = is_owner ctx cred.creator_id

  -- `CanManageCloudCredential`.
  unfoldable pub can_manage_cloud_credential : Context F → CloudCredential → Bool
  can_manage_cloud_credential ctx cred = is_owner ctx cred.creator_id

  -- `CanViewCloudProvision`.
  unfoldable pub can_view_cloud_provision : Context F → CloudProvision → Bool
  can_view_cloud_provision ctx prov = is_owner ctx prov.creator_id

  -- `CanManageCloudProvision`.
  unfoldable pub can_manage_cloud_provision : Context F → CloudProvision → Bool
  can_manage_cloud_provision ctx prov = is_owner ctx prov.creator_id

  -- `CanCreateNode`.
  unfoldable pub can_create_node : Context F → Bool
  can_create_node ctx = ctx.authenticated

  -- `CanCreateSSHKey`.
  unfoldable pub can_create_ssh_key : Context F → Bool
  can_create_ssh_key ctx = ctx.authenticated

  -- `CanCreateCloudCredential`.
  unfoldable pub can_create_cloud_credential : Context F → Bool
  can_create_cloud_credential ctx = ctx.authenticated

  -- `CanCreateCloudProvision`.
  unfoldable pub can_create_cloud_provision : Context F → Bool
  can_create_cloud_provision ctx = ctx.authenticated

  -- `RequireAuthentication`.
  unfoldable pub require_authentication : Context F → Bool × Reason F
  require_authentication ctx =
      if not ctx.authenticated then (false, authentication_required) else (true, no_reason)

  -- `CanCreateDeployment`.
  unfoldable pub can_create_deployment : Context F → ℤ → Bool × Reason F
  can_create_deployment ctx count =
      if not ctx.authenticated
      then (false, authentication_required)
      else if leb_ℤ ctx.plan_limits.max_deployments count
      then (false, plan_limit_reached ctx.plan_limits.max_deployments)
      else (true, no_reason)

  -- `ResourcesFromDomain`.
  unfoldable pub resources_from_domain : Domain.Resources F → Resources F
  resources_from_domain r = record {
    cpu_cores = r.cpu_cores;
    memory_mb = r.memory_mb;
    disk_mb = r.disk_mb;
  }

module _ (fl : Float64) where
  -- `ValidateResourceLimits`.
  unfoldable pub validate_resource_limits :
      Context fl.F → Resources fl.F → Resources fl.F → Bool × Reason fl.F
  validate_resource_limits ctx current requested =
      let cpu = fl.add current.cpu_cores requested.cpu_cores in
      let memory = add64 current.memory_mb requested.memory_mb in
      let disk = add64 current.disk_mb requested.disk_mb in
      let limits = ctx.plan_limits in
      if not ctx.authenticated
      then (false, authentication_required)
      else if fl.lt limits.max_cpu_cores cpu
      then (false, cpu_exceeded cpu limits.max_cpu_cores)
      else if ltb_ℤ limits.max_memory_mb memory
      then (false, memory_exceeded memory limits.max_memory_mb)
      else if ltb_ℤ limits.max_disk_mb disk
      then (false, disk_exceeded disk limits.max_disk_mb)
      else (true, no_reason)
