-- ===== src/Server.antt =====
-- internal/shell/proxy/server.go: what the proxy does with a request, with the errors of
-- internal/core/proxy/errors.go.
--
-- The database (`GetDeploymentByDomain`, `GetNodeSSHHost`), strings.EqualFold, the decimal digits of
-- fmt.Sprintf and the success of url.Parse are parameters. The answer is the page that is served, or
-- the target to which the request is forwarded.
pub mod Routing
use hoster.Prelude.{
  ℕ, String, Bool, true, false, Option, none, some, [], ◌++◌, ◌&&◌, not, find, if◌then◌else◌,
  str_eq, Result, ok, err,
}
use hoster.Prelude.Text.{Text, codes}
use hoster.Deployment.{
  Deployment, Domain, DomainType, VerificationStatus, Status, pending, scheduled, starting, running,
  stopping, stopped, deleting, deleted, failed, other,
}
use hoster.Proxy.{ProxyTarget, can_route, is_local, parse, last_colon}

pub data ProxyErrorType : Type 0 where
  not_found app_stopped unavailable upstream_timeout upstream_error verification_pending :
      ProxyErrorType

pub record ProxyError : Type 0 where
  pub type : ProxyErrorType
  pub hostname : Text
  pub message : Text
  pub status_code : ℕ

-- `NewNotFoundError`.
abbrev pub new_not_found_error : Text → ProxyError
new_not_found_error hostname = record {
  type = not_found;
  hostname = hostname;
  message = codes "app not found: " ++ hostname;
  status_code = 404;
}

-- `NewStoppedError`.
abbrev pub new_stopped_error : Text → ProxyError
new_stopped_error hostname = record {
  type = app_stopped;
  hostname = hostname;
  message = codes "app is stopped: " ++ hostname;
  status_code = 503;
}

-- `NewUnavailableError`.
abbrev pub new_unavailable_error : Text → ProxyError
new_unavailable_error hostname = record {
  type = unavailable;
  hostname = hostname;
  message = codes "app unavailable: " ++ hostname;
  status_code = 503;
}

-- `NewVerificationPendingError`.
abbrev pub new_verification_pending_error : Text → ProxyError
new_verification_pending_error hostname = record {
  type = verification_pending;
  hostname = hostname;
  message = codes "DNS verification pending for " ++ hostname;
  status_code = 403;
}

-- The errors of the database: engine.ErrNotFound, or any other.
pub data StoreError : Type 0 where
  missing broken : StoreError

-- An error of `resolveTarget`: a `ProxyError`, or one of the database.
pub data Error : Type 0 where
  proxy_error : ProxyError → Error
  store_error : Error

-- The constants of `DeploymentStatus`.
abbrev pub status_text : Status → String
status_text pending = "pending"
status_text scheduled = "scheduled"
status_text starting = "starting"
status_text running = "running"
status_text stopping = "stopping"
status_text stopped = "stopped"
status_text deleting = "deleting"
status_text deleted = "deleted"
status_text failed = "failed"
status_text (other s) = s

abbrev pub is_custom : Domain → Bool
is_custom d = elim d.type [ DomainType.custom ↦ true | _ ↦ false ]

abbrev pub is_verified : Domain → Bool
is_verified d = elim d.verification_status [ VerificationStatus.verified ↦ true | _ ↦ false ]

pub record Request : Type 0 where
  pub host : Text
  pub path : String
  pub method : String

pub data Response : Type 0 where
  health : Response
  refused : ProxyError → Response
  forwarded : ProxyTarget → Response

-- The hostname up to its last colon.
abbrev pub strip_last_colon : Text → Text
strip_last_colon hostname = elim (last_colon hostname) [
  | none ↦ hostname
  | some (before, after) ↦ before
]

-- What the server calls.
pub record World (F : Type 0) : Type 0 where
  pub get_deployment_by_domain : Text → Result StoreError (Deployment F)
  pub get_node_ssh_host : String → Option String
  pub equal_fold : Text → Text → Bool
  pub digits : ℕ → String
  pub is_url : ProxyTarget → Bool

module _ {F : Type 0} (w : World F) where
  -- The first custom domain of a deployment that is the name of the request.
  abbrev pub custom_domain : Deployment F → Text → Option Domain
  custom_domain deployment hostname =
      find (λ d. w.equal_fold d.hostname hostname && is_custom d) deployment.domains

  abbrev pub base_target : Deployment F → ProxyTarget
  base_target deployment = record {
    deployment_id = deployment.reference_id;
    node_id = deployment.node_id;
    node_ip = "";
    port = deployment.proxy_port;
    status = status_text deployment.status;
    customer_id = w.digits deployment.customer_id;
  }

  abbrev pub with_ip : ProxyTarget → Text → Option String → Result Error ProxyTarget
  with_ip target hostname none = err (proxy_error (new_unavailable_error hostname))
  with_ip target hostname (some ip) = ok (record target { node_ip = ip })

  -- The end of `resolveTarget`: the address of a node that is not this one.
  abbrev pub locate : Deployment F → Text → Result Error ProxyTarget
  locate deployment hostname =
      let target = base_target deployment in
      if not (is_local target) && not (str_eq deployment.node_id "")
      then with_ip target hostname (w.get_node_ssh_host deployment.node_id)
      else ok target

  abbrev pub check_domain : Deployment F → Text → Option Domain → Result Error ProxyTarget
  check_domain deployment hostname none = locate deployment hostname
  check_domain deployment hostname (some d) =
      let target = locate deployment hostname in
      if not (is_verified d)
      then err (proxy_error (new_verification_pending_error hostname))
      else target

  abbrev pub found : Text → Result StoreError (Deployment F) → Result Error ProxyTarget
  found hostname (err missing) = err (proxy_error (new_not_found_error hostname))
  found hostname (err broken) = err store_error
  found hostname (ok deployment) =
      check_domain deployment hostname (custom_domain deployment hostname)

  -- `resolveTarget`; the slug is not used.
  unfoldable pub resolve_target : Text → Text → Result Error ProxyTarget
  resolve_target slug hostname = found hostname (w.get_deployment_by_domain hostname)

  abbrev pub answer : Text → Result Error ProxyTarget → Response
  answer hostname (err (proxy_error e)) = refused e
  answer hostname (err store_error) = refused (new_unavailable_error hostname)
  answer hostname (ok target) =
      if not (can_route target)
      then refused (new_stopped_error hostname)
      else if not (w.is_url target)
      then refused (new_unavailable_error hostname)
      else forwarded target

  -- `ServeHTTP`, for a parser with the base domain.
  unfoldable pub serve_http : Text → Request → Response
  serve_http base_domain r =
      let bare = strip_last_colon r.host in
      let custom = resolve_target [] bare in
      if str_eq r.path "/health" && str_eq r.method "GET"
      then health
      else answer r.host
          (elim (parse base_domain r.host) [ some slug ↦ resolve_target slug bare | none ↦ custom ])
