-- ===== src/Engine/Handlers.antt =====
-- The handlers of internal/engine/handlers.go for deployments, on the state of the database.
--
-- A handler takes the row that the bus dispatched and returns its error, `none` for nil, with the
-- state after it. What is only logged is left out, and so is the pool of Docker clients where its
-- answer is. The text of a reason (fmt.Sprintf), the JSON of the domains, and what a node's
-- orchestrator comes to (Docker models it) are parameters.
pub mod Stuck
pub mod Ports
pub mod Provisions
use hoster.Prelude.{
  ℕ, String, Bool, true, false, Option, none, some, List, [], ◌∷◌, ◌++◌, ◌&&◌, str_eq, not,
  if◌then◌else◌, Result, ok, err, ◌==◌,
}
use hoster.Prelude.Dict.{lookup}
use hoster.Prelude.Int.{ℤ, pos, negsuc}
use hoster.Prelude.Text.{Text, codes}
use hoster.Deployment.{Domain}
use hoster.Deployment.Create.{generate_domain}
use hoster.Proxy.{allocate_port, default_port_range}
use hoster.Engine.{Value, null, text, int, int64, float64, Row, Error, invalid_transition}
use hoster.Engine.Store.{Store, get, get_by_id, update, transition}

pub data Reason : Type 0 where
  no_node no_node_pool no_template no_compose_spec : Reason
  node_not_found : String → Reason
  node_not_online : String → String → Reason
  no_client start_failed : Text → Reason

pub data HandlerError : Type 0 where
  failed : String → Reason → HandlerError
  no_port : HandlerError
  refused : Error → HandlerError

-- `NodePool.GetClient`, and the orchestrator of the client with the row of the deployment and that of
-- its template: the JSON of the containers.
pub record Nodes (S : Type 0) : Type 0 where
  pub client_error : S → String → Option Text
  pub start : S → Row → Row → Result Text String × S
  pub stop : S → Row → S
  pub remove : S → Row → S

pub record Deps (S : Type 0) : Type 0 where
  pub store : Store S
  pub node_pool : Option (Nodes S)
  pub base_domain : String
  pub marshal_domain : Domain → String
  pub reason_text : Reason → String
  pub bill : S → Row → String → S

-- `v, _ := x.(string)`.
abbrev pub string_of : Option Value → String
string_of (some (text s)) = s
string_of _ = ""

-- `toInt`.
unfoldable pub to_int : Option Value → ℤ
to_int (some (int n)) = n
to_int (some (int64 n)) = n
to_int (some (float64 n nought)) = n
to_int _ = pos 0

-- The positive ports of the rows.
unfoldable pub ports_of : List Row → List ℕ
unfolding to_int
ports_of [] = []
ports_of (row ∷ rows) =
    let rest = ports_of rows in
    elim (to_int (lookup "proxy_port" row)) [
      | pos n ↦ if n == 0 then rest else n ∷ rest
      | negsuc n ↦ rest
    ]

-- The domains of a row; a missing column reads as nil.
abbrev domains_or : Option Value → Option Value
domains_or none = none
domains_or (some null) = none
domains_or (some v) = some v

abbrev with_domains : Option Value → Row → Row
with_domains none row = row
with_domains (some v) row = row ++ ("domains", v) ∷ []

module _ {S : Type 0} (d : Deps S) where
  -- `failDeployment`. The errors of its two calls are dropped.
  unfoldable pub fail_deployment : S → String → Reason → Option HandlerError × S
  fail_deployment s ref reason =
      let noted =
        (update d.store s "deployments" ref
          (("error_message", text (d.reason_text reason)) ∷ [])).1 in
      (some (failed ref reason), (transition d.store noted "deployments" ref "failed").1)

  -- `getUsedProxyPorts`; an error is only logged, and no port is used then.
  unfoldable pub get_used_proxy_ports : S → String → List ℕ
  unfolding ports_of
  get_used_proxy_ports s node = elim (d.store.db.used_proxy_ports s node) [
    | err e ↦ []
    | ok rows ↦ ports_of rows
  ]

  -- The proxy port of a deployment: its own, or a free one.
  unfoldable pub choose_port : S → String → Row → Result HandlerError ℤ
  unfolding get_used_proxy_ports to_int
  choose_port s node row = elim (to_int (lookup "proxy_port" row)) [
    | pos n ↦
        let free = allocate_port (get_used_proxy_ports s node) default_port_range in
        if n == 0 then elim free [ err e ↦ err no_port | ok p ↦ ok p ] else ok (pos n)
    | negsuc n ↦ ok (negsuc n)
  ]

  unfoldable pub choose_domains : Row → Option Value
  choose_domains row = elim (domains_or (lookup "domains" row)) [
    | some v ↦ some v
    | none ↦
        let name = codes (string_of (lookup "name" row)) in
        if str_eq d.base_domain ""
        then none
        else some (text (d.marshal_domain (generate_domain name (codes d.base_domain))))
  ]

  -- `recordBillingEvent`.
  unfoldable pub record_billing_event : S → Row → String → S
  unfolding to_int
  record_billing_event s row event =
      let named = not (str_eq (string_of (lookup "reference_id" row)) "") in
      let billed = if named then d.bill s row event else s in
      elim (to_int (lookup "customer_id" row)) [
        | pos n ↦ if n == 0 then s else billed
        | negsuc n ↦ billed
      ]

  -- A transition whose error is only logged, with the event that is recorded after it.
  unfoldable pub finish_with : S → String → Row → String → String → S
  unfolding record_billing_event
  finish_with s ref row to event =
      let moved = transition d.store s "deployments" ref to in
      elim moved.0 [ err e ↦ moved.1 | ok x ↦ record_billing_event moved.1 row event ]

  -- `startDeployment` with the client of the node and the template on.
  unfoldable pub start_on : Nodes S → S → Row → String → Row → Option HandlerError × S
  unfolding fail_deployment finish_with
  start_on pool s row ref template =
      let run = pool.start s row template in
      elim run.0 [
        | err e ↦ fail_deployment run.1 ref (start_failed e)
        | ok containers ↦
            let noted =
              (update d.store run.1 "deployments" ref (
                ("containers", text containers)
                ∷ ("started_at", text (d.store.now run.1))
                ∷ [])).1 in
            (none, finish_with noted ref row "running" "deployment.started")
      ]

  -- `startDeployment`.
  unfoldable pub start_deployment : S → Row → Option HandlerError × S
  unfolding start_on fail_deployment to_int
  start_deployment s row =
      let ref = string_of (lookup "reference_id" row) in
      let node = string_of (lookup "node_id" row) in
      elim d.node_pool [
        | none ↦ fail_deployment s ref no_node_pool
        | some pool ↦ elim (pool.client_error s node) [
          | some e ↦ fail_deployment s ref (no_client e)
          | none ↦ elim (get_by_id d.store s "templates" (to_int (lookup "template_id" row))) [
            | err e ↦ fail_deployment s ref no_template
            | ok template ↦
                if str_eq (string_of (lookup "compose_spec" template)) ""
                then fail_deployment s ref no_compose_spec
                else start_on pool s row ref template
          ]
        ]
      ]

  -- `scheduleDeployment` after the transition to starting.
  unfoldable pub dispatch_start : Result Error (Row × String) × S → String → Option HandlerError × S
  unfolding start_deployment
  dispatch_start (err e, s) ref = (some (refused e), s)
  dispatch_start (ok (row, command), s) ref =
      let start : Option HandlerError × S = elim (get d.store s "deployments" ref) [
        | err e ↦ (none, s)
        | ok fresh ↦ start_deployment s fresh
      ] in
      if str_eq command "" then (none, s) else start

  -- `scheduleDeployment` with a port on.
  unfoldable pub assign_node : S → Row → String → String → ℤ → Option HandlerError × S
  unfolding choose_domains dispatch_start
  assign_node s row ref node port =
      let updates =
        with_domains (choose_domains row)
          (("node_id", text node) ∷ ("proxy_port", int port) ∷ []) in
      let assigned = (update d.store s "deployments" ref updates).1 in
      dispatch_start (transition d.store assigned "deployments" ref "starting") ref

  -- `scheduleDeployment`.
  unfoldable pub schedule_deployment : S → Row → Option HandlerError × S
  unfolding fail_deployment choose_port assign_node
  schedule_deployment s row =
      let ref = string_of (lookup "reference_id" row) in
      let node = string_of (lookup "node_id" row) in
      let selected : Option HandlerError × S = elim (get d.store s "nodes" node) [
        | err e ↦ fail_deployment s ref (node_not_found node)
        | ok found ↦
            let status = string_of (lookup "status" found) in
            let go : Option HandlerError × S = elim (choose_port s node row) [
              | err e ↦ (some e, s)
              | ok port ↦ assign_node s row ref node port
            ] in
            if not (str_eq status "online")
            then fail_deployment s ref (node_not_online node status)
            else go
      ] in
      if str_eq node "" then fail_deployment s ref no_node else selected

  -- The work of a pool on a node, if there are both and the pool has a client of the node.
  abbrev on_node : (Nodes S → S → Row → S) → S → Row → S
  on_node work s row =
      let node = string_of (lookup "node_id" row) in
      elim d.node_pool [
        | none ↦ s
        | some pool ↦
            let done : S = elim (pool.client_error s node) [
              | some e ↦ s
              | none ↦ work pool s row
            ] in
            if str_eq node "" then s else done
      ]

  -- `stopDeployment`. Its errors are only logged.
  unfoldable pub stop_deployment : S → Row → S
  unfolding finish_with
  stop_deployment s row =
      let ref = string_of (lookup "reference_id" row) in
      let stopped = on_node (λ pool. pool.stop) s row in
      let noted =
        (update d.store stopped "deployments" ref
          (("stopped_at", text (d.store.now stopped)) ∷ [])).1 in
      finish_with noted ref row "stopped" "deployment.stopped"

  -- `deleteDeployment`. Its errors are only logged.
  unfoldable pub delete_deployment : S → Row → S
  unfolding finish_with
  delete_deployment s row =
      let ref = string_of (lookup "reference_id" row) in
      finish_with (on_node (λ pool. pool.remove) s row) ref row "deleted" "deployment.deleted"
