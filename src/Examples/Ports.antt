-- ===== src/Examples/Ports.antt =====
-- The theorem about the port that scheduleDeployment chooses at a sample table
-- (internal/engine/handlers.go).
use hoster.Prelude.{ℕ, ◌≤◌, ◌≡◌, ◌≢◌, ◌⊎◌, refl, some, none, [], ◌∷◌, ok}
use hoster.Prelude.Int.{pos}
use hoster.Engine.{text, int64, Row}
use hoster.Engine.Store.{
  Database, get, get_by_field, decode_row, decode_bytes, change_fields, change,
}
use hoster.Engine.Handlers.{Deps, no_port, to_int, assign_node, schedule_deployment}
use hoster.Engine.Handlers.Ports.{IsFree, IsTaken, schedule_deployment_port}

-- One node, which is online, and a deployment on it at the first port.
abbrev online_node : Database Row
online_node = record {
  select = λ s table name v. ok (some (("status", text "online") ∷ []));
  update = λ s table columns ref. (ok 0, s);
  delete_row = λ s table ref. (ok 0, s);
  used_proxy_ports = λ s node. ok ((("proxy_port", int64 (pos 30000)) ∷ []) ∷ []);
}

abbrev deps : Deps Row
deps = record {
  store = record {
    db = online_node;
    schema =
        λ name. some (record { name = name; ref_prefix = ""; fields = []; state_machine = none });
    now = λ s. "2024-01-01T00:00:00Z";
    parse_json = λ t. none;
    parse_time = λ t. none;
    marshal = λ v. ok "{}";
  };
  node_pool = none;
  base_domain = "";
  marshal_domain = λ d. "";
  reason_text = λ r. "reason";
  bill = λ s row event. s;
}

abbrev unported : Row
unported = ("reference_id", text "depl_7") ∷ ("node_id", text "node_1") ∷ []

schedule_deployment_port_example :
    ((pos 0 ≡ pos 0)
      × (((p : ℕ) × (schedule_deployment deps unported unported
              ≡ assign_node deps unported unported "depl_7" "node_1" (pos p))
            × IsFree deps unported "node_1" p)
          ⊎ ((schedule_deployment deps unported unported ≡ (some no_port, unported))
              × ((q : ℕ) → 30000 ≤ q → q ≤ 39999 → IsTaken deps unported "node_1" q))))
    ⊎ ((pos 0 ≢ pos 0)
        × (schedule_deployment deps unported unported
            ≡ assign_node deps unported unported "depl_7" "node_1" (pos 0)))
unfolding get get_by_field decode_row decode_bytes change_fields change to_int
schedule_deployment_port_example =
    schedule_deployment_port deps unported unported (("status", text "online") ∷ []) (λ e. cc) refl
      refl
