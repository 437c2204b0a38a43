-- ===== src/Engine/Handlers/Ports.antt =====
-- The proxy port that scheduleDeployment of internal/engine/handlers.go gives a deployment.
use hoster.Prelude.{
  ℕ, zero, suc, ◌≤◌, ◌<◌, ◌≡◌, ◌≢◌, ◌↔◌, refl, ◌⊎◌, inl, inr, String, true, false, some, List, [],
  ◌∷◌, ok, err, arith, Some, sym, subst, Result-cases, str_eq, str_eq_iff,
}
use hoster.Prelude.Dict.{lookup}
use hoster.Prelude.Int.{ℤ, pos, negsuc}
use hoster.Proxy.{default_port_range, is_used, validate_port}
use hoster.Proxy.Ports.{allocate_port_cases}
use hoster.Engine.{Row}
use hoster.Engine.Store.{get}
use hoster.Engine.Handlers.{
  Deps, no_port, to_int, string_of, ports_of, get_used_proxy_ports, choose_port, assign_node,
  schedule_deployment,
}

ℤ-cases : (z : ℤ) → (z ≡ pos 0) ⊎ ((n : ℕ) × (z ≡ pos (suc n))) ⊎ ((n : ℕ) × (z ≡ negsuc n))
ℤ-cases (pos zero) = inl refl
ℤ-cases (pos (suc n)) = inr (inl (n, refl))
ℤ-cases (negsuc n) = inr (inr (n, refl))

-- Some row has the port.
abbrev pub HasPort : List Row → ℕ → Type 0
HasPort rows p = Some (λ row. to_int (lookup "proxy_port" row) ≡ pos p) rows

ports_of-HasPort :
    (rows : List Row) (p : ℕ) → (is_used (ports_of rows) (suc p) ≡ true) ↔ HasPort rows (suc p)
unfolding ports_of
ports_of-HasPort [] p = (λ h. cc, λ h. elim h [ ])
ports_of-HasPort (row ∷ rows) p = elim (ℤ-cases (to_int (lookup "proxy_port" row))) [
  | inl e ↦ rw e (ground (arith, ports_of-HasPort rows p))
  | inr (inl (n, e)) ↦ rw e (ground (arith, ports_of-HasPort rows p))
  | inr (inr (n, e)) ↦ rw e (ground (arith, ports_of-HasPort rows p))
]

in_range : (p : ℕ) → validate_port p default_port_range ≡ true → (30000 ≤ p) × (p ≤ 39999)
unfolding validate_port
in_range p v = (ground arith, ground arith)

named : (node : String) → node ≢ "" → str_eq node "" ≡ false
named node n = ground (arith, str_eq_iff node "")

module _ {S : Type 0} (d : Deps S) (s : S) (node : String) where
  -- The query for the node answers, and a row of the answer has the port.
  abbrev pub IsTaken : ℕ → Type 0
  IsTaken p = (rows : List Row) × (d.store.db.used_proxy_ports s node ≡ ok rows) × HasPort rows p

  used-IsTaken : (p : ℕ) → 1 ≤ p → (is_used (get_used_proxy_ports d s node) p ≡ true) ↔ IsTaken p
  unfolding get_used_proxy_ports
  used-IsTaken zero b = absurd (omega arith)
  used-IsTaken (suc p) b = elim (Result-cases (d.store.db.used_proxy_ports s node)) [
    | inl (x, e) ↦ rw (get_used_proxy_ports, e) (λ h. cc, λ (rows, f, m). cc)
    | inr (rows, e) ↦
        rw (get_used_proxy_ports, e)
          (
            λ h. (rows, refl, (ports_of-HasPort rows p).0 h),
            λ (more, f, m).
                let same : rows ≡ more = cc in
                (ports_of-HasPort rows p).1 (subst (λ r. HasPort r (suc p)) (sym same) m),
          )
  ]

  -- The port is the least of the default range that is not taken.
  abbrev pub IsFree : ℕ → Type 0
  IsFree p = (30000 ≤ p) × (p ≤ 39999) × ¬ IsTaken p × ((q : ℕ) → 30000 ≤ q → q < p → IsTaken q)

  choose_port_cases :
      (row : Row)
      → ((to_int (lookup "proxy_port" row) ≡ pos 0)
          × (((p : ℕ) × (choose_port d s node row ≡ ok (pos p)) × IsFree p)
              ⊎ ((choose_port d s node row ≡ err no_port)
                  × ((q : ℕ) → 30000 ≤ q → q ≤ 39999 → IsTaken q))))
        ⊎ ((to_int (lookup "proxy_port" row) ≢ pos 0)
            × (choose_port d s node row ≡ ok (to_int (lookup "proxy_port" row))))
  unfolding choose_port validate_port
  choose_port_cases row =
      let used = get_used_proxy_ports d s node in
      elim (ℤ-cases (to_int (lookup "proxy_port" row))) [
        | inl e ↦ inl (
          e,
          elim (allocate_port_cases used default_port_range (omega arith)) [
            | inl (p, f, v, (free, below)) ↦
                let (low, high) = in_range p v in
                inl (
                  p,
                  rw (e, choose_port) (rw f refl),
                  (
                    low,
                    high,
                    λ t. let u = (used-IsTaken p (omega arith)).1 t in cc,
                    λ q a b. (used-IsTaken q (omega arith)).0 (below q a b),
                  ),
                )
            | inr (f, full) ↦ inr (
              rw (e, choose_port) (rw f refl),
              λ q a b. (used-IsTaken q (omega arith)).0 (full q (ground arith)),
            )
          ],
        )
        | inr (inl (n, e)) ↦ inr (rw e (λ q. ground arith), rw (e, choose_port) (ground arith))
        | inr (inr (n, e)) ↦ inr (rw e (λ q. cc), rw (e, choose_port) refl)
      ]

-- scheduleDeployment on a node that is online. A deployment without a port goes on with the least port
-- from 30000 to 39999 that no row of the query for the node has; if all of them are in the rows, the
-- handler returns an error and changes nothing. A port other than 0 that the deployment has is taken
-- as it is, also if a row has it.
pub schedule_deployment_port :
    {S : Type 0} (d : Deps S) (s : S) (row found : Row)
    → let ref = string_of (lookup "reference_id" row) in
      let node = string_of (lookup "node_id" row) in
      let port = to_int (lookup "proxy_port" row) in
      node ≢ ""
      → get d.store s "nodes" node ≡ ok found
      → string_of (lookup "status" found) ≡ "online"
      → ((port ≡ pos 0)
          × (((p : ℕ) × (schedule_deployment d s row ≡ assign_node d s row ref node (pos p))
                × IsFree d s node p)
              ⊎ ((schedule_deployment d s row ≡ (some no_port, s))
                  × ((q : ℕ) → 30000 ≤ q → q ≤ 39999 → IsTaken d s node q))))
        ⊎ ((port ≢ pos 0) × (schedule_deployment d s row ≡ assign_node d s row ref node port))
unfolding schedule_deployment
schedule_deployment_port d s row found n e o =
    let node = string_of (lookup "node_id" row) in
    let some_node : str_eq node "" ≡ false = named node n in
    elim (choose_port_cases d s node row) [
      | inl (z, inl (p, c, free)) ↦ inl (z, inl (p, rw (some_node, e) (rw o (rw c refl)), free))
      | inl (z, inr (c, full)) ↦ inl (z, inr (rw (some_node, e) (rw o (rw c refl)), full))
      | inr (z, c) ↦ inr (z, rw (some_node, e) (rw o (rw c refl)))
    ]
