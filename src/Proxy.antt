-- ===== src/Proxy.antt =====
-- internal/core/proxy: the ports of deployments (ports.go), the names under which they are reached
-- (resolver.go) and the target of a request (target.go).
--
-- A hostname is the list of its bytes. A port that is given is a natural number.
pub mod Ports
pub mod Hostnames
use hoster.Prelude.{
  ℕ, zero, suc, ◌+◌, ◌-◌, String, Bool, Option, none, some, List, [], ◌∷◌, ◌++◌, ◌&&◌, ◌||◌, not,
  any, all, if◌then◌else◌, str_eq, ltb, leb, ◌==◌, Result, ok, err,
}
use hoster.Prelude.Int.{ℤ, pos, negsuc}
use hoster.Prelude.Text.{Text, codes, is_empty, is_digit, strip_suffix}

pub data Error : Type 0 where
  no_ports_available : Error

pub record PortRange : Type 0 where
  pub start : ℕ
  pub end : ℕ

-- `DefaultPortRange`.
abbrev pub default_port_range : PortRange
default_port_range = record { start = 30000; end = 39999 }

abbrev pub is_used : List ℕ → ℕ → Bool
is_used used port = any (λ p. p == port) used

abbrev pub max_int : ℕ
max_int = 9223372036854775807

abbrev pub min_int : ℤ
min_int = negsuc max_int

-- The loop of `AllocatePort`, from `port` on. A range and the ports in use are not negative, so where
-- `port++` wraps around the loop ends at the least int, which is below `End` and not in use. It takes
-- fuel for the ports that are left.
unfoldable pub allocate_from : ℕ → List ℕ → ℕ → ℕ → Result Error ℤ
allocate_from zero used end port = err no_ports_available
allocate_from (suc fuel) used end port =
    let rest = allocate_from fuel used end (suc port) in
    let next = if port == max_int then ok min_int else rest in
    if leb port end
    then if not (is_used used port) then ok (pos port) else next
    else err no_ports_available

-- `AllocatePort`.
unfoldable pub allocate_port : List ℕ → PortRange → Result Error ℤ
allocate_port used range = allocate_from (suc range.end - range.start) used range.end range.start

-- `ValidatePort`.
unfoldable pub validate_port : ℕ → PortRange → Bool
validate_port port range = leb range.start port && leb port range.end

-- strings.LastIndex(s, ":"), as the texts before and after it.
unfoldable pub last_colon : Text → Option (Text × Text)
last_colon [] = none
last_colon (c ∷ s) = elim (last_colon s) [
  | some (before, after) ↦ some (c ∷ before, after)
  | none ↦ if c == b':' then some ([], s) else none
]

abbrev pub is_port : Text → Bool
is_port s = not (is_empty s) && all is_digit s

abbrev pub without_port : Text → Option (Text × Text) → Text
without_port hostname none = hostname
without_port hostname (some (before, after)) = if is_port after then before else hostname

abbrev pub not_empty : Option Text → Option Text
not_empty none = none
not_empty (some []) = none
not_empty (some (c ∷ s)) = some (c ∷ s)

-- `HostnameParser.Parse`, with the parser's base domain.
unfoldable pub parse : Text → Text → Option Text
parse base_domain hostname =
    if is_empty hostname
    then none
    else not_empty
        (strip_suffix (codes "." ++ base_domain) (without_port hostname (last_colon hostname)))

pub record ProxyTarget : Type 0 where
  pub deployment_id : String
  pub node_id : String
  pub node_ip : String
  pub port : ℕ
  pub status : String
  pub customer_id : String

-- `CanRoute`.
unfoldable pub can_route : ProxyTarget → Bool
can_route t = str_eq t.status "running" && ltb 0 t.port

-- `IsLocal`.
unfoldable pub is_local : ProxyTarget → Bool
is_local t = str_eq t.node_id "" || str_eq t.node_id "local"
