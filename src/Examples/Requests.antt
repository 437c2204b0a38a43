-- ===== src/Examples/Requests.antt =====
-- The theorems about the proxy at sample requests (internal/core/proxy, internal/shell/proxy).
use hoster.Prelude.{
  ℕ, arith, ◌≡◌, ◌≢◌, refl, ◌⊎◌, ◌<◌, String, true, false, none, some, List, [], ◌∷◌, ◌++◌, ok, err,
}
use hoster.Prelude.Int.{pos}
use hoster.Prelude.Text.{Text, codes, text_eq}
use hoster.Deployment.{Deployment, Domain, running}
use hoster.Deployment.Create.{generate_domain}
use hoster.Template.Slug.{slugify}
use hoster.Proxy.{
  PortRange, allocate_port, validate_port, is_used, no_ports_available, parse, is_port, ProxyTarget,
  can_route, last_colon, is_local,
}
use hoster.Proxy.Ports.{IsFirstFree, allocate_port_cases}
use hoster.Proxy.Hostnames.{suffix, with_port, generate_domain-parse, parse_sound}
use hoster.Server.{
  World, Request, refused, ProxyError, missing, status_text, is_verified, custom_domain,
  strip_last_colon, serve_http, resolve_target,
}
use hoster.Server.Routing.{forwarded_sound, not_found_iff}
use hoster.Examples.{deployment_at}

abbrev three_ports : PortRange
three_ports = record { start = 30000; end = 30002 }

abbrev one_used : List ℕ
one_used = 30000 ∷ []

allocate_port_cases_example :
    ((p : ℕ) × (allocate_port one_used three_ports ≡ ok (pos p))
      × (validate_port p three_ports ≡ true)
      × IsFirstFree one_used 30000 p)
    ⊎ ((allocate_port one_used three_ports ≡ err no_ports_available)
        × ((q : ℕ) → validate_port q three_ports ≡ true → is_used one_used q ≡ true))
allocate_port_cases_example = allocate_port_cases one_used three_ports (omega arith)

abbrev base : Text
base = codes "apps.hoster.io"

generate_domain-parse_example :
    let host = (generate_domain (codes "My Blog") base).hostname in
    (parse base host ≡ some (slugify (codes "My Blog")))
    × (parse base (with_port host (codes "80")) ≡ some (slugify (codes "My Blog")))
unfolding slugify
generate_domain-parse_example =
    generate_domain-parse (codes "My Blog") base (codes "80") (λ e. cc) refl refl

parse_sound_example :
    (codes "blog" ≢ [])
    × ((codes "blog.apps.hoster.io" ≡ codes "blog" ++ suffix base)
        ⊎ ((port : Text) × (is_port port ≡ true)
            × (codes "blog.apps.hoster.io" ≡ with_port (codes "blog" ++ suffix base) port)))
unfolding parse last_colon
parse_sound_example = parse_sound base (codes "blog.apps.hoster.io") (codes "blog") refl

-- A database with one deployment, which runs here.
abbrev one_app : World ℕ
one_app = record {
  get_deployment_by_domain = λ host. elim (text_eq host (codes "blog.apps.hoster.io")) [
    | true ↦ ok (deployment_at running "local")
    | false ↦ err missing
  ];
  get_node_ssh_host = λ n. none;
  equal_fold = text_eq;
  digits = λ n. "5";
  is_url = λ t. true;
}

abbrev get : String → Request
get host = record { host = codes host; path = "/"; method = "GET" }

abbrev blog_target : ProxyTarget
blog_target = record {
  deployment_id = "depl_7";
  node_id = "local";
  node_ip = "";
  port = 30000;
  status = "running";
  customer_id = "5";
}

forwarded_sound_example :
    (d : Deployment ℕ) × (one_app.get_deployment_by_domain
        (strip_last_colon (codes "blog.apps.hoster.io:80"))
      ≡ ok d)
    × (status_text d.status ≡ "running")
    × (0 < d.proxy_port)
    × (30000 ≡ d.proxy_port)
    × ("depl_7" ≡ d.reference_id)
    × ((c : Domain)
        → custom_domain one_app d (strip_last_colon (codes "blog.apps.hoster.io:80")) ≡ some c
        → is_verified c ≡ true)
unfolding serve_http resolve_target parse last_colon can_route is_local
forwarded_sound_example =
    forwarded_sound one_app base (get "blog.apps.hoster.io:80") blog_target refl

not_found_iff_example :
    (e : ProxyError) × (serve_http one_app base (get "shop.apps.hoster.io") ≡ refused e)
    × (e.status_code ≡ 404)
unfolding last_colon
not_found_iff_example = (not_found_iff one_app base (get "shop.apps.hoster.io")).1 (refl, refl)
