-- ===== src/Server/Routing.antt =====
-- Which requests the proxy (internal/shell/proxy/server.go) forwards, and which errors it serves.
use hoster.Prelude.{
  ◌<◌, ◌≡◌, ◌≢◌, refl, sym, ◌∙◌, ◌↔◌, Bool, true, false, Option, none, some, [], ◌&&◌, not, arith,
  str_eq, str_eq_iff, Result, ok, err, Bool-cases, Option-cases, inl, inr, ◌⊎◌,
}
use hoster.Prelude.Text.{Text}
use hoster.Deployment.{Deployment, Domain}
use hoster.Proxy.{ProxyTarget, can_route, is_local, parse}
use hoster.Server.{
  World, Request, Response, ProxyError, new_not_found_error, new_unavailable_error,
  new_verification_pending_error, health, refused, forwarded, StoreError, missing, broken, Error,
  proxy_error, store_error, status_text, is_verified, custom_domain, strip_last_colon,
  resolve_target, serve_http, base_target, locate, check_domain, answer,
}

module _ {F : Type 0} (w : World F) where
  -- The target is the deployment's.
  abbrev pub IsTargetOf : Deployment F → ProxyTarget → Type 0
  IsTargetOf d t =
      (t.status ≡ status_text d.status)
      × (t.port ≡ d.proxy_port)
      × (t.deployment_id ≡ d.reference_id)

  locate_sound :
      (d : Deployment F) (host : Text) (t : ProxyTarget) → locate w d host ≡ ok t → IsTargetOf d t
  locate_sound d host t h = elim (Option-cases (w.get_node_ssh_host d.node_id)) [
    | inl e ↦ ground arith
    | inr (ip, e) ↦ ground arith
  ]

  abbrev pub IsVerified : Deployment F → Text → Type 0
  IsVerified d host = (c : Domain) → custom_domain w d host ≡ some c → is_verified c ≡ true

  found_sound :
      (d : Deployment F) (host : Text) (t : ProxyTarget)
      → check_domain w d host (custom_domain w d host) ≡ ok t
      → IsTargetOf d t × IsVerified d host
  found_sound d host t h = elim (Option-cases (custom_domain w d host)) [
    | inl e ↦ (locate_sound d host t (rw e at h), λ c p. cc)
    | inr (c, e) ↦ elim (Bool-cases (is_verified c)) [
      | inl v ↦ (
        locate_sound d host t (rw v at (rw e at h)),
        λ b p. let same : c ≡ b = cc in rw (← same) v,
      )
      | inr v ↦ cc (rw v at (rw e at h))
    ]
  ]

  answer_sound :
      (host : Text) (res : Result Error ProxyTarget) (t : ProxyTarget)
      → answer w host res ≡ forwarded t
      → (res ≡ ok t) × (can_route t ≡ true)
  answer_sound host (err (proxy_error e)) t h = cc
  answer_sound host (err store_error) t h = cc
  answer_sound host (ok u) t h = ground arith

  resolved :
      (slug host : Text) (t : ProxyTarget)
      → resolve_target w slug host ≡ ok t
      → (d : Deployment F) × (w.get_deployment_by_domain host ≡ ok d)
        × (IsTargetOf d t × IsVerified d host)
  unfolding resolve_target
  resolved slug host t h = go (w.get_deployment_by_domain host) refl
    where
      go :
          (o : Result StoreError (Deployment F))
          → w.get_deployment_by_domain host ≡ o
          → (d : Deployment F) × (o ≡ ok d) × (IsTargetOf d t × IsVerified d host)
      go (err missing) e = cc (rw e at h)
      go (err broken) e = cc (rw e at h)
      go (ok d) e = (d, refl, found_sound d host t (rw e at h))

module _ {F : Type 0} (w : World F) (host bare : Text) (x : ProxyError) where
  target_page : (t : ProxyTarget) → answer w host (ok t) ≡ refused x → x.status_code ≢ 404
  target_page t h = ground arith

  locate_page :
      (d : Deployment F) → answer w host (locate w d bare) ≡ refused x → x.status_code ≢ 404
  locate_page d h =
      elim (Bool-cases (not (is_local (base_target w d)) && not (str_eq d.node_id ""))) [
        | inr e ↦ target_page (base_target w d) (rw e at h)
        | inl e ↦ elim (Option-cases (w.get_node_ssh_host d.node_id)) [
          | inl f ↦
              let p : refused (new_unavailable_error bare) ≡ refused x = rw f at (rw e at h) in
              ground arith
          | inr (ip, f) ↦ target_page _ (rw f at (rw e at h))
        ]
      ]

  domain_page :
      (d : Deployment F) (c : Option Domain)
      → answer w host (check_domain w d bare c) ≡ refused x
      → x.status_code ≢ 404
  domain_page d none h = locate_page d h
  domain_page d (some c) h = elim (Bool-cases (is_verified c)) [
    | inl v ↦ locate_page d (rw v at h)
    | inr v ↦
        let p : refused (new_verification_pending_error bare) ≡ refused x = rw v at h in
        ground arith
  ]

  pub missing_of :
      answer w host (resolve_target w [] bare) ≡ refused x
      → x.status_code ≡ 404
      → w.get_deployment_by_domain bare ≡ err missing
  unfolding resolve_target
  missing_of h code = go (w.get_deployment_by_domain bare) refl
    where
      go :
          (o : Result StoreError (Deployment F))
          → w.get_deployment_by_domain bare ≡ o
          → o ≡ err missing
      go (err missing) e = refl
      go (err broken) e =
          let p : refused (new_unavailable_error host) ≡ refused x = rw e at h in
          absurd (ground arith)
      go (ok d) e = absurd (domain_page d (custom_domain w d bare) (rw e at h) code)

missing_page :
    {F : Type 0} (w : World F) (host bare : Text)
    → w.get_deployment_by_domain bare ≡ err missing
    → answer w host (resolve_target w [] bare) ≡ refused (new_not_found_error bare)
unfolding resolve_target
missing_page w host bare m = rw m refl

routable_sound : (t : ProxyTarget) → can_route t ≡ true → (t.status ≡ "running") × (0 < t.port)
unfolding can_route
routable_sound t h = ground (arith, str_eq_iff t.status "running")

module _ {F : Type 0} (w : World F) (base : Text) (r : Request) where
  -- The request is not one for the health endpoint.
  abbrev pub is_app_request : Bool
  is_app_request = not (str_eq r.path "/health" && str_eq r.method "GET")

  -- The slug that `Parse` finds makes no difference to `ServeHTTP`.
  either_way :
      elim (parse base r.host) [
        | some slug ↦ resolve_target w slug (strip_last_colon r.host)
        | none ↦ resolve_target w [] (strip_last_colon r.host)
      ]
      ≡ resolve_target w [] (strip_last_colon r.host)
  unfolding resolve_target
  either_way = elim (Option-cases (parse base r.host)) [
    | inl e ↦ rw e refl
    | inr (s, e) ↦ rw e refl
  ]

  abbrev app : Response
  app = answer w r.host (resolve_target w [] (strip_last_colon r.host))

  serve_cases :
      ((is_app_request ≡ true) × (serve_http w base r ≡ app))
      ⊎ ((is_app_request ≡ false) × (serve_http w base r ≡ health))
  unfolding serve_http
  serve_cases = elim (Bool-cases (str_eq r.path "/health" && str_eq r.method "GET")) [
    | inl e ↦ inr (rw e refl, rw e refl)
    | inr e ↦ inl (rw e refl, rw e (rw either_way refl))
  ]

  -- A request is forwarded only to a deployment that the database knows by the name of the request up
  -- to its last colon, that is running and has a port; if the name is a custom domain of the
  -- deployment, that domain is verified. The target is the deployment's port.
  pub forwarded_sound :
      (t : ProxyTarget)
      → serve_http w base r ≡ forwarded t
      → (d : Deployment F) × (w.get_deployment_by_domain (strip_last_colon r.host) ≡ ok d)
        × (status_text d.status ≡ "running")
        × (0 < d.proxy_port)
        × (t.port ≡ d.proxy_port)
        × (t.deployment_id ≡ d.reference_id)
        × ((c : Domain)
            → custom_domain w d (strip_last_colon r.host) ≡ some c
            → is_verified c ≡ true)
  forwarded_sound t h = elim serve_cases [
    | inr (_, e) ↦ cc
    | inl (_, e) ↦
        let (target, routable) = answer_sound w r.host _ t (sym e ∙ h) in
        let (d, known, ((status, port, id), verified)) =
          resolved w [] (strip_last_colon r.host) t target in
        let (up, positive) = routable_sound t routable in
        (d, known, sym status ∙ up, ground (arith, port, positive), port, id, verified)
  ]

  -- The proxy answers that an app is not found, with status 404, exactly for a request, other than one
  -- for the health endpoint, whose name up to its last colon no deployment of the database has.
  pub not_found_iff :
      ((e : ProxyError) × (serve_http w base r ≡ refused e) × (e.status_code ≡ 404)) ↔ (
        (is_app_request ≡ true)
        × (w.get_deployment_by_domain (strip_last_colon r.host) ≡ err missing))
  not_found_iff = elim serve_cases [
    | inr (n, e) ↦ (λ (x, h, _). cc, λ (y, _). cc)
    | inl (y, e) ↦ (
      λ (x, h, code). (y, missing_of w r.host (strip_last_colon r.host) x (sym e ∙ h) code),
      λ (_, m). (
        new_not_found_error (strip_last_colon r.host),
        e ∙ missing_page w r.host (strip_last_colon r.host) m,
        refl,
      ),
    )
  ]
