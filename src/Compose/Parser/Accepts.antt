-- ===== src/Compose/Parser/Accepts.antt =====
-- What ParseComposeSpec of internal/core/compose/parser.go accepts.
use hoster.Prelude.{
  ℕ, suc, ◌≤◌, ◌≡◌, ◌≢◌, refl, ◌⊎◌, inl, inr, subst, String, false, none, some, List, [], ◌∷◌,
  Result, ok, All, arith, Bool-cases, Option-cases, Result-cases,
}
use hoster.Prelude.Text.{Text}
use hoster.Compose.{Service, Port, BuildConfig, ParsedSpec}
use hoster.Compose.Cycles.{detect_circular_dependencies}
use hoster.Compose.Loaded.{
  LoadedService, Project, convert_service, convert_services, check_unsupported_features,
}
use hoster.Compose.Parser.Converted.{Pairs, IsConverted, convert_service-IsConverted}
use hoster.Compose.Parser.{
  has_no_services, is_blank, port_error, validate_ports, check_services, convert_project,
  parse_compose_spec,
}

abbrev pub IsPort : Port → Type 0
IsPort p = (1 ≤ p.target) × (p.target ≤ 65535) × (p.published ≤ 65535)

-- Its ports are ports.
abbrev pub HasPorts : {F : Type 0} → Service F → Type 0
HasPorts s = All IsPort s.ports

abbrev pub HasImage : {F : Type 0} → Service F → Type 0
HasImage s = (s.image ≢ "") ⊎ ((b : BuildConfig) × (s.build ≡ some b))

port_error-none :
    (name : String) (i : ℕ) (ports : List Port) → port_error name i ports ≡ none → All IsPort ports
unfolding port_error
port_error-none name i [] h = tt
port_error-none name i (p ∷ ports) h =
    (ground arith, port_error-none name (suc i) ports (ground arith))

validate_ports-none :
    {F : Type 0} (services : List (Service F))
    → validate_ports services ≡ none
    → All HasPorts services
unfolding validate_ports
validate_ports-none [] = λ h. tt
validate_ports-none (s ∷ rest) = elim (Option-cases (port_error s.name 0 s.ports)) [
  | inl e ↦
      rw (e, validate_ports) (λ h. (port_error-none s.name 0 s.ports e, validate_ports-none rest h))
  | inr (x, e) ↦ rw (e, validate_ports) (λ h. cc)
]

services_exist : {F : Type 0} (l : List (LoadedService F)) → has_no_services l ≡ false → l ≢ []
services_exist l h q = cc (subst (λ m. has_no_services m ≡ false) q h)

module _ {F : Type 0} (nought : F) where
  convert_services-ok :
      (svcs : List (LoadedService F)) (ss : List (Service F))
      → convert_services nought svcs ≡ ok ss
      → Pairs (IsConverted nought) svcs ss × All HasImage ss
  unfolding convert_services
  convert_services-ok [] ss = λ h.
      let same : [] ≡ ss = cc in
      subst (λ l. Pairs (IsConverted nought) [] l × All HasImage l) same (tt, tt)
  convert_services-ok (svc ∷ rest) ss = elim (Result-cases (convert_service nought svc)) [
    | inl (x, e) ↦ rw (e, convert_services) (λ h. cc)
    | inr (s, e) ↦ elim (Result-cases (convert_services nought rest)) [
      | inl (x, f) ↦ rw (e, convert_services) (rw f (λ h. cc))
      | inr (more, f) ↦
          rw (e, convert_services)
            (rw f (λ h.
              let (converted, image) = convert_service-IsConverted nought svc s e in
              let (all_converted, images) = convert_services-ok rest more f in
              let same : s ∷ more ≡ ss = cc in
              subst (λ l. Pairs (IsConverted nought) (svc ∷ rest) l × All HasImage l) same
                ((converted, all_converted), (image, images))))
    ]
  ]

  -- What ParseComposeSpec gives and has checked.
  abbrev pub Accepted : Project F → ParsedSpec F → Type 0
  Accepted project spec =
      Pairs (IsConverted nought) project.services spec.services
      × (spec.networks ≡ project.networks)
      × (spec.volumes ≡ project.volumes)
      × All HasImage spec.services
      × All HasPorts spec.services
      × (detect_circular_dependencies spec.services ≡ some none)

  check_services-Accepted :
      (project : Project F) (services : List (Service F)) (spec : ParsedSpec F)
      → Pairs (IsConverted nought) project.services services
      → All HasImage services
      → check_services project services ≡ ok spec
      → Accepted project spec
  unfolding check_services
  check_services-Accepted project services spec n i =
      elim (Option-cases (detect_circular_dependencies services)) [
        | inl e ↦ rw (e, check_services) (λ h. cc)
        | inr (some c, e) ↦ rw (e, check_services) (λ h. cc)
        | inr (none, e) ↦ elim (Option-cases (validate_ports services)) [
          | inr (x, f) ↦ rw (e, check_services) (rw f (λ h. cc))
          | inl f ↦
              rw (e, check_services)
                (rw f (λ h.
                  let same : record {
                    services = services;
                    networks = project.networks;
                    volumes = project.volumes;
                  }
                      ≡ spec =
                    cc in
                  subst (λ r. Accepted project r) same
                    (n, refl, refl, i, validate_ports-none services f, e)))
        ]
      ]

  convert_project-Accepted :
      (project : Project F) (spec : ParsedSpec F)
      → convert_project nought project ≡ ok spec
      → (project.services ≢ []) × Accepted project spec
  unfolding convert_project
  convert_project-Accepted project spec = elim (Option-cases (check_unsupported_features project)) [
    | inr (x, e) ↦ rw (e, convert_project) (λ h. cc)
    | inl e ↦ elim (Bool-cases (has_no_services project.services)) [
      | inl f ↦ rw (e, convert_project) (rw f (λ h. cc))
      | inr f ↦ elim (Result-cases (convert_services nought project.services)) [
        | inl (x, g) ↦ rw (e, convert_project) (rw f (rw g (λ h. cc)))
        | inr (services, g) ↦
            rw (e, convert_project)
              (rw f (
                rw g (λ h.
                  let (names, images) = convert_services-ok project.services services g in
                  (
                    services_exist project.services f,
                    check_services-Accepted project services spec names images h,
                  ))))
      ]
    ]
  ]

  -- What ParseComposeSpec accepts is what compose-go loaded, at least one service: in the same order,
  -- each service has the fields of the loaded one, with its ports, mounts, environment, health check and
  -- limits converted, has an image or a build, and has ports in range; the networks and volumes are the
  -- loaded ones, and the search for circles accepts the services.
  pub parse_compose_spec-Accepted :
      (load : Text → Result Text (Project F)) (yaml : Text) (spec : ParsedSpec F)
      → parse_compose_spec load nought yaml ≡ ok spec
      → (project : Project F) × (load yaml ≡ ok project)
        × (project.services ≢ [])
        × Accepted project spec
  unfolding parse_compose_spec convert_project
  parse_compose_spec-Accepted load yaml spec = elim (Bool-cases (is_blank 0 yaml)) [
    | inl b ↦ rw (b, parse_compose_spec) (λ h. cc)
    | inr b ↦ elim (Result-cases (load yaml)) [
      | inl (x, e) ↦ rw (b, parse_compose_spec) (rw e (λ h. cc))
      | inr (project, e) ↦
          rw (b, parse_compose_spec)
            (rw e (λ h.
              let (some_service, good) = convert_project-Accepted project spec h in
              (project, refl, some_service, good)))
    ]
  ]
