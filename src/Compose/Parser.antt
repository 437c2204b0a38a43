-- ===== src/Compose/Parser.antt =====
-- internal/core/compose/parser.go: ParseComposeSpec, with the loader of compose-go, the YAML parser
-- before it included, as the parameter `load`.
pub mod Published
pub mod Converted
pub mod Accepts
pub mod Totals
use hoster.Prelude.{
  ℕ, zero, suc, ◌+◌, ◌*◌, ◌-◌, ◌≤◌, String, Bool, true, false, Option, none, some, List, [], ◌∷◌,
  ◌++◌, ◌&&◌, ◌||◌, not, map, str_eq, if◌then◌else◌, ◌==◌, ltb, leb, length, all, Result, ok, err,
}
use hoster.Prelude.Dict.{Dict, lookup, assign}
use hoster.Prelude.Float.{Float64}
use hoster.Prelude.Int.{ℤ, pos, negsuc, ltb_ℤ}
use hoster.Prelude.Text.{Text, codes, is_empty, is_digit, strip_prefix}
use hoster.Compose.{
  BuildConfig, Port, VolumeMountType, bind, volume, tmpfs, VolumeMount, ServiceResources,
  RestartPolicy, HealthCheck, Service, Network, Volume, ParsedSpec,
}
use hoster.Compose.Cycles.{detect_circular_dependencies}
use hoster.Compose.Loaded.{
  Error, Project, LoadedService, empty_input, no_services, circular_dependency, out_of_fuel,
  load_failed, target_zero, target_too_large, published_too_large, check_unsupported_features,
  convert_services,
}

-- The bytes of the white space that a text begins with, or 0: the spaces of ASCII, U+0085 and U+00A0, and
-- U+1680, U+2000 to U+200A, U+2028, U+2029, U+202F, U+205F and U+3000, in UTF-8.
abbrev pub is_space : ℕ → Bool
is_space c = c == 32 || leb 9 c && leb c 13

abbrev pub is_space_2 : ℕ → ℕ → Bool
is_space_2 a b = a == 194 && (b == 133 || b == 160)

abbrev pub is_space_3 : ℕ → ℕ → ℕ → Bool
is_space_3 a b c =
    (a == 225 && (b == 154 && c == 128))
    || ((a == 226 && (b == 128 && (leb 128 c && leb c 138 || (c == 168 || (c == 169 || c == 175)))))
        || ((a == 226 && (b == 129 && c == 159)) || (a == 227 && (b == 128 && c == 128))))

abbrev pub space_width : Text → ℕ
space_width [] = 0
space_width (a ∷ []) = if is_space a then 1 else 0
space_width (a ∷ b ∷ []) = if is_space a then 1 else if is_space_2 a b then 2 else 0
space_width (a ∷ b ∷ c ∷ s) =
    if is_space a then 1 else if is_space_2 a b then 2 else if is_space_3 a b c then 3 else 0

-- strings.TrimSpace(s) == "": nothing but white space, `skip` bytes of which are read already.
unfoldable pub is_blank : ℕ → Text → Bool
is_blank skip [] = true
is_blank (suc skip) (c ∷ s) = is_blank skip s
is_blank zero (c ∷ s) =
    let width = space_width (c ∷ s) in
    let rest = is_blank (width - 1) s in if width == 0 then false else rest

-- `validatePorts`: the loop over the ports of a service, and the loop over the services.
unfoldable pub port_error : String → ℕ → List Port → Option Error
port_error name i [] = none
port_error name i (p ∷ ports) =
    let rest = port_error name (suc i) ports in
    if p.target == 0
    then some (target_zero name i)
    else if ltb 65535 p.target
    then some (target_too_large name i)
    else if ltb 65535 p.published
    then some (published_too_large name i)
    else rest

unfoldable pub validate_ports : {F : Type 0} → List (Service F) → Option Error
unfolding port_error
validate_ports [] = none
validate_ports (svc ∷ rest) = elim (port_error svc.name 0 svc.ports) [
  | some e ↦ some e
  | none ↦ validate_ports rest
]

abbrev pub has_no_services : {F : Type 0} → List (LoadedService F) → Bool
has_no_services [] = true
has_no_services (s ∷ ss) = false

-- `ParseComposeSpec` with the services on.
unfoldable pub check_services :
    {F : Type 0} → Project F → List (Service F) → Result Error (ParsedSpec F)
unfolding validate_ports
check_services project services = elim (detect_circular_dependencies services) [
  | none ↦ err out_of_fuel
  | some (some c) ↦ err circular_dependency
  | some none ↦ elim (validate_ports services) [
    | some e ↦ err e
    | none ↦
        ok (record { services = services; networks = project.networks; volumes = project.volumes })
  ]
]

unfoldable pub convert_project : {F : Type 0} → F → Project F → Result Error (ParsedSpec F)
unfolding convert_services check_services check_unsupported_features
convert_project nought project = elim (check_unsupported_features project) [
  | some e ↦ err e
  | none ↦
      let converted : Result Error (ParsedSpec _) =
        elim (convert_services nought project.services) [
          | err e ↦ err e
          | ok services ↦ check_services project services
        ] in
      if has_no_services project.services then err no_services else converted
]

-- `ParseComposeSpec`.
unfoldable pub parse_compose_spec :
    {F : Type 0} → (Text → Result Text (Project F)) → F → Text → Result Error (ParsedSpec F)
unfolding convert_project is_blank
parse_compose_spec load nought yaml =
    let loaded : Result Error (ParsedSpec _) = elim (load yaml) [
      | err e ↦ err (load_failed e)
      | ok project ↦ convert_project nought project
    ] in
    if is_blank 0 yaml then err empty_input else loaded
