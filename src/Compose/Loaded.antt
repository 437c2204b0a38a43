-- ===== src/Compose/Loaded.antt =====
-- internal/core/compose/parser.go: the conversion of what compose-go has loaded.
--
-- `Project` has the fields of compose-go's result that the code reads. A map of the project is a list of
-- its entries in the order of the run of Go over it. An error has the field that it names, as a
-- constructor.
use hoster.Prelude.{
  ℕ, ◌+◌, ◌*◌, ◌-◌, String, Bool, true, false, Option, none, some, List, [], ◌∷◌, ◌&&◌, ◌||◌, not,
  map, str_eq, if◌then◌else◌, ltb, Result, ok, err,
}
use hoster.Prelude.Dict.{Dict}
use hoster.Prelude.Int.{ℤ, pos, wrap64}
use hoster.Prelude.Text.{Text, codes, is_empty, is_digit, strip_prefix}
use hoster.Compose.{
  BuildConfig, Port, VolumeMountType, bind, volume, tmpfs, VolumeMount, RestartPolicy, HealthCheck,
  Service, Network, Volume,
}

pub record LoadedPort : Type 0 where
  pub target : ℕ
  pub published : Text
  pub protocol : String
  pub host_ip : String

pub record LoadedVolume : Type 0 where
  pub type : String
  pub source : Text
  pub target : String
  pub read_only : Bool

-- The durations of a health check, by their texts.
pub record LoadedHealthCheck : Type 0 where
  pub disable : Bool
  pub test : List String
  pub retries : Option ℕ
  pub interval : Option Text
  pub timeout : Option Text
  pub start_period : Option Text

pub record Amounts (F : Type 0) : Type 0 where
  pub cpus : F
  pub memory_bytes : ℤ

pub record LoadedService (F : Type 0) : Type 0 where
  pub name : String
  pub image : String
  pub command : List String
  pub entrypoint : List String
  pub build : Option BuildConfig
  pub extends_file : Option String
  pub ports : List LoadedPort
  pub environment : Dict (Option Text)
  pub volumes : List LoadedVolume
  pub networks : List String
  pub depends_on : List String
  pub restart : RestartPolicy
  pub labels : Dict String
  pub health_check : Option LoadedHealthCheck
  pub limits : Option (Amounts F)
  pub reservations : Option (Amounts F)

pub record Project (F : Type 0) : Type 0 where
  pub services : List (LoadedService F)
  pub networks : List Network
  pub volumes : List Volume
  pub secrets : List String
  pub configs : List String

pub data Error : Type 0 where
  empty_input no_services circular_dependency out_of_fuel secrets configs : Error
  load_failed : Text → Error
  extends no_image : String → Error
  target_zero target_too_large published_too_large : String → ℕ → Error

-- `checkUnsupportedFeatures`.
unfoldable pub check_extends : {F : Type 0} → List (LoadedService F) → Option Error
check_extends [] = none
check_extends (svc ∷ rest) = elim svc.extends_file [
  | none ↦ check_extends rest
  | some file ↦
      let next = check_extends rest in if str_eq file "" then next else some (extends svc.name)
]

abbrev is_nil : List String → Bool
is_nil [] = true
is_nil (x ∷ xs) = false

unfoldable pub check_unsupported_features : {F : Type 0} → Project F → Option Error
unfolding check_extends
check_unsupported_features project =
    if not (is_nil project.secrets)
    then some secrets
    else if not (is_nil project.configs)
    then some configs
    else check_extends project.services

-- strconv.ParseUint(s, 10, 32); `none` for an error.
unfoldable pub parse_digits : ℕ → Text → Option ℕ
parse_digits n [] = some n
parse_digits n (c ∷ s) =
    let rest = parse_digits (n * 10 + (c - b'0')) s in if is_digit c then rest else none

abbrev pub below_32 : Option ℕ → ℕ
below_32 none = 0
below_32 (some n) = if ltb n 4294967296 then n else 0

unfoldable pub published_port : Text → ℕ
unfolding parse_digits
published_port s = if is_empty s then 0 else below_32 (parse_digits 0 s)

abbrev pub convert_port : LoadedPort → Port
convert_port p = record {
  target = p.target;
  published = published_port p.published;
  protocol = p.protocol;
  host_ip = p.host_ip;
}

-- The entries of the environment that have a value.
unfoldable pub convert_environment : Dict (Option Text) → Dict Text
convert_environment [] = []
convert_environment ((k, none) ∷ env) = convert_environment env
convert_environment ((k, some v) ∷ env) = (k, v) ∷ convert_environment env

abbrev pub has_prefix : String → Text → Bool
has_prefix p s = elim (strip_prefix (codes p) s) [ none ↦ false | some r ↦ true ]

-- The `switch` on the type of a mount.
unfoldable pub mount_type : String → Text → VolumeMountType
mount_type type source =
    if str_eq type "bind"
    then bind
    else if str_eq type "volume"
    then volume
    else if str_eq type "tmpfs"
    then tmpfs
    else if has_prefix "./" source || (has_prefix "/" source || has_prefix "~" source)
    then bind
    else volume

abbrev pub convert_mount : LoadedVolume → VolumeMount
convert_mount v = record {
  type = mount_type v.type v.source;
  source = v.source;
  target = v.target;
  read_only = v.read_only;
}

-- `int(n)` of a `uint64`.
abbrev pub int_or_zero : Option ℕ → ℤ
int_or_zero none = pos 0
int_or_zero (some n) = wrap64 (pos n)

abbrev pub or_empty : Option Text → Text
or_empty none = []
or_empty (some t) = t

abbrev pub convert_health_check : Option LoadedHealthCheck → Option HealthCheck
convert_health_check none = none
convert_health_check (some h) =
    if h.disable
    then none
    else some (record {
      test = h.test;
      interval = or_empty h.interval;
      timeout = or_empty h.timeout;
      retries = int_or_zero h.retries;
      start_period = or_empty h.start_period;
    })

abbrev pub cpus_of : {F : Type 0} → F → Option (Amounts F) → F
cpus_of nought none = nought
cpus_of nought (some a) = a.cpus

abbrev pub memory_of : {F : Type 0} → Option (Amounts F) → ℤ
memory_of none = pos 0
memory_of (some a) = a.memory_bytes

abbrev pub is_none : Option BuildConfig → Bool
is_none none = true
is_none (some b) = false

-- What `convertService` fills in; `nought` is the zero value of a float64.
abbrev pub made_service : {F : Type 0} → F → LoadedService F → Service F
made_service nought svc = record {
  name = svc.name;
  image = svc.image;
  build = svc.build;
  command = svc.command;
  entrypoint = svc.entrypoint;
  ports = map convert_port svc.ports;
  environment = convert_environment svc.environment;
  volumes = map convert_mount svc.volumes;
  networks = svc.networks;
  depends_on = svc.depends_on;
  restart = svc.restart;
  resources = record {
    cpu_limit = cpus_of nought svc.limits;
    cpu_reservation = cpus_of nought svc.reservations;
    memory_limit = memory_of svc.limits;
    memory_reservation = memory_of svc.reservations;
  };
  health_check = convert_health_check svc.health_check;
  labels = svc.labels;
}

-- `convertService`.
unfoldable pub convert_service : {F : Type 0} → F → LoadedService F → Result Error (Service F)
unfolding mount_type published_port convert_environment
convert_service nought svc =
    if str_eq svc.image "" && is_none svc.build
    then err (no_image svc.name)
    else ok (made_service nought svc)

-- The loop over the services.
unfoldable pub convert_services :
    {F : Type 0} → F → List (LoadedService F) → Result Error (List (Service F))
unfolding convert_service
convert_services nought [] = ok []
convert_services nought (svc ∷ rest) = elim (convert_service nought svc) [
  | err e ↦ err e
  | ok s ↦ elim (convert_services nought rest) [ err e ↦ err e | ok ss ↦ ok (s ∷ ss) ]
]
