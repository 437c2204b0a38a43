-- ===== src/Compose.antt =====
-- internal/core/compose/types.go: the parsed form of a compose specification.
--
-- A map of the source is an association list. CPU figures are of a type `F` that nothing here looks
-- into (`float64` in the source); byte counts are integers.
pub mod Cycles
pub mod Loaded
pub mod Parser
use hoster.Prelude.{ℕ, String, Bool, Option, List}
use hoster.Prelude.Dict.{Dict}
use hoster.Prelude.Int.{ℤ}
use hoster.Prelude.Text.{Text}

pub record BuildConfig : Type 0 where
  pub context : String
  pub dockerfile : String

pub record Port : Type 0 where
  pub target : ℕ  -- uint32
  pub published : ℕ  -- uint32
  pub protocol : String
  pub host_ip : String

pub data VolumeMountType : Type 0 where
  bind volume tmpfs : VolumeMountType

pub record VolumeMount : Type 0 where
  pub type : VolumeMountType
  pub source : Text
  pub target : String
  pub read_only : Bool

pub record ServiceResources (F : Type 0) : Type 0 where
  pub cpu_limit : F
  pub cpu_reservation : F
  pub memory_limit : ℤ
  pub memory_reservation : ℤ

-- The text of a restart policy is passed on unchecked: `other` is any that is no constant.
pub data RestartPolicy : Type 0 where
  never always on_failure unless_stopped : RestartPolicy
  other : String → RestartPolicy

pub record HealthCheck : Type 0 where
  pub test : List String
  pub interval : Text
  pub timeout : Text
  pub retries : ℤ
  pub start_period : Text

pub record Service (F : Type 0) : Type 0 where
  pub name : String
  pub image : String
  pub build : Option BuildConfig
  pub command : List String
  pub entrypoint : List String
  pub ports : List Port
  pub environment : Dict Text
  pub volumes : List VolumeMount
  pub networks : List String
  pub depends_on : List String
  pub restart : RestartPolicy
  pub resources : ServiceResources F
  pub health_check : Option HealthCheck
  pub labels : Dict String

pub record Network : Type 0 where
  pub name : String
  pub driver : String
  pub external : Bool
  pub internal : Bool
  pub attachable : Bool
  pub labels : Dict String

pub record Volume : Type 0 where
  pub name : String
  pub driver : String
  pub external : Bool
  pub labels : Dict String

pub record ParsedSpec (F : Type 0) : Type 0 where
  pub services : List (Service F)
  pub networks : List Network
  pub volumes : List Volume
