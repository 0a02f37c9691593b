-- ===== src/Job/Spec.antt =====
-- include/yori/job/job.hpp: job identity, the submitted specification and its limits.
use yori.Common.{ℕ, ◌*◌, ◌≡◌, ◌↔◌, Bool, true, false, not, ◌&&◌, Option, List, ℤ, Text, arith}
use yori.Common.{◌==◌, Eq, nat_eq, list_eq, option_eq, list_beq_iff, option_beq_iff}
use yori.Gpu.Uuid.{GpuUuid}

abbrev pub JobId : Type 0
JobId = ℕ

-- `JobId::valid`.
abbrev pub id_valid : JobId → Bool
id_valid id = not (id == 0)

-- `JobSpecLimits`.
abbrev pub max_argument_count : ℕ
max_argument_count = 256

abbrev pub max_argument_bytes : ℕ
max_argument_bytes = 64 * 1024

abbrev pub max_single_argument_bytes : ℕ
max_single_argument_bytes = 16 * 1024

abbrev pub max_working_directory_bytes : ℕ
max_working_directory_bytes = 4096

abbrev pub max_environment_variables : ℕ
max_environment_variables = 256

abbrev pub max_environment_name_bytes : ℕ
max_environment_name_bytes = 255

abbrev pub max_environment_value_bytes : ℕ
max_environment_value_bytes = 32 * 1024

abbrev pub max_environment_bytes : ℕ
max_environment_bytes = 256 * 1024

abbrev pub max_launch_profile_bytes : ℕ
max_launch_profile_bytes = 128

abbrev pub max_placement_devices : ℕ
max_placement_devices = 8

abbrev pub max_tensorboard_logdir_bytes : ℕ
max_tensorboard_logdir_bytes = 4096

abbrev pub max_executable_bytes : ℕ
max_executable_bytes = 4096

abbrev pub max_python_version_bytes : ℕ
max_python_version_bytes = 64

pub data EnvSource : Type 0 where
  no_source conda venv : EnvSource

pub record EnvMetadata : Type 0 where
  pub source : EnvSource
  pub python_version : Option Text

pub data GpuPlacementMode : Type 0 where
  any_gpu required preferred : GpuPlacementMode

pub record GpuPlacement : Type 0 where
  pub mode : GpuPlacementMode
  pub devices : List GpuUuid

-- `env` is the map's contents in key order; `submit_time` counts nanoseconds since the epoch.
pub record JobSpec : Type 0 where
  pub owner_uid : ℕ
  pub owner_gid : ℕ
  pub argv : List Text
  pub cwd : Text
  pub env : List (Text × Text)
  pub executable : Option Text
  pub env_metadata : Option EnvMetadata
  pub gpu_request : ℕ
  pub gpu_placement : GpuPlacement
  pub launch_profile : Option Text
  pub tensorboard_logdir : Option Text
  pub submit_time : ℤ

abbrev pub source_beq : EnvSource → EnvSource → Bool
source_beq no_source no_source = true
source_beq conda conda = true
source_beq venv venv = true
source_beq _ _ = false

-- `EnvMetadata::operator==`.
abbrev pub metadata_beq : EnvMetadata → EnvMetadata → Bool
metadata_beq a b = source_beq a.source b.source && a.python_version == b.python_version

abbrev pub mode_beq : GpuPlacementMode → GpuPlacementMode → Bool
mode_beq any_gpu any_gpu = true
mode_beq required required = true
mode_beq preferred preferred = true
mode_beq _ _ = false

-- `GpuPlacement::operator==`.
abbrev pub placement_beq : GpuPlacement → GpuPlacement → Bool
placement_beq a b = mode_beq a.mode b.mode && a.devices == b.devices

pub metadata_beq_iff : (a b : EnvMetadata) → (metadata_beq a b ≡ true) ↔ (a ≡ b)
metadata_beq_iff a b = ground (arith, option_beq_iff a.python_version b.python_version)

pub placement_beq_iff : (a b : GpuPlacement) → (placement_beq a b ≡ true) ↔ (a ≡ b)
placement_beq_iff a b = ground (arith, list_beq_iff a.devices b.devices)

instance abbrev pub metadata_eq : Eq EnvMetadata
metadata_eq = record { beq = metadata_beq; beq_iff = metadata_beq_iff }

instance abbrev pub placement_eq : Eq GpuPlacement
placement_eq = record { beq = placement_beq; beq_iff = placement_beq_iff }
