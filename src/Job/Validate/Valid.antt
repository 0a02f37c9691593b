-- ===== src/Job/Validate/Valid.antt =====
-- What `validate` accepts, described without reference to its checks.
use yori.Common.{
  ℕ, ◌+◌, ◌≤◌, ◌≡◌, refl, ◌≢◌, ◌↔◌, true, false, Option, none, some, List, [], ◌∷◌, arith, pos, ltz,
  head?,
}
use yori.Common.{Text, contains_nul_iff, IsNulFree, length, All, ok, nat_eq, list_eq, empty}
use yori.Gpu.Uuid.{GpuUuid}
use yori.Job.Spec.{
  JobSpec, GpuPlacementMode, max_argument_count, max_argument_bytes, max_environment_bytes,
  max_working_directory_bytes, max_environment_variables, max_executable_bytes,
  max_python_version_bytes, max_launch_profile_bytes,
}
use yori.Job.Validate.{
  Check, validation_ok, check_arguments, check_environment, check_devices, check_placement,
  check_command, check_context, check_gpus, check_options, checks, validate, starts_with_slash,
  first_empty, bad_working_directory, bad_executable, bad_label, bad_logdir, python_version_of,
  settle,
}
use yori.Job.Validate.Components.{IsLogdir, is_valid_tensorboard_logdir_iff}
use yori.Job.Validate.Loops.{
  IsArgument, total_bytes, check_arguments_iff, IsVariable, total_pair_bytes, check_environment_iff,
  IsPlacement, check_placement_iff,
}

-- An absolute path of at most `limit` bytes.
pub record IsAbsolute (limit : ℕ) (path : Text) : Type 0 where
  pub within : length path ≤ limit
  pub nul_free : IsNulFree path
  pub absolute : starts_with_slash path ≡ true

pub record IsLabel (limit : ℕ) (text : Text) : Type 0 where
  pub some_byte : text ≢ []
  pub within : length text ≤ limit
  pub nul_free : IsNulFree text

-- A condition on the value of an optional, if it has one.
abbrev pub IfPresent : (Text → Type 0) → Option Text → Type 0
IfPresent P none = Unit
IfPresent P (some text) = P text

pub record HasCommand (spec : JobSpec) : Type 0 where
  pub not_root : spec.owner_uid ≢ 0
  pub some_command : head? spec.argv ≢ none
  pub named_command : head? spec.argv ≢ some []
  pub argument_count : length spec.argv ≤ max_argument_count
  pub arguments : All IsArgument spec.argv
  pub argument_bytes : total_bytes spec.argv ≤ max_argument_bytes

pub record HasContext (spec : JobSpec) : Type 0 where
  pub working_directory : IsAbsolute max_working_directory_bytes spec.cwd
  pub variable_count : length spec.env ≤ max_environment_variables
  pub variables : All IsVariable spec.env
  pub variable_bytes : total_pair_bytes spec.env ≤ max_environment_bytes

pub record HasGpus (spec : JobSpec) : Type 0 where
  pub one_gpu : spec.gpu_request ≡ 1
  pub placement : IsPlacement spec.gpu_placement.mode spec.gpu_placement.devices

pub record HasOptions (spec : JobSpec) : Type 0 where
  pub executable : IfPresent (IsAbsolute max_executable_bytes) spec.executable
  pub python_version :
      IfPresent (IsLabel max_python_version_bytes) (python_version_of spec.env_metadata)
  pub profile : IfPresent (IsLabel max_launch_profile_bytes) spec.launch_profile
  pub logdir : IfPresent IsLogdir spec.tensorboard_logdir
  pub submitted : ltz (pos 0) spec.submit_time ≡ true

pub record IsValidSpec (spec : JobSpec) : Type 0 where
  pub command : HasCommand spec
  pub context : HasContext spec
  pub gpus : HasGpus spec
  pub options : HasOptions spec

bad_working_directory_iff :
    (cwd : Text) → (bad_working_directory cwd ≡ false) ↔ IsAbsolute max_working_directory_bytes cwd
bad_working_directory_iff [] = ground arith
bad_working_directory_iff (c ∷ t) = ground (arith, contains_nul_iff (c ∷ t))

bad_executable_iff :
    (path : Option Text)
    → (bad_executable path ≡ false) ↔ IfPresent (IsAbsolute max_executable_bytes) path
bad_executable_iff none = ((λ h. tt), (λ h. refl))
bad_executable_iff (some []) = ground arith
bad_executable_iff (some (c ∷ t)) = ground (arith, contains_nul_iff (c ∷ t))

bad_label_iff :
    (limit : ℕ) (text : Option Text)
    → (bad_label limit text ≡ false) ↔ IfPresent (IsLabel limit) text
bad_label_iff limit none = ((λ h. tt), (λ h. refl))
bad_label_iff limit (some []) = ((λ h. ground arith), (λ h. absurd (h.some_byte refl)))
bad_label_iff limit (some (c ∷ t)) = ground (arith, contains_nul_iff (c ∷ t))

bad_logdir_iff : (path : Option Text) → (bad_logdir path ≡ false) ↔ IfPresent IsLogdir path
bad_logdir_iff none = ((λ h. tt), (λ h. refl))
bad_logdir_iff (some path) = ground (arith, is_valid_tensorboard_logdir_iff path)

command_iff :
    (argv : List Text)
    → ((empty argv ≡ false) × (first_empty argv ≡ false))
      ↔ ((head? argv ≢ none) × (head? argv ≢ some []))
command_iff [] = ground arith
command_iff ([] ∷ rest) = ground arith
command_iff ((c ∷ t) ∷ rest) = ground arith

-- No check fails with the code for success.
abbrev IsHonest : Check → Type 0
IsHonest m = validation_ok (settle m) ≡ true → m ≡ ok tt

check_arguments-IsHonest :
    (arguments : List Text) (index bytes : ℕ) → IsHonest (check_arguments arguments index bytes)
unfolding check_arguments
check_arguments-IsHonest [] index bytes h = refl
check_arguments-IsHonest (t ∷ ts) index bytes h =
    ground (arith, check_arguments-IsHonest ts (index + 1) (bytes + length t))

check_environment-IsHonest :
    (env : List (Text × Text)) (index bytes : ℕ) → IsHonest (check_environment env index bytes)
unfolding check_environment
check_environment-IsHonest [] index bytes h = refl
check_environment-IsHonest ((name, value) ∷ rest) index bytes h =
    ground (arith, check_environment-IsHonest rest (index + 1) (bytes + length name + length value))

check_devices-IsHonest : (prior devices : List GpuUuid) → IsHonest (check_devices prior devices)
unfolding check_devices
check_devices-IsHonest prior [] h = refl
check_devices-IsHonest prior (d ∷ ds) h = ground (arith, check_devices-IsHonest (d ∷ prior) ds)

check_placement-IsHonest :
    (mode : GpuPlacementMode) (devices : List GpuUuid) (request : ℕ)
    → IsHonest (check_placement mode devices request)
unfolding check_placement
check_placement-IsHonest mode devices request h = ground (arith, check_devices-IsHonest [] devices)

command-IsHonest : (spec : JobSpec) → IsHonest (check_command spec)
unfolding check_command
command-IsHonest spec h = ground (arith, check_arguments-IsHonest spec.argv 0 0)

context-IsHonest : (spec : JobSpec) → IsHonest (check_context spec)
unfolding check_context
context-IsHonest spec h = ground (arith, check_environment-IsHonest spec.env 0 0)

gpus-IsHonest : (spec : JobSpec) → IsHonest (check_gpus spec)
unfolding check_gpus
gpus-IsHonest spec h = ground (
  arith,
  check_placement-IsHonest spec.gpu_placement.mode spec.gpu_placement.devices spec.gpu_request,
)

options-IsHonest : (spec : JobSpec) → IsHonest (check_options spec)
unfolding check_options
options-IsHonest spec h = ground arith

checks-IsHonest : (spec : JobSpec) → IsHonest (checks spec)
unfolding checks
checks-IsHonest spec h =
    ground (
      arith,
      command-IsHonest spec,
      context-IsHonest spec,
      gpus-IsHonest spec,
      options-IsHonest spec,
    )

check_command_iff : (spec : JobSpec) → (check_command spec ≡ ok tt) ↔ HasCommand spec
unfolding check_command
check_command_iff spec = ground (arith, command_iff spec.argv, check_arguments_iff spec.argv 0 0)

check_context_iff : (spec : JobSpec) → (check_context spec ≡ ok tt) ↔ HasContext spec
unfolding check_context
check_context_iff spec =
    ground (arith, bad_working_directory_iff spec.cwd, check_environment_iff spec.env 0 0)

check_gpus_iff : (spec : JobSpec) → (check_gpus spec ≡ ok tt) ↔ HasGpus spec
unfolding check_gpus
check_gpus_iff spec =
    ground (arith, check_placement_iff spec.gpu_placement.mode spec.gpu_placement.devices)

check_options_iff : (spec : JobSpec) → (check_options spec ≡ ok tt) ↔ HasOptions spec
unfolding check_options
check_options_iff spec = ground (
  arith,
  bad_executable_iff spec.executable,
  bad_label_iff max_python_version_bytes (python_version_of spec.env_metadata),
  bad_label_iff max_launch_profile_bytes spec.launch_profile,
  bad_logdir_iff spec.tensorboard_logdir,
)

checks_iff : (spec : JobSpec) → (checks spec ≡ ok tt) ↔ IsValidSpec spec
unfolding checks
checks_iff spec = ground (
  arith,
  check_command_iff spec,
  check_context_iff spec,
  check_gpus_iff spec,
  check_options_iff spec,
)

-- `validate` reports success exactly for the specifications that `IsValidSpec` describes: a non-root
-- owner, arguments, environment and paths within their limits and without NUL, a placement of legal
-- devices, one GPU, well-formed options and a submission time after the epoch.
pub validate_iff : (spec : JobSpec) → (validation_ok (validate spec) ≡ true) ↔ IsValidSpec spec
unfolding validate
validate_iff spec =
    ((λ h. (checks_iff spec).0 (checks-IsHonest spec h)), (λ v. rw ((checks_iff spec).1 v)))
