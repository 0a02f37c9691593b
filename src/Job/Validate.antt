-- ===== src/Job/Validate.antt =====
-- `job::validate` (src/job/job.cpp): the checks on a submitted specification, in the order of the
-- source, where each early return is an `err`.
pub mod Components
pub mod Loops
pub mod Valid
use yori.Common.{
  ℕ, zero, suc, ◌+◌, Bool, true, false, not, ◌&&◌, ◌||◌, Option, none, some, List, [], ◌∷◌,
}
use yori.Common.{
  pos, ltz, Text, contains_nul, sub_size, length, empty, any, ltb, ◌==◌, nat_eq, list_eq,
  if◌then◌else◌, Result, ok, err, fail_if, or_fail, ◌>>=◌, ◌>>◌,
}
use yori.Gpu.Uuid.{GpuUuid, uuid_valid}
use yori.Job.Spec.{
  JobSpec, EnvMetadata, GpuPlacementMode, any_gpu, required, preferred, max_argument_count,
  max_argument_bytes, max_single_argument_bytes, max_working_directory_bytes,
  max_environment_variables, max_environment_name_bytes, max_environment_value_bytes,
  max_environment_bytes, max_launch_profile_bytes, max_placement_devices,
  max_tensorboard_logdir_bytes, max_executable_bytes, max_python_version_bytes,
}

pub data JobSpecErrorCode : Type 0 where
  no_error root_owner_not_allowed empty_arguments too_many_arguments : JobSpecErrorCode
  invalid_argument argument_too_long arguments_too_large : JobSpecErrorCode
  invalid_working_directory too_many_environment_variables : JobSpecErrorCode
  invalid_environment_name environment_name_too_long environment_value_too_long : JobSpecErrorCode
  environment_too_large unsupported_gpu_request invalid_gpu_placement : JobSpecErrorCode
  placement_gpu_request_conflict launch_profile_too_long : JobSpecErrorCode
  invalid_tensorboard_logdir invalid_submit_time invalid_executable : JobSpecErrorCode
  invalid_python_version : JobSpecErrorCode

pub record JobSpecValidationResult : Type 0 where
  pub code : JobSpecErrorCode
  pub item_index : Option ℕ

-- `JobSpecValidationResult::ok`.
abbrev pub validation_ok : JobSpecValidationResult → Bool
validation_ok r = elim r.code [ no_error ↦ true | _ ↦ false ]

abbrev pub whole : JobSpecErrorCode → JobSpecValidationResult
whole code = record { code = code; item_index = none }

abbrev pub at_item : JobSpecErrorCode → ℕ → JobSpecValidationResult
at_item code index = record { code = code; item_index = some index }

abbrev pub Check : Type 0
Check = Result JobSpecValidationResult (Unit {0})

-- The new total, or `none` where the function returns false.
unfoldable pub add_within_limit : ℕ → ℕ → ℕ → Option ℕ
add_within_limit value total limit =
    if ltb (sub_size limit total) value then none else some (total + value)

unfoldable pub is_valid_environment_name : Text → Bool
is_valid_environment_name name =
    not (empty name) && not (contains_nul name) && not (any (λ c. c == b'=') name)

-- The bytes before the first '/', and those after it.
unfoldable pub first_component : Text → Text
first_component [] = []
first_component (c ∷ t) = if c == b'/' then [] else c ∷ first_component t

unfoldable pub after_slash : Text → Option Text
after_slash [] = none
after_slash (c ∷ t) = if c == b'/' then some t else after_slash t

abbrev pub dot_dot : Text
dot_dot = b'.' ∷ b'.' ∷ []

-- The `while` loop over the components; `path` is the text from `component_begin` on.
unfoldable pub no_dot_dot : ℕ → Text → Bool
unfolding first_component after_slash
no_dot_dot zero path = false
no_dot_dot (suc fuel) path =
    if first_component path == dot_dot
    then false
    else elim (after_slash path) [ none ↦ true | some rest ↦ no_dot_dot fuel rest ]

abbrev pub starts_with_slash : Text → Bool
starts_with_slash [] = false
starts_with_slash (c ∷ t) = c == b'/'

unfoldable pub is_valid_tensorboard_logdir : Text → Bool
unfolding no_dot_dot
is_valid_tensorboard_logdir path =
    if empty path
      || ltb max_tensorboard_logdir_bytes (length path)
      || contains_nul path
      || starts_with_slash path
    then false
    else no_dot_dot (suc (length path)) path

-- The loop over `argv`, from `index` on, with the bytes counted so far.
unfoldable pub check_arguments : List Text → ℕ → ℕ → Check
unfolding add_within_limit
check_arguments [] index bytes = ok tt
check_arguments (argument ∷ rest) index bytes = do
  fail_if (contains_nul argument) (at_item invalid_argument index)
  fail_if (ltb max_single_argument_bytes (length argument)) (at_item argument_too_long index)
  total ←
      or_fail (add_within_limit (length argument) bytes max_argument_bytes)
        (at_item arguments_too_large index)
  check_arguments rest (index + 1) total

abbrev pub first_empty : List Text → Bool
first_empty [] = false
first_empty (argument ∷ rest) = empty argument

-- The loop over `env`.
unfoldable pub check_environment : List (Text × Text) → ℕ → ℕ → Check
unfolding add_within_limit is_valid_environment_name
check_environment [] index bytes = ok tt
check_environment ((name, value) ∷ rest) index bytes = do
  fail_if (not (is_valid_environment_name name)) (at_item invalid_environment_name index)
  fail_if (ltb max_environment_name_bytes (length name)) (at_item environment_name_too_long index)
  fail_if (ltb max_environment_value_bytes (length value) || contains_nul value)
      (at_item environment_value_too_long index)
  with_name ←
      or_fail (add_within_limit (length name) bytes max_environment_bytes)
        (at_item environment_too_large index)
  with_value ←
      or_fail (add_within_limit (length value) with_name max_environment_bytes)
        (at_item environment_too_large index)
  check_environment rest (index + 1) with_value

-- The loop over a required set; `prior` holds the devices before this one.
unfoldable pub check_devices : List GpuUuid → List GpuUuid → Check
check_devices prior [] = ok tt
check_devices prior (device ∷ rest) = do
  fail_if (not (uuid_valid device)) (whole invalid_gpu_placement)
  fail_if (any (λ p. p == device) prior) (whole invalid_gpu_placement)
  check_devices (device ∷ prior) rest

abbrev pub one_valid : List GpuUuid → Bool
one_valid (device ∷ []) = uuid_valid device
one_valid _ = false

-- The `switch` on the placement's mode.
unfoldable pub check_placement : GpuPlacementMode → List GpuUuid → ℕ → Check
unfolding check_devices
check_placement any_gpu devices request =
    fail_if (not (empty devices)) (whole invalid_gpu_placement)
check_placement required devices request = do
  fail_if (empty devices || ltb max_placement_devices (length devices))
      (whole invalid_gpu_placement)
  check_devices [] devices
  fail_if (not (request == 1)) (whole placement_gpu_request_conflict)
check_placement preferred devices request = do
  fail_if (not (one_valid devices)) (whole invalid_gpu_placement)
  fail_if (not (request == 1)) (whole placement_gpu_request_conflict)

abbrev pub bad_working_directory : Text → Bool
bad_working_directory cwd =
    empty cwd
    || ltb max_working_directory_bytes (length cwd)
    || contains_nul cwd
    || not (starts_with_slash cwd)

abbrev pub bad_executable : Option Text → Bool
bad_executable none = false
bad_executable (some path) =
    empty path
    || ltb max_executable_bytes (length path)
    || contains_nul path
    || not (starts_with_slash path)

abbrev pub bad_label : ℕ → Option Text → Bool
bad_label limit none = false
bad_label limit (some text) = empty text || ltb limit (length text) || contains_nul text

abbrev pub python_version_of : Option EnvMetadata → Option Text
python_version_of none = none
python_version_of (some metadata) = metadata.python_version

abbrev pub bad_logdir : Option Text → Bool
bad_logdir none = false
bad_logdir (some path) = not (is_valid_tensorboard_logdir path)

-- The body of `validate`, in four parts: the command, its context, the GPUs, the options.
unfoldable pub check_command : JobSpec → Check
check_command spec = do
  fail_if (spec.owner_uid == 0) (whole root_owner_not_allowed)
  fail_if (empty spec.argv) (whole empty_arguments)
  fail_if (ltb max_argument_count (length spec.argv)) (whole too_many_arguments)
  check_arguments spec.argv 0 0
  fail_if (first_empty spec.argv) (at_item empty_arguments 0)

unfoldable pub check_context : JobSpec → Check
check_context spec = do
  fail_if (bad_working_directory spec.cwd) (whole invalid_working_directory)
  fail_if (ltb max_environment_variables (length spec.env)) (whole too_many_environment_variables)
  check_environment spec.env 0 0

unfoldable pub check_gpus : JobSpec → Check
check_gpus spec = do
  check_placement spec.gpu_placement.mode spec.gpu_placement.devices spec.gpu_request
  fail_if (not (spec.gpu_request == 1)) (whole unsupported_gpu_request)

unfoldable pub check_options : JobSpec → Check
check_options spec = do
  fail_if (bad_executable spec.executable) (whole invalid_executable)
  fail_if (bad_label max_python_version_bytes (python_version_of spec.env_metadata))
      (whole invalid_python_version)
  fail_if (bad_label max_launch_profile_bytes spec.launch_profile) (whole launch_profile_too_long)
  fail_if (bad_logdir spec.tensorboard_logdir) (whole invalid_tensorboard_logdir)
  fail_if (not (ltz (pos 0) spec.submit_time)) (whole invalid_submit_time)

unfoldable pub checks : JobSpec → Check
checks spec = do check_command spec; check_context spec; check_gpus spec; check_options spec

-- The value that the function returns.
abbrev pub settle : Check → JobSpecValidationResult
settle (ok _) = whole no_error
settle (err result) = result

unfoldable pub validate : JobSpec → JobSpecValidationResult
validate spec = settle (checks spec)
