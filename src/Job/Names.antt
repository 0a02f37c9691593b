-- ===== src/Job/Names.antt =====
-- The names that logs and replies print for the codes of a job (src/job/job.cpp).
use Prim.Native.String.{String}
use yori.Job.Validate.{JobSpecErrorCode}
use yori.Job.Spec.{EnvSource}
use yori.Job.State.{JobState, TransitionOutcome}

-- `to_string(JobSpecErrorCode)`.
unfoldable pub job_spec_error_code_to_string : JobSpecErrorCode → String
job_spec_error_code_to_string JobSpecErrorCode.no_error = "NONE"
job_spec_error_code_to_string JobSpecErrorCode.root_owner_not_allowed = "ROOT_OWNER_NOT_ALLOWED"
job_spec_error_code_to_string JobSpecErrorCode.empty_arguments = "EMPTY_ARGUMENTS"
job_spec_error_code_to_string JobSpecErrorCode.too_many_arguments = "TOO_MANY_ARGUMENTS"
job_spec_error_code_to_string JobSpecErrorCode.invalid_argument = "INVALID_ARGUMENT"
job_spec_error_code_to_string JobSpecErrorCode.argument_too_long = "ARGUMENT_TOO_LONG"
job_spec_error_code_to_string JobSpecErrorCode.arguments_too_large = "ARGUMENTS_TOO_LARGE"
job_spec_error_code_to_string JobSpecErrorCode.invalid_working_directory =
    "INVALID_WORKING_DIRECTORY"
job_spec_error_code_to_string JobSpecErrorCode.too_many_environment_variables =
    "TOO_MANY_ENVIRONMENT_VARIABLES"
job_spec_error_code_to_string JobSpecErrorCode.invalid_environment_name = "INVALID_ENVIRONMENT_NAME"
job_spec_error_code_to_string JobSpecErrorCode.environment_name_too_long =
    "ENVIRONMENT_NAME_TOO_LONG"
job_spec_error_code_to_string JobSpecErrorCode.environment_value_too_long =
    "ENVIRONMENT_VALUE_TOO_LONG"
job_spec_error_code_to_string JobSpecErrorCode.environment_too_large = "ENVIRONMENT_TOO_LARGE"
job_spec_error_code_to_string JobSpecErrorCode.unsupported_gpu_request = "UNSUPPORTED_GPU_REQUEST"
job_spec_error_code_to_string JobSpecErrorCode.invalid_gpu_placement = "INVALID_GPU_PLACEMENT"
job_spec_error_code_to_string JobSpecErrorCode.placement_gpu_request_conflict =
    "PLACEMENT_GPU_REQUEST_CONFLICT"
job_spec_error_code_to_string JobSpecErrorCode.launch_profile_too_long = "LAUNCH_PROFILE_TOO_LONG"
job_spec_error_code_to_string JobSpecErrorCode.invalid_tensorboard_logdir =
    "INVALID_TENSORBOARD_LOGDIR"
job_spec_error_code_to_string JobSpecErrorCode.invalid_submit_time = "INVALID_SUBMIT_TIME"
job_spec_error_code_to_string JobSpecErrorCode.invalid_executable = "INVALID_EXECUTABLE"
job_spec_error_code_to_string JobSpecErrorCode.invalid_python_version = "INVALID_PYTHON_VERSION"

-- `to_string(EnvSource)`.
unfoldable pub env_source_to_string : EnvSource → String
env_source_to_string EnvSource.no_source = "none"
env_source_to_string EnvSource.conda = "conda"
env_source_to_string EnvSource.venv = "venv"

-- `to_string(JobState)`.
unfoldable pub job_state_to_string : JobState → String
job_state_to_string JobState.queued = "QUEUED"
job_state_to_string JobState.starting = "STARTING"
job_state_to_string JobState.running = "RUNNING"
job_state_to_string JobState.stopping = "STOPPING"
job_state_to_string JobState.finished = "FINISHED"
job_state_to_string JobState.failed = "FAILED"
job_state_to_string JobState.cancelled = "CANCELLED"
job_state_to_string JobState.lost = "LOST"

-- `to_string(TransitionOutcome)`.
unfoldable pub transition_outcome_to_string : TransitionOutcome → String
transition_outcome_to_string TransitionOutcome.applied = "APPLIED"
transition_outcome_to_string TransitionOutcome.rejected = "REJECTED"
transition_outcome_to_string TransitionOutcome.idempotent_terminal = "IDEMPOTENT_TERMINAL"
transition_outcome_to_string TransitionOutcome.ignored_after_terminal = "IGNORED_AFTER_TERMINAL"
