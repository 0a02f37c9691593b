-- ===== src/Store/Names.antt =====
-- The printed names of the codes of the store (src/store/state_store.cpp).
use Prim.Native.String.{String}
use yori.Store.Execution.{JobExecutionValidationCode}
use yori.Store.Types.{StateStoreErrorCode}

-- `to_string(JobExecutionValidationCode)`.
unfoldable pub job_execution_validation_code_to_string : JobExecutionValidationCode → String
job_execution_validation_code_to_string JobExecutionValidationCode.no_error = "NONE"
job_execution_validation_code_to_string JobExecutionValidationCode.invalid_identity =
    "INVALID_IDENTITY"
job_execution_validation_code_to_string JobExecutionValidationCode.identity_not_allowed =
    "IDENTITY_NOT_ALLOWED"
job_execution_validation_code_to_string JobExecutionValidationCode.identity_required =
    "IDENTITY_REQUIRED"
job_execution_validation_code_to_string JobExecutionValidationCode.exit_not_allowed =
    "EXIT_NOT_ALLOWED"
job_execution_validation_code_to_string JobExecutionValidationCode.start_time_not_allowed =
    "START_TIME_NOT_ALLOWED"
job_execution_validation_code_to_string JobExecutionValidationCode.invalid_start_time =
    "INVALID_START_TIME"
job_execution_validation_code_to_string JobExecutionValidationCode.end_time_not_allowed =
    "END_TIME_NOT_ALLOWED"
job_execution_validation_code_to_string JobExecutionValidationCode.invalid_end_time =
    "INVALID_END_TIME"
job_execution_validation_code_to_string JobExecutionValidationCode.failure_reason_not_allowed =
    "FAILURE_REASON_NOT_ALLOWED"
job_execution_validation_code_to_string JobExecutionValidationCode.invalid_failure_reason =
    "INVALID_FAILURE_REASON"
job_execution_validation_code_to_string JobExecutionValidationCode.invalid_log_path =
    "INVALID_LOG_PATH"
job_execution_validation_code_to_string JobExecutionValidationCode.log_path_not_allowed =
    "LOG_PATH_NOT_ALLOWED"

-- `to_string(StateStoreErrorCode)`.
unfoldable pub state_store_error_code_to_string : StateStoreErrorCode → String
state_store_error_code_to_string StateStoreErrorCode.no_error = "NONE"
state_store_error_code_to_string StateStoreErrorCode.backend_unavailable = "BACKEND_UNAVAILABLE"
state_store_error_code_to_string StateStoreErrorCode.revision_conflict = "REVISION_CONFLICT"
state_store_error_code_to_string StateStoreErrorCode.invalid_mutation = "INVALID_MUTATION"
state_store_error_code_to_string StateStoreErrorCode.capacity_exceeded = "CAPACITY_EXCEEDED"
state_store_error_code_to_string StateStoreErrorCode.invalid_job = "INVALID_JOB"
state_store_error_code_to_string StateStoreErrorCode.invalid_execution_record =
    "INVALID_EXECUTION_RECORD"
state_store_error_code_to_string StateStoreErrorCode.job_already_exists = "JOB_ALREADY_EXISTS"
state_store_error_code_to_string StateStoreErrorCode.job_not_found = "JOB_NOT_FOUND"
state_store_error_code_to_string StateStoreErrorCode.invalid_job_revision = "INVALID_JOB_REVISION"
state_store_error_code_to_string StateStoreErrorCode.job_spec_changed = "JOB_SPEC_CHANGED"
state_store_error_code_to_string StateStoreErrorCode.invalid_job_transition =
    "INVALID_JOB_TRANSITION"
state_store_error_code_to_string StateStoreErrorCode.invalid_lease = "INVALID_LEASE"
state_store_error_code_to_string StateStoreErrorCode.gpu_already_leased = "GPU_ALREADY_LEASED"
state_store_error_code_to_string StateStoreErrorCode.job_already_leased = "JOB_ALREADY_LEASED"
state_store_error_code_to_string StateStoreErrorCode.lease_not_found = "LEASE_NOT_FOUND"
