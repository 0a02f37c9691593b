-- ===== src/Store/Execution.antt =====
-- `validate_execution` (src/store/state_store.cpp): which execution facts a job may carry in which
-- state.
use yori.Common.{ℕ, Bool, true, false, not, ◌&&◌, ◌||◌, Option, none, some}
use yori.Common.{
  ℤ, pos, ltz, Text, contains_nul, has_value, length, empty, ltb, ◌==◌, nat_eq, int_eq, Result, ok,
  err, fail_if, ◌>>◌,
}
use yori.Job.Spec.{JobSpec}
use yori.Job.Validate.{starts_with_slash}
use yori.Job.State.{JobState, queued, running, stopping, is_terminal}
use yori.Process.{ProcessIdentity, identity_valid}
use yori.Store.Types.{JobExecutionRecord}

pub data JobExecutionValidationCode : Type 0 where
  no_error invalid_identity identity_not_allowed identity_required : JobExecutionValidationCode
  exit_not_allowed start_time_not_allowed invalid_start_time : JobExecutionValidationCode
  end_time_not_allowed invalid_end_time failure_reason_not_allowed : JobExecutionValidationCode
  invalid_failure_reason invalid_log_path log_path_not_allowed : JobExecutionValidationCode

abbrev pub max_failure_reason_bytes : ℕ
max_failure_reason_bytes = 4096

abbrev pub max_log_path_bytes : ℕ
max_log_path_bytes = 4096

abbrev pub identity_is_blank : ProcessIdentity → Bool
identity_is_blank i = i.pid == pos 0 && i.pgid == pos 0 && i.start_ticks == 0

-- `has_identity`.
abbrev pub has_identity : JobExecutionRecord → Bool
has_identity execution = identity_valid execution.identity

abbrev pub is_queued : JobState → Bool
is_queued queued = true
is_queued _ = false

abbrev pub needs_identity : JobState → Bool
needs_identity running = true
needs_identity stopping = true
needs_identity _ = false

abbrev pub ExecutionCheck : Type 0
ExecutionCheck = Result JobExecutionValidationCode (Unit {0})

unfoldable pub check_identity : JobExecutionRecord → JobState → ExecutionCheck
check_identity execution state = do
  fail_if (not (identity_is_blank execution.identity) && not (identity_valid execution.identity))
      invalid_identity
  fail_if (has_identity execution && is_queued state) identity_not_allowed
  fail_if (not (has_identity execution) && needs_identity state) identity_required
  fail_if (has_value execution.exit && not (is_terminal state)) exit_not_allowed

unfoldable pub check_start : Option ℤ → Bool → ℤ → ExecutionCheck
check_start none identified submitted = ok tt
check_start (some start) identified submitted = do
  fail_if (not identified) start_time_not_allowed
  fail_if (ltz start submitted) invalid_start_time

abbrev pub ends_before : ℤ → Option ℤ → Bool
ends_before end none = false
ends_before end (some start) = ltz end start

unfoldable pub check_end : Option ℤ → Option ℤ → JobState → ExecutionCheck
check_end none start state = ok tt
check_end (some end) start state = do
  fail_if (not (is_terminal state)) end_time_not_allowed
  fail_if (ends_before end start) invalid_end_time

unfoldable pub check_reason : Option Text → JobState → ExecutionCheck
check_reason none state = ok tt
check_reason (some reason) state = do
  fail_if (not (is_terminal state)) failure_reason_not_allowed
  fail_if (empty reason || ltb max_failure_reason_bytes (length reason) || contains_nul reason)
      invalid_failure_reason

unfoldable pub check_log_path : Option Text → JobState → ExecutionCheck
check_log_path none state = ok tt
check_log_path (some path) state = do
  fail_if (is_queued state) log_path_not_allowed
  fail_if
      (empty path
        || ltb max_log_path_bytes (length path)
        || contains_nul path
        || not (starts_with_slash path))
      invalid_log_path

unfoldable pub execution_checks : JobExecutionRecord → JobState → JobSpec → ExecutionCheck
execution_checks execution state spec = do
  check_identity execution state
  check_start execution.start_time (has_identity execution) spec.submit_time
  check_end execution.end_time execution.start_time state
  check_reason execution.failure_reason state
  check_log_path execution.log_path state

abbrev pub settle_code : ExecutionCheck → JobExecutionValidationCode
settle_code (ok _) = no_error
settle_code (err code) = code

abbrev pub execution_ok : JobExecutionValidationCode → Bool
execution_ok no_error = true
execution_ok _ = false

unfoldable pub validate_execution :
    JobExecutionRecord → JobState → JobSpec → JobExecutionValidationCode
validate_execution execution state spec = settle_code (execution_checks execution state spec)
