-- ===== src/Service/Records.antt =====
-- The handlers of one job: `handle_cancel`, `handle_logs`, `validate_logs_follow`,
-- `handle_tensorboard` (src/ipc/ipc_service.cpp).
use yori.Common.{ℕ, min, Bool, true, false, not, ◌||◌, Option, none, some, [], ◌++◌}
use yori.Common.{Text, Result, ok, err, text, nat_eq, if◌then◌else◌, ◌>>=◌, or_fail}
use yori.Job.State.{JobState, is_terminal, cancelled}
use yori.Job.Names.{job_state_to_string}
use yori.Store.Types.{StoredJob}
use yori.Ipc.Wire.{protocol_version}
use yori.Ipc.Kind.{IpcRequestKind}
use yori.Ipc.Request.{IpcLogsRequest, IpcLogsFollowRequest}
use yori.Ipc.Response.{IpcResponse, IpcError, blank}
use yori.Service.{
  PeerCredentials, IpcService, LogTailResult, find_record, authorize, is_denied, error_response,
  job_state_wire, settle,
}
use yori.Service.Control.{JobControl, JobCancelOutcome, CancelCode}

abbrev pub no_cancel : IpcError → Text → IpcResponse
no_cancel error detail = error_response IpcRequestKind.cancel error detail

abbrev pub cancel_state : ℕ → IpcResponse
cancel_state state = record (blank protocol_version IpcRequestKind.cancel IpcError.no_error []) {
  state = state;
}

-- What `handle_cancel` answers itself, by whether the peer is denied; else the job control is asked.
unfoldable pub refusal_in : Bool → JobState → Option IpcResponse
refusal_in true state = some (record (no_cancel IpcError.denied (text "not job owner or admin")) {
  state = job_state_wire state;
})
refusal_in false cancelled = some (cancel_state (job_state_wire cancelled))
refusal_in false state =
    if is_terminal state
    then some (record (no_cancel IpcError.invalid_state (text (job_state_to_string state))) {
      state = job_state_wire state;
    })
    else none

abbrev pub cancel_response : JobCancelOutcome → IpcResponse
cancel_response outcome = elim outcome.code [
  | CancelCode.cancelled ↦ cancel_state outcome.state
  | CancelCode.stopping ↦ cancel_state outcome.state
  | CancelCode.not_found ↦ no_cancel IpcError.not_found (text "job not found")
  | CancelCode.invalid_state ↦ record (no_cancel IpcError.invalid_state outcome.detail) {
    state = outcome.state;
  }
  | CancelCode.store_failed ↦ no_cancel IpcError.store_failed outcome.detail
  | CancelCode.unavailable ↦ no_cancel IpcError.not_available outcome.detail
]

abbrev pub guard_found :
    IpcService → PeerCredentials → Result IpcResponse StoredJob → Option IpcResponse
guard_found service peer (err failure) = some failure
guard_found service peer (ok r) = refusal_in (is_denied service peer r) r.state

-- The refusal, or none where the job may be cancelled.
abbrev pub cancel_guard : IpcService → PeerCredentials → ℕ → Option IpcResponse
cancel_guard service peer job_id =
    guard_found service peer (find_record service IpcRequestKind.cancel job_id)

module _ {C : Type 0} where
  abbrev pub replied_cancel : C × JobCancelOutcome → C × IpcResponse
  replied_cancel (after, outcome) = (after, cancel_response outcome)

  unfoldable pub cancel_unless : JobControl C → ℕ → C → Option IpcResponse → C × IpcResponse
  cancel_unless control job_id c (some refusal) = (c, refusal)
  cancel_unless control job_id c none = replied_cancel (control.cancel_job c job_id)

  abbrev pub handle_cancel : JobControl C → IpcService → PeerCredentials → ℕ → C → C × IpcResponse
  handle_cancel control service peer job_id c =
      cancel_unless control job_id c (cancel_guard service peer job_id)

abbrev pub not_started : IpcRequestKind → IpcResponse
not_started kind =
    error_response kind IpcError.invalid_state (text "job has not started; no logs yet")

-- `log_file_name` with the directory.
abbrev pub stdout_path : Text → Text
stdout_path directory = directory ++ text "/" ++ text "stdout.log"

abbrev pub stderr_path : Text → Text
stderr_path directory = directory ++ text "/" ++ text "stderr.log"

abbrev pub logs_response : Text → LogTailResult → LogTailResult → IpcResponse
logs_response directory out_tail err_tail =
    if not out_tail.succeeded || not err_tail.succeeded
    then error_response IpcRequestKind.logs IpcError.not_available
        (text "log read failed: " ++ directory)
    else record (blank protocol_version IpcRequestKind.logs IpcError.no_error []) {
      logs = record {
        stdout_truncated = out_tail.truncated;
        stdout_tail = out_tail.tail;
        stderr_truncated = err_tail.truncated;
        stderr_tail = err_tail.tail;
      };
    }

unfoldable pub handle_logs : IpcService → PeerCredentials → IpcLogsRequest → IpcResponse
handle_logs service peer request =
    let max_bytes = min request.max_bytes service.config.max_log_tail_bytes in
    settle (do
      r ← find_record service IpcRequestKind.logs request.job_id
      owned ← authorize service peer IpcRequestKind.logs r
      directory ← or_fail owned.execution.log_path (not_started IpcRequestKind.logs)
      ok (
          logs_response directory (service.read_tail (stdout_path directory) max_bytes)
            (service.read_tail (stderr_path directory) max_bytes)))

unfoldable pub validate_logs_follow :
    IpcService → PeerCredentials → IpcLogsFollowRequest → IpcResponse
validate_logs_follow service peer request = settle (do
  r ← find_record service IpcRequestKind.logs_follow request.job_id
  owned ← authorize service peer IpcRequestKind.logs_follow r
  directory ← or_fail owned.execution.log_path (not_started IpcRequestKind.logs_follow)
  ok (record (blank protocol_version IpcRequestKind.logs_follow IpcError.no_error []) {
    logs_follow = record {
      job_state = job_state_wire owned.state;
      stdout_offset = 0;
      stderr_offset = 0;
    };
  }))

unfoldable pub handle_tensorboard : IpcService → PeerCredentials → ℕ → IpcResponse
handle_tensorboard service peer job_id = settle (do
  r ← find_record service IpcRequestKind.tensorboard job_id
  owned ← authorize service peer IpcRequestKind.tensorboard r
  ok (record (blank protocol_version IpcRequestKind.tensorboard IpcError.no_error []) {
    tensorboard = record { logdir = owned.spec.tensorboard_logdir; cwd = owned.spec.cwd };
  }))
