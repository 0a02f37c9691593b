-- ===== src/Queue/Names.antt =====
-- The printed names of the codes of the queue (src/queue/job_queue.cpp).
use Prim.Native.String.{String}
use yori.Queue.Types.{QueueErrorCode, QueueEventKind}

-- `to_string(QueueErrorCode)`.
unfoldable pub queue_error_code_to_string : QueueErrorCode → String
queue_error_code_to_string QueueErrorCode.no_error = "NONE"
queue_error_code_to_string QueueErrorCode.invalid_capacity = "INVALID_CAPACITY"
queue_error_code_to_string QueueErrorCode.invalid_snapshot_revision = "INVALID_SNAPSHOT_REVISION"
queue_error_code_to_string QueueErrorCode.invalid_job_id = "INVALID_JOB_ID"
queue_error_code_to_string QueueErrorCode.invalid_job_spec = "INVALID_JOB_SPEC"
queue_error_code_to_string QueueErrorCode.invalid_job_state = "INVALID_JOB_STATE"
queue_error_code_to_string QueueErrorCode.invalid_job_revision = "INVALID_JOB_REVISION"
queue_error_code_to_string QueueErrorCode.job_not_queued = "JOB_NOT_QUEUED"
queue_error_code_to_string QueueErrorCode.duplicate_job = "DUPLICATE_JOB"
queue_error_code_to_string QueueErrorCode.capacity_exceeded = "CAPACITY_EXCEEDED"
queue_error_code_to_string QueueErrorCode.job_not_found = "JOB_NOT_FOUND"

-- `to_string(QueueEventKind)`.
unfoldable pub queue_event_kind_to_string : QueueEventKind → String
queue_event_kind_to_string QueueEventKind.no_event = "NONE"
queue_event_kind_to_string QueueEventKind.admission_accepted = "ADMISSION_ACCEPTED"
queue_event_kind_to_string QueueEventKind.admission_rejected = "ADMISSION_REJECTED"
queue_event_kind_to_string QueueEventKind.removal_applied = "REMOVAL_APPLIED"
queue_event_kind_to_string QueueEventKind.removal_rejected = "REMOVAL_REJECTED"
queue_event_kind_to_string QueueEventKind.restore_applied = "RESTORE_APPLIED"
queue_event_kind_to_string QueueEventKind.restore_rejected = "RESTORE_REJECTED"
