-- ===== src/Scheduler/Names.antt =====
-- The printed names of the codes of the scheduler (src/scheduler/scheduler.cpp).
use Prim.Native.String.{String}
use yori.Scheduler.Types.{SchedulerTrigger, ScheduleResultCode}
use yori.Scheduler.Select.{WaitReason, GpuSelectionReason}

-- `to_string(SchedulerTrigger)`.
unfoldable pub scheduler_trigger_to_string : SchedulerTrigger → String
scheduler_trigger_to_string SchedulerTrigger.job_submitted = "JOB_SUBMITTED"
scheduler_trigger_to_string SchedulerTrigger.job_exited = "JOB_EXITED"
scheduler_trigger_to_string SchedulerTrigger.job_cancelled = "JOB_CANCELLED"
scheduler_trigger_to_string SchedulerTrigger.gpu_state_changed = "GPU_STATE_CHANGED"
scheduler_trigger_to_string SchedulerTrigger.recovery_completed = "RECOVERY_COMPLETED"
scheduler_trigger_to_string SchedulerTrigger.admin_state_changed = "ADMIN_STATE_CHANGED"

-- `to_string(WaitReason)`.
unfoldable pub wait_reason_to_string : WaitReason → String
wait_reason_to_string WaitReason.no_reason = "NONE"
wait_reason_to_string WaitReason.no_free_gpu = "NO_FREE_GPU"
wait_reason_to_string WaitReason.affinity_gpu_allocated = "AFFINITY_GPU_ALLOCATED"
wait_reason_to_string WaitReason.affinity_gpu_external = "AFFINITY_GPU_EXTERNAL"
wait_reason_to_string WaitReason.affinity_gpu_state = "AFFINITY_GPU_STATE"

-- `to_string(GpuSelectionReason)`.
unfoldable pub gpu_selection_reason_to_string : GpuSelectionReason → String
gpu_selection_reason_to_string GpuSelectionReason.default_choice = "DEFAULT"
gpu_selection_reason_to_string GpuSelectionReason.avoid_required_affinity =
    "AVOID_REQUIRED_AFFINITY"
gpu_selection_reason_to_string GpuSelectionReason.affinity_fallback = "AFFINITY_FALLBACK"
gpu_selection_reason_to_string GpuSelectionReason.preferred_fallback = "PREFERRED_FALLBACK"

-- `to_string(ScheduleResultCode)`.
unfoldable pub schedule_result_code_to_string : ScheduleResultCode → String
schedule_result_code_to_string ScheduleResultCode.scheduled = "SCHEDULED"
schedule_result_code_to_string ScheduleResultCode.queue_empty = "QUEUE_EMPTY"
schedule_result_code_to_string ScheduleResultCode.no_candidate = "NO_CANDIDATE"
schedule_result_code_to_string ScheduleResultCode.cancelled = "CANCELLED"
schedule_result_code_to_string ScheduleResultCode.invalid_gpu_snapshot = "INVALID_GPU_SNAPSHOT"
schedule_result_code_to_string ScheduleResultCode.state_load_failed = "STATE_LOAD_FAILED"
schedule_result_code_to_string ScheduleResultCode.queue_state_diverged = "QUEUE_STATE_DIVERGED"
schedule_result_code_to_string ScheduleResultCode.state_write_failed = "STATE_WRITE_FAILED"
schedule_result_code_to_string ScheduleResultCode.queue_rollback_failed = "QUEUE_ROLLBACK_FAILED"
