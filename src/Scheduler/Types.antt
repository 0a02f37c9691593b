-- ===== src/Scheduler/Types.antt =====
-- The data of a scheduling round (include/yori/scheduler/scheduler.hpp) and `result` of
-- src/scheduler/scheduler.cpp.
use yori.Common.{ℕ, Bool, false, Option, List, []}
use yori.Gpu.Uuid.{GpuUuid}
use yori.Gpu.Provider.{GpuObservationValidationResult}
use yori.Gpu.Provider
use yori.Job.Spec.{JobId}
use yori.Store.Types.{StateStoreErrorCode}
use yori.Queue.Types.{QueueErrorCode}
use yori.Scheduler.Select.{WaitReason, GpuSelectionReason}

pub data SchedulerTrigger : Type 0 where
  job_submitted job_exited job_cancelled gpu_state_changed recovery_completed : SchedulerTrigger
  admin_state_changed : SchedulerTrigger

pub record SchedulerConfig : Type 0 where
  pub scan_window : ℕ

pub record ScheduleSkip : Type 0 where
  pub job : JobId
  pub reason : WaitReason
  pub target : Option GpuUuid

pub record ScheduleEvaluation : Type 0 where
  pub skipped : List ScheduleSkip
  pub window_truncated : Bool

pub data ScheduleResultCode : Type 0 where
  scheduled queue_empty no_candidate cancelled invalid_gpu_snapshot : ScheduleResultCode
  state_load_failed queue_state_diverged state_write_failed : ScheduleResultCode
  queue_rollback_failed : ScheduleResultCode

pub record SchedulerEvent : Type 0 where
  pub trigger : SchedulerTrigger
  pub code : ScheduleResultCode
  pub job_id : Option JobId
  pub gpu_uuid : Option GpuUuid
  pub selection_reason : GpuSelectionReason
  pub gpu_validation : GpuObservationValidationResult
  pub store_error : StateStoreErrorCode
  pub queue_error : QueueErrorCode
  pub store_revision : ℕ

pub record ScheduleResult : Type 0 where
  pub code : ScheduleResultCode
  pub event : SchedulerEvent
  pub evaluation : ScheduleEvaluation

abbrev pub gpu_fine : GpuObservationValidationResult
gpu_fine = Provider.whole Provider.no_error

abbrev pub no_evaluation : ScheduleEvaluation
no_evaluation = record { skipped = []; window_truncated = false }

-- `result`, without its default arguments.
abbrev pub result :
    SchedulerTrigger
    → ScheduleResultCode
    → Option JobId
    → Option GpuUuid
    → GpuObservationValidationResult
    → StateStoreErrorCode
    → QueueErrorCode
    → ℕ
    → ScheduleEvaluation
    → GpuSelectionReason
    → ScheduleResult
result trigger code job_id gpu_uuid gpu_validation store_error queue_error revision evaluation
      reason =
    record {
      code = code;
      event = record {
        trigger = trigger;
        code = code;
        job_id = job_id;
        gpu_uuid = gpu_uuid;
        selection_reason = reason;
        gpu_validation = gpu_validation;
        store_error = store_error;
        queue_error = queue_error;
        store_revision = revision;
      };
      evaluation = evaluation;
    }
