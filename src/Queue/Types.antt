-- ===== src/Queue/Types.antt =====
-- The data of the job queue (include/yori/queue/job_queue.hpp), with the order of its entries and
-- `result` of src/queue/job_queue.cpp.
use yori.Common.{ℕ, Bool, true, false, not, Option, List}
use yori.Common.{ℤ, ltz, ltb, ◌==◌, nat_eq, int_eq, if◌then◌else◌}
use yori.Job.Spec.{JobId}
use yori.Job.Validate.{JobSpecErrorCode, JobSpecValidationResult, whole}
use yori.Job.State.{
  JobState, queued, starting, running, stopping, finished, failed, cancelled, lost,
}

abbrev pub max_capacity : ℕ
max_capacity = 4096

pub data QueueErrorCode : Type 0 where
  no_error invalid_capacity invalid_snapshot_revision invalid_job_id : QueueErrorCode
  invalid_job_spec invalid_job_state invalid_job_revision job_not_queued : QueueErrorCode
  duplicate_job capacity_exceeded job_not_found : QueueErrorCode

abbrev pub queue_ok : QueueErrorCode → Bool
queue_ok no_error = true
queue_ok _ = false

pub data QueueEventKind : Type 0 where
  no_event admission_accepted admission_rejected removal_applied removal_rejected : QueueEventKind
  restore_applied restore_rejected : QueueEventKind

pub record QueueEvent : Type 0 where
  pub kind : QueueEventKind
  pub code : QueueErrorCode
  pub job_id : Option JobId
  pub size_before : ℕ
  pub size_after : ℕ
  pub capacity : ℕ

pub record QueueEntry : Type 0 where
  pub job_id : JobId
  pub submit_time : ℤ

pub record QueueOperationResult : Type 0 where
  pub code : QueueErrorCode
  pub event : QueueEvent
  pub position : Option ℕ
  pub item_index : Option ℕ
  pub spec_validation : JobSpecValidationResult

pub record GlobalJobQueue : Type 0 where
  pub capacity : ℕ
  pub entries : List QueueEntry

unfoldable pub entry_less : QueueEntry → QueueEntry → Bool
entry_less lhs rhs =
    if not (lhs.submit_time == rhs.submit_time)
    then ltz lhs.submit_time rhs.submit_time
    else ltb lhs.job_id rhs.job_id

abbrev pub known_state : JobState → Bool
known_state queued = true
known_state starting = true
known_state running = true
known_state stopping = true
known_state finished = true
known_state failed = true
known_state cancelled = true
known_state lost = true

abbrev pub spec_fine : JobSpecValidationResult
spec_fine = whole JobSpecErrorCode.no_error

abbrev pub result :
    QueueEventKind
    → QueueErrorCode
    → Option JobId
    → ℕ
    → ℕ
    → ℕ
    → Option ℕ
    → Option ℕ
    → JobSpecValidationResult
    → QueueOperationResult
result kind code job_id size_before size_after capacity position item_index spec_validation =
    record {
      code = code;
      event = record {
        kind = kind;
        code = code;
        job_id = job_id;
        size_before = size_before;
        size_after = size_after;
        capacity = capacity;
      };
      position = position;
      item_index = item_index;
      spec_validation = spec_validation;
    }
