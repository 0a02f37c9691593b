-- ===== src/Service/Control.antt =====
-- `JobControl`, to which submissions and cancellations are delegated
-- (include/yori/ipc/ipc_service.hpp).
use yori.Common.{ℕ, Text}
use yori.Job.Spec.{JobSpec}

pub data SubmitCode : Type 0 where
  submitted store_failed queue_rejected unavailable : SubmitCode

pub record JobSubmitOutcome : Type 0 where
  pub code : SubmitCode
  pub job_id : ℕ
  pub detail : Text

pub data CancelCode : Type 0 where
  cancelled stopping not_found invalid_state store_failed unavailable : CancelCode

pub record JobCancelOutcome : Type 0 where
  pub code : CancelCode
  pub state : ℕ
  pub detail : Text

-- `class JobControl`: an implementation over states `C`.
pub record JobControl (C : Type 0) : Type 0 where
  pub submit_job : C → JobSpec → C × JobSubmitOutcome
  pub cancel_job : C → ℕ → C × JobCancelOutcome
