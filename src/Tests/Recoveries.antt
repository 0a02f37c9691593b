-- ===== src/Tests/Recoveries.antt =====
-- A recovery at a job that was running (src/recovery/job_recovery.cpp).
use yori.Common.{◌≡◌, ◌↔◌, refl, pos, some, true, false, [], ◌∷◌, All, subst, arith}
use yori.Job.State.{running, lost, is_terminal}
use yori.Process.{ProcessIdentity}
use yori.Store.Types.{StoredJob, StateSnapshot}
use yori.Store.Execution.{
  execution_ok, validate_execution, execution_checks, check_identity, check_start, check_end,
  check_reason, check_log_path, ends_before,
}
use yori.Store.Allowed.{IsExecution, validate_execution_iff}
use yori.Recovery.{IdentityVerification, process_gone, lost_process_gone, given_up, plan}
use yori.Recovery.Decisions.{given_up-execution_ok_iff}
use yori.Recovery.Fates.{IsPlanned, plan-IsPlanned}
use yori.Recovery.Accepted.{IsAccepted, plan-IsAccepted}
use yori.Common.Map.{values}
use yori.Tests.Stores.{jobs_2, leases_2, jobs_2-IsConsistent}
use yori.Store.Memory.{
  InMemoryStateStore, IsSound, applies, init, load, run, in_memory, apply-IsSound, run-init-IsSound,
}
use yori.Queue.Types.{GlobalJobQueue}
use yori.Recovery.Recover.{recover}
use yori.Recovery.Recover.Keeps.{recover-keeps}
use yori.Tests.Data.{job_a, nothing_run, gpu_a, config, submission, start_a}

-- Every process is gone.
abbrev all_gone : ProcessIdentity → IdentityVerification
all_gone identity = process_gone

abbrev running_job : StoredJob
running_job = record job_a {
  state = running;
  revision = 2;
  execution = record nothing_run {
    identity = record { pid = pos 40; pgid = pos 40; start_ticks = 8 };
    start_time = some (pos 6);
  };
}

running_accepted :
    execution_ok (validate_execution running_job.execution running running_job.spec) ≡ true
unfolding validate_execution execution_checks check_identity check_start check_end check_reason
    check_log_path is_terminal
running_accepted = refl

running_valid : IsExecution running_job.execution running running_job.spec
running_valid =
    (validate_execution_iff running_job.execution running running_job.spec).0 running_accepted

abbrev crashed : StateSnapshot
crashed = record {
  revision = 3;
  jobs = running_job ∷ [];
  leases = record { gpu_uuid = gpu_a; job_id = 1 } ∷ [];
}

given_up-execution_ok_iff_example :
    (execution_ok (
        validate_execution
          (given_up (pos 5) lost_process_gone running_job).execution
          lost
          running_job.spec)
      ≡ true)
    ↔ (ends_before (pos 5) (some (pos 6)) ≡ false)
given_up-execution_ok_iff_example =
    given_up-execution_ok_iff (pos 5) running_job lost_process_gone running_valid refl refl

plan-IsPlanned_example :
    let planned = plan all_gone (pos 9) crashed in
    IsPlanned all_gone crashed.leases crashed.jobs planned.outcomes planned.mutations
plan-IsPlanned_example = plan-IsPlanned all_gone (pos 9) crashed

plan-IsAccepted_example :
    All
      (IsAccepted config jobs_2 leases_2 2)
      (plan all_gone
        (pos 9)
        (record { revision = 2; jobs = values jobs_2; leases = values leases_2 })).mutations
plan-IsAccepted_example =
    plan-IsAccepted all_gone (pos 9) config jobs_2 leases_2 2 jobs_2-IsConsistent (omega arith)
      ((omega arith, refl), ((omega arith, refl), tt))

load-IsSound : (t : InMemoryStateStore) → IsSound t → IsSound (load t).0
unfolding load
load-IsSound t v = let same : t ≡ (load t).0 = ground arith in subst IsSound same v

-- Job A was starting when the daemon stopped.
abbrev interrupted : InMemoryStateStore
interrupted = run (init config) (applies submission ∷ applies start_a ∷ [])

abbrev idle_queue : GlobalJobQueue
idle_queue = record { capacity = 4; entries = [] }

recover-keeps_example : IsSound (recover in_memory all_gone (pos 9) idle_queue interrupted).0
recover-keeps_example =
    recover-keeps in_memory IsSound all_gone (pos 9) idle_queue interrupted load-IsSound
      (λ t m c v. apply-IsSound t m v)
      (run-init-IsSound config (applies submission ∷ applies start_a ∷ []))
