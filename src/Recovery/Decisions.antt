-- ===== src/Recovery/Decisions.antt =====
-- That the updates of a recovery are legal (src/recovery/job_recovery.cpp, `plan`).
use yori.Common.{
  ℤ, ◌≡◌, ◌≢◌, ◌⊎◌, ◌↔◌, refl, inl, inr, true, false, Option, none, some, List, arith,
}
use yori.Common.{Text, subst}
use yori.Gpu.Provider.{GpuLease}
use yori.Job.State.{
  queued, starting, running, stopping, lost, can_transition, is_terminal, JobState,
}
use yori.Process.{ProcessIdentity}
use yori.Store.Types.{StoredJob}
use yori.Store.Execution.{
  has_identity, execution_ok, validate_execution, ends_before, max_failure_reason_bytes,
}
use yori.Store.Allowed.{
  IsExecution, IdentityFits, EndFits, ReasonFits, LogFits, validate_execution_iff,
}
use yori.Job.Validate.Valid.{IsLabel}
use yori.Store.Mutation.Single.{IsLegalUpdate}
use yori.Recovery.{
  RecoveryDecisionCode, IdentityVerification, RecoveryMutationEntry, lost_process_gone,
  lost_identity_mismatch, lost_identity_missing, adopted_promoted_to_running, promoted, given_up,
  is_active, is_lost, decide, entry_of_decision, find_lease_gpu, recovery_failure_reason,
}

reason_fits :
    (decision : RecoveryDecisionCode)
    → is_lost decision ≡ true
    → IsLabel max_failure_reason_bytes (recovery_failure_reason decision)
unfolding recovery_failure_reason
reason_fits lost_process_gone h = record {
  some_byte = λ e. cc;
  within = omega arith;
  nul_free = ground arith;
}
reason_fits lost_identity_mismatch h = record {
  some_byte = λ e. cc;
  within = omega arith;
  nul_free = ground arith;
}
reason_fits lost_identity_missing h = record {
  some_byte = λ e. cc;
  within = omega arith;
  nul_free = ground arith;
}
reason_fits _ h = cc

identity_kept :
    (i : ProcessIdentity) (state : JobState)
    → is_active state ≡ true
    → IdentityFits i state
    → IdentityFits i lost
identity_kept i starting h v = v
identity_kept i running h v = λ n. v
identity_kept i stopping h v = λ n. v
identity_kept i _ h v = cc

log_kept :
    (path : Option Text) (from to : JobState) → to ≢ queued → LogFits path from → LogFits path to
log_kept none from to h v = tt
log_kept (some path) from to h v = (h, v.1)

not_ended :
    (end start : Option ℤ) (reason : Option Text)
    → EndFits end start starting
    → ReasonFits reason starting
    → EndFits end start running × ReasonFits reason running
unfolding is_terminal
not_ended none start none v w = (tt, tt)
not_ended (some end) start reason v w = cc (v.0)
not_ended none start (some reason) v w = cc (w.0)

active_lost : (state : JobState) → is_active state ≡ true → can_transition state lost ≡ true
unfolding can_transition
active_lost state h = ground arith

promoted-IsLegalUpdate :
    (r : StoredJob)
    → IsExecution r.execution r.state r.spec
    → r.state ≡ starting
    → has_identity r.execution ≡ true
    → IsLegalUpdate r (promoted r)
unfolding can_transition is_terminal
promoted-IsLegalUpdate r v s h =
    let quiet =
      not_ended r.execution.end_time r.execution.start_time r.execution.failure_reason
        (subst (λ x. EndFits r.execution.end_time r.execution.start_time x) s v.end)
        (subst (λ x. ReasonFits r.execution.failure_reason x) s v.reason) in
    record {
      same_job = refl;
      same_specification = refl;
      allowed = rw (s, can_transition) refl;
      advanced = refl;
      valid = (validate_execution_iff r.execution running r.spec).1 (record {
        identity = h;
        exit = λ e. subst (λ x. is_terminal x ≡ true) s (v.exit e);
        start = v.start;
        end = quiet.0;
        reason = quiet.1;
        log = log_kept r.execution.log_path r.state running (λ e. cc) v.log;
      });
    }

given_up-IsLegalUpdate :
    (now : ℤ) (r : StoredJob) (decision : RecoveryDecisionCode)
    → IsExecution r.execution r.state r.spec
    → ends_before now r.execution.start_time ≡ false
    → is_active r.state ≡ true
    → is_lost decision ≡ true
    → IsLegalUpdate r (given_up now decision r)
unfolding is_terminal
given_up-IsLegalUpdate now r decision v later active h = record {
  same_job = refl;
  same_specification = refl;
  allowed = active_lost r.state active;
  advanced = refl;
  valid = (validate_execution_iff (given_up now decision r).execution lost r.spec).1 (record {
    identity = identity_kept r.execution.identity r.state active v.identity;
    exit = λ e. refl;
    start = v.start;
    end = (refl, later);
    reason = (refl, reason_fits decision h);
    log = log_kept r.execution.log_path r.state lost (λ e. cc) v.log;
  });
}

-- The record of an active job that is given up is valid for the store exactly if the clock of the
-- recovery is not before the job's start, where the stored record was valid.
pub given_up-execution_ok_iff :
    (now : ℤ) (r : StoredJob) (decision : RecoveryDecisionCode)
    → IsExecution r.execution r.state r.spec
    → is_active r.state ≡ true
    → is_lost decision ≡ true
    → (execution_ok (validate_execution (given_up now decision r).execution lost r.spec) ≡ true)
      ↔ (ends_before now r.execution.start_time ≡ false)
given_up-execution_ok_iff now r decision v active h = (
  (λ e. ((validate_execution_iff (given_up now decision r).execution lost r.spec).0 e).end.1),
  (λ later. (given_up-IsLegalUpdate now r decision v later active h).valid),
)

pub decide_active :
    (verifier : ProcessIdentity → IdentityVerification) (r : StoredJob)
    → is_lost (decide verifier r) ≡ true
    → is_active r.state ≡ true
unfolding decide
decide_active verifier r h = ground arith

pub decide_promoted :
    (verifier : ProcessIdentity → IdentityVerification) (r : StoredJob)
    → decide verifier r ≡ adopted_promoted_to_running
    → (r.state ≡ starting) × (has_identity r.execution ≡ true)
unfolding decide
decide_promoted verifier r h = ground arith

pub entry_cases :
    (now : ℤ) (leases : List GpuLease) (r : StoredJob) (decision : RecoveryDecisionCode)
    (entry : RecoveryMutationEntry)
    → entry_of_decision now leases r decision ≡ some entry
    → ((decision ≡ adopted_promoted_to_running)
        × (promoted r ≡ entry.update_job)
        × (entry.release_gpu ≡ none))
      ⊎ ((is_lost decision ≡ true)
          × (given_up now decision r ≡ entry.update_job)
          × (entry.release_gpu ≡ find_lease_gpu leases r.id))
unfolding entry_of_decision
entry_cases now leases r decision entry h = ground arith

pub entry-IsLegalUpdate :
    (verifier : ProcessIdentity → IdentityVerification) (now : ℤ) (leases : List GpuLease)
    (r : StoredJob) (entry : RecoveryMutationEntry)
    → IsExecution r.execution r.state r.spec
    → ends_before now r.execution.start_time ≡ false
    → entry_of_decision now leases r (decide verifier r) ≡ some entry
    → IsLegalUpdate r entry.update_job
entry-IsLegalUpdate verifier now leases r entry v later h =
    elim (entry_cases now leases r (decide verifier r) entry h) [
      | inl (d, e, _) ↦
          let (s, i) = decide_promoted verifier r d in
          subst (λ x. IsLegalUpdate r x) e (promoted-IsLegalUpdate r v s i)
      | inr (d, e, _) ↦
          subst (λ x. IsLegalUpdate r x) e
            (given_up-IsLegalUpdate now r (decide verifier r) v later (decide_active verifier r d)
              d)
    ]
