-- ===== src/Recovery.antt =====
-- What a restarted daemon does with each job of the store
-- (include/yori/recovery/job_recovery.hpp, src/recovery/job_recovery.cpp: `plan`).
pub mod Decisions
pub mod Fates
pub mod Accepted
pub mod Names
pub mod Recover
pub mod Verify
use yori.Common.{ℕ, ℤ, Text, Bool, true, false, Option, none, some, List, [], ◌∷◌}
use yori.Common.{◌==◌, nat_eq, if◌then◌else◌, next_u64}
use yori.Gpu.Uuid.{GpuUuid}
use yori.Gpu.Provider.{GpuLease}
use yori.Job.Spec.{JobId}
use yori.Job.State.{JobState, queued, starting, running, stopping, lost}
use yori.Process.{ProcessIdentity}
use yori.Store.Types.{StoredJob, StateSnapshot}
use yori.Store.Execution.{has_identity}

pub data RecoveryDecisionCode : Type 0 where
  adopted_running adopted_promoted_to_running adopted_stopping_needs_recancel : RecoveryDecisionCode
  queued_restored lost_process_gone lost_identity_mismatch : RecoveryDecisionCode
  lost_identity_missing terminal_untouched : RecoveryDecisionCode

pub data IdentityVerification : Type 0 where
  verified process_gone mismatch : IdentityVerification

pub record RecoveryJobOutcome : Type 0 where
  pub job_id : JobId
  pub previous_state : JobState
  pub decision : RecoveryDecisionCode
  pub released_gpu : Option GpuUuid

pub record RecoveryMutationEntry : Type 0 where
  pub update_job : StoredJob
  pub release_gpu : Option GpuUuid

pub record RecoveryPlan : Type 0 where
  pub outcomes : List RecoveryJobOutcome
  pub mutations : List RecoveryMutationEntry

abbrev pub is_active : JobState → Bool
is_active starting = true
is_active running = true
is_active stopping = true
is_active _ = false

unfoldable pub find_lease_gpu : List GpuLease → JobId → Option GpuUuid
find_lease_gpu [] id = none
find_lease_gpu (lease ∷ rest) id =
    if lease.job_id == id then some lease.gpu_uuid else find_lease_gpu rest id

unfoldable pub recovery_failure_reason : RecoveryDecisionCode → Text
recovery_failure_reason lost_process_gone =
    b'r' ∷ b'e' ∷ b'c' ∷ b'o' ∷ b'v' ∷ b'e' ∷ b'r' ∷ b'y' ∷ b':' ∷ b' ' ∷ b'p' ∷ b'r' ∷ b'o' ∷ b'c'
    ∷ b'e' ∷ b's' ∷ b's' ∷ b' ' ∷ b'g' ∷ b'o' ∷ b'n' ∷ b'e' ∷ b' ' ∷ b'b' ∷ b'e' ∷ b'f' ∷ b'o'
    ∷ b'r' ∷ b'e' ∷ b' ' ∷ b'o' ∷ b'r' ∷ b' ' ∷ b'd' ∷ b'u' ∷ b'r' ∷ b'i' ∷ b'n' ∷ b'g' ∷ b' '
    ∷ b'd' ∷ b'a' ∷ b'e' ∷ b'm' ∷ b'o' ∷ b'n' ∷ b' ' ∷ b'r' ∷ b'e' ∷ b's' ∷ b't' ∷ b'a' ∷ b'r'
    ∷ b't' ∷ []
recovery_failure_reason lost_identity_mismatch =
    b'r' ∷ b'e' ∷ b'c' ∷ b'o' ∷ b'v' ∷ b'e' ∷ b'r' ∷ b'y' ∷ b':' ∷ b' ' ∷ b'p' ∷ b'i' ∷ b'd' ∷ b' '
    ∷ b'r' ∷ b'e' ∷ b'u' ∷ b's' ∷ b'e' ∷ b'd' ∷ b' ' ∷ b'b' ∷ b'y' ∷ b' ' ∷ b'a' ∷ b'n' ∷ b'o'
    ∷ b't' ∷ b'h' ∷ b'e' ∷ b'r' ∷ b' ' ∷ b'p' ∷ b'r' ∷ b'o' ∷ b'c' ∷ b'e' ∷ b's' ∷ b's' ∷ b' '
    ∷ b'(' ∷ b'p' ∷ b'g' ∷ b'i' ∷ b'd' ∷ b'/' ∷ b's' ∷ b't' ∷ b'a' ∷ b'r' ∷ b't' ∷ b' ' ∷ b't'
    ∷ b'i' ∷ b'c' ∷ b'k' ∷ b's' ∷ b' ' ∷ b'm' ∷ b'i' ∷ b's' ∷ b'm' ∷ b'a' ∷ b't' ∷ b'c' ∷ b'h'
    ∷ b')' ∷ []
recovery_failure_reason lost_identity_missing =
    b'r' ∷ b'e' ∷ b'c' ∷ b'o' ∷ b'v' ∷ b'e' ∷ b'r' ∷ b'y' ∷ b':' ∷ b' ' ∷ b'a' ∷ b'c' ∷ b't' ∷ b'i'
    ∷ b'v' ∷ b'e' ∷ b' ' ∷ b'j' ∷ b'o' ∷ b'b' ∷ b' ' ∷ b'w' ∷ b'i' ∷ b't' ∷ b'h' ∷ b'o' ∷ b'u'
    ∷ b't' ∷ b' ' ∷ b'r' ∷ b'e' ∷ b'c' ∷ b'o' ∷ b'r' ∷ b'd' ∷ b'e' ∷ b'd' ∷ b' ' ∷ b'p' ∷ b'r'
    ∷ b'o' ∷ b'c' ∷ b'e' ∷ b's' ∷ b's' ∷ b' ' ∷ b'i' ∷ b'd' ∷ b'e' ∷ b'n' ∷ b't' ∷ b'i' ∷ b't'
    ∷ b'y' ∷ []
recovery_failure_reason _ = []

-- The decision for a verified process.
abbrev pub adopt : JobState → RecoveryDecisionCode
adopt starting = adopted_promoted_to_running
adopt stopping = adopted_stopping_needs_recancel
adopt _ = adopted_running

-- The decision for an active job with an identity, by what its verification says.
abbrev pub judge : JobState → IdentityVerification → RecoveryDecisionCode
judge state verified = adopt state
judge state process_gone = lost_process_gone
judge state mismatch = lost_identity_mismatch

-- `outcome.decision`; the verifier is what the service was given.
unfoldable pub decide : (ProcessIdentity → IdentityVerification) → StoredJob → RecoveryDecisionCode
decide verifier r = elim (is_active r.state) [
  | false ↦ elim r.state [ queued ↦ queued_restored | _ ↦ terminal_untouched ]
  | true ↦
      if has_identity r.execution
      then judge r.state (verifier r.execution.identity)
      else lost_identity_missing
]

-- The copies that are written.
abbrev pub promoted : StoredJob → StoredJob
promoted r = record r { state = running; revision = next_u64 r.revision }

abbrev pub given_up : ℤ → RecoveryDecisionCode → StoredJob → StoredJob
given_up now decision r = record r {
  state = lost;
  revision = next_u64 r.revision;
  execution = record r.execution {
    failure_reason = some (recovery_failure_reason decision);
    end_time = some now;
  };
}

abbrev pub is_lost : RecoveryDecisionCode → Bool
is_lost lost_process_gone = true
is_lost lost_identity_mismatch = true
is_lost lost_identity_missing = true
is_lost _ = false

-- The mutation of a decision, if it has one.
unfoldable pub entry_of_decision :
    ℤ → List GpuLease → StoredJob → RecoveryDecisionCode → Option RecoveryMutationEntry
entry_of_decision now leases r adopted_promoted_to_running =
    some (record { update_job = promoted r; release_gpu = none })
entry_of_decision now leases r decision =
    if is_lost decision
    then some
        (record { update_job = given_up now decision r; release_gpu = find_lease_gpu leases r.id })
    else none

abbrev pub outcome_for : List GpuLease → StoredJob → RecoveryDecisionCode → RecoveryJobOutcome
outcome_for leases r decision = record {
  job_id = r.id;
  previous_state = r.state;
  decision = decision;
  released_gpu = if is_lost decision then find_lease_gpu leases r.id else none;
}

abbrev pub with_entry :
    Option RecoveryMutationEntry → List RecoveryMutationEntry → List RecoveryMutationEntry
with_entry none rest = rest
with_entry (some entry) rest = entry ∷ rest

unfoldable pub plan_jobs :
    (ProcessIdentity → IdentityVerification) → ℤ → List GpuLease → List StoredJob → RecoveryPlan
plan_jobs verifier now leases [] = record { outcomes = []; mutations = [] }
plan_jobs verifier now leases (r ∷ jobs) =
    let rest = plan_jobs verifier now leases jobs in
    let decision = decide verifier r in
    record {
      outcomes = outcome_for leases r decision ∷ rest.outcomes;
      mutations = with_entry (entry_of_decision now leases r decision) rest.mutations;
    }

-- `JobRecovery::plan`; `now` is the clock it reads.
unfoldable pub plan : (ProcessIdentity → IdentityVerification) → ℤ → StateSnapshot → RecoveryPlan
plan verifier now snapshot = plan_jobs verifier now snapshot.leases snapshot.jobs
