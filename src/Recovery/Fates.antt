-- ===== src/Recovery/Fates.antt =====
-- What a restart decides for each job, and what it reports and writes of it
-- (src/recovery/job_recovery.cpp, `plan`).
use yori.Common.{
  ℤ, ◌≡◌, ◌≢◌, ◌⊎◌, refl, subst, inl, inr, true, false, Option, none, some, List, [], ◌∷◌, arith,
}
use yori.Common.{All, Bool-cases, nat_eq, nat_beq_iff}
use yori.Gpu.Uuid.{GpuUuid}
use yori.Gpu.Provider.{GpuLease}
use yori.Job.Spec.{JobId}
use yori.Job.State.{
  JobState, queued, starting, running, stopping, finished, failed, cancelled, lost, is_terminal,
}
use yori.Process.{ProcessIdentity}
use yori.Store.Types.{StoredJob, StateSnapshot}
use yori.Store.Execution.{has_identity}
use yori.Scheduler.Required.{Among}
use yori.Recovery.{
  RecoveryDecisionCode, RecoveryJobOutcome, RecoveryMutationEntry, IdentityVerification, verified,
  process_gone, mismatch, queued_restored, terminal_untouched, adopted_running,
  adopted_promoted_to_running, adopted_stopping_needs_recancel, lost_identity_missing,
  lost_process_gone, lost_identity_mismatch, find_lease_gpu, decide, entry_of_decision, plan_jobs,
  outcome_for, with_entry, plan,
}

-- The job has, or should have, a process.
abbrev pub IsLive : StoredJob → Type 0
IsLive r = (r.state ≡ starting) ⊎ (r.state ≡ running) ⊎ (r.state ≡ stopping)

-- The process of the job was found to be so.
abbrev pub Found :
    (ProcessIdentity → IdentityVerification) → StoredJob → IdentityVerification → Type 0
Found verifier r what = (has_identity r.execution ≡ true) × (verifier r.execution.identity ≡ what)

-- The decision for a job, and the state it is moved to, if it is moved.
pub data Fate (verifier : ProcessIdentity → IdentityVerification) (r : StoredJob)
    : RecoveryDecisionCode → Option JobState → Type 0 where
  waits : r.state ≡ queued → Fate verifier r queued_restored none
  rests : is_terminal r.state ≡ true → Fate verifier r terminal_untouched none
  promotes :
      r.state ≡ starting
      → Found verifier r verified
      → Fate verifier r adopted_promoted_to_running (some running)
  runs : r.state ≡ running → Found verifier r verified → Fate verifier r adopted_running none
  stops :
      r.state ≡ stopping
      → Found verifier r verified
      → Fate verifier r adopted_stopping_needs_recancel none
  unknown :
      IsLive r
      → has_identity r.execution ≡ false
      → Fate verifier r lost_identity_missing (some lost)
  gone : IsLive r → Found verifier r process_gone → Fate verifier r lost_process_gone (some lost)
  replaced :
      IsLive r → Found verifier r mismatch → Fate verifier r lost_identity_mismatch (some lost)

-- The device that is released belongs to a lease of the job; none is released if no lease names it.
abbrev pub Names : List GpuLease → JobId → Option GpuUuid → Type 0
Names leases id none = All (λ lease. lease.job_id ≢ id) leases
Names leases id (some uuid) =
    (lease : GpuLease) × Among lease leases × (lease.job_id ≡ id) × (lease.gpu_uuid ≡ uuid)

-- Only a job that is given up releases a device.
abbrev pub Releases : List GpuLease → JobId → JobState → Option GpuUuid → Type 0
Releases leases id lost release = Names leases id release
Releases leases id _ release = release ≡ none

-- The outcomes are those of the jobs, in their order, and there is one entry for each job that is
-- moved.
pub data IsPlanned (verifier : ProcessIdentity → IdentityVerification) (leases : List GpuLease)
    : List StoredJob → List RecoveryJobOutcome → List RecoveryMutationEntry → Type 0 where
  done : IsPlanned verifier leases [] [] []
  stays :
      (r : StoredJob) (o : RecoveryJobOutcome) {jobs : List StoredJob}
      {outcomes : List RecoveryJobOutcome} {entries : List RecoveryMutationEntry}
      → (o.job_id ≡ r.id) × (o.previous_state ≡ r.state)
      → Fate verifier r o.decision none
      → o.released_gpu ≡ none
      → IsPlanned verifier leases jobs outcomes entries
      → IsPlanned verifier leases (r ∷ jobs) (o ∷ outcomes) entries
  moves :
      (r : StoredJob) (o : RecoveryJobOutcome) (e : RecoveryMutationEntry) {jobs : List StoredJob}
      {outcomes : List RecoveryJobOutcome} {entries : List RecoveryMutationEntry}
      → (o.job_id ≡ r.id) × (o.previous_state ≡ r.state)
      → Fate verifier r o.decision (some e.update_job.state)
      → e.update_job.id ≡ r.id
      → Releases leases r.id e.update_job.state e.release_gpu
      → o.released_gpu ≡ e.release_gpu
      → IsPlanned verifier leases jobs outcomes entries
      → IsPlanned verifier leases (r ∷ jobs) (o ∷ outcomes) (e ∷ entries)

pub find_lease_gpu-Names :
    (leases : List GpuLease) (id : JobId) → Names leases id (find_lease_gpu leases id)
unfolding find_lease_gpu
find_lease_gpu-Names [] id = tt
find_lease_gpu-Names (lease ∷ rest) id = elim (Bool-cases (nat_eq.beq lease.job_id id)) [
  | inl e ↦ rw e (lease, inl refl, (nat_beq_iff lease.job_id id).0 e, refl)
  | inr e ↦
      let other : lease.job_id ≢ id = λ q. ground (arith, nat_beq_iff lease.job_id id) in
      rw e (later other (find_lease_gpu rest id) (find_lease_gpu-Names rest id))
]
  where
    later : lease.job_id ≢ id → (o : Option GpuUuid) → Names rest id o → Names (lease ∷ rest) id o
    later other none h = (other, h)
    later other (some uuid) (l, there, named, same) = (l, inr there, named, same)

-- The state that a decision moves a job to.
target : RecoveryDecisionCode → Option JobState
target adopted_promoted_to_running = some running
target lost_process_gone = some lost
target lost_identity_mismatch = some lost
target lost_identity_missing = some lost
target _ = none

module _ (verifier : ProcessIdentity → IdentityVerification) (r : StoredJob) where
  abbrev HasFate : RecoveryDecisionCode → Type 0
  HasFate decision = Fate verifier r decision (target decision)

  Found-HasFate :
      (what : IdentityVerification) → Found verifier r what → IsLive r → HasFate (decide verifier r)
  unfolding decide target
  Found-HasFate verified h live = elim live [
    | inl s ↦ subst HasFate (ground arith) (promotes s h)
    | inr (inl s) ↦ subst HasFate (ground arith) (runs s h)
    | inr (inr s) ↦ subst HasFate (ground arith) (stops s h)
  ]
  Found-HasFate process_gone h live = subst HasFate (ground arith) (gone live h)
  Found-HasFate mismatch h live = subst HasFate (ground arith) (replaced live h)

  IsLive-HasFate : IsLive r → HasFate (decide verifier r)
  unfolding decide target
  IsLive-HasFate live = elim (Bool-cases (has_identity r.execution)) [
    | inl e ↦ Found-HasFate (verifier r.execution.identity) (e, refl) live
    | inr e ↦ subst HasFate (ground arith) (unknown live e)
  ]

  decide-HasFate : (state : JobState) → r.state ≡ state → HasFate (decide verifier r)
  unfolding decide target is_terminal
  decide-HasFate queued h = subst HasFate (ground arith) (waits h)
  decide-HasFate starting h = IsLive-HasFate (inl h)
  decide-HasFate running h = IsLive-HasFate (inr (inl h))
  decide-HasFate stopping h = IsLive-HasFate (inr (inr h))
  decide-HasFate finished h = subst HasFate (ground arith) (rests (ground arith))
  decide-HasFate failed h = subst HasFate (ground arith) (rests (ground arith))
  decide-HasFate cancelled h = subst HasFate (ground arith) (rests (ground arith))
  decide-HasFate lost h = subst HasFate (ground arith) (rests (ground arith))

module _ (verifier : ProcessIdentity → IdentityVerification) (now : ℤ)
    (leases : List GpuLease) where
  extend :
      (r : StoredJob) (decision : RecoveryDecisionCode) (jobs : List StoredJob)
      (outcomes : List RecoveryJobOutcome) (entries : List RecoveryMutationEntry)
      → Fate verifier r decision (target decision)
      → IsPlanned verifier leases jobs outcomes entries
      → IsPlanned verifier leases
          (r ∷ jobs)
          (outcome_for leases r decision ∷ outcomes)
          (with_entry (entry_of_decision now leases r decision) entries)
  unfolding target entry_of_decision
  extend r adopted_promoted_to_running jobs outcomes entries f p =
      moves r _ _ (refl, refl) f refl refl refl p
  extend r lost_process_gone jobs outcomes entries f p =
      moves r _ _ (refl, refl) f refl (find_lease_gpu-Names leases r.id) refl p
  extend r lost_identity_mismatch jobs outcomes entries f p =
      moves r _ _ (refl, refl) f refl (find_lease_gpu-Names leases r.id) refl p
  extend r lost_identity_missing jobs outcomes entries f p =
      moves r _ _ (refl, refl) f refl (find_lease_gpu-Names leases r.id) refl p
  extend r adopted_running jobs outcomes entries f p = stays r _ (refl, refl) f refl p
  extend r adopted_stopping_needs_recancel jobs outcomes entries f p =
      stays r _ (refl, refl) f refl p
  extend r queued_restored jobs outcomes entries f p = stays r _ (refl, refl) f refl p
  extend r terminal_untouched jobs outcomes entries f p = stays r _ (refl, refl) f refl p

  plan_jobs-IsPlanned :
      (jobs : List StoredJob)
      → let planned = plan_jobs verifier now leases jobs in
        IsPlanned verifier leases jobs planned.outcomes planned.mutations
  unfolding plan_jobs
  plan_jobs-IsPlanned [] = done
  plan_jobs-IsPlanned (r ∷ jobs) =
      extend r (decide verifier r) jobs _ _ (decide-HasFate verifier r r.state refl)
        (plan_jobs-IsPlanned jobs)

-- The plan reports every job of the snapshot, in order, with the decision that its state, its
-- identity and the verification of its process call for, and has one entry for each job that is
-- moved and for no other: to `running` for a starting job whose process is verified, and to `lost`
-- for a live job whose process is gone, is another or is not known. A job that is given up releases
-- the device of a lease that names it, if there is one, and a job that is not releases none.
pub plan-IsPlanned :
    (verifier : ProcessIdentity → IdentityVerification) (now : ℤ) (snapshot : StateSnapshot)
    → let planned = plan verifier now snapshot in
      IsPlanned verifier snapshot.leases snapshot.jobs planned.outcomes planned.mutations
unfolding plan
plan-IsPlanned verifier now snapshot =
    plan_jobs-IsPlanned verifier now snapshot.leases snapshot.jobs
