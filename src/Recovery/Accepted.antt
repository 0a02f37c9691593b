-- ===== src/Recovery/Accepted.antt =====
-- The store accepts what a recovery prepares (src/recovery/job_recovery.cpp, `plan`, and
-- src/store/mutation_core.cpp, `apply_mutation`).
use yori.Common.{
  ℕ, ℤ, ◌+◌, ◌<◌, ◌≡◌, ◌≢◌, refl, subst, sym, ap, inl, inr, true, false, Option, none, some, List,
  [], ◌∷◌, arith,
}
use yori.Common.{All, Option-cases, nat_eq, list_eq, nat_beq_iff, u64_modulus}
use yori.Common.Map.{find, values, values-All}
use yori.Gpu.Uuid.{GpuUuid}
use yori.Job.Spec.{JobId}
use yori.Job.State.{JobState}
use yori.Process.{ProcessIdentity}
use yori.Store.Types.{StoredJob, StateMutation, no_error}
use yori.Store.Execution.{ends_before}
use yori.Store.Mutation.{JobMap, LeaseMap, ValidationConfig, leaseable, lease_count, apply_mutation}
use yori.Store.Mutation.Sound.{IsConsistent}
use yori.Store.Mutation.Single.{IsLegalUpdate, apply_single-keeps, apply_single-releases}
use yori.Scheduler.Required.{Among}
use yori.Recovery.{
  IdentityVerification, RecoveryMutationEntry, find_lease_gpu, is_active, decide, entry_of_decision,
  plan_jobs, plan,
}
use yori.Recovery.Decisions.{entry_cases, entry-IsLegalUpdate, decide_active, decide_promoted}
use yori.Recovery.Fates.{Names, find_lease_gpu-Names}
use yori.Recovery.Recover.{release_of}

-- The mutation of one entry.
abbrev pub alone : ℕ → RecoveryMutationEntry → StateMutation
alone revision entry = record {
  expected_revision = revision;
  create_jobs = [];
  update_jobs = entry.update_job ∷ [];
  acquire_leases = [];
  release_leases = release_of entry.release_gpu;
}

-- The revision of the job can still move, and the clock is not before its start.
abbrev pub IsRecoverable : ℤ → StoredJob → Type 0
IsRecoverable now r =
    (r.revision + 1 < u64_modulus) × (ends_before now r.execution.start_time ≡ false)

All-Among : {A : Type 0} (P : A → Type 0) (a : A) (xs : List A) → Among a xs → All P xs → P a
All-Among P a [] h v = absurd h
All-Among P a (x ∷ xs) (inl e) v = subst P e v.0
All-Among P a (x ∷ xs) (inr h) v = All-Among P a xs h v.1

active_leaseable : (state : JobState) → is_active state ≡ true → leaseable state ≡ true
active_leaseable state h = ground arith

lease_count-none :
    (id : JobId) (leases : LeaseMap)
    → All (λ lease. lease.job_id ≢ id) (values leases)
    → lease_count id leases ≡ 0
unfolding lease_count
lease_count-none id [] h = refl
lease_count-none id ((uuid, lease) ∷ rest) h =
    ground (arith, lease_count-none id rest h.1, nat_beq_iff lease.job_id id)

-- The store takes the entry, written on its own.
abbrev pub IsAccepted : ValidationConfig → JobMap → LeaseMap → ℕ → RecoveryMutationEntry → Type 0
IsAccepted config jobs leases revision entry =
    (apply_mutation jobs leases revision config (alone revision entry)).code ≡ no_error

module _ {config : ValidationConfig} {jobs : JobMap} {leases : LeaseMap}
    (v : IsConsistent config jobs leases) (revision : ℕ) (room : revision + 1 < u64_modulus) where
  stored_leases : All (λ lease. find lease.gpu_uuid leases ≡ some lease) (values leases)
  stored_leases =
      values-All (λ lease. find lease.gpu_uuid leases ≡ some lease) leases v.leases_sound.unique
        λ uuid lease h.
          subst (λ x. find x leases ≡ some lease) (sym (v.leases_sound.stored uuid lease h).keyed) h

  -- The lease that is found for an active job is that of the job.
  released-IsAccepted :
      (r : StoredJob) (entry : RecoveryMutationEntry) (release : Option GpuUuid)
      → find r.id jobs ≡ some r
      → IsLegalUpdate r entry.update_job
      → r.revision + 1 < u64_modulus
      → leaseable r.state ≡ true
      → leaseable entry.update_job.state ≡ false
      → entry.release_gpu ≡ release
      → Names (values leases) r.id release
      → IsAccepted config jobs leases revision entry
  released-IsAccepted r entry none found legal below active over e named =
      let matrix = v.matrix r.id r found in
      absurd (ground (arith, lease_count-none r.id leases named))
  released-IsAccepted r entry (some uuid) found legal below active over e
        (lease, there, named, same) =
      let h =
        All-Among (λ l. find l.gpu_uuid leases ≡ some l) lease (values leases) there
          stored_leases in
      let held = subst (λ x. find x leases ≡ some lease) same h in
      let accepted =
        apply_single-releases v r entry.update_job found legal revision uuid lease below room active
          over held named in
      rw e accepted

  kept-IsAccepted :
      (r : StoredJob) (entry : RecoveryMutationEntry)
      → find r.id jobs ≡ some r
      → IsLegalUpdate r entry.update_job
      → r.revision + 1 < u64_modulus
      → leaseable entry.update_job.state ≡ leaseable r.state
      → entry.release_gpu ≡ none
      → IsAccepted config jobs leases revision entry
  kept-IsAccepted r entry found legal below same e =
      let accepted = apply_single-keeps v r entry.update_job found legal revision below room same in
      rw e accepted

  entry-IsAccepted :
      (verifier : ProcessIdentity → IdentityVerification) (now : ℤ) (r : StoredJob)
      (entry : RecoveryMutationEntry)
      → find r.id jobs ≡ some r
      → IsRecoverable now r
      → entry_of_decision now (values leases) r (decide verifier r) ≡ some entry
      → IsAccepted config jobs leases revision entry
  entry-IsAccepted verifier now r entry found (below, later) h =
      let fits = (v.jobs_sound.stored r.id r found).execution_fits in
      let legal = entry-IsLegalUpdate verifier now (values leases) r entry fits later h in
      elim (entry_cases now (values leases) r (decide verifier r) entry h) [
        | inl (d, e, none_released) ↦
            let (s, _) = decide_promoted verifier r d in
            kept-IsAccepted r entry found legal below
              (subst (λ x. leaseable x.state ≡ leaseable r.state) e (ap leaseable (sym s)))
              none_released
        | inr (d, e, released) ↦
            released-IsAccepted r entry (find_lease_gpu (values leases) r.id) found legal below
              (active_leaseable r.state (decide_active verifier r d))
              (subst (λ x. leaseable x.state ≡ false) e refl) released
              (find_lease_gpu-Names (values leases) r.id)
      ]

  plan_jobs-IsAccepted :
      (verifier : ProcessIdentity → IdentityVerification) (now : ℤ) (rs : List StoredJob)
      → All (λ r. find r.id jobs ≡ some r) rs
      → All (IsRecoverable now) rs
      → All
          (IsAccepted config jobs leases revision)
          (plan_jobs verifier now (values leases) rs).mutations
  unfolding plan_jobs
  plan_jobs-IsAccepted verifier now [] f w = tt
  plan_jobs-IsAccepted verifier now (r ∷ rs) (found, f) (able, w) =
      let rest = plan_jobs-IsAccepted verifier now rs f w in
      elim (Option-cases (entry_of_decision now (values leases) r (decide verifier r))) [
        | inl e ↦ rw e rest
        | inr (entry, e) ↦ rw e (entry-IsAccepted verifier now r entry found able e, rest)
      ]

-- Of a consistent state whose revision can still move, and whose jobs started no later than the clock
-- of the recovery and have a revision that can still move: the store accepts every entry of the plan,
-- written on its own, with the release of the lease that it names.
pub plan-IsAccepted :
    (verifier : ProcessIdentity → IdentityVerification) (now : ℤ) (config : ValidationConfig)
    (jobs : JobMap) (leases : LeaseMap) (revision : ℕ)
    → IsConsistent config jobs leases
    → revision + 1 < u64_modulus
    → All (IsRecoverable now) (values jobs)
    → All
        (IsAccepted config jobs leases revision)
        (plan verifier now
          (record { revision = revision; jobs = values jobs; leases = values leases })).mutations
unfolding plan
plan-IsAccepted verifier now config jobs leases revision v room able =
    plan_jobs-IsAccepted v revision room verifier now (values jobs)
      (values-All (λ r. find r.id jobs ≡ some r) jobs v.jobs_sound.unique
        λ id r h. subst (λ x. find x jobs ≡ some r) (sym (v.jobs_sound.stored id r h).keyed) h)
      able
