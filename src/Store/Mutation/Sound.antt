-- ===== src/Store/Mutation/Sound.antt =====
-- What a mutation that is accepted leaves behind, and what one that is refused returns
-- (`apply_mutation`, src/store/mutation_core.cpp).
use yori.Common.{ℕ, ◌+◌, ◌<◌, ◌≤◌, ◌≡◌, ◌≢◌, ◌⊎◌, true, some, [], ◌∷◌, arith}
use yori.Common.{
  nat_eq, list_eq, ok, err, fold_result, fold_result_inv, >>=-eq-ok, >>-eq-ok, >>=-ne-err,
  fold_result-ne-err, u64_modulus,
}
use yori.Common.Map.{find}
use yori.Gpu.Uuid.{GpuUuid}
use yori.Job.Spec.{JobId}
use yori.Gpu.Provider.{GpuLease}
use yori.Store.Types.{
  StoredJob, StateMutation, StateStoreErrorCode, no_error, revision_conflict, invalid_mutation,
  entry_count, max_entries,
}
use yori.Store.Mutation.{
  JobMap, LeaseMap, ValidationConfig, create_job, update_job, release_lease, acquire_lease,
  holds_lease, lease_count, check_leases, check_jobs, advance, apply_mutation,
}
use yori.Store.Mutation.Jobs.{AreJobs, create_job-AreJobs, update_job-AreJobs}
use yori.Store.Mutation.Evolution.{same, EvolvesTo, create_job-EvolvesTo, update_job-EvolvesTo}
use yori.Store.Mutation.Leases.{
  AreLeases, due, release_lease-AreLeases, acquire_lease-AreLeases, check_leases_lem,
  check_jobs_lem,
}

-- The state of a store: sound records, and the lease matrix between them.
pub record IsConsistent (config : ValidationConfig) (jobs : JobMap) (leases : LeaseMap)
    : Type 0 where
  pub jobs_sound : AreJobs config.max_jobs jobs
  pub leases_sound : AreLeases config.max_leases leases
  pub active :
      (uuid : GpuUuid) (lease : GpuLease)
      → find uuid leases ≡ some lease
      → holds_lease jobs lease.job_id ≡ true
  pub matrix : (id : JobId) (r : StoredJob) → find id jobs ≡ some r → lease_count id leases ≡ due r

-- The rounds of a successful run.
pub record Run (jobs : JobMap) (leases : LeaseMap) (config : ValidationConfig) (m : StateMutation)
    (jobs' : JobMap) (leases' : LeaseMap) : Type 0 where
  pub created : JobMap
  pub released : LeaseMap
  pub creation : fold_result (create_job config.max_jobs) m.create_jobs jobs ≡ ok created
  pub updating : fold_result update_job m.update_jobs created ≡ ok jobs'
  pub releasing : fold_result release_lease m.release_leases leases ≡ ok released
  pub acquiring :
      fold_result (acquire_lease config.max_leases jobs') m.acquire_leases released ≡ ok leases'
  pub leases_checked : check_leases jobs' leases' ≡ ok tt
  pub jobs_checked : check_jobs leases' jobs' ≡ ok tt

pub advance_lem :
    (jobs : JobMap) (leases : LeaseMap) (config : ValidationConfig) (m : StateMutation)
    (jobs' : JobMap) (leases' : LeaseMap)
    → advance jobs leases config m ≡ ok (jobs', leases')
    → Run jobs leases config m jobs' leases'
unfolding advance
advance_lem jobs leases config m jobs' leases' h =
    let (created, c, h1) = >>=-eq-ok _ _ h in
    let (updated, u, h2) = >>=-eq-ok _ _ h1 in
    let (released, r, h3) = >>=-eq-ok _ _ h2 in
    let (acquired, a, h4) = >>=-eq-ok _ _ h3 in
    let (l, h5) = (>>-eq-ok _ _ _).0 h4 in
    let (j, h6) = (>>-eq-ok _ _ _).0 h5 in
    let same_jobs : updated ≡ jobs' = ground arith in
    let same_leases : acquired ≡ leases' = ground arith in
    record {
      created = created;
      released = released;
      creation = c;
      updating = rw (← same_jobs) u;
      releasing = r;
      acquiring = rw (← same_jobs, ← same_leases) a;
      leases_checked = rw (← same_jobs, ← same_leases) l;
      jobs_checked = rw (← same_jobs, ← same_leases) j;
    }

module _ {jobs : JobMap} {leases : LeaseMap} {config : ValidationConfig} {m : StateMutation}
    {jobs' : JobMap} {leases' : LeaseMap} (r : Run jobs leases config m jobs' leases')
    (v : IsConsistent config jobs leases) where
  Run-jobs : AreJobs config.max_jobs r.created × EvolvesTo jobs r.created
  Run-jobs =
      fold_result_inv (λ n. AreJobs config.max_jobs n × EvolvesTo jobs n)
        (create_job config.max_jobs) m.create_jobs jobs r.created
        (λ a u w h p. (create_job-AreJobs _ a u w h p.0, create_job-EvolvesTo _ a jobs u w h p.1))
        r.creation (v.jobs_sound, λ id old found. (old, found, same))

  pub Run-updates : AreJobs config.max_jobs jobs' × EvolvesTo jobs jobs'
  Run-updates =
      fold_result_inv (λ n. AreJobs config.max_jobs n × EvolvesTo jobs n) update_job m.update_jobs
        r.created jobs'
        (λ a u w h p.
          (update_job-AreJobs _ a u w h p.0, update_job-EvolvesTo _ a jobs u w h p.0 p.1))
        r.updating Run-jobs

  Run-leases : AreLeases config.max_leases leases'
  Run-leases =
      fold_result_inv (AreLeases config.max_leases) (acquire_lease config.max_leases jobs')
        m.acquire_leases r.released leases' (λ a u w h p. acquire_lease-AreLeases _ jobs' a u w h p)
        r.acquiring
        (fold_result_inv (AreLeases config.max_leases) release_lease m.release_leases leases
          r.released (λ a u w h p. release_lease-AreLeases _ a u w h p) r.releasing v.leases_sound)

  pub Run-IsConsistent : IsConsistent config jobs' leases'
  Run-IsConsistent = record {
    jobs_sound = Run-updates.0;
    leases_sound = Run-leases;
    active = check_leases_lem jobs' leases' r.leases_checked;
    matrix = check_jobs_lem leases' jobs' r.jobs_checked;
  }

-- No step fails with the code for success.
create_job-ne-err : (k : ℕ) (a : StoredJob) (u : JobMap) → create_job k a u ≢ err no_error
unfolding create_job
create_job-ne-err k a u = ground arith

update_job-ne-err : (a : StoredJob) (u : JobMap) → update_job a u ≢ err no_error
unfolding update_job
update_job-ne-err a u = ground arith

release_lease-ne-err : (a : GpuUuid) (u : LeaseMap) → release_lease a u ≢ err no_error
unfolding release_lease
release_lease-ne-err a u = ground arith

acquire_lease-ne-err :
    (k : ℕ) (j : JobMap) (a : GpuLease) (u : LeaseMap) → acquire_lease k j a u ≢ err no_error
unfolding acquire_lease
acquire_lease-ne-err k j a u = ground arith

check_leases-ne-err : (jobs : JobMap) (leases : LeaseMap) → check_leases jobs leases ≢ err no_error
unfolding check_leases
check_leases-ne-err jobs [] = ground arith
check_leases-ne-err jobs ((u, l) ∷ rest) = ground (arith, check_leases-ne-err jobs rest)

check_jobs-ne-err : (leases : LeaseMap) (jobs : JobMap) → check_jobs leases jobs ≢ err no_error
unfolding check_jobs
check_jobs-ne-err leases [] = ground arith
check_jobs-ne-err leases ((i, r) ∷ rest) = ground (arith, check_jobs-ne-err leases rest)

advance-ne-err :
    (jobs : JobMap) (leases : LeaseMap) (config : ValidationConfig) (m : StateMutation)
    → advance jobs leases config m ≢ err no_error
unfolding advance
advance-ne-err jobs leases config m =
    >>=-ne-err _ _ no_error
      (fold_result-ne-err _ m.create_jobs jobs no_error (create_job-ne-err config.max_jobs))
      λ created.
        >>=-ne-err _ _ no_error
          (fold_result-ne-err _ m.update_jobs created no_error update_job-ne-err)
          λ updated.
            >>=-ne-err _ _ no_error
              (fold_result-ne-err _ m.release_leases leases no_error release_lease-ne-err)
              λ released.
                >>=-ne-err _ _ no_error
                  (fold_result-ne-err _ m.acquire_leases released no_error
                    (acquire_lease-ne-err config.max_leases updated))
                  λ acquired. ground (
                    arith,
                    check_leases-ne-err updated acquired,
                    check_jobs-ne-err acquired updated,
                  )

-- Why a mutation is refused, and with which code.
abbrev pub IsRefusal :
    JobMap → LeaseMap → ℕ → ValidationConfig → StateMutation → StateStoreErrorCode → Type 0
IsRefusal jobs leases revision config m code =
    ((m.expected_revision ≢ revision) × (code ≡ revision_conflict))
    ⊎ ((m.expected_revision ≡ revision)
        × (code ≡ invalid_mutation)
        × ((entry_count m ≡ 0) ⊎ (max_entries < entry_count m) ⊎ (revision + 1 ≡ u64_modulus)))
    ⊎ ((m.expected_revision ≡ revision) × (advance jobs leases config m ≡ err code))

-- A mutation is accepted exactly if it was prepared against the store's revision, has between one
-- and 64 entries, the revision can still move within 64 bits and the loops succeed; then the
-- revision moves by one and the state is that of the loops. Otherwise it is refused with a conflict,
-- as invalid, or with the code of the loop that fails, and hands back no state.
pub apply_mutation_cases :
    (jobs : JobMap) (leases : LeaseMap) (revision : ℕ) (config : ValidationConfig)
    (m : StateMutation)
    → revision < u64_modulus
    → let outcome = apply_mutation jobs leases revision config m in
      ((outcome.code ≡ no_error)
        × (m.expected_revision ≡ revision)
        × (1 ≤ entry_count m)
        × (entry_count m ≤ 64)
        × (outcome.next_revision ≡ revision + 1)
        × (outcome.next_revision < u64_modulus)
        × (advance jobs leases config m ≡ ok (outcome.next_jobs, outcome.next_leases)))
      ⊎ ((outcome.code ≢ no_error)
          × IsRefusal jobs leases revision config m outcome.code
          × (outcome.next_revision ≡ 0)
          × (outcome.next_jobs ≡ [])
          × (outcome.next_leases ≡ []))
unfolding apply_mutation
apply_mutation_cases jobs leases revision config m fits =
    ground (arith, advance-ne-err jobs leases config m)
