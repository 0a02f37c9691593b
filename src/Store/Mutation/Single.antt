-- ===== src/Store/Mutation/Single.antt =====
-- A mutation that updates one job, and may release its lease, is accepted if the update is legal
-- (`apply_mutation`, src/store/mutation_core.cpp).
use yori.Common.{
  ℕ, ◌+◌, ◌<◌, ◌≤◌, ◌≡◌, ◌≢◌, length, refl, sym, subst, true, false, some, List, [], ◌∷◌, arith,
}
use yori.Common.{
  nat_eq, list_eq, nat_beq_iff, list_beq_iff, ok, next_u64, u64_modulus, if◌then◌else◌, fold_result,
}
use yori.Common.Map.{
  find, assign, erase, IsUnique, find-assign, assign-IsUnique, find-erase, erase-IsUnique,
}
use yori.Gpu.Uuid.{GpuUuid, uuid_valid_iff}
use yori.Gpu.Provider.{GpuLease}
use yori.Job.Spec.{JobId, id_valid}
use yori.Job.Validate.{validate, validation_ok}
use yori.Job.Validate.Valid.{validate_iff}
use yori.Job.State.{can_transition}
use yori.Store.Types.{StoredJob, StateMutation, no_error, entry_count}
use yori.Store.Execution.{execution_ok, validate_execution}
use yori.Store.Mutation.{
  JobMap, LeaseMap, ValidationConfig, leaseable, update_job, release_lease, holds_lease,
  lease_count, check_leases, check_jobs, advance, apply_mutation,
}
use yori.Store.Mutation.Jobs.{IsStored, same_spec_iff}
use yori.Store.Mutation.Leases.{due, lease_count-pos}
use yori.Store.Mutation.Sound.{IsConsistent}

-- The same job, an allowed transition, the next revision, and an execution record that is valid in
-- the new state.
pub record IsLegalUpdate (r new : StoredJob) : Type 0 where
  pub same_job : new.id ≡ r.id
  pub same_specification : new.spec ≡ r.spec
  pub allowed : can_transition r.state new.state ≡ true
  pub advanced : new.revision ≡ next_u64 r.revision
  pub valid : execution_ok (validate_execution new.execution new.state new.spec) ≡ true

update_job-IsLegalUpdate :
    (r new : StoredJob) (jobs : JobMap)
    → find r.id jobs ≡ some r
    → IsStored r.id r
    → IsLegalUpdate r new
    → r.revision + 1 < u64_modulus
    → update_job new jobs ≡ ok (assign new.id new jobs)
unfolding update_job
update_job-IsLegalUpdate r new jobs found v legal below =
    let id_set : id_valid new.id ≡ true =
      let set = v.id_set in let same = legal.same_job in ground arith in
    let valid_spec : validation_ok (validate new.spec) ≡ true =
      subst (λ x. validation_ok (validate x) ≡ true) (sym legal.same_specification)
        ((validate_iff r.spec).1 v.spec_valid) in
    let there : find new.id jobs ≡ some r =
      subst (λ x. find x jobs ≡ some r) (sym legal.same_job) found in
    let same = (same_spec_iff r.spec new.spec).1 (sym legal.same_specification) in
    let advanced = legal.advanced in
    let allowed = legal.allowed in let valid = legal.valid in ground arith

check_leases-ok :
    (jobs : JobMap) (leases : LeaseMap)
    → IsUnique leases
    → ((uuid : GpuUuid) (lease : GpuLease)
        → find uuid leases ≡ some lease
        → holds_lease jobs lease.job_id ≡ true)
    → check_leases jobs leases ≡ ok tt
unfolding check_leases find
check_leases-ok jobs [] u h = refl
check_leases-ok jobs ((v, l) ∷ rest) u h =
    let here : holds_lease jobs l.job_id ≡ true = h v l (ground (arith, list_beq_iff v v)) in
    let later =
      check_leases-ok jobs rest u.1
        (λ w k found. h w k (ground (arith, list_beq_iff v w, u.0, found))) in
    ground arith

check_jobs-ok :
    (leases : LeaseMap) (jobs : JobMap)
    → IsUnique jobs
    → ((id : JobId) (r : StoredJob) → find id jobs ≡ some r → lease_count id leases ≡ due r)
    → check_jobs leases jobs ≡ ok tt
unfolding check_jobs find
check_jobs-ok leases [] u h = refl
check_jobs-ok leases ((i, r) ∷ rest) u h =
    let here : lease_count i leases ≡ due r = h i r (ground (arith, nat_beq_iff i i)) in
    let later =
      check_jobs-ok leases rest u.1
        (λ j s found. h j s (ground (arith, nat_beq_iff i j, u.0, found))) in
    ground arith

-- The erased lease counts for its job alone.
lease_count-erase :
    (id : JobId) (uuid : GpuUuid) (lease : GpuLease) (leases : LeaseMap)
    → find uuid leases ≡ some lease
    → lease_count id (erase uuid leases) + (if nat_eq.beq lease.job_id id then 1 else 0)
      ≡ lease_count id leases
unfolding lease_count find erase
lease_count-erase id uuid lease [] h = cc
lease_count-erase id uuid lease ((v, l) ∷ rest) h =
    ground (arith, lease_count-erase id uuid lease rest)

module _ {config : ValidationConfig} {jobs : JobMap} {leases : LeaseMap}
    (v : IsConsistent config jobs leases) (r new : StoredJob) (found : find r.id jobs ≡ some r)
    (legal : IsLegalUpdate r new) where
  there : find new.id jobs ≡ some r
  there = subst (λ x. find x jobs ≡ some r) (sym legal.same_job) found

  -- What the final checks ask of the leases that remain.
  record Remain (next : LeaseMap) : Type 0 where
    unique : IsUnique next
    kept :
        (uuid : GpuUuid) (lease : GpuLease)
        → find uuid next ≡ some lease
        → find uuid leases ≡ some lease
    others : (id : JobId) → id ≢ new.id → lease_count id next ≡ lease_count id leases
    own : lease_count new.id next ≡ due new

  holds_lease-assign :
      (next : LeaseMap)
      → Remain next
      → (id : JobId) → holds_lease jobs id ≡ true
      → 0 < lease_count id next
      → holds_lease (assign new.id new jobs) id ≡ true
  unfolding holds_lease
  holds_lease-assign next w id held counted =
      let own = w.own in
      ground (arith, find-assign new.id id new r jobs there, nat_beq_iff new.id id)

  leases_checked :
      (next : LeaseMap) → Remain next → check_leases (assign new.id new jobs) next ≡ ok tt
  leases_checked next w = check_leases-ok (assign new.id new jobs) next w.unique λ uuid lease h.
      holds_lease-assign next w lease.job_id (v.active uuid lease (w.kept uuid lease h))
        (lease_count-pos lease.job_id next uuid lease h refl)

  jobs_checked : (next : LeaseMap) → Remain next → check_jobs next (assign new.id new jobs) ≡ ok tt
  jobs_checked next w =
      check_jobs-ok next (assign new.id new jobs)
        (assign-IsUnique new.id new jobs v.jobs_sound.unique)
        λ id s h.
          let matrix = v.matrix id s in
          let others = w.others id in
          let own = w.own in
          ground (arith, find-assign new.id id new r jobs there, nat_beq_iff new.id id)

  -- The mutation that has only this update, and what it releases.
  abbrev pub single : ℕ → List GpuUuid → StateMutation
  single revision released = record {
    expected_revision = revision;
    create_jobs = [];
    update_jobs = new ∷ [];
    acquire_leases = [];
    release_leases = released;
  }

  advance-single :
      (revision : ℕ) (released : List GpuUuid) (next : LeaseMap)
      → r.revision + 1 < u64_modulus
      → fold_result release_lease released leases ≡ ok next
      → Remain next
      → advance jobs leases config (single revision released) ≡ ok (assign new.id new jobs, next)
  unfolding advance fold_result
  advance-single revision released next below releasing w =
      let updated =
        update_job-IsLegalUpdate r new jobs found (v.jobs_sound.stored r.id r found) legal below in
      let checked = leases_checked next w in
      let matched = jobs_checked next w in rw (updated, releasing, checked, matched) refl

  apply-single :
      (revision : ℕ) (released : List GpuUuid) (next : LeaseMap)
      → r.revision + 1 < u64_modulus
      → revision + 1 < u64_modulus
      → length released ≤ 1
      → fold_result release_lease released leases ≡ ok next
      → Remain next
      → (apply_mutation jobs leases revision config (single revision released)).code ≡ no_error
  unfolding apply_mutation entry_count
  apply-single revision released next below room few releasing w =
      let advanced = advance-single revision released next below releasing w in ground arith

  -- An active job that stays active keeps its lease.
  pub apply_single-keeps :
      (revision : ℕ)
      → r.revision + 1 < u64_modulus
      → revision + 1 < u64_modulus
      → leaseable new.state ≡ leaseable r.state
      → (apply_mutation jobs leases revision config (single revision [])).code ≡ no_error
  unfolding fold_result
  apply_single-keeps revision below room same =
      apply-single revision [] leases below room (omega arith) refl (record {
        unique = v.leases_sound.unique;
        kept = λ uuid lease h. h;
        others = λ id other. refl;
        own = let matrix = v.matrix new.id r there in ground arith;
      })

  -- A job that stops being active gives its lease back.
  pub apply_single-releases :
      (revision : ℕ) (uuid : GpuUuid) (lease : GpuLease)
      → r.revision + 1 < u64_modulus
      → revision + 1 < u64_modulus
      → leaseable r.state ≡ true
      → leaseable new.state ≡ false
      → find uuid leases ≡ some lease
      → lease.job_id ≡ r.id
      → (apply_mutation jobs leases revision config (single revision (uuid ∷ []))).code ≡ no_error
  unfolding fold_result release_lease
  apply_single-releases revision uuid lease below room active over h named =
      let fine = (uuid_valid_iff uuid).1 (v.leases_sound.stored uuid lease h).gpu in
      let same = legal.same_job in
      apply-single revision (uuid ∷ []) (erase uuid leases) below room (omega arith) (ground arith)
        (record {
          unique = erase-IsUnique uuid leases v.leases_sound.unique;
          kept = λ w l k. ground (arith, find-erase uuid w leases v.leases_sound.unique);
          others = λ id other.
              ground (arith, lease_count-erase id uuid lease leases h, nat_beq_iff lease.job_id id);
          own =
              let matrix = v.matrix new.id r there in
              ground (
                arith,
                lease_count-erase new.id uuid lease leases h,
                nat_beq_iff lease.job_id new.id,
              );
        })
