-- ===== src/Store/Mutation.antt =====
-- `apply_mutation` (src/store/mutation_core.cpp): the validation that both store adapters share.
-- A map is its entries in key order; each loop folds over the entries of the mutation.
pub mod Jobs
pub mod Evolution
pub mod Leases
pub mod Sound
pub mod Single
pub mod Accepted
use yori.Common.{
  ℕ, zero, suc, ◌+◌, ◌-◌, Bool, true, false, not, ◌&&◌, ◌||◌, Option, none, some, List, [], ◌∷◌,
}
use yori.Common.{
  length, ltb, leb, ◌==◌, nat_eq, int_eq, list_eq, option_eq, pair_eq, if◌then◌else◌, Result, ok,
  err, fail_if, or_fail, ◌>>=◌, ◌>>◌, fold_result, next_u64, u64_modulus,
}
use yori.Common.Map.{
  Map, find, contains, emplace, assign, erase, values, nat_less, bytes_less_instance,
}
use yori.Gpu.Uuid.{GpuUuid, uuid_valid}
use yori.Job.Spec.{JobId, JobSpec, id_valid, metadata_eq, placement_eq}
use yori.Job.Validate.{validate, validation_ok}
use yori.Job.State.{JobState, queued, starting, running, stopping, can_transition}
use yori.Gpu.Provider.{GpuLease}
use yori.Store.Types.{
  StoredJob, StateMutation, entry_count, max_entries, StateStoreErrorCode, no_error,
  revision_conflict, invalid_mutation, capacity_exceeded, invalid_job, invalid_execution_record,
  job_already_exists, job_not_found, invalid_job_revision, job_spec_changed, invalid_job_transition,
  invalid_lease, gpu_already_leased, job_already_leased, lease_not_found,
}
use yori.Store.Execution.{validate_execution, execution_ok, is_queued}

abbrev pub JobMap : Type 0
JobMap = Map JobId StoredJob

abbrev pub LeaseMap : Type 0
LeaseMap = Map GpuUuid GpuLease

pub record ValidationConfig : Type 0 where
  pub max_jobs : ℕ
  pub max_leases : ℕ

pub record MutationOutcome : Type 0 where
  pub code : StateStoreErrorCode
  pub next_revision : ℕ
  pub next_jobs : JobMap
  pub next_leases : LeaseMap

-- `same_spec`, in the order of the source: the command and its context, then the options.
unfoldable pub same_command : JobSpec → JobSpec → Bool
same_command lhs rhs =
    lhs.owner_uid == rhs.owner_uid
    && lhs.owner_gid == rhs.owner_gid
    && lhs.argv == rhs.argv
    && lhs.cwd == rhs.cwd
    && lhs.env == rhs.env
    && lhs.executable == rhs.executable

unfoldable pub same_options : JobSpec → JobSpec → Bool
same_options lhs rhs =
    lhs.env_metadata == rhs.env_metadata
    && lhs.gpu_request == rhs.gpu_request
    && lhs.gpu_placement == rhs.gpu_placement
    && lhs.launch_profile == rhs.launch_profile
    && lhs.tensorboard_logdir == rhs.tensorboard_logdir
    && lhs.submit_time == rhs.submit_time

unfoldable pub same_spec : JobSpec → JobSpec → Bool
same_spec lhs rhs = same_command lhs rhs && same_options lhs rhs

abbrev pub leaseable : JobState → Bool
leaseable starting = true
leaseable running = true
leaseable stopping = true
leaseable _ = false

abbrev pub Step : Type 0 → Type 0
Step A = Result StateStoreErrorCode A

-- The body of the loop over `create_jobs`.
unfoldable pub create_job : ℕ → StoredJob → JobMap → Step JobMap
create_job max_jobs r jobs = do
  fail_if
      (not (id_valid r.id)
        || not (validation_ok (validate r.spec))
        || not (is_queued r.state)
        || not (r.revision == 0))
      invalid_job
  fail_if (not (execution_ok (validate_execution r.execution r.state r.spec)))
      invalid_execution_record
  fail_if (contains r.id jobs) job_already_exists
  fail_if (leb max_jobs (length jobs)) capacity_exceeded
  ok (emplace r.id r jobs)

-- The body of the loop over `update_jobs`.
unfoldable pub update_job : StoredJob → JobMap → Step JobMap
update_job r jobs = do
  fail_if (not (id_valid r.id) || not (validation_ok (validate r.spec))) invalid_job
  fail_if (not (execution_ok (validate_execution r.execution r.state r.spec)))
      invalid_execution_record
  existing ← or_fail (find r.id jobs) job_not_found
  fail_if (existing.revision == u64_modulus - 1 || not (r.revision == next_u64 existing.revision))
      invalid_job_revision
  fail_if (not (same_spec existing.spec r.spec)) job_spec_changed
  fail_if (not (can_transition existing.state r.state)) invalid_job_transition
  ok (assign r.id r jobs)

-- The body of the loop over `release_leases`.
unfoldable pub release_lease : GpuUuid → LeaseMap → Step LeaseMap
release_lease uuid leases = do
  fail_if (not (uuid_valid uuid)) invalid_lease
  fail_if (not (contains uuid leases)) lease_not_found
  ok (erase uuid leases)

-- `job_record == end() || !leaseable(job_record->second.state)`, negated.
unfoldable pub holds_lease : JobMap → JobId → Bool
holds_lease jobs id = elim (find id jobs) [ none ↦ false | some r ↦ leaseable r.state ]

-- How many leases name the job.
unfoldable pub lease_count : JobId → LeaseMap → ℕ
lease_count id [] = 0
lease_count id ((uuid, lease) ∷ rest) =
    let others = lease_count id rest in if lease.job_id == id then suc others else others

-- The inner loop of the acquisition.
unfoldable pub job_has_lease : JobId → LeaseMap → Bool
job_has_lease id [] = false
job_has_lease id ((uuid, existing) ∷ rest) = existing.job_id == id || job_has_lease id rest

-- The body of the loop over `acquire_leases`.
unfoldable pub acquire_lease : ℕ → JobMap → GpuLease → LeaseMap → Step LeaseMap
acquire_lease max_leases jobs lease leases = do
  fail_if (not (uuid_valid lease.gpu_uuid) || not (id_valid lease.job_id)) invalid_lease
  fail_if (contains lease.gpu_uuid leases) gpu_already_leased
  fail_if (not (holds_lease jobs lease.job_id)) invalid_lease
  fail_if (job_has_lease lease.job_id leases) job_already_leased
  fail_if (leb max_leases (length leases)) capacity_exceeded
  ok (emplace lease.gpu_uuid lease leases)

-- The final loop over the leases.
unfoldable pub check_leases : JobMap → LeaseMap → Step (Unit {0})
check_leases jobs [] = ok tt
check_leases jobs ((uuid, lease) ∷ rest) = do
  fail_if (not (holds_lease jobs lease.job_id)) invalid_lease
  check_leases jobs rest

-- The final loop over the jobs.
unfoldable pub check_jobs : LeaseMap → JobMap → Step (Unit {0})
check_jobs leases [] = ok tt
check_jobs leases ((id, r) ∷ rest) = do
  fail_if
      (leaseable r.state && not (lease_count id leases == 1)
        || not (leaseable r.state) && not (lease_count id leases == 0))
      invalid_lease
  check_jobs leases rest

-- The loops, in the order of the source.
unfoldable pub advance :
    JobMap → LeaseMap → ValidationConfig → StateMutation → Step (JobMap × LeaseMap)
advance jobs leases config m = do
  created ← fold_result (create_job config.max_jobs) m.create_jobs jobs
  updated ← fold_result update_job m.update_jobs created
  released ← fold_result release_lease m.release_leases leases
  acquired ← fold_result (acquire_lease config.max_leases updated) m.acquire_leases released
  check_leases updated acquired
  check_jobs acquired updated
  ok (updated, acquired)

abbrev pub outcome_of : ℕ → Step (JobMap × LeaseMap) → MutationOutcome
outcome_of current_revision (ok (jobs, leases)) = record {
  code = no_error;
  next_revision = current_revision + 1;
  next_jobs = jobs;
  next_leases = leases;
}
outcome_of current_revision (err code) = record {
  code = code;
  next_revision = 0;
  next_jobs = [];
  next_leases = [];
}

unfoldable pub apply_mutation :
    JobMap → LeaseMap → ℕ → ValidationConfig → StateMutation → MutationOutcome
apply_mutation jobs leases current_revision config m = outcome_of current_revision (do
  fail_if (not (m.expected_revision == current_revision)) revision_conflict
  fail_if
      (entry_count m == 0 || ltb max_entries (entry_count m) || current_revision == u64_modulus - 1)
      invalid_mutation
  advance jobs leases config m)
