-- ===== src/Store/Types.antt =====
-- include/yori/store/state_store.hpp: stored records, snapshots, mutations, results.
use yori.Common.{
  ℕ, ◌+◌, ◌-◌, ◌≡◌, ℤ, Bool, true, false, Option, List, Text, length, ltb, min, if◌then◌else◌,
  arith,
}
use yori.Gpu.Uuid.{GpuUuid}
use yori.Gpu.Provider.{GpuLease}
use yori.Job.Spec.{JobId, JobSpec}
use yori.Job.State.{JobState}
use yori.Process.{ProcessIdentity, ExitStatus}

pub record JobExecutionRecord : Type 0 where
  pub identity : ProcessIdentity
  pub start_time : Option ℤ
  pub end_time : Option ℤ
  pub exit : Option ExitStatus
  pub failure_reason : Option Text
  pub log_path : Option Text

pub record StoredJob : Type 0 where
  pub id : JobId
  pub spec : JobSpec
  pub state : JobState
  pub revision : ℕ
  pub execution : JobExecutionRecord

pub record StateSnapshot : Type 0 where
  pub revision : ℕ
  pub jobs : List StoredJob
  pub leases : List GpuLease

abbrev pub max_entries : ℕ
max_entries = 64

pub record StateMutation : Type 0 where
  pub expected_revision : ℕ
  pub create_jobs : List StoredJob
  pub update_jobs : List StoredJob
  pub acquire_leases : List GpuLease
  pub release_leases : List GpuUuid

-- `StateMutation::entry_count`: stops counting at the limit, so that the sum cannot wrap.
unfoldable pub entry_count : StateMutation → ℕ
entry_count m =
    let created = length m.create_jobs in
    let updated = created + length m.update_jobs in
    let acquired = updated + length m.acquire_leases in
    if ltb max_entries (length m.create_jobs)
    then max_entries + 1
    else if ltb (max_entries - created) (length m.update_jobs)
    then max_entries + 1
    else if ltb (max_entries - updated) (length m.acquire_leases)
    then max_entries + 1
    else if ltb (max_entries - acquired) (length m.release_leases)
    then max_entries + 1
    else acquired + length m.release_leases

-- `entry_count` is the number of entries of the four lists, cut off one above the limit.
pub entry_count_lem :
    (m : StateMutation)
    → entry_count m
      ≡ min
          (length m.create_jobs
            + length m.update_jobs
            + length m.acquire_leases
            + length m.release_leases)
          (max_entries + 1)
unfolding entry_count
entry_count_lem m = ground arith

pub data StateStoreErrorCode : Type 0 where
  no_error backend_unavailable revision_conflict invalid_mutation : StateStoreErrorCode
  capacity_exceeded invalid_job invalid_execution_record job_already_exists : StateStoreErrorCode
  job_not_found invalid_job_revision job_spec_changed : StateStoreErrorCode
  invalid_job_transition invalid_lease gpu_already_leased job_already_leased : StateStoreErrorCode
  lease_not_found : StateStoreErrorCode

abbrev pub store_ok : StateStoreErrorCode → Bool
store_ok no_error = true
store_ok _ = false

pub record StateStoreLoadResult : Type 0 where
  pub code : StateStoreErrorCode
  pub snapshot : StateSnapshot

pub record StateStoreWriteResult : Type 0 where
  pub code : StateStoreErrorCode
  pub revision : ℕ

-- `class StateStore`: an implementation over states `S`.
pub record StateStore (S : Type 0) : Type 0 where
  pub load : S → S × StateStoreLoadResult
  pub apply : S → StateMutation → S × StateStoreWriteResult
