-- ===== src/Store/Mutation/Leases.antt =====
-- The lease loops of `apply_mutation`, and what its final checks establish.
use yori.Common.{ℕ, ◌≤◌, ◌<◌, ◌≡◌, ◌≢◌, true, false, none, some, [], ◌∷◌, arith}
use yori.Common.{
  length, nat_eq, list_eq, nat_beq_iff, list_beq_iff, ok, Option-cases, if◌then◌else◌,
}
use yori.Common.Map.{
  find, emplace, erase, IsUnique, find-emplace, find-erase, emplace-IsUnique, erase-IsUnique,
  length-emplace, length-erase, nat_less, bytes_less_instance,
}
use yori.Gpu.Uuid.{GpuUuid, IsUuid, uuid_valid_iff}
use yori.Job.Spec.{JobId}
use yori.Gpu.Provider.{GpuLease}
use yori.Store.Types.{StoredJob}
use yori.Store.Mutation.{
  JobMap, LeaseMap, leaseable, release_lease, acquire_lease, holds_lease, lease_count,
  job_has_lease, check_leases, check_jobs,
}

-- A lease as the store keeps it: under its own GPU, for a job with an id.
pub record IsLease (uuid : GpuUuid) (lease : GpuLease) : Type 0 where
  pub keyed : lease.gpu_uuid ≡ uuid
  pub gpu : IsUuid uuid
  pub job_set : lease.job_id ≢ 0

pub record AreLeases (max_leases : ℕ) (leases : LeaseMap) : Type 0 where
  pub unique : IsUnique leases
  pub within : length leases ≤ max_leases
  pub stored :
      (uuid : GpuUuid) (lease : GpuLease) → find uuid leases ≡ some lease → IsLease uuid lease

release_lease_lem :
    (uuid : GpuUuid) (leases next : LeaseMap)
    → release_lease uuid leases ≡ ok next
    → (find uuid leases ≢ none) × (next ≡ erase uuid leases)
unfolding release_lease
release_lease_lem uuid leases next h = ground arith

acquire_lease_lem :
    (max_leases : ℕ) (jobs : JobMap) (lease : GpuLease) (leases next : LeaseMap)
    → acquire_lease max_leases jobs lease leases ≡ ok next
    → IsLease lease.gpu_uuid lease
      × (find lease.gpu_uuid leases ≡ none)
      × (holds_lease jobs lease.job_id ≡ true)
      × (job_has_lease lease.job_id leases ≡ false)
      × (length leases < max_leases)
      × (next ≡ emplace lease.gpu_uuid lease leases)
unfolding acquire_lease
acquire_lease_lem max_leases jobs lease leases next h =
    ground (arith, uuid_valid_iff lease.gpu_uuid, Option-cases (find lease.gpu_uuid leases))

pub release_lease-AreLeases :
    (max_leases : ℕ) (uuid : GpuUuid) (leases next : LeaseMap)
    → release_lease uuid leases ≡ ok next
    → AreLeases max_leases leases
    → AreLeases max_leases next
release_lease-AreLeases max_leases uuid leases next h v =
    let (_, e) = release_lease_lem uuid leases next h in
    let unique = v.unique in
    let within = v.within in
    rw e (record {
      unique = erase-IsUnique uuid leases unique;
      within = omega (arith, length-erase uuid leases);
      stored = λ j l found. ground (arith, find-erase uuid j leases, v.stored j l);
    })

pub acquire_lease-AreLeases :
    (max_leases : ℕ) (jobs : JobMap) (lease : GpuLease) (leases next : LeaseMap)
    → acquire_lease max_leases jobs lease leases ≡ ok next
    → AreLeases max_leases leases
    → AreLeases max_leases next
acquire_lease-AreLeases max_leases jobs lease leases next h v =
    let (fine, fresh, _, _, room, e) = acquire_lease_lem max_leases jobs lease leases next h in
    rw e (record {
      unique = emplace-IsUnique lease.gpu_uuid lease leases fresh v.unique;
      within = omega (arith, length-emplace lease.gpu_uuid lease leases);
      stored = λ j l found. ground (
        arith,
        find-emplace lease.gpu_uuid j lease leases fresh,
        v.stored j l,
        list_beq_iff lease.gpu_uuid j,
      );
    })

-- Every lease is held by an active job.
pub check_leases_lem :
    (jobs : JobMap) (leases : LeaseMap)
    → check_leases jobs leases ≡ ok tt
    → (uuid : GpuUuid) (lease : GpuLease) → find uuid leases ≡ some lease
    → holds_lease jobs lease.job_id ≡ true
unfolding check_leases find
check_leases_lem jobs [] h uuid lease found = cc
check_leases_lem jobs ((v, l) ∷ rest) h uuid lease found =
    ground (arith, λ (r : check_leases jobs rest ≡ ok tt). check_leases_lem jobs rest r uuid lease)

-- The number of leases that a job in a state holds.
abbrev pub due : StoredJob → ℕ
due r = if leaseable r.state then 1 else 0

-- An active job has one lease, any other none.
pub check_jobs_lem :
    (leases : LeaseMap) (jobs : JobMap)
    → check_jobs leases jobs ≡ ok tt
    → (id : JobId) (r : StoredJob) → find id jobs ≡ some r
    → lease_count id leases ≡ due r
unfolding check_jobs find
check_jobs_lem leases [] h id r found = cc
check_jobs_lem leases ((i, s) ∷ rest) h id r found = ground (
  arith,
  nat_beq_iff i id,
  λ (q : check_jobs leases rest ≡ ok tt). check_jobs_lem leases rest q id r,
)

pub lease_count-pos :
    (id : JobId) (leases : LeaseMap) (uuid : GpuUuid) (lease : GpuLease)
    → find uuid leases ≡ some lease
    → lease.job_id ≡ id
    → 0 < lease_count id leases
unfolding lease_count find
lease_count-pos id [] uuid lease found h = cc
lease_count-pos id ((v, l) ∷ rest) uuid lease found h =
    ground (arith, lease_count-pos id rest uuid lease)
