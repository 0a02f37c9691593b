-- ===== src/Store/Mutation/Jobs.antt =====
-- What the loops of `apply_mutation` over jobs do to the stored jobs.
use yori.Common.{ℕ, ◌-◌, ◌≤◌, ◌<◌, ◌≡◌, ◌≢◌, ◌↔◌, inl, inr, true, none, some, arith}
use yori.Common.{
  length, nat_eq, nat_beq_iff, list_beq_iff, option_beq_iff, pair_eq, list_eq, option_eq,
  int_beq_iff, ok, next_u64, u64_modulus, Option-cases,
}
use yori.Common.Map.{
  find, emplace, assign, nat_less, IsUnique, find-emplace, find-assign, emplace-IsUnique,
  assign-IsUnique, length-emplace, length-assign,
}
use yori.Job.Spec.{JobId, JobSpec, metadata_eq, placement_beq_iff, placement_eq}
use yori.Job.Validate.Valid.{IsValidSpec, validate_iff}
use yori.Job.State.{queued, can_transition}
use yori.Store.Types.{StoredJob}
use yori.Store.Allowed.{IsExecution, validate_execution_iff}
use yori.Store.Mutation.{JobMap, same_spec, same_command, same_options, create_job, update_job}

same_command_iff :
    (lhs rhs : JobSpec)
    → (same_command lhs rhs ≡ true) ↔ (
        (lhs.owner_uid ≡ rhs.owner_uid)
        × (lhs.owner_gid ≡ rhs.owner_gid)
        × (lhs.argv ≡ rhs.argv)
        × (lhs.cwd ≡ rhs.cwd)
        × (lhs.env ≡ rhs.env)
        × (lhs.executable ≡ rhs.executable))
unfolding same_command
same_command_iff lhs rhs = ground (
  arith,
  list_beq_iff lhs.argv rhs.argv,
  list_beq_iff lhs.cwd rhs.cwd,
  list_beq_iff lhs.env rhs.env,
  option_beq_iff lhs.executable rhs.executable,
)

same_options_iff :
    (lhs rhs : JobSpec)
    → (same_options lhs rhs ≡ true) ↔ (
        (lhs.env_metadata ≡ rhs.env_metadata)
        × (lhs.gpu_request ≡ rhs.gpu_request)
        × (lhs.gpu_placement ≡ rhs.gpu_placement)
        × (lhs.launch_profile ≡ rhs.launch_profile)
        × (lhs.tensorboard_logdir ≡ rhs.tensorboard_logdir)
        × (lhs.submit_time ≡ rhs.submit_time))
unfolding same_options
same_options_iff lhs rhs = ground (
  arith,
  option_beq_iff lhs.env_metadata rhs.env_metadata,
  placement_beq_iff lhs.gpu_placement rhs.gpu_placement,
  option_beq_iff lhs.launch_profile rhs.launch_profile,
  option_beq_iff lhs.tensorboard_logdir rhs.tensorboard_logdir,
  int_beq_iff lhs.submit_time rhs.submit_time,
)

-- The comparison of specifications leaves out no field.
pub same_spec_iff : (lhs rhs : JobSpec) → (same_spec lhs rhs ≡ true) ↔ (lhs ≡ rhs)
unfolding same_spec
same_spec_iff lhs rhs = ground (arith, same_command_iff lhs rhs, same_options_iff lhs rhs)

-- A record as the store keeps it: under its own id, and acceptable in its state.
pub record IsStored (id : JobId) (r : StoredJob) : Type 0 where
  pub keyed : r.id ≡ id
  pub id_set : id ≢ 0
  pub revision_fits : r.revision < u64_modulus
  pub spec_valid : IsValidSpec r.spec
  pub execution_fits : IsExecution r.execution r.state r.spec

pub record AreJobs (max_jobs : ℕ) (jobs : JobMap) : Type 0 where
  pub unique : IsUnique jobs
  pub within : length jobs ≤ max_jobs
  pub stored : (id : JobId) (r : StoredJob) → find id jobs ≡ some r → IsStored id r

-- What a successful creation has checked, and the map it returns.
pub create_job_lem :
    (max_jobs : ℕ) (r : StoredJob) (jobs next : JobMap)
    → create_job max_jobs r jobs ≡ ok next
    → IsStored r.id r
      × (r.state ≡ queued)
      × (r.revision ≡ 0)
      × (find r.id jobs ≡ none)
      × (length jobs < max_jobs)
      × (next ≡ emplace r.id r jobs)
unfolding create_job
create_job_lem max_jobs r jobs next h = ground (
  arith,
  validate_iff r.spec,
  validate_execution_iff r.execution r.state r.spec,
  Option-cases (find r.id jobs),
)

-- What a successful update has checked, and the map it returns.
pub update_job_lem :
    (r : StoredJob) (jobs next : JobMap)
    → update_job r jobs ≡ ok next
    → (old : StoredJob) × IsStored r.id r
      × (find r.id jobs ≡ some old)
      × (old.revision ≢ u64_modulus - 1)
      × (r.revision ≡ next_u64 old.revision)
      × (r.spec ≡ old.spec)
      × (can_transition old.state r.state ≡ true)
      × (next ≡ assign r.id r jobs)
unfolding update_job
update_job_lem r jobs next h = elim (Option-cases (find r.id jobs)) [
  | inl e ↦ absurd (ground arith)
  | inr (old, e) ↦
      let facts : IsStored r.id r
          × (old.revision ≢ u64_modulus - 1)
          × (r.revision ≡ next_u64 old.revision)
          × (r.spec ≡ old.spec)
          × (can_transition old.state r.state ≡ true)
          × (next ≡ assign r.id r jobs) =
        ground (
          arith,
          validate_iff r.spec,
          validate_execution_iff r.execution r.state r.spec,
          same_spec_iff old.spec r.spec,
        ) in
      (old, facts.0, e, facts.1, facts.2, facts.3, facts.4, facts.5)
]

pub create_job-AreJobs :
    (max_jobs : ℕ) (r : StoredJob) (jobs next : JobMap)
    → create_job max_jobs r jobs ≡ ok next
    → AreJobs max_jobs jobs
    → AreJobs max_jobs next
create_job-AreJobs max_jobs r jobs next h v =
    let (ok_r, _, _, fresh, room, e) = create_job_lem max_jobs r jobs next h in
    rw e (record {
      unique = emplace-IsUnique r.id r jobs fresh v.unique;
      within = omega (arith, length-emplace r.id r jobs);
      stored = λ id s found.
          ground (arith, find-emplace r.id id r jobs fresh, v.stored id s, nat_beq_iff r.id id);
    })

pub update_job-AreJobs :
    (max_jobs : ℕ) (r : StoredJob) (jobs next : JobMap)
    → update_job r jobs ≡ ok next
    → AreJobs max_jobs jobs
    → AreJobs max_jobs next
update_job-AreJobs max_jobs r jobs next h v =
    let (old, ok_r, found, _, _, _, _, e) = update_job_lem r jobs next h in
    rw e (record {
      unique = assign-IsUnique r.id r jobs v.unique;
      within = rw (length-assign r.id r jobs) v.within;
      stored = λ id s found_id.
          ground (arith, find-assign r.id id r old jobs found, v.stored id s, nat_beq_iff r.id id);
    })
