-- ===== src/Tests/Data.antt =====
-- Two jobs, two devices, a store that holds the jobs and a queue that lists them
-- (the values exercise src/job, src/store, src/queue and src/scheduler).
use yori.Common.{contains_nul, ℕ, ◌≡◌, refl, pos, none, true, [], ◌∷◌}
use yori.Gpu.Uuid.{GpuUuid, uuid_valid}
use yori.Gpu.Provider.{GpuObservation, GpuObservationSnapshot, free}
use yori.Job.Spec.{JobSpec, GpuPlacement, any_gpu, required}
use yori.Job.Validate.{
  validate, validation_ok, checks, check_command, check_context, check_gpus, check_options,
  check_arguments, check_environment, check_placement, check_devices, add_within_limit,
}
use yori.Job.Validate.Valid.{IsValidSpec, validate_iff}
use yori.Job.State.{queued, starting}
use yori.Store.Types.{JobExecutionRecord, StoredJob, StateMutation}
use yori.Store.Mutation.{ValidationConfig}

abbrev pub gpu_a : GpuUuid
gpu_a = b'A' ∷ []

abbrev pub gpu_b : GpuUuid
gpu_b = b'B' ∷ []

abbrev pub spec_of : GpuPlacement → ℕ → JobSpec
spec_of placement time = record {
  owner_uid = 1000;
  owner_gid = 1000;
  argv = (b'a' ∷ []) ∷ [];
  cwd = b'/' ∷ [];
  env = [];
  executable = none;
  env_metadata = none;
  gpu_request = 1;
  gpu_placement = placement;
  launch_profile = none;
  tensorboard_logdir = none;
  submit_time = pos time;
}

-- A job that needs device A.
abbrev pub spec_a : JobSpec
spec_a = spec_of (record { mode = required; devices = gpu_a ∷ [] }) 5

-- A later job for any device.
abbrev pub spec_b : JobSpec
spec_b = spec_of (record { mode = any_gpu; devices = [] }) 7

abbrev pub nothing_run : JobExecutionRecord
nothing_run = record {
  identity = record { pid = pos 0; pgid = pos 0; start_ticks = 0 };
  start_time = none;
  end_time = none;
  exit = none;
  failure_reason = none;
  log_path = none;
}

abbrev pub job_a : StoredJob
job_a = record { id = 1; spec = spec_a; state = queued; revision = 0; execution = nothing_run }

abbrev pub job_b : StoredJob
job_b = record { id = 2; spec = spec_b; state = queued; revision = 0; execution = nothing_run }

spec_a_accepted : validation_ok (validate spec_a) ≡ true
unfolding validate checks check_command check_context check_gpus check_options check_arguments
    check_environment check_placement check_devices add_within_limit uuid_valid contains_nul
spec_a_accepted = refl

spec_b_accepted : validation_ok (validate spec_b) ≡ true
unfolding validate checks check_command check_context check_gpus check_options check_arguments
    check_environment check_placement add_within_limit contains_nul
spec_b_accepted = refl

pub spec_a_valid : IsValidSpec spec_a
spec_a_valid = (validate_iff spec_a).0 spec_a_accepted

pub spec_b_valid : IsValidSpec spec_b
spec_b_valid = (validate_iff spec_b).0 spec_b_accepted

abbrev pub config : ValidationConfig
config = record { max_jobs = 4; max_leases = 4 }

-- The first write: both jobs.
abbrev pub submission : StateMutation
submission = record {
  expected_revision = 0;
  create_jobs = job_a ∷ job_b ∷ [];
  update_jobs = [];
  acquire_leases = [];
  release_leases = [];
}

-- The second: job A starts on device A.
abbrev pub start_a : StateMutation
start_a = record {
  expected_revision = 1;
  create_jobs = [];
  update_jobs = record job_a { state = starting; revision = 1 } ∷ [];
  acquire_leases = record { gpu_uuid = gpu_a; job_id = 1 } ∷ [];
  release_leases = [];
}

abbrev pub device_a : GpuObservation
device_a = record {
  uuid = gpu_a;
  index = 0;
  state = free;
  telemetry = record {
    utilization_percent = none;
    memory_total_bytes = none;
    memory_used_bytes = none;
  };
}

abbrev pub device_b : GpuObservation
device_b = record device_a { uuid = gpu_b; index = 1 }

abbrev pub gpus : GpuObservationSnapshot
gpus = record { revision = 1; observed_at = pos 9; devices = device_a ∷ device_b ∷ [] }
