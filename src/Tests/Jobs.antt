-- ===== src/Tests/Jobs.antt =====
-- Specifications, devices and the life of a job at concrete values (src/job/job.cpp,
-- src/gpu/gpu_provider.cpp).
use yori.Common.{◌≡◌, ◌≢◌, ◌⊎◌, ◌↔◌, ◌≤◌, refl, some, true, false, [], ◌∷◌, contains_nul, next_u64}
use yori.Gpu.Uuid.{uuid_valid}
use yori.Gpu.Provider.{observation_ok}
use yori.Gpu.Provider
use yori.Gpu.Observed.{IsSnapshot, validate-IsSnapshot_iff}
use yori.Job.Validate.{
  validate, validation_ok, checks, check_command, check_context, check_gpus, check_options,
  check_arguments, check_environment, check_placement, check_devices, add_within_limit,
}
use yori.Job.Validate.Valid.{IsValidSpec, validate_iff}
use yori.Job.State.{
  Job, queued, starting, running, finished, cancelled, is_terminal, can_transition, create,
  transition_to, run, applied,
}
use yori.Job.Lifecycle.{transition_to_moves, run-create_bounded, run_terminal}
use yori.Tests.Data.{spec_a, gpus}

validate_iff_example : (validation_ok (validate spec_a) ≡ true) ↔ IsValidSpec spec_a
validate_iff_example = validate_iff spec_a

validate-IsSnapshot_iff_example : (observation_ok (Provider.validate gpus) ≡ true) ↔ IsSnapshot gpus
validate-IsSnapshot_iff_example = validate-IsSnapshot_iff gpus

abbrev waiting_job : Job
waiting_job = record { id = 1; spec = spec_a; state = queued; revision = 0 }

abbrev done_job : Job
done_job = record waiting_job { state = finished; revision = 3 }

transition_to_moves_example :
    let (job', result) = transition_to waiting_job starting in
    ((can_transition queued starting ≡ true)
      × (result.outcome ≡ applied)
      × (job' ≡ record waiting_job { state = starting; revision = next_u64 0 }))
    ⊎ ((can_transition queued starting ≡ false) × (result.outcome ≢ applied) × (job' ≡ waiting_job))
transition_to_moves_example = transition_to_moves waiting_job starting

created : (create 1 spec_a).0 ≡ some waiting_job
unfolding create validate checks check_command check_context check_gpus check_options
    check_arguments check_environment check_placement check_devices add_within_limit uuid_valid
    contains_nul
created = refl

run-create_bounded_example :
    (run waiting_job (starting ∷ running ∷ queued ∷ finished ∷ running ∷ [])).revision ≤ 4
run-create_bounded_example =
    run-create_bounded 1 spec_a waiting_job (starting ∷ running ∷ queued ∷ finished ∷ running ∷ [])
      created

run_terminal_example : run done_job (running ∷ cancelled ∷ finished ∷ []) ≡ done_job
unfolding is_terminal
run_terminal_example = run_terminal done_job (running ∷ cancelled ∷ finished ∷ []) refl
