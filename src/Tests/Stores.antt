-- ===== src/Tests/Stores.antt =====
-- The mutation core and the store in memory at concrete writes (src/store/mutation_core.cpp,
-- src/store/state_store.cpp, src/testing/in_memory_state_store.cpp).
use yori.Common.{
  nat_eq, subst, ◌↔◌, ◌<◌, ◌≤◌, ok, ◌≡◌, ◌≢◌, ◌⊎◌, refl, ap, pos, none, some, true, [], ◌∷◌, arith,
  contains_nul, u64_modulus, fold_result,
}
use yori.Common.Map.{find, emplace, assign, erase}
use yori.Gpu.Uuid.{uuid_valid}
use yori.Gpu.Provider.{GpuLease}
use yori.Job.Validate.{
  validate, checks, check_command, check_context, check_gpus, check_options, check_arguments,
  check_environment, check_placement, check_devices, add_within_limit,
}
use yori.Job.State.{starting, cancelled, lost, is_terminal, can_transition}
use yori.Store.Types.{
  JobExecutionRecord, StoredJob, StateMutation, entry_count, no_error, revision_conflict,
}
use yori.Store.Execution.{
  validate_execution, execution_ok, execution_checks, check_identity, check_start, check_end,
  check_reason, check_log_path,
}
use yori.Store.Allowed.{IsExecution, validate_execution_iff}
use yori.Store.Mutation.{
  JobMap, LeaseMap, apply_mutation, advance, create_job, update_job, release_lease, acquire_lease,
  holds_lease, lease_count, job_has_lease, check_leases, check_jobs, same_spec, same_command,
  same_options,
}
use yori.Store.Mutation.Jobs.{same_spec_iff}
use yori.Store.Mutation.Evolution.{EvolvesTo}
use yori.Store.Mutation.Sound.{IsConsistent, IsRefusal, apply_mutation_cases}
use yori.Store.Mutation.Accepted.{
  apply_mutation-IsConsistent, apply_mutation-EvolvesTo, apply_mutation_terminal,
}
use yori.Store.Memory.{
  InMemoryStateStore, IsSound, SameData, applies, init, init-IsSound, apply, commit, run,
  run-init-IsSound, apply_atomic, apply_again,
}
use yori.Tests.Data.{config, submission, start_a, job_a, job_b, spec_a, spec_b, gpu_a, nothing_run}

abbrev empty_store : InMemoryStateStore
unfolding init
empty_store = init config

abbrev pub jobs_1 : JobMap
jobs_1 = (1, job_a) ∷ (2, job_b) ∷ []

abbrev lease_a : GpuLease
lease_a = record { gpu_uuid = gpu_a; job_id = 1 }

abbrev pub leases_2 : LeaseMap
leases_2 = (gpu_a, lease_a) ∷ []

abbrev started_a : StoredJob
started_a = record job_a { state = starting; revision = 1 }

abbrev pub jobs_2 : JobMap
jobs_2 = (1, started_a) ∷ (2, job_b) ∷ []

submission_result :
    apply_mutation [] [] 0 config submission
    ≡ record { code = no_error; next_revision = 1; next_jobs = jobs_1; next_leases = [] }
unfolding apply_mutation entry_count advance fold_result create_job update_job release_lease
    acquire_lease check_jobs check_leases holds_lease job_has_lease lease_count same_spec
    same_command same_options validate checks check_command check_context check_gpus check_options
    check_arguments check_environment check_placement check_devices add_within_limit uuid_valid
    contains_nul validate_execution execution_checks check_identity check_start check_end
    check_reason check_log_path is_terminal can_transition find emplace assign erase
submission_result = refl

start_result :
    apply_mutation jobs_1 [] 1 config start_a
    ≡ record { code = no_error; next_revision = 2; next_jobs = jobs_2; next_leases = leases_2 }
unfolding apply_mutation entry_count advance fold_result create_job update_job release_lease
    acquire_lease check_jobs check_leases holds_lease job_has_lease lease_count same_spec
    same_command same_options validate checks check_command check_context check_gpus check_options
    check_arguments check_environment check_placement check_devices add_within_limit uuid_valid
    contains_nul validate_execution execution_checks check_identity check_start check_end
    check_reason check_log_path is_terminal can_transition find emplace assign erase
start_result = refl

submission_accepted : (apply_mutation [] [] 0 config submission).code ≡ no_error
submission_accepted = ap (λ o. o.code) submission_result

start_accepted : (apply_mutation jobs_1 [] 1 config start_a).code ≡ no_error
start_accepted = ap (λ o. o.code) start_result

empty-IsConsistent : IsConsistent config [] []
unfolding init
empty-IsConsistent = (init-IsSound config).consistent

jobs_1-IsConsistent : IsConsistent config jobs_1 []
jobs_1-IsConsistent =
    subst (λ o. IsConsistent config o.next_jobs o.next_leases) submission_result
      (apply_mutation-IsConsistent [] [] 0 config submission (omega arith) empty-IsConsistent
        submission_accepted)

pub jobs_2-IsConsistent : IsConsistent config jobs_2 leases_2
jobs_2-IsConsistent =
    subst (λ o. IsConsistent config o.next_jobs o.next_leases) start_result
      (apply_mutation-IsConsistent jobs_1 [] 1 config start_a (omega arith) jobs_1-IsConsistent
        start_accepted)

apply_mutation-IsConsistent_example :
    let outcome = apply_mutation jobs_1 [] 1 config start_a in
    IsConsistent config outcome.next_jobs outcome.next_leases
apply_mutation-IsConsistent_example =
    apply_mutation-IsConsistent jobs_1 [] 1 config start_a (omega arith) jobs_1-IsConsistent
      start_accepted

apply_mutation-EvolvesTo_example :
    EvolvesTo jobs_1 (apply_mutation jobs_1 [] 1 config start_a).next_jobs
apply_mutation-EvolvesTo_example =
    apply_mutation-EvolvesTo jobs_1 [] 1 config start_a (omega arith) jobs_1-IsConsistent
      start_accepted

apply_mutation_cases_example :
    let outcome = apply_mutation jobs_1 [] 1 config start_a in
    ((outcome.code ≡ no_error)
      × (start_a.expected_revision ≡ 1)
      × (1 ≤ entry_count start_a)
      × (entry_count start_a ≤ 64)
      × (outcome.next_revision ≡ 2)
      × (outcome.next_revision < u64_modulus)
      × (advance jobs_1 [] config start_a ≡ ok (outcome.next_jobs, outcome.next_leases)))
    ⊎ ((outcome.code ≢ no_error)
        × IsRefusal jobs_1 [] 1 config start_a outcome.code
        × (outcome.next_revision ≡ 0)
        × (outcome.next_jobs ≡ [])
        × (outcome.next_leases ≡ []))
apply_mutation_cases_example = apply_mutation_cases jobs_1 [] 1 config start_a (omega arith)

-- Job A waits, job B is cancelled: a later write leaves job B alone.
abbrev cancelled_b : StoredJob
cancelled_b = record job_b { state = cancelled; revision = 1 }

abbrev cancel_b : StateMutation
cancel_b = record start_a { update_jobs = cancelled_b ∷ []; acquire_leases = [] }

abbrev jobs_3 : JobMap
jobs_3 = (1, job_a) ∷ (2, cancelled_b) ∷ []

abbrev start_a_later : StateMutation
start_a_later = record start_a { expected_revision = 2 }

cancel_result :
    apply_mutation jobs_1 [] 1 config cancel_b
    ≡ record { code = no_error; next_revision = 2; next_jobs = jobs_3; next_leases = [] }
unfolding apply_mutation entry_count advance fold_result create_job update_job release_lease
    acquire_lease check_jobs check_leases holds_lease job_has_lease lease_count same_spec
    same_command same_options validate checks check_command check_context check_gpus check_options
    check_arguments check_environment check_placement check_devices add_within_limit uuid_valid
    contains_nul validate_execution execution_checks check_identity check_start check_end
    check_reason check_log_path is_terminal can_transition find emplace assign erase
cancel_result = refl

later_accepted : (apply_mutation jobs_3 [] 2 config start_a_later).code ≡ no_error
unfolding apply_mutation entry_count advance fold_result create_job update_job release_lease
    acquire_lease check_jobs check_leases holds_lease job_has_lease lease_count same_spec
    same_command same_options validate checks check_command check_context check_gpus check_options
    check_arguments check_environment check_placement check_devices add_within_limit uuid_valid
    contains_nul validate_execution execution_checks check_identity check_start check_end
    check_reason check_log_path is_terminal can_transition find emplace assign erase
later_accepted = refl

jobs_3-IsConsistent : IsConsistent config jobs_3 []
jobs_3-IsConsistent =
    subst (λ o. IsConsistent config o.next_jobs o.next_leases) cancel_result
      (apply_mutation-IsConsistent jobs_1 [] 1 config cancel_b (omega arith) jobs_1-IsConsistent
        (ap (λ o. o.code) cancel_result))

apply_mutation_terminal_example :
    find 2 (apply_mutation jobs_3 [] 2 config start_a_later).next_jobs ≡ some cancelled_b
unfolding find is_terminal
apply_mutation_terminal_example =
    apply_mutation_terminal jobs_3 [] 2 config start_a_later (omega arith) jobs_3-IsConsistent
      later_accepted 2 cancelled_b refl refl

run-init-IsSound_example : IsSound (run (init config) (applies submission ∷ applies start_a ∷ []))
run-init-IsSound_example = run-init-IsSound config (applies submission ∷ applies start_a ∷ [])

abbrev pub store_1 : InMemoryStateStore
store_1 = record {
  config = config;
  revision = 1;
  jobs = jobs_1;
  leases = [];
  failure = none;
  next_apply_failure = none;
}

pub store_1-IsSound : IsSound store_1
store_1-IsSound = record { consistent = jobs_1-IsConsistent; revision_fits = omega arith }

stale_refused : (apply store_1 submission).1.code ≢ no_error
unfolding apply commit apply_mutation
stale_refused h = cc

apply_atomic_example :
    SameData store_1 (apply store_1 submission).0 × ((apply store_1 submission).1.revision ≡ 1)
apply_atomic_example = apply_atomic store_1 submission stale_refused

start_applied : (apply store_1 start_a).1.code ≡ no_error
unfolding apply_mutation entry_count advance fold_result create_job update_job release_lease
    acquire_lease check_jobs check_leases holds_lease job_has_lease lease_count same_spec
    same_command same_options validate checks check_command check_context check_gpus check_options
    check_arguments check_environment check_placement check_devices add_within_limit uuid_valid
    contains_nul validate_execution execution_checks check_identity check_start check_end
    check_reason check_log_path is_terminal can_transition find emplace assign erase apply commit
start_applied = refl

apply_again_example : (apply (apply store_1 start_a).0 start_a).1.code ≡ revision_conflict
apply_again_example = apply_again store_1 start_a store_1-IsSound start_applied refl refl

same_spec_iff_example : (same_spec spec_a spec_b ≡ true) ↔ (spec_a ≡ spec_b)
same_spec_iff_example = same_spec_iff spec_a spec_b

abbrev lost_execution : JobExecutionRecord
lost_execution = record nothing_run {
  identity = record { pid = pos 40; pgid = pos 40; start_ticks = 8 };
  start_time = some (pos 6);
  end_time = some (pos 9);
}

validate_execution_iff_example :
    (execution_ok (validate_execution lost_execution lost spec_a) ≡ true)
    ↔ IsExecution lost_execution lost spec_a
validate_execution_iff_example = validate_execution_iff lost_execution lost spec_a
