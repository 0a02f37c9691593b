-- ===== src/Tests/Queues.antt =====
-- The derived queue at concrete jobs (src/queue/job_queue.cpp).
use yori.Common.{subst, ◌≡◌, ◌≢◌, ◌⊎◌, refl, [], ◌∷◌, contains_nul}
use yori.Gpu.Uuid.{uuid_valid}
use yori.Job.Validate.{
  validate, checks, check_command, check_context, check_gpus, check_options, check_arguments,
  check_environment, check_placement, check_devices, add_within_limit,
}
use yori.Job.Spec.{JobId}
use yori.Store.Types.{StateSnapshot}
use yori.Queue.Types.{GlobalJobQueue, no_error, entry_less}
use yori.Queue.Operations.{
  entry_of, create, contains, admit, remove, restore, admission_error, lower_bound, insert_at,
  insert_sorted,
}
use yori.Queue.Sorted.{entry_with}
use yori.Queue.Invariant.{
  IsQueue, IsAdmissible, create-IsQueue, admit_cases, admit-IsQueue, remove-IsQueue, admit-remove,
}
use yori.Queue.Restore.{waiting, restore_rebuilds, restore-IsQueue}
use yori.Tests.Data.{job_a, job_b, spec_a_valid}

abbrev queue_0 : GlobalJobQueue
queue_0 = record { capacity = 4; entries = [] }

abbrev pub queue_1 : GlobalJobQueue
queue_1 = record queue_0 { entries = entry_of job_b ∷ [] }

abbrev pub queue_2 : GlobalJobQueue
queue_2 = record queue_0 { entries = entry_of job_a ∷ entry_of job_b ∷ [] }

admitted_b : (admit queue_0 job_b).0 ≡ queue_1
unfolding admit admission_error contains lower_bound insert_at entry_less validate checks
    check_command check_context check_gpus check_options check_arguments check_environment
    check_placement check_devices add_within_limit uuid_valid contains_nul
admitted_b = refl

admitted_a : (admit queue_1 job_a).0 ≡ queue_2
unfolding admit admission_error contains lower_bound insert_at entry_less validate checks
    check_command check_context check_gpus check_options check_arguments check_environment
    check_placement check_devices add_within_limit uuid_valid contains_nul
admitted_a = refl

admission_ok : (admit queue_1 job_a).1.code ≡ no_error
unfolding admit admission_error contains lower_bound insert_at entry_less validate checks
    check_command check_context check_gpus check_options check_arguments check_environment
    check_placement check_devices add_within_limit uuid_valid contains_nul
admission_ok = refl

queue_0_sound : IsQueue queue_0
unfolding create
queue_0_sound = create-IsQueue 4 queue_0 refl

queue_1_sound : IsQueue queue_1
queue_1_sound = subst IsQueue admitted_b (admit-IsQueue queue_0 job_b queue_0_sound)

pub queue_2_sound : IsQueue queue_2
queue_2_sound = subst IsQueue admitted_a (admit-IsQueue queue_1 job_a queue_1_sound)

admit-IsQueue_example : IsQueue (admit queue_1 job_a).0
admit-IsQueue_example = admit-IsQueue queue_1 job_a queue_1_sound

remove-IsQueue_example : IsQueue (remove queue_2 1).0
remove-IsQueue_example = remove-IsQueue queue_2 1 queue_2_sound

admit_cases_example :
    (IsAdmissible queue_1 job_a
      × ((admit queue_1 job_a).1.code ≡ no_error)
      × ((admit queue_1 job_a).0
          ≡ record queue_1 { entries = insert_sorted (entry_of job_a) (entry_of job_b ∷ []) }))
    ⊎ ((¬ IsAdmissible queue_1 job_a)
        × ((admit queue_1 job_a).1.code ≢ no_error)
        × ((admit queue_1 job_a).0 ≡ queue_1))
admit_cases_example = admit_cases queue_1 job_a

admit-remove_example :
    ((admit (remove queue_2 1).0 job_a).1.code ≡ no_error)
    × ((admit (remove queue_2 1).0 job_a).0 ≡ queue_2)
admit-remove_example =
    admit-remove queue_2 job_a queue_2_sound (λ h. cc) spec_a_valid refl refl refl

abbrev snapshot : StateSnapshot
snapshot = record { revision = 1; jobs = job_b ∷ job_a ∷ []; leases = [] }

restore_rebuilds_example :
    (((restore queue_1 snapshot).1.code ≡ no_error)
      × ((restore queue_1 snapshot).0.capacity ≡ 4)
      × ((id : JobId)
          → entry_with id (restore queue_1 snapshot).0.entries
            ≡ entry_with id (waiting (job_b ∷ job_a ∷ []))))
    ⊎ (((restore queue_1 snapshot).1.code ≢ no_error) × ((restore queue_1 snapshot).0 ≡ queue_1))
restore_rebuilds_example = restore_rebuilds queue_1 snapshot

restore-IsQueue_example : IsQueue (restore queue_1 snapshot).0
restore-IsQueue_example = restore-IsQueue queue_1 snapshot queue_1_sound
