-- ===== src/Tests/Rounds.antt =====
-- Scheduling rounds at concrete devices, jobs and stores (src/scheduler/scheduler.cpp).
use yori.Common.{◌≡◌, ◌≢◌, refl, none, some, true, false, List, [], ◌∷◌, ◌++◌, All, nat_eq, list_eq}
use yori.Common.Map.{find}
use yori.Gpu.Provider.{GpuLease}
use yori.Job.Spec.{required}
use yori.Store.Types.{StateSnapshot}
use yori.Store.Memory.{in_memory, load}
use yori.Scheduler.Select.{
  available, leased, select_for, select_any_gpu, find_device, scan_wait, affinity_gpu_allocated,
  scan_any, decide_any, scan_required, default_choice,
}
use yori.Scheduler.Required.{Among, can_use}
use yori.Scheduler.Choice.{
  IsAnyChoice, select_any_gpu-IsAnyChoice, select_for_sound, select_for_complete,
}
use yori.Scheduler.Types.{SchedulerConfig, ScheduleSkip, job_submitted}
use yori.Scheduler.Queued.{RecordMap}
use yori.Scheduler.RunOnce.{skip_for, scan_window, selected, run_once}
use yori.Scheduler.Window.{IsFirst, skips, scan_window-selected}
use yori.Scheduler.Outcome.{IsKept, run_once-IsKept}
use yori.Scheduler.InMemory.{load-IsLoaded}
use yori.Tests.Data.{job_a, job_b, gpu_a, gpus, device_a, device_b}
use yori.Tests.Stores.{store_1, store_1-IsSound}
use yori.Tests.Queues.{queue_2, queue_2_sound}

abbrev lease_on_a : List GpuLease
lease_on_a = record { gpu_uuid = gpu_a; job_id = 3 } ∷ []

-- Device A is protected, so that a job for any device gets B.
avoided : (select_any_gpu gpus.devices [] (gpu_a ∷ [])).0 ≡ some device_b
unfolding select_any_gpu scan_any decide_any leased
avoided = refl

select_any_gpu-IsAnyChoice_example : IsAnyChoice gpus.devices [] (gpu_a ∷ []) device_b
select_any_gpu-IsAnyChoice_example =
    select_any_gpu-IsAnyChoice gpus.devices [] (gpu_a ∷ []) device_b avoided

required_a :
    (select_for gpus.devices []
      (select_any_gpu gpus.devices [] (gpu_a ∷ []))
      required
      (gpu_a ∷ [])).0
    ≡ some device_a
unfolding select_for scan_required find_device leased
required_a = refl

select_for_sound_example :
    Among device_a gpus.devices
    × (available [] device_a ≡ true)
    × (required ≡ required → Among gpu_a (gpu_a ∷ []))
select_for_sound_example =
    select_for_sound gpus.devices [] (gpu_a ∷ []) required (gpu_a ∷ []) device_a required_a

-- With device A leased, the job that requires it is passed over.
passed_over :
    (select_for gpus.devices lease_on_a
      (select_any_gpu gpus.devices lease_on_a [])
      required
      (gpu_a ∷ [])).0
    ≡ none
unfolding select_for scan_required find_device leased
passed_over = refl

select_for_complete_example :
    (required ≡ required → All (λ uuid. can_use gpus.devices lease_on_a uuid ≡ false) (gpu_a ∷ []))
    × (required ≢ required → All (λ d. available lease_on_a d ≡ false) gpus.devices)
select_for_complete_example =
    select_for_complete gpus.devices lease_on_a [] required (gpu_a ∷ []) passed_over

abbrev records : RecordMap
records = (1, job_a) ∷ (2, job_b) ∷ []

abbrev leased_a : StateSnapshot
leased_a = record { revision = 1; jobs = job_a ∷ job_b ∷ []; leases = lease_on_a }

abbrev skip_a : ScheduleSkip
skip_a = record { job = 1; reason = affinity_gpu_allocated; target = some gpu_a }

-- Job A is skipped, job B is started on device B.
second_selected :
    scan_window gpus leased_a records (some device_b, default_choice) queue_2.entries []
    ≡ selected job_b device_b default_choice (skip_a ∷ [])
unfolding scan_window select_for scan_required find_device leased find skip_for scan_wait
second_selected = refl

scan_window-selected_example :
    (v : IsFirst gpus leased_a records
      (some device_b, default_choice)
      queue_2.entries
      job_b
      device_b
      default_choice)
    × (skip_a ∷ [] ≡ [] ++ skips gpus leased_a records (some device_b, default_choice) v.before)
scan_window-selected_example =
    scan_window-selected gpus leased_a records (some device_b, default_choice) queue_2.entries []
      job_b device_b default_choice (skip_a ∷ []) second_selected

abbrev settings : SchedulerConfig
settings = record { scan_window = 16 }

run_once-IsKept_example :
    IsKept in_memory gpus
      (load store_1).0
      (load store_1).1.snapshot
      queue_2
      (run_once in_memory job_submitted settings gpus store_1 queue_2)
run_once-IsKept_example =
    run_once-IsKept in_memory job_submitted settings gpus store_1 queue_2 queue_2_sound
      (load-IsLoaded store_1 store_1-IsSound)
