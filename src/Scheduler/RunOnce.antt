-- ===== src/Scheduler/RunOnce.antt =====
-- `FifoScheduler::run_once` (src/scheduler/scheduler.cpp), over any store.
use yori.Common.{ℕ, not, Option, none, some, List, [], ◌∷◌, ◌++◌, min}
use yori.Common.{length, take, ltb, next_u64, ◌==◌, nat_eq, int_eq, if◌then◌else◌}
use yori.Common.Map.{find, nat_less}
use yori.Gpu.Uuid.{GpuUuid}
use yori.Gpu.Provider.{
  GpuObservation, GpuObservationSnapshot, GpuObservationValidationResult, observation_ok,
}
use yori.Gpu.Provider
use yori.Job.Spec.{JobId, required}
use yori.Job.State.{starting}
use yori.Store.Types.{
  StoredJob, StateSnapshot, StateMutation, StateStore, StateStoreErrorCode, store_ok,
}
use yori.Queue.Types.{GlobalJobQueue, QueueEntry, QueueErrorCode, queue_ok}
use yori.Queue.Operations.{size, front, remove, admit}
use yori.Scheduler.Select.{
  no_free_gpu, GpuSelectionReason, default_choice, collect_affinity_targets, select_any_gpu,
  select_for, required_wait_reason,
}
use yori.Scheduler.Types.{
  SchedulerTrigger, SchedulerConfig, ScheduleSkip, ScheduleEvaluation, ScheduleResultCode,
  ScheduleResult, gpu_fine, no_evaluation, result, scheduled, queue_empty, no_candidate, cancelled,
  invalid_gpu_snapshot, state_load_failed, queue_state_diverged, state_write_failed,
  queue_rollback_failed,
}
use yori.Scheduler.Queued.{
  RecordMap, collect_queued, earliest_missing, id_of_record, id_of_entry, or_else, find_divergence,
}

-- The skip that is recorded for a job of the window.
unfoldable pub skip_for :
    GpuObservationSnapshot → StateSnapshot → QueueEntry → StoredJob → ScheduleSkip
skip_for gpus state entry r = elim r.spec.gpu_placement.mode [
  | required ↦
      let (reason, target) =
        required_wait_reason gpus.devices state.leases r.spec.gpu_placement.devices in
      record { job = entry.job_id; reason = reason; target = target }
  | _ ↦ record { job = entry.job_id; reason = no_free_gpu; target = none }
]

-- What the main loop over the window comes to.
pub data Pick : Type 0 where
  selected : StoredJob → GpuObservation → GpuSelectionReason → List ScheduleSkip → Pick
  all_skipped : List ScheduleSkip → Pick

-- The main loop up to the first job with a device; `skipped` are those before.
unfoldable pub scan_window :
    GpuObservationSnapshot
    → StateSnapshot
    → RecordMap
    → Option GpuObservation × GpuSelectionReason
    → List QueueEntry
    → List ScheduleSkip
    → Pick
scan_window gpus state records any_choice [] skipped = all_skipped skipped
scan_window gpus state records any_choice (entry ∷ rest) skipped =
    elim (find entry.job_id records) [
      | none ↦ scan_window gpus state records any_choice rest skipped
      | some r ↦
          elim (select_for gpus.devices state.leases any_choice r.spec.gpu_placement.mode
            r.spec.gpu_placement.devices).0 [
              | some device ↦
                  selected r device
                    (select_for gpus.devices state.leases any_choice r.spec.gpu_placement.mode
                      r.spec.gpu_placement.devices).1
                    skipped
              | none ↦
                  scan_window gpus state records any_choice rest
                    (skipped ++ skip_for gpus state entry r ∷ [])
            ]
    ]

-- The mutation that starts a job on a GPU.
abbrev pub starting_mutation : ℕ → StoredJob → GpuUuid → StateMutation
starting_mutation revision r uuid = record {
  expected_revision = revision;
  create_jobs = [];
  update_jobs = record r { state = starting; revision = next_u64 r.revision } ∷ [];
  acquire_leases = record { gpu_uuid = uuid; job_id = r.id } ∷ [];
  release_leases = [];
}

module _ {S : Type 0} (store : StateStore S) (trigger : SchedulerTrigger) where
  abbrev plain : ScheduleResultCode → Option JobId → QueueErrorCode → ℕ → ScheduleResult
  plain code id queue_error revision =
      result trigger code id none gpu_fine StateStoreErrorCode.no_error queue_error revision
        no_evaluation default_choice

  -- The commit of a selection: remove from the queue, write, and admit again if the write fails.
  unfoldable pub commit :
      S
      → GlobalJobQueue
      → ℕ
      → ScheduleEvaluation
      → StoredJob
      → GpuObservation
      → GpuSelectionReason
      → S × GlobalJobQueue × ScheduleResult
  commit s q revision evaluation r device reason =
      let (q', removal) = remove q r.id in
      let (s', written) = store.apply s (starting_mutation revision r device.uuid) in
      let (q'', rollback) = admit q' r in
      if not (queue_ok removal.code)
      then (
        s,
        q',
        result trigger queue_state_diverged (some r.id) (some device.uuid) gpu_fine
            StateStoreErrorCode.no_error removal.code revision no_evaluation default_choice,
      )
      else if store_ok written.code
      then (
        s',
        q',
        result trigger scheduled (some r.id) (some device.uuid) gpu_fine
            StateStoreErrorCode.no_error QueueErrorCode.no_error written.revision evaluation reason,
      )
      else if queue_ok rollback.code
      then (
        s',
        q'',
        result trigger state_write_failed (some r.id) (some device.uuid) gpu_fine written.code
            QueueErrorCode.no_error written.revision no_evaluation default_choice,
      )
      else (
        s',
        q'',
        result trigger queue_rollback_failed (some r.id) (some device.uuid) gpu_fine written.code
            rollback.code written.revision no_evaluation default_choice,
      )

  -- The evaluation of the window, once queue and store agree.
  unfoldable pub evaluate :
      SchedulerConfig
      → GpuObservationSnapshot
      → S
      → GlobalJobQueue
      → StateSnapshot
      → RecordMap
      → S × GlobalJobQueue × ScheduleResult
  evaluate config gpus s q state records =
      let window = take (min config.scan_window (size q)) q.entries in
      let truncated = ltb (min config.scan_window (size q)) (size q) in
      let any_choice =
        select_any_gpu gpus.devices state.leases (collect_affinity_targets window records) in
      elim (scan_window gpus state records any_choice window []) [
        | selected r device reason skipped ↦
            commit s q state.revision (record { skipped = skipped; window_truncated = truncated }) r
              device reason
        | all_skipped skipped ↦ (
          s,
          q,
          result trigger no_candidate none none gpu_fine StateStoreErrorCode.no_error
              QueueErrorCode.no_error state.revision
              (record { skipped = skipped; window_truncated = truncated }) default_choice,
        )
      ]

  -- The agreement of queue and store, and then the evaluation.
  unfoldable pub reconcile :
      SchedulerConfig
      → GpuObservationSnapshot
      → S
      → GlobalJobQueue
      → StateSnapshot
      → S × GlobalJobQueue × ScheduleResult
  reconcile config gpus s q state =
      let records = collect_queued state.jobs [] in
      if not (length records == size q)
      then (
        s,
        q,
        plain queue_state_diverged
            (or_else (id_of_record (earliest_missing q records none)) (id_of_entry (front q)))
            QueueErrorCode.job_not_found state.revision,
      )
      else elim (find_divergence records (min config.scan_window (size q)) 0 q.entries) [
        | some (id, error) ↦ (s, q, plain queue_state_diverged (some id) error state.revision)
        | none ↦ elim q.entries [
          | [] ↦ (s, q, plain queue_empty none QueueErrorCode.no_error state.revision)
          | _ ∷ _ ↦ evaluate config gpus s q state records
        ]
      ]

  unfoldable pub run_once :
      SchedulerConfig
      → GpuObservationSnapshot
      → S
      → GlobalJobQueue
      → S × GlobalJobQueue × ScheduleResult
  run_once config gpus s q =
      let (s', loaded) = store.load s in
      if not (observation_ok (Provider.validate gpus))
      then (
        s,
        q,
        result trigger invalid_gpu_snapshot none none (Provider.validate gpus)
            StateStoreErrorCode.no_error QueueErrorCode.no_error 0 no_evaluation default_choice,
      )
      else if not (store_ok loaded.code)
      then (
        s',
        q,
        result trigger state_load_failed (id_of_entry (front q)) none gpu_fine loaded.code
            QueueErrorCode.no_error 0 no_evaluation default_choice,
      )
      else reconcile config gpus s' q loaded.snapshot

-- `FifoScheduler::cancelled`.
unfoldable pub cancelled_result : SchedulerTrigger → ScheduleResult
cancelled_result trigger =
    result trigger cancelled none none gpu_fine StateStoreErrorCode.no_error QueueErrorCode.no_error
      0 no_evaluation default_choice
