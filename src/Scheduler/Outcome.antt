-- ===== src/Scheduler/Outcome.antt =====
-- What a scheduling round leaves in the queue
-- (src/scheduler/scheduler.cpp, the end of `run_once`).
use yori.Common.{
  ℕ, ◌≡◌, refl, sym, ap, subst, ◌∙◌, ◌≢◌, ◌⊎◌, inl, inr, true, Option, none, some, List, [], ◌∷◌,
  min, arith,
}
use yori.Common.{All, take, length, ltb, Bool-cases, Option-cases, nat_eq, ◌==◌}
use yori.Gpu.Provider.{GpuObservation, GpuObservationSnapshot, observation_ok}
use yori.Gpu.Provider
use yori.Job.State.{queued}
use yori.Store.Types.{StoredJob, StateSnapshot, StateStore, store_ok}
use yori.Queue.Types.{GlobalJobQueue, QueueEntry, queue_ok}
use yori.Queue.Operations.{size, remove, entry_of}
use yori.Queue.Sorted.{entry_with}
use yori.Queue.Invariant.{IsQueue, remove_cases, admit-remove, entry_with-has_id}
use yori.Scheduler.Required.{Among}
use yori.Scheduler.Choice.{select_for_sound}
use yori.Job.Spec.{required}
use yori.Scheduler.Select.{available, GpuSelectionReason, select_any_gpu, collect_affinity_targets}
use yori.Scheduler.Types.{
  ScheduleEvaluation, ScheduleResult, SchedulerConfig, SchedulerTrigger, scheduled,
  queue_rollback_failed,
}
use yori.Scheduler.Queued.{RecordMap, collect_queued, find_divergence}
use yori.Scheduler.RunOnce.{
  Pick, selected, all_skipped, scan_window, starting_mutation, commit, evaluate, reconcile,
  run_once,
}
use yori.Scheduler.Window.{IsFirst, scan_window-selected}
use yori.Scheduler.Agree.{
  IsLoaded, AreCollected, Agrees, collect_queued-IsCollected, nothing_collected,
  find_divergence-none, All-middle, entry_with-take,
}

-- A job that waits in the queue under its own entry.
pub record IsWaiting (q : GlobalJobQueue) (r : StoredJob) : Type 0 where
  pub loaded : IsLoaded r
  pub waiting : r.state ≡ queued
  pub untouched : r.revision ≡ 0
  pub listed : entry_with r.id q.entries ≡ some (entry_of r)

-- A job was started: it waited in the queue, its device is one of the snapshot that it may use, the
-- store has accepted the write that starts it there, and it is out of the queue.
pub record IsStarted {S : Type 0} (store : StateStore S) (gpus : GpuObservationSnapshot) (s : S)
    (state : StateSnapshot) (q : GlobalJobQueue) (s' : S) (q' : GlobalJobQueue)
    (round : ScheduleResult) : Type 0 where
  pub job : StoredJob
  pub device : GpuObservation
  pub waits : IsWaiting q job
  pub observed : Among device gpus.devices
  pub usable : available state.leases device ≡ true
  pub permitted :
      job.spec.gpu_placement.mode ≡ required → Among device.uuid job.spec.gpu_placement.devices
  pub written :
      store_ok (store.apply s (starting_mutation state.revision job device.uuid)).1.code ≡ true
  pub stored : s' ≡ (store.apply s (starting_mutation state.revision job device.uuid)).0
  pub taken_out : q' ≡ (remove q job.id).0
  pub job_named : round.event.job_id ≡ some job.id
  pub device_named : round.event.gpu_uuid ≡ some device.uuid

-- A round started a job, or it left the queue as it was.
abbrev pub IsKept :
    {S : Type 0}
    → StateStore S
    → GpuObservationSnapshot
    → S
    → StateSnapshot
    → GlobalJobQueue
    → S × GlobalJobQueue × ScheduleResult
    → Type 0
IsKept store gpus s state q (s', q', round) =
    ((round.code ≡ scheduled) × IsStarted store gpus s state q s' q' round)
    ⊎ ((round.code ≢ scheduled) × (round.code ≢ queue_rollback_failed) × (q' ≡ q))

abbrev window_choice :
    SchedulerConfig
    → GpuObservationSnapshot
    → GlobalJobQueue
    → StateSnapshot
    → RecordMap
    → Option GpuObservation × GpuSelectionReason
window_choice config gpus q state records =
    select_any_gpu gpus.devices state.leases
      (collect_affinity_targets (take (min config.scan_window (size q)) q.entries) records)

list_cases :
    (xs : List QueueEntry)
    → (xs ≡ []) ⊎ ((x : QueueEntry) × (rest : List QueueEntry) × (xs ≡ x ∷ rest))
list_cases [] = inl refl
list_cases (x ∷ rest) = inr (x, rest, refl)

entry_of_lem :
    (e : QueueEntry) (r : StoredJob)
    → r.id ≡ e.job_id
    → r.spec.submit_time ≡ e.submit_time
    → e ≡ entry_of r
entry_of_lem e r same_id same_time i = record {
  job_id = sym same_id i;
  submit_time = sym same_time i;
}

-- The job that is selected waits in the queue.
selected-IsWaiting :
    (gpus : GpuObservationSnapshot) (state : StateSnapshot) (records : RecordMap)
    (choice : Option GpuObservation × GpuSelectionReason) (n : ℕ) (q : GlobalJobQueue)
    (r : StoredJob) (device : GpuObservation) (reason : GpuSelectionReason)
    → IsQueue q
    → AreCollected records
    → find_divergence records n 0 q.entries ≡ none
    → IsFirst gpus state records choice (take n q.entries) r device reason
    → IsWaiting q r
selected-IsWaiting gpus state records choice n q r device reason v c agree first =
    let collected = c first.entry.job_id r first.recorded in
    let agreed =
      find_divergence-none records n 0 q.entries
        (subst (λ w. find_divergence records w 0 q.entries ≡ none) (omega arith) agree) in
    let here =
      All-middle (Agrees records) first.before first.entry first.after
        (subst (λ w. All (Agrees records) w) first.split agreed) in
    let (same_time, untouched) = here r first.recorded in
    let listed =
      entry_with-take n q.entries first.before first.entry first.after v.distinct first.split in
    record {
      loaded = collected.loaded;
      waiting = collected.waiting;
      untouched = untouched;
      listed =
          ap (λ id. entry_with id q.entries) collected.keyed
          ∙ listed
          ∙ ap (λ e. some e) (entry_of_lem first.entry r collected.keyed same_time);
    }

module _ {S : Type 0} (store : StateStore S) (trigger : SchedulerTrigger) where
  removal_ok :
      (q : GlobalJobQueue) (r : StoredJob) → IsWaiting q r → queue_ok (remove q r.id).1.code ≡ true
  removal_ok q r w = elim (remove_cases q r.id) [
    | inl (_, good, _) ↦ rw good refl
    | inr (absent, _, _) ↦
        absurd
          (ground (arith, entry_with-has_id r.id (entry_of r) q.entries w.listed, w.loaded.id_set))
  ]

  commit-IsKept :
      (gpus : GpuObservationSnapshot) (s : S) (q : GlobalJobQueue) (state : StateSnapshot)
      (evaluation : ScheduleEvaluation) (r : StoredJob) (device : GpuObservation)
      (reason : GpuSelectionReason)
      → IsQueue q
      → IsWaiting q r
      → Among device gpus.devices
        × (available state.leases device ≡ true)
        × (r.spec.gpu_placement.mode ≡ required → Among device.uuid r.spec.gpu_placement.devices)
      → IsKept store gpus s state q
          (commit store trigger s q state.revision evaluation r device reason)
  unfolding commit
  commit-IsKept gpus s q state evaluation r device reason v w (there, usable, permitted) =
      let (readmitted, restored) =
        admit-remove q r v w.loaded.id_set w.loaded.spec_valid w.waiting w.untouched w.listed in
      let removed = removal_ok q r w in
      elim (Bool-cases
        (store_ok (store.apply s (starting_mutation state.revision r device.uuid)).1.code)) [
          | inl t ↦
              rw (removed, t, commit)
                (inl (
                  refl,
                  record {
                    job = r;
                    device = device;
                    waits = w;
                    observed = there;
                    usable = usable;
                    permitted = permitted;
                    written = t;
                    stored = refl;
                    taken_out = refl;
                    job_named = refl;
                    device_named = refl;
                  },
                ))
          | inr f ↦ rw (removed, f, readmitted, commit) (inr ((λ h. cc), (λ h. cc), restored))
        ]

  evaluate-IsKept :
      (config : SchedulerConfig) (gpus : GpuObservationSnapshot) (s : S) (q : GlobalJobQueue)
      (state : StateSnapshot) (records : RecordMap)
      → IsQueue q
      → AreCollected records
      → find_divergence records (min config.scan_window (size q)) 0 q.entries ≡ none
      → (pick : Pick)
      → scan_window gpus state records
          (window_choice config gpus q state records)
          (take (min config.scan_window (size q)) q.entries)
          []
        ≡ pick
      → IsKept store gpus s state q (evaluate store trigger config gpus s q state records)
  unfolding evaluate
  evaluate-IsKept config gpus s q state records v c agree (all_skipped skipped) h =
      rw (h, evaluate) (inr ((λ h. cc), (λ h. cc), refl))
  evaluate-IsKept config gpus s q state records v c agree (selected r device reason skipped) h =
      let (first, _) = scan_window-selected gpus state records _ _ [] r device reason skipped h in
      let n = min config.scan_window (size q) in
      let w = selected-IsWaiting gpus state records _ n q r device reason v c agree first in
      let able =
        select_for_sound gpus.devices state.leases
          (collect_affinity_targets (take n q.entries) records) r.spec.gpu_placement.mode
          r.spec.gpu_placement.devices device first.chosen in
      rw (h, evaluate)
        (commit-IsKept gpus s q state
          (record { skipped = skipped; window_truncated = ltb n (size q) }) r device reason v w
          able)

  reconcile-IsKept :
      (config : SchedulerConfig) (gpus : GpuObservationSnapshot) (s : S) (q : GlobalJobQueue)
      (state : StateSnapshot)
      → IsQueue q
      → All IsLoaded state.jobs
      → IsKept store gpus s state q (reconcile store trigger config gpus s q state)
  unfolding reconcile
  reconcile-IsKept config gpus s q state v l =
      let records = collect_queued state.jobs [] in
      let collected = collect_queued-IsCollected state.jobs [] l nothing_collected in
      elim (Bool-cases (length records == size q)) [
        | inr f ↦ rw (f, reconcile) (inr ((λ h. cc), (λ h. cc), refl))
        | inl t ↦
            elim (Option-cases
              (find_divergence records (min config.scan_window (size q)) 0 q.entries)) [
                | inr ((id, error), d) ↦ rw (t, d, reconcile) (inr ((λ h. cc), (λ h. cc), refl))
                | inl agree ↦ elim (list_cases q.entries) [
                  | inl nothing ↦
                      rw (t, agree, nothing, reconcile)
                        (inr ((λ h. cc), (λ h. cc), ap (λ xs. record q { entries = xs }) nothing))
                  | inr (x, rest, some_entries) ↦
                      let same : reconcile store trigger config gpus s q state
                          ≡ evaluate store trigger config gpus s q state records =
                        rw (t, agree, reconcile)
                          (rw some_entries (
                            ap
                              (λ xs.
                                evaluate store trigger config gpus s (record q { entries = xs })
                                  state records)
                              some_entries)) in
                      subst (λ round. IsKept store gpus s state q round) (sym same)
                        (evaluate-IsKept config gpus s q state records v collected agree _ refl)
                ]
              ]
      ]

  -- For any store whose loaded records have set ids and valid specifications, and any sound queue, a
  -- round either reports `scheduled`, and then a job that waited in the queue is out of it and the
  -- store has accepted the one write that starts it on an observed, free and unleased device (of its
  -- set, if it requires one); or it reports another code, never a failed rollback, and leaves the
  -- queue as it was.
  pub run_once-IsKept :
      (config : SchedulerConfig) (gpus : GpuObservationSnapshot) (s : S) (q : GlobalJobQueue)
      → IsQueue q
      → All IsLoaded (store.load s).1.snapshot.jobs
      → IsKept store gpus
          (store.load s).0
          (store.load s).1.snapshot
          q
          (run_once store trigger config gpus s q)
  unfolding run_once
  run_once-IsKept config gpus s q v l =
      elim (Bool-cases (observation_ok (Provider.validate gpus))) [
        | inr f ↦ rw (f, run_once) (inr ((λ h. cc), (λ h. cc), refl))
        | inl t ↦ elim (Bool-cases (store_ok (store.load s).1.code)) [
          | inr f ↦ rw (t, f, run_once) (inr ((λ h. cc), (λ h. cc), refl))
          | inl u ↦
              rw (t, u, run_once)
                (reconcile-IsKept config gpus (store.load s).0 q (store.load s).1.snapshot v l)
        ]
      ]
