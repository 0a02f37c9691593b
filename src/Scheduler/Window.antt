-- ===== src/Scheduler/Window.antt =====
-- Which job of the window is started (src/scheduler/scheduler.cpp, the main loop of `run_once`).
use yori.Common.{
  ◌≡◌, refl, sym, ap, subst, ◌∙◌, inl, inr, Option, none, some, List, [], ◌∷◌, ◌++◌, arith,
}
use mathlib.Core.List.{append_assoc, append-nil}
use yori.Common.{All, Option-cases, nat_eq}
use yori.Common.Map.{find}
use yori.Gpu.Provider.{GpuObservation, GpuObservationSnapshot}
use yori.Store.Types.{StoredJob, StateSnapshot}
use yori.Queue.Types.{QueueEntry}
use yori.Scheduler.Select.{GpuSelectionReason, select_for}
use yori.Scheduler.Types.{ScheduleSkip}
use yori.Scheduler.Queued.{RecordMap}
use yori.Scheduler.RunOnce.{selected, skip_for, scan_window}

some_same : {A : Type 0} {x y : A} → some x ≡ some y → x ≡ y
some_same h = cc

selected-eq :
    {r s : StoredJob} {d e : GpuObservation} {why why' : GpuSelectionReason}
    {xs ys : List ScheduleSkip}
    → selected r d why xs ≡ selected s e why' ys
    → (r ≡ s) × (d ≡ e) × (why ≡ why') × (xs ≡ ys)
selected-eq h = (cc, cc, cc, cc)

module _ (gpus : GpuObservationSnapshot) (state : StateSnapshot) (records : RecordMap)
    (any_choice : Option GpuObservation × GpuSelectionReason) where
  abbrev pub choice_for : StoredJob → Option GpuObservation × GpuSelectionReason
  choice_for r =
      select_for gpus.devices state.leases any_choice r.spec.gpu_placement.mode
        r.spec.gpu_placement.devices

  -- The entry has a record, and there is no device for it.
  abbrev pub IsBlocked : QueueEntry → Type 0
  IsBlocked e = (r : StoredJob) → find e.job_id records ≡ some r → (choice_for r).0 ≡ none

  -- The skips of entries that have records.
  pub skips : List QueueEntry → List ScheduleSkip
  skips [] = []
  skips (e ∷ es) = elim (find e.job_id records) [
    | none ↦ skips es
    | some r ↦ skip_for gpus state e r ∷ skips es
  ]

  -- The started job is the first of the window with a device; those before it are blocked, and are
  -- reported in order.
  pub record IsFirst (window : List QueueEntry) (r : StoredJob) (device : GpuObservation)
      (reason : GpuSelectionReason) : Type 0 where
    pub before : List QueueEntry
    pub entry : QueueEntry
    pub after : List QueueEntry
    pub split : window ≡ before ++ entry ∷ after
    pub recorded : find entry.job_id records ≡ some r
    pub chosen : (choice_for r).0 ≡ some device
    pub explained : (choice_for r).1 ≡ reason
    pub blocked : All IsBlocked before

  missing_lem :
      (e : QueueEntry) (es : List QueueEntry) (skipped : List ScheduleSkip)
      → find e.job_id records ≡ none
      → (scan_window gpus state records any_choice (e ∷ es) skipped
          ≡ scan_window gpus state records any_choice es skipped)
        × (skips (e ∷ es) ≡ skips es)
  unfolding scan_window skips
  missing_lem e es skipped missing = (rw (missing, scan_window), rw (missing, skips))

  blocked_lem :
      (e : QueueEntry) (es : List QueueEntry) (skipped : List ScheduleSkip) (s : StoredJob)
      → find e.job_id records ≡ some s
      → (choice_for s).0 ≡ none
      → (scan_window gpus state records any_choice (e ∷ es) skipped
          ≡ scan_window gpus state records any_choice es (skipped ++ skip_for gpus state e s ∷ []))
        × (skips (e ∷ es) ≡ skip_for gpus state e s ∷ skips es)
  unfolding scan_window skips
  blocked_lem e es skipped s f nothing = (ground arith, rw (f, skips))

  selected_lem :
      (e : QueueEntry) (es : List QueueEntry) (skipped : List ScheduleSkip) (s : StoredJob)
      (d : GpuObservation)
      → find e.job_id records ≡ some s
      → (choice_for s).0 ≡ some d
      → scan_window gpus state records any_choice (e ∷ es) skipped
        ≡ selected s d (choice_for s).1 skipped
  unfolding scan_window
  selected_lem e es skipped s d f c = ground arith

  behind :
      (e : QueueEntry) {es : List QueueEntry} {r : StoredJob} {device : GpuObservation}
      {reason : GpuSelectionReason}
      → IsBlocked e
      → IsFirst es r device reason
      → IsFirst (e ∷ es) r device reason
  behind e b v = record {
    before = e ∷ v.before;
    entry = v.entry;
    after = v.after;
    split = ap (λ xs. e ∷ xs) v.split;
    recorded = v.recorded;
    chosen = v.chosen;
    explained = v.explained;
    blocked = (b, v.blocked);
  }

  find-IsBlocked :
      (e : QueueEntry) (s : StoredJob)
      → find e.job_id records ≡ some s
      → (choice_for s).0 ≡ none
      → IsBlocked e
  find-IsBlocked e s f nothing t g =
      subst (λ x. (choice_for x).0 ≡ none) (some_same (sym f ∙ g)) nothing

  skipped_also :
      (e : QueueEntry) (before : List QueueEntry) (skipped : List ScheduleSkip) (s : StoredJob)
      → find e.job_id records ≡ some s
      → (skipped ++ skip_for gpus state e s ∷ []) ++ skips before ≡ skipped ++ skips (e ∷ before)
  unfolding skips
  skipped_also e before skipped s f =
      rw (f, skips) (append_assoc skipped (skip_for gpus state e s ∷ []) (skips before))

  -- Where the scan of a window selects a job, it is the first job of the window that has a device:
  -- the choice for it is that device with that reason, and every entry before it that has a record
  -- has no device. The skips reported are those given, followed by one for each such entry, in order.
  pub scan_window-selected :
      (window : List QueueEntry) (skipped : List ScheduleSkip) (r : StoredJob)
      (device : GpuObservation) (reason : GpuSelectionReason) (result : List ScheduleSkip)
      → scan_window gpus state records any_choice window skipped ≡ selected r device reason result
      → (v : IsFirst window r device reason) × (result ≡ skipped ++ skips v.before)
  unfolding scan_window skips behind
  scan_window-selected [] skipped r device reason result h = cc
  scan_window-selected (e ∷ es) skipped r device reason result h =
      elim (Option-cases (find e.job_id records)) [
        | inl missing ↦
            let (same, none_here) = missing_lem e es skipped missing in
            let (v, all) = scan_window-selected es skipped r device reason result (sym same ∙ h) in
            (
              behind e (λ s f. cc) v,
              all ∙ ap (λ xs. skipped ++ xs) (sym (missing_lem e v.before skipped missing).1),
            )
        | inr (s, f) ↦ elim (Option-cases (choice_for s).0) [
          | inl nothing ↦
              let (same, _) = blocked_lem e es skipped s f nothing in
              let (v, all) =
                scan_window-selected es (skipped ++ skip_for gpus state e s ∷ []) r device reason
                  result (sym same ∙ h) in
              (behind e (find-IsBlocked e s f nothing) v, all ∙ skipped_also e v.before skipped s f)
          | inr (d, c) ↦
              let (r_same, d_same, why, all) =
                selected-eq (sym (selected_lem e es skipped s d f c) ∙ h) in
              (
                record {
                  before = [];
                  entry = e;
                  after = es;
                  split = refl;
                  recorded = f ∙ ap (λ x. some x) r_same;
                  chosen = ap (λ x. (choice_for x).0) (sym r_same) ∙ c ∙ ap (λ x. some x) d_same;
                  explained = ap (λ x. (choice_for x).1) (sym r_same) ∙ why;
                  blocked = _;
                },
                sym all ∙ sym (append-nil skipped),
              )
        ]
      ]
