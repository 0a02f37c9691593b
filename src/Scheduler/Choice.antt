-- ===== src/Scheduler/Choice.antt =====
-- What the choice of a GPU guarantees (src/scheduler/scheduler.cpp, `select_any_gpu`,
-- `select_required_gpu` and the branches of the main loop).
use yori.Common.{
  ℕ, ◌+◌, ◌≤◌, ◌≡◌, refl, ap, subst, ◌≢◌, ◌⊎◌, inl, inr, Bool, true, false, not, ◌&&◌, Option, none,
  some, List, [], ◌∷◌, arith,
}
use yori.Common.{All, All-map, head?, nat_eq, list_eq, if◌then◌else◌, Bool-cases, Option-cases}
use yori.Gpu.Uuid.{GpuUuid}
use yori.Gpu.Provider.{GpuLease, GpuObservation}
use yori.Job.Spec.{GpuPlacementMode, any_gpu, required, preferred}
use yori.Scheduler.Select.{
  in_set, Pointer, improves, available, scan_any, decide_any, select_any_gpu, target_available,
  select_for,
}
use yori.Scheduler.Required.{
  Among, can_use, scan_required-some, scan_required-none, target_available-some,
}

-- The least index among the devices that pass a test, as both pointers of `select_any_gpu` are
-- computed.
best_of : (GpuObservation → Bool) → List GpuObservation → ℕ → Option Pointer → Option Pointer
best_of p [] position acc = acc
best_of p (d ∷ ds) position acc =
    best_of p ds (position + 1) (if p d && improves acc d then some (position, d) else acc)

scan_any_lem :
    (leases : List GpuLease) (targets : List GpuUuid) (ds : List GpuObservation) (position : ℕ)
    (best fallback : Option Pointer)
    → scan_any leases targets ds position best fallback ≡ (
      best_of (λ d. available leases d && not (in_set targets d.uuid)) ds position best,
      best_of (available leases) ds position fallback,
    )
unfolding scan_any best_of
scan_any_lem leases targets [] position best fallback = refl
scan_any_lem leases targets (d ∷ ds) position best fallback =
    scan_any_lem leases targets ds (position + 1) _ _

-- The first device that passes, of those with the least index.
record IsBest (p : GpuObservation → Bool) (ds : List GpuObservation) (acc : Option Pointer)
    (x : Pointer) : Type 0 where
  found : (acc ≡ some x) ⊎ (Among x.1 ds × (p x.1 ≡ true))
  least : All (λ d. p d ≡ true → x.1.index ≤ d.index) ds
  kept : (y : Pointer) → acc ≡ some y → x.1.index ≤ y.1.index

best_of-some :
    (p : GpuObservation → Bool) (ds : List GpuObservation) (position : ℕ) (acc : Option Pointer)
    (x : Pointer)
    → best_of p ds position acc ≡ some x
    → IsBest p ds acc x
unfolding best_of
best_of-some p [] position acc x h = record {
  found = inl h;
  least = tt;
  kept = λ y e. ground arith;
}
best_of-some p (d ∷ ds) position acc x h = elim (Bool-cases (p d && improves acc d)) [
  | inl better ↦
      let rest = best_of-some p ds (position + 1) (some (position, d)) x (rw better at h) in
      let near = rest.kept (position, d) refl in
      record {
        found = ground (arith, rest.found);
        least = ((λ _. near), rest.least);
        kept = λ y e. ground arith;
      }
  | inr worse ↦
      let rest = best_of-some p ds (position + 1) acc x (rw worse at h) in
      record {
        found = ground (arith, rest.found);
        least = ((λ passes. least_head acc d x rest.kept (ground arith)), rest.least);
        kept = rest.kept;
      }
]
  where
    least_head :
        (acc : Option Pointer) (d : GpuObservation) (x : Pointer)
        → ((y : Pointer) → acc ≡ some y → x.1.index ≤ y.1.index)
        → improves acc d ≡ false
        → x.1.index ≤ d.index
    least_head none d x kept h = absurd (ground arith)
    least_head (some y) d x kept h = ground (arith, kept y refl)

best_of-none :
    (p : GpuObservation → Bool) (ds : List GpuObservation) (position : ℕ) (acc : Option Pointer)
    → best_of p ds position acc ≡ none
    → (acc ≡ none) × All (λ d. p d ≡ false) ds
unfolding best_of
best_of-none p [] position acc h = (h, tt)
best_of-none p (d ∷ ds) position acc h =
    let rest =
      best_of-none p ds (position + 1) (if p d && improves acc d then some (position, d) else acc)
        h in
    ground (arith, rest)

-- The choice for a job without a target: a protected device only if every available one is
-- protected, and of the candidates that leaves, one of least index.
pub record IsAnyChoice (ds : List GpuObservation) (leases : List GpuLease) (targets : List GpuUuid)
    (device : GpuObservation) : Type 0 where
  pub observed : Among device ds
  pub usable : available leases device ≡ true
  pub protection :
      (in_set targets device.uuid ≡ false)
      ⊎ All (λ d. available leases d ≡ true → in_set targets d.uuid ≡ true) ds
  pub least :
      All
        (λ d.
          available leases d ≡ true
          → in_set targets d.uuid ≡ in_set targets device.uuid
          → device.index ≤ d.index)
        ds

select_any_gpu_lem :
    (ds : List GpuObservation) (leases : List GpuLease) (targets : List GpuUuid)
    → select_any_gpu ds leases targets
      ≡ decide_any (
        best_of (λ d. available leases d && not (in_set targets d.uuid)) ds 0 none,
        best_of (available leases) ds 0 none,
      )
unfolding select_any_gpu
select_any_gpu_lem ds leases targets = ap decide_any (scan_any_lem leases targets ds 0 none none)

decided :
    (p : Pointer) (fallback : Option Pointer) (device : GpuObservation)
    → (decide_any (some p, fallback)).0 ≡ some device
    → p.1 ≡ device
unfolding decide_any
decided p none device h = ground arith
decided p (some f) device h = ground arith

found_in : {P : Type 0} (x : Pointer) → ((◌≡◌ {A = Option Pointer} none (some x)) ⊎ P) → P
found_in x (inl e) = cc
found_in x (inr h) = h

-- The device chosen for a job without a target is observed, free and unleased; it is protected only
-- if every available device is, and among those with its protection it has the least index.
pub select_any_gpu-IsAnyChoice :
    (ds : List GpuObservation) (leases : List GpuLease) (targets : List GpuUuid)
    (device : GpuObservation)
    → (select_any_gpu ds leases targets).0 ≡ some device
    → IsAnyChoice ds leases targets device
unfolding decide_any
select_any_gpu-IsAnyChoice ds leases targets device h =
    choose (best_of (λ d. available leases d && not (in_set targets d.uuid)) ds 0 none)
      (best_of (available leases) ds 0 none) refl refl
      (rw (select_any_gpu_lem ds leases targets) at h)
  where
    choose :
        (best fallback : Option Pointer)
        → best_of (λ d. available leases d && not (in_set targets d.uuid)) ds 0 none ≡ best
        → best_of (available leases) ds 0 none ≡ fallback
        → (decide_any (best, fallback)).0 ≡ some device
        → IsAnyChoice ds leases targets device
    choose (some p) fallback b f h =
        let v = best_of-some _ ds 0 none p b in
        let same : p.1 ≡ device = decided p fallback device h in
        let (there, passes) = found_in p v.found in
        subst (IsAnyChoice ds leases targets) same (record {
          observed = there;
          usable = ground arith;
          protection = inl (ground arith);
          least = All-map _ _ ds (λ d near a e. near (ground arith)) v.least;
        })
    choose none (some p) b f h =
        let v = best_of-some _ ds 0 none p f in
        let same : p.1 ≡ device = ground arith in
        let (there, passes) = found_in p v.found in
        let guarded = (best_of-none _ ds 0 none b).1 in
        subst (IsAnyChoice ds leases targets) same (record {
          observed = there;
          usable = passes;
          protection = inr (All-map _ _ ds (λ d unfit a. ground arith) guarded);
          least = All-map _ _ ds (λ d near a e. near a) v.least;
        })
    choose none none b f h = absurd (ground arith)

-- No device is chosen only if none is available.
pub select_any_gpu-none :
    (ds : List GpuObservation) (leases : List GpuLease) (targets : List GpuUuid)
    → (select_any_gpu ds leases targets).0 ≡ none
    → All (λ d. available leases d ≡ false) ds
unfolding decide_any
select_any_gpu-none ds leases targets h =
    elim (Option-cases (best_of (available leases) ds 0 none)) [
      | inl e ↦ (best_of-none (available leases) ds 0 none e).1
      | inr (p, e) ↦ let g = rw (select_any_gpu_lem ds leases targets, e) at h in ground arith
    ]

-- Whatever the placement: a device is chosen from the snapshot, free and not leased, and for a
-- required placement from its set.
pub select_for_sound :
    (ds : List GpuObservation) (leases : List GpuLease) (targets : List GpuUuid)
    (mode : GpuPlacementMode) (devices : List GpuUuid) (device : GpuObservation)
    → (select_for ds leases (select_any_gpu ds leases targets) mode devices).0 ≡ some device
    → Among device ds
      × (available leases device ≡ true)
      × (mode ≡ required → Among device.uuid devices)
unfolding select_for
select_for_sound ds leases targets required devices device h =
    elim (scan_required-some ds leases devices none device h) [
      | inl e ↦ absurd (ground arith)
      | inr v ↦ (v.observed, v.usable, λ _. v.member)
    ]
select_for_sound ds leases targets preferred devices device h =
    elim (Option-cases (target_available ds leases (head? devices))) [
      | inr (d, e) ↦
          let same : d ≡ device = ground arith in
          let (there, usable, _) = target_available-some ds leases (head? devices) d e in
          (subst (λ x. Among x ds) same there, ground arith, λ r. cc)
      | inl e ↦
          let v = select_any_gpu-IsAnyChoice ds leases targets device (ground arith) in
          (v.observed, v.usable, λ r. cc)
    ]
select_for_sound ds leases targets any_gpu devices device h =
    let v = select_any_gpu-IsAnyChoice ds leases targets device h in (v.observed, v.usable, λ e. cc)

-- A job is passed over only if nothing it may use is available: no member of its set, if it is
-- required, and no device at all otherwise.
pub select_for_complete :
    (ds : List GpuObservation) (leases : List GpuLease) (targets : List GpuUuid)
    (mode : GpuPlacementMode) (devices : List GpuUuid)
    → (select_for ds leases (select_any_gpu ds leases targets) mode devices).0 ≡ none
    → (mode ≡ required → All (λ uuid. can_use ds leases uuid ≡ false) devices)
      × (mode ≢ required → All (λ d. available leases d ≡ false) ds)
unfolding select_for
select_for_complete ds leases targets required devices h =
    ((λ _. (scan_required-none ds leases devices none h).1), (λ ne. absurd (ne refl)))
select_for_complete ds leases targets preferred devices h =
    ((λ e. cc), (λ _. select_any_gpu-none ds leases targets (ground arith)))
select_for_complete ds leases targets any_gpu devices h =
    ((λ e. cc), (λ _. select_any_gpu-none ds leases targets h))
