-- ===== src/Gpu/Observed.antt =====
-- What a snapshot that passes `gpu::validate` (src/gpu/gpu_provider.cpp) guarantees.

use yori.Common.{
  ℕ, ◌+◌, ◌≤◌, ◌≡◌, refl, ◌≢◌, ◌↔◌, true, false, List, [], ◌∷◌, ◌++◌, arith, All, length, ok, ltz,
  pos, list_beq_iff, nat_eq,
}
use yori.Gpu.Uuid.{IsUuid, uuid_valid_iff}
use yori.Gpu.Provider.{
  GpuObservation, GpuObservationSnapshot, max_devices, observation_ok, ObservationCheck,
  check_earlier, check_device, check_all, snapshot_checks, settle, validate, over_hundred,
  used_without_total, bad_total,
}

-- Neither the identity nor the index of one is that of the other.
abbrev pub Differ : GpuObservation → GpuObservation → Type 0
Differ a b = (a.uuid ≢ b.uuid) × (a.index ≢ b.index)

abbrev pub AllDiffer : List GpuObservation → Type 0
AllDiffer [] = Unit
AllDiffer (d ∷ ds) = All (λ e. Differ d e) ds × AllDiffer ds

pub record IsObservation (d : GpuObservation) : Type 0 where
  pub identified : IsUuid d.uuid
  pub utilization : over_hundred d.telemetry.utilization_percent ≡ false
  pub total_known :
      used_without_total d.telemetry.memory_used_bytes d.telemetry.memory_total_bytes ≡ false
  pub total_fits : bad_total d.telemetry.memory_used_bytes d.telemetry.memory_total_bytes ≡ false

pub record IsSnapshot (s : GpuObservationSnapshot) : Type 0 where
  pub revised : s.revision ≢ 0
  pub observed : ltz (pos 0) s.observed_at ≡ true
  pub bounded : length s.devices ≤ max_devices
  pub devices_valid : All IsObservation s.devices
  pub devices_differ : AllDiffer s.devices

check_device_iff :
    (d : GpuObservation) (index : ℕ) → (check_device d index ≡ ok tt) ↔ IsObservation d
unfolding check_device
check_device_iff d index = ground (arith, uuid_valid_iff d.uuid)

check_earlier_iff :
    (d : GpuObservation) (index : ℕ) (earlier : List GpuObservation)
    → (check_earlier d index earlier ≡ ok tt) ↔ All (λ e. Differ e d) earlier
unfolding check_earlier
check_earlier_iff d index [] = ((λ h. tt), (λ h. refl))
check_earlier_iff d index (e ∷ rest) =
    ground (arith, list_beq_iff e.uuid d.uuid, check_earlier_iff d index rest)

-- Every device differs from each of those before the list.
abbrev AllApart : List GpuObservation → List GpuObservation → Type 0
AllApart earlier ds = All (λ d. All (λ e. Differ e d) earlier) ds

AllApart-snoc :
    (earlier : List GpuObservation) (d : GpuObservation) (ds : List GpuObservation)
    → AllApart (earlier ++ d ∷ []) ds ↔ (AllApart earlier ds × All (λ e. Differ d e) ds)
AllApart-snoc earlier d [] = ((λ h. (tt, tt)), (λ h. tt))
AllApart-snoc earlier d (x ∷ ds) = ground (arith, AllApart-snoc earlier d ds, All-snoc earlier)
  where
    All-snoc :
        (es : List GpuObservation)
        → All (λ e. Differ e x) (es ++ d ∷ []) ↔ (All (λ e. Differ e x) es × Differ d x)
    All-snoc [] = ((λ h. (tt, h.0)), (λ h. (h.1, tt)))
    All-snoc (e ∷ es) = ground (arith, All-snoc es)

check_all_iff :
    (earlier ds : List GpuObservation) (index : ℕ)
    → (check_all earlier ds index ≡ ok tt)
      ↔ (All IsObservation ds × AllApart earlier ds × AllDiffer ds)
unfolding check_all
check_all_iff earlier [] index = ((λ h. (tt, tt, tt)), (λ h. refl))
check_all_iff earlier (d ∷ ds) index = ground (
  arith,
  check_device_iff d index,
  check_earlier_iff d index earlier,
  check_all_iff (earlier ++ d ∷ []) ds (index + 1),
  AllApart-snoc earlier d ds,
)

AllApart-nil : (ds : List GpuObservation) → AllApart [] ds
AllApart-nil [] = tt
AllApart-nil (d ∷ ds) = (tt, AllApart-nil ds)

snapshot_checks_iff : (s : GpuObservationSnapshot) → (snapshot_checks s ≡ ok tt) ↔ IsSnapshot s
unfolding snapshot_checks
snapshot_checks_iff s = ground (arith, check_all_iff [] s.devices 0, AllApart-nil s.devices)

abbrev IsHonest : ObservationCheck → Type 0
IsHonest m = observation_ok (settle m) ≡ true → m ≡ ok tt

check_device-IsHonest : (d : GpuObservation) (index : ℕ) → IsHonest (check_device d index)
unfolding check_device
check_device-IsHonest d index h = ground arith

check_earlier-IsHonest :
    (d : GpuObservation) (index : ℕ) (earlier : List GpuObservation)
    → IsHonest (check_earlier d index earlier)
unfolding check_earlier
check_earlier-IsHonest d index [] h = refl
check_earlier-IsHonest d index (e ∷ rest) h = ground (arith, check_earlier-IsHonest d index rest)

check_all-IsHonest :
    (earlier ds : List GpuObservation) (index : ℕ) → IsHonest (check_all earlier ds index)
unfolding check_all
check_all-IsHonest earlier [] index h = refl
check_all-IsHonest earlier (d ∷ ds) index h = ground (
  arith,
  check_device-IsHonest d index,
  check_earlier-IsHonest d index earlier,
  check_all-IsHonest (earlier ++ d ∷ []) ds (index + 1),
)

snapshot_checks-IsHonest : (s : GpuObservationSnapshot) → IsHonest (snapshot_checks s)
unfolding snapshot_checks
snapshot_checks-IsHonest s h = ground (arith, check_all-IsHonest [] s.devices 0)

-- `gpu::validate` accepts exactly the snapshots that `IsSnapshot` describes: with a revision and a
-- time, at most 128 devices, sound telemetry, and no identity or index twice.
pub validate-IsSnapshot_iff :
    (s : GpuObservationSnapshot) → (observation_ok (validate s) ≡ true) ↔ IsSnapshot s
unfolding validate
validate-IsSnapshot_iff s = (
  (λ h. (snapshot_checks_iff s).0 (snapshot_checks-IsHonest s h)),
  (λ v. rw ((snapshot_checks_iff s).1 v)),
)
