-- ===== src/Scheduler/Select.antt =====
-- The choice of a GPU for one job (src/scheduler/scheduler.cpp, the functions before `run_once`).
-- A pointer to an observation is its position with the observation; the null pointer is `none`.
use yori.Common.{
  ℕ, ◌+◌, Bool, true, false, not, ◌&&◌, ◌||◌, Option, none, some, List, [], ◌∷◌, ◌++◌,
}
use yori.Common.{any, head?, ltb, ◌==◌, nat_eq, list_eq, if◌then◌else◌}
use yori.Common.Map.{Map, find}
use yori.Gpu.Uuid.{GpuUuid}
use yori.Gpu.Provider.{GpuLease, GpuObservation, GpuObservedState}
use yori.Job.Spec.{JobId, GpuPlacement, GpuPlacementMode, any_gpu, required, preferred}
use yori.Store.Types.{StoredJob}
use yori.Queue.Types.{QueueEntry}

pub data WaitReason : Type 0 where
  no_reason no_free_gpu affinity_gpu_allocated affinity_gpu_external affinity_gpu_state : WaitReason

pub data GpuSelectionReason : Type 0 where
  default_choice avoid_required_affinity affinity_fallback preferred_fallback : GpuSelectionReason

abbrev pub is_free : GpuObservedState → Bool
is_free GpuObservedState.free = true
is_free _ = false

abbrev pub is_external_busy : GpuObservedState → Bool
is_external_busy GpuObservedState.external_busy = true
is_external_busy _ = false

unfoldable pub leased : List GpuLease → GpuUuid → Bool
leased leases uuid = any (λ lease. lease.gpu_uuid == uuid) leases

abbrev pub in_set : List GpuUuid → GpuUuid → Bool
in_set targets uuid = any (λ target. target == uuid) targets

abbrev pub required_devices : GpuPlacement → List GpuUuid
required_devices placement = elim placement.mode [ required ↦ placement.devices | _ ↦ [] ]

abbrev pub targets_of : Option StoredJob → List GpuUuid
targets_of none = []
targets_of (some r) = required_devices r.spec.gpu_placement

-- The devices that required jobs of the window wait for; a list stands for the set.
-- (`at` throws for an id that is not there, which `run_once` has excluded.)
unfoldable pub collect_affinity_targets : List QueueEntry → Map JobId StoredJob → List GpuUuid
collect_affinity_targets [] queued_records = []
collect_affinity_targets (e ∷ rest) queued_records =
    targets_of (find e.job_id queued_records) ++ collect_affinity_targets rest queued_records

abbrev pub Pointer : Type 0
Pointer = ℕ × GpuObservation

-- `p == nullptr || device.index < p->index`.
abbrev pub improves : Option Pointer → GpuObservation → Bool
improves none device = true
improves (some p) device = ltb device.index p.1.index

abbrev pub available : List GpuLease → GpuObservation → Bool
available leases device = is_free device.state && not (leased leases device.uuid)

-- The loop of `select_any_gpu`: `preferred` and `fallback` so far.
unfoldable pub scan_any :
    List GpuLease
    → List GpuUuid
    → List GpuObservation
    → ℕ
    → Option Pointer
    → Option Pointer
    → Option Pointer × Option Pointer
scan_any leases targets [] position best fallback = (best, fallback)
scan_any leases targets (device ∷ rest) position best fallback =
    let here : Option Pointer = some (position, device) in
    let usable = available leases device in
    scan_any leases targets rest (position + 1)
      (if usable && not (in_set targets device.uuid) && improves best device then here else best)
      (if usable && improves fallback device then here else fallback)

-- What `select_any_gpu` does with the two pointers.
unfoldable pub decide_any :
    Option Pointer × Option Pointer → Option GpuObservation × GpuSelectionReason
decide_any (some p, some f) =
    (some p.1, if p.0 == f.0 then default_choice else avoid_required_affinity)
decide_any (some p, none) = (some p.1, avoid_required_affinity)
decide_any (none, some f) = (some f.1, affinity_fallback)
decide_any (none, none) = (none, default_choice)

unfoldable pub select_any_gpu :
    List GpuObservation → List GpuLease → List GpuUuid → Option GpuObservation × GpuSelectionReason
unfolding scan_any decide_any
select_any_gpu devices leases targets = decide_any (scan_any leases targets devices 0 none none)

unfoldable pub find_device : List GpuObservation → GpuUuid → Option GpuObservation
find_device [] uuid = none
find_device (device ∷ rest) uuid =
    if device.uuid == uuid then some device else find_device rest uuid

abbrev pub closer : Option GpuObservation → GpuObservation → Bool
closer none device = true
closer (some d) device = ltb device.index d.index

-- One round of `select_required_gpu`.
abbrev pub consider :
    List GpuLease → GpuUuid → Option GpuObservation → Option GpuObservation → Option GpuObservation
consider leases uuid none selected = selected
consider leases uuid (some device) selected =
    if not (is_free device.state) || leased leases uuid
    then selected
    else if closer selected device
    then some device
    else selected

-- The loop of `select_required_gpu`.
unfoldable pub scan_required :
    List GpuObservation
    → List GpuLease
    → List GpuUuid
    → Option GpuObservation
    → Option GpuObservation
unfolding find_device
scan_required observed leases [] selected = selected
scan_required observed leases (uuid ∷ rest) selected =
    scan_required observed leases rest (consider leases uuid (find_device observed uuid) selected)

abbrev pub select_required_gpu :
    List GpuObservation → List GpuLease → List GpuUuid → Option GpuObservation
select_required_gpu observed leases devices = scan_required observed leases devices none

abbrev pub busy_outside : Option GpuObservation → Bool
busy_outside none = false
busy_outside (some device) = is_external_busy device.state

abbrev pub representative_of : Option GpuObservation → Option GpuObservation → Option GpuObservation
representative_of none representative = representative
representative_of (some device) representative =
    if closer representative device then some device else representative

abbrev pub uuid_of : Option GpuObservation → Option GpuUuid
uuid_of none = none
uuid_of (some device) = some device.uuid

-- The loop of `required_wait_reason`, and its verdict.
unfoldable pub scan_wait :
    List GpuObservation
    → List GpuLease
    → List GpuUuid
    → Bool
    → Bool
    → Option GpuObservation
    → WaitReason × Option GpuUuid
unfolding find_device
scan_wait observed leases [] any_leased any_external representative = (
  if any_leased
      then affinity_gpu_allocated
      else if any_external
      then affinity_gpu_external
      else affinity_gpu_state,
  uuid_of representative,
)
scan_wait observed leases (uuid ∷ rest) any_leased any_external representative =
    scan_wait observed leases rest (any_leased || leased leases uuid)
      (any_external || busy_outside (find_device observed uuid))
      (representative_of (find_device observed uuid) representative)

abbrev pub required_wait_reason :
    List GpuObservation → List GpuLease → List GpuUuid → WaitReason × Option GpuUuid
required_wait_reason observed leases devices = scan_wait observed leases devices false false none

-- The preferred device, if it is available. (`front()` of a preferred placement: validation has
-- given it one device.)
abbrev pub target_available :
    List GpuObservation → List GpuLease → Option GpuUuid → Option GpuObservation
target_available observed leases none = none
target_available observed leases (some target) = elim (find_device observed target) [
  | none ↦ none
  | some device ↦ if is_free device.state && not (leased leases target) then some device else none
]

-- The branches of the main loop that set `selected` and `selection_reason`.
unfoldable pub select_for :
    List GpuObservation
    → List GpuLease
    → Option GpuObservation × GpuSelectionReason
    → GpuPlacementMode
    → List GpuUuid
    → Option GpuObservation × GpuSelectionReason
select_for observed leases any_choice required devices =
    (select_required_gpu observed leases devices, default_choice)
select_for observed leases (any_candidate, any_reason) preferred devices =
    elim (target_available observed leases (head? devices)) [
      | some device ↦ (some device, default_choice)
      | none ↦ elim any_candidate [
        | some device ↦ (some device, preferred_fallback)
        | none ↦ (none, default_choice)
      ]
    ]
select_for observed leases any_choice any_gpu devices = any_choice
