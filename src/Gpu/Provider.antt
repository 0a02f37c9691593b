-- ===== src/Gpu/Provider.antt =====
-- GPU observations and leases (include/yori/gpu/gpu_provider.hpp, src/gpu/gpu_provider.cpp).
use yori.Common.{ℕ, ◌+◌, Bool, true, false, not, ◌||◌, Option, none, some, List, [], ◌∷◌, ◌++◌}
use yori.Common.{ℤ, pos, ltz, length, ltb, ◌==◌, nat_eq, list_eq, Result, ok, err, fail_if, ◌>>◌}
use yori.Gpu.Uuid.{GpuUuid, uuid_valid}

pub data GpuObservedState : Type 0 where
  free external_busy unavailable : GpuObservedState

pub data GpuLogicalState : Type 0 where
  free allocated external_busy unavailable : GpuLogicalState

pub record GpuTelemetry : Type 0 where
  pub utilization_percent : Option ℕ
  pub memory_total_bytes : Option ℕ
  pub memory_used_bytes : Option ℕ

pub record GpuObservation : Type 0 where
  pub uuid : GpuUuid
  pub index : ℕ
  pub state : GpuObservedState
  pub telemetry : GpuTelemetry

abbrev pub max_devices : ℕ
max_devices = 128

pub record GpuObservationSnapshot : Type 0 where
  pub revision : ℕ
  pub observed_at : ℤ
  pub devices : List GpuObservation

pub record GpuLease : Type 0 where
  pub gpu_uuid : GpuUuid
  pub job_id : ℕ

pub data GpuObservationErrorCode : Type 0 where
  no_error invalid_revision invalid_observation_time too_many_devices : GpuObservationErrorCode
  invalid_uuid duplicate_uuid duplicate_index invalid_state : GpuObservationErrorCode
  invalid_utilization invalid_memory_telemetry : GpuObservationErrorCode

pub record GpuObservationValidationResult : Type 0 where
  pub code : GpuObservationErrorCode
  pub item_index : Option ℕ

abbrev pub observation_ok : GpuObservationValidationResult → Bool
observation_ok r = elim r.code [ no_error ↦ true | _ ↦ false ]

abbrev pub ObservationCheck : Type 0
ObservationCheck = Result GpuObservationValidationResult (Unit {0})

abbrev pub whole : GpuObservationErrorCode → GpuObservationValidationResult
whole code = record { code = code; item_index = none }

abbrev pub at_device : GpuObservationErrorCode → ℕ → GpuObservationValidationResult
at_device code index = record { code = code; item_index = some index }

abbrev pub known_state : GpuObservedState → Bool
known_state free = true
known_state external_busy = true
known_state unavailable = true

abbrev pub over_hundred : Option ℕ → Bool
over_hundred none = false
over_hundred (some percent) = ltb 100 percent

-- `memory_used_bytes && !memory_total_bytes`, then the test of the total.
abbrev pub used_without_total : Option ℕ → Option ℕ → Bool
used_without_total (some used) none = true
used_without_total _ _ = false

abbrev pub bad_total : Option ℕ → Option ℕ → Bool
bad_total used none = false
bad_total none (some total) = total == 0
bad_total (some used) (some total) = total == 0 || ltb total used

-- The inner loop: `earlier` holds the devices before this one, in order.
unfoldable pub check_earlier : GpuObservation → ℕ → List GpuObservation → ObservationCheck
check_earlier device index [] = ok tt
check_earlier device index (e ∷ rest) = do
  fail_if (e.uuid == device.uuid) (at_device duplicate_uuid index)
  fail_if (e.index == device.index) (at_device duplicate_index index)
  check_earlier device index rest

unfoldable pub check_device : GpuObservation → ℕ → ObservationCheck
check_device device index = do
  fail_if (not (uuid_valid device.uuid)) (at_device invalid_uuid index)
  fail_if (not (known_state device.state)) (at_device invalid_state index)
  fail_if (over_hundred device.telemetry.utilization_percent) (at_device invalid_utilization index)
  fail_if
      (used_without_total device.telemetry.memory_used_bytes device.telemetry.memory_total_bytes)
      (at_device invalid_memory_telemetry index)
  fail_if (bad_total device.telemetry.memory_used_bytes device.telemetry.memory_total_bytes)
      (at_device invalid_memory_telemetry index)

-- The outer loop; `earlier` lists the devices before `index`.
unfoldable pub check_all : List GpuObservation → List GpuObservation → ℕ → ObservationCheck
check_all earlier [] index = ok tt
check_all earlier (device ∷ rest) index = do
  check_device device index
  check_earlier device index earlier
  check_all (earlier ++ device ∷ []) rest (index + 1)

unfoldable pub snapshot_checks : GpuObservationSnapshot → ObservationCheck
snapshot_checks snapshot = do
  fail_if (snapshot.revision == 0) (whole invalid_revision)
  fail_if (not (ltz (pos 0) snapshot.observed_at)) (whole invalid_observation_time)
  fail_if (ltb max_devices (length snapshot.devices)) (whole too_many_devices)
  check_all [] snapshot.devices 0

abbrev pub settle : ObservationCheck → GpuObservationValidationResult
settle (ok _) = whole no_error
settle (err result) = result

unfoldable pub validate : GpuObservationSnapshot → GpuObservationValidationResult
validate snapshot = settle (snapshot_checks snapshot)

-- A lease outranks what is observed.
unfoldable pub derive_logical_state : GpuObservedState → Bool → GpuLogicalState
derive_logical_state observed true = GpuLogicalState.allocated
derive_logical_state free false = GpuLogicalState.free
derive_logical_state external_busy false = GpuLogicalState.external_busy
derive_logical_state unavailable false = GpuLogicalState.unavailable
