-- ===== src/Gpu/Names.antt =====
-- The printed names of the states and codes of the devices (src/gpu/gpu_provider.cpp).
use Prim.Native.String.{String}
use yori.Gpu.Provider.{GpuObservedState, GpuLogicalState, GpuObservationErrorCode}

-- `to_string(GpuObservedState)`.
unfoldable pub gpu_observed_state_to_string : GpuObservedState → String
gpu_observed_state_to_string GpuObservedState.free = "FREE"
gpu_observed_state_to_string GpuObservedState.external_busy = "EXTERNAL_BUSY"
gpu_observed_state_to_string GpuObservedState.unavailable = "UNAVAILABLE"

-- `to_string(GpuLogicalState)`.
unfoldable pub gpu_logical_state_to_string : GpuLogicalState → String
gpu_logical_state_to_string GpuLogicalState.free = "FREE"
gpu_logical_state_to_string GpuLogicalState.allocated = "ALLOCATED"
gpu_logical_state_to_string GpuLogicalState.external_busy = "EXTERNAL_BUSY"
gpu_logical_state_to_string GpuLogicalState.unavailable = "UNAVAILABLE"

-- `to_string(GpuObservationErrorCode)`.
unfoldable pub gpu_observation_error_code_to_string : GpuObservationErrorCode → String
gpu_observation_error_code_to_string GpuObservationErrorCode.no_error = "NONE"
gpu_observation_error_code_to_string GpuObservationErrorCode.invalid_revision = "INVALID_REVISION"
gpu_observation_error_code_to_string GpuObservationErrorCode.invalid_observation_time =
    "INVALID_OBSERVATION_TIME"
gpu_observation_error_code_to_string GpuObservationErrorCode.too_many_devices = "TOO_MANY_DEVICES"
gpu_observation_error_code_to_string GpuObservationErrorCode.invalid_uuid = "INVALID_UUID"
gpu_observation_error_code_to_string GpuObservationErrorCode.duplicate_uuid = "DUPLICATE_UUID"
gpu_observation_error_code_to_string GpuObservationErrorCode.duplicate_index = "DUPLICATE_INDEX"
gpu_observation_error_code_to_string GpuObservationErrorCode.invalid_state = "INVALID_STATE"
gpu_observation_error_code_to_string GpuObservationErrorCode.invalid_utilization =
    "INVALID_UTILIZATION"
gpu_observation_error_code_to_string GpuObservationErrorCode.invalid_memory_telemetry =
    "INVALID_MEMORY_TELEMETRY"
