-- ===== src/Service/Inspect.antt =====
-- `handle_inspect` (src/ipc/ipc_service.cpp).
pub mod Masks
pub mod Sensitive
use yori.Common.{
  ℕ, ◌+◌, Bool, true, false, not, ◌||◌, ◌&&◌, leb, Option, none, some, List, [], ◌∷◌, map,
}
use yori.Common.{
  Text, Result, ok, err, text, any, contains_text, head?, ◌==◌, nat_eq, list_eq, if◌then◌else◌,
  ◌>>=◌,
}
use yori.Gpu.Uuid.{GpuUuid}
use yori.Gpu.Provider.{GpuObservation, GpuObservationSnapshot, GpuLease}
use yori.Job.Spec.{
  JobId, EnvSource, EnvMetadata, GpuPlacement, GpuPlacementMode, no_source, conda, venv, any_gpu,
  required, preferred,
}
use yori.Store.Types.{StoredJob}
use yori.Ipc.Wire.{protocol_version}
use yori.Ipc.Kind.{IpcRequestKind}
use yori.Ipc.Exit.{IpcEnvMetadata}
use yori.Ipc.Inspect.{IpcEnvEntry, IpcInspectPayload}
use yori.Ipc.Response.{IpcResponse, IpcError, blank}
use yori.Service.{
  PeerCredentials, IpcService, IpcServiceConfig, find_record, authorize, job_state_wire, unix_ns,
  exit_of, settle,
}

abbrev pub lower : ℕ → ℕ
lower c = if leb b'A' c && leb c b'Z' then c + 32 else c

abbrev pub to_lower_ascii : Text → Text
to_lower_ascii t = map lower t

unfoldable pub is_sensitive_env_name : IpcServiceConfig → Text → Bool
is_sensitive_env_name config name =
    any (λ pattern. contains_text (to_lower_ascii pattern) (to_lower_ascii name))
      config.sensitive_env_patterns

abbrev pub stars : Text
stars = text "***"

-- The name is shown, the value of a sensitive one is not.
abbrev pub env_entry : IpcServiceConfig → Text × Text → IpcEnvEntry
env_entry config (name, value) =
    let masked = is_sensitive_env_name config name in
    record { name = name; masked = masked; value = if masked then stars else value }

abbrev pub source_wire : EnvSource → ℕ
source_wire no_source = 0
source_wire conda = 1
source_wire venv = 2

abbrev pub metadata_wire : Option EnvMetadata → Option IpcEnvMetadata
metadata_wire none = none
metadata_wire (some m) =
    some (record { source = source_wire m.source; python_version = m.python_version })

abbrev pub mode_wire : GpuPlacementMode → ℕ
mode_wire any_gpu = 0
mode_wire required = 1
mode_wire preferred = 2

-- The device of the first lease of a job.
unfoldable pub device_leased : List GpuLease → JobId → Option GpuUuid
device_leased [] id = none
device_leased (lease ∷ rest) id =
    if lease.job_id == id then some lease.gpu_uuid else device_leased rest id

unfoldable pub find_uuid : GpuUuid → List GpuObservation → Option ℕ
find_uuid uuid [] = none
find_uuid uuid (device ∷ rest) =
    if device.uuid == uuid then some device.index else find_uuid uuid rest

-- Its index, if there is an observation that has it.
abbrev pub index_of : Option GpuUuid → Option GpuObservationSnapshot → Option ℕ
index_of (some uuid) (some snapshot) = find_uuid uuid snapshot.devices
index_of _ _ = none

abbrev pub all_devices : GpuPlacement → List GpuUuid
all_devices placement = elim placement.mode [ required ↦ placement.devices | _ ↦ [] ]

-- `devices.front()`, of which a specification that validates has one.
abbrev pub first_device : GpuPlacement → Option GpuUuid
first_device placement = elim placement.mode [ any_gpu ↦ none | _ ↦ head? placement.devices ]

unfoldable pub payload_of : IpcService → StoredJob → IpcInspectPayload
payload_of service r = record {
  job_id = r.id;
  state = job_state_wire r.state;
  owner_uid = r.spec.owner_uid;
  revision = r.revision;
  cwd = r.spec.cwd;
  executable = r.spec.executable;
  argv = r.spec.argv;
  env_metadata = metadata_wire r.spec.env_metadata;
  env = map (env_entry service.config) r.spec.env;
  gpu_uuid = device_leased service.load.snapshot.leases r.id;
  gpu_index = index_of (device_leased service.load.snapshot.leases r.id) service.gpu_source;
  gpu_placement_mode = mode_wire r.spec.gpu_placement.mode;
  gpu_placement_device = first_device r.spec.gpu_placement;
  gpu_placement_devices = all_devices r.spec.gpu_placement;
  submit_time_unix_ns = unix_ns r.spec.submit_time;
  exit = exit_of r.execution.exit;
  log_path = r.execution.log_path;
}

unfoldable pub handle_inspect : IpcService → PeerCredentials → ℕ → IpcResponse
handle_inspect service peer job_id = settle (do
  r ← find_record service IpcRequestKind.inspect job_id
  owned ← authorize service peer IpcRequestKind.inspect r
  ok (record (blank protocol_version IpcRequestKind.inspect IpcError.no_error []) {
    inspect = payload_of service owned;
  }))
