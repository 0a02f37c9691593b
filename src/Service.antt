-- ===== src/Service.antt =====
-- The requests of clients (include/yori/ipc/ipc_service.hpp, src/ipc/ipc_service.cpp). What the
-- sources of the service return while it handles one request is in the record `IpcService`: each
-- handler asks each of them once at most.
pub mod Control
pub mod Placement
pub mod Submit
pub mod Lists
pub mod Records
pub mod Inspect
pub mod Handle
use yori.Common.{
  ℕ, ◌-◌, ◌*◌, ◌%◌, ◌^◌, ℤ, pos, negsuc, Bool, true, false, not, ◌&&◌, ◌||◌, Option, none, some,
  List, [], ◌∷◌,
}
use yori.Common.{
  Text, Result, ok, err, text, any, empty, contains_nul, length, ltb, ◌==◌, nat_eq, if◌then◌else◌,
}
use yori.Gpu.Provider.{GpuObservationSnapshot, GpuObservedState, GpuLogicalState}
use yori.Job.Spec.{JobId, JobSpec}
use yori.Job.State.{
  JobState, queued, starting, running, stopping, finished, failed, cancelled, lost,
}
use yori.Process.{ExitStatus, exited}
use yori.Store.Types.{StoredJob, StateStoreLoadResult, store_ok}
use yori.Store.Names.{state_store_error_code_to_string}
use yori.Scheduler.Types.{ScheduleEvaluation}
use yori.Scheduler.Select.{
  WaitReason, no_reason, no_free_gpu, affinity_gpu_allocated, affinity_gpu_external,
  affinity_gpu_state,
}
use yori.Ipc.Wire.{Bytes, protocol_version, max_list_items}
use yori.Ipc.Kind.{IpcRequestKind}
use yori.Ipc.Exit.{IpcExitStatus}
use yori.Ipc.Response.{IpcResponse, IpcError, denied, not_found, store_failed, blank}

pub record PeerCredentials : Type 0 where
  pub uid : ℕ
  pub gid : ℕ
  pub pid : ℕ

pub record IpcServiceConfig : Type 0 where
  pub admin_gids : List ℕ
  pub admin_uids : List ℕ
  pub max_listed_jobs : ℕ
  pub max_log_tail_bytes : ℕ
  pub sensitive_env_patterns : List Text

abbrev pub max_log_tail : ℕ
max_log_tail = 256 * 1024

-- `IpcServiceConfig::valid`.
unfoldable pub config_valid : IpcServiceConfig → Bool
config_valid config =
    not (
      config.max_listed_jobs == 0
      || ltb max_list_items config.max_listed_jobs
      || config.max_log_tail_bytes == 0
      || ltb max_log_tail config.max_log_tail_bytes)
    && not (ltb 64 (length config.sensitive_env_patterns))
    && not (
        any (λ pattern. empty pattern || ltb 64 (length pattern) || contains_nul pattern)
          config.sensitive_env_patterns)

pub record LogTailResult : Type 0 where
  pub succeeded : Bool
  pub truncated : Bool
  pub tail : Bytes

pub record IpcService : Type 0 where
  pub config : IpcServiceConfig
  pub load : StateStoreLoadResult
  pub gpu_source : Option GpuObservationSnapshot
  pub read_tail : Text → ℕ → LogTailResult
  pub schedule_source : Option ScheduleEvaluation
  pub now : ℤ

unfoldable pub is_admin : IpcServiceConfig → PeerCredentials → Bool
is_admin config peer =
    any (λ gid. peer.gid == gid) config.admin_gids || any (λ uid. peer.uid == uid) config.admin_uids

-- `error_response`; a response has the current version until the transport sets the request's.
abbrev pub error_response : IpcRequestKind → IpcError → Text → IpcResponse
error_response kind error detail = blank protocol_version kind error detail

-- `job_state_wire`, `gpu_observed_wire`, `gpu_logical_wire` and the byte of a reason.
abbrev pub job_state_wire : JobState → ℕ
job_state_wire queued = 0
job_state_wire starting = 1
job_state_wire running = 2
job_state_wire stopping = 3
job_state_wire finished = 4
job_state_wire failed = 5
job_state_wire cancelled = 6
job_state_wire lost = 7

abbrev pub gpu_observed_wire : GpuObservedState → ℕ
gpu_observed_wire GpuObservedState.free = 0
gpu_observed_wire GpuObservedState.external_busy = 1
gpu_observed_wire GpuObservedState.unavailable = 2

abbrev pub gpu_logical_wire : GpuLogicalState → ℕ
gpu_logical_wire GpuLogicalState.free = 0
gpu_logical_wire GpuLogicalState.allocated = 1
gpu_logical_wire GpuLogicalState.external_busy = 2
gpu_logical_wire GpuLogicalState.unavailable = 3

abbrev pub wait_reason_wire : WaitReason → ℕ
wait_reason_wire no_reason = 0
wait_reason_wire no_free_gpu = 1
wait_reason_wire affinity_gpu_allocated = 2
wait_reason_wire affinity_gpu_external = 3
wait_reason_wire affinity_gpu_state = 4

-- `unix_ns`: the cast to `std::uint64_t` wraps.
abbrev pub unix_ns : ℤ → ℕ
unix_ns (pos n) = n % 2 ^ 64
unix_ns (negsuc n) = 2 ^ 64 - 1 - n % 2 ^ 64

abbrev pub exit_of : Option ExitStatus → Option IpcExitStatus
exit_of none = none
exit_of (some status) = elim status.reason [
  | exited ↦ some (record { exited_normally = true; code = status.exit_code })
  | _ ↦ some (record { exited_normally = false; code = status.signal_number })
]

unfoldable pub find_job : List StoredJob → JobId → Option StoredJob
find_job [] id = none
find_job (r ∷ rest) id = if r.id == id then some r else find_job rest id

-- `record->spec.owner_uid != peer.uid && !is_admin(peer)`.
abbrev pub is_denied : IpcService → PeerCredentials → StoredJob → Bool
is_denied service peer r = not (r.spec.owner_uid == peer.uid) && not (is_admin service.config peer)

abbrev pub load_failure : IpcService → IpcRequestKind → IpcResponse
load_failure service kind =
    error_response kind store_failed (text (state_store_error_code_to_string service.load.code))

-- How every handler of one job begins: the load, the search, the record.
unfoldable pub find_record : IpcService → IpcRequestKind → ℕ → Result IpcResponse StoredJob
find_record service kind job_id =
    if not (store_ok service.load.code)
    then err (load_failure service kind)
    else elim (find_job service.load.snapshot.jobs job_id) [
      | none ↦ err (error_response kind not_found (text "job not found"))
      | some r ↦ ok r
    ]

-- And how those go on that only the owner and administrators may call.
unfoldable pub authorize :
    IpcService → PeerCredentials → IpcRequestKind → StoredJob → Result IpcResponse StoredJob
authorize service peer kind r =
    if is_denied service peer r
    then err (error_response kind denied (text "not job owner or admin"))
    else ok r

-- The value that a handler returns, early or at its end.
abbrev pub settle : Result IpcResponse IpcResponse → IpcResponse
settle (err response) = response
settle (ok response) = response
