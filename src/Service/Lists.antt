-- ===== src/Service/Lists.antt =====
-- `handle_ps`, `handle_queue` and `handle_gpu` (src/ipc/ipc_service.cpp).
pub mod Order
use yori.Common.{
  ℕ, ℤ, ltz, Bool, true, false, not, ◌||◌, ◌&&◌, Option, none, some, List, [], ◌∷◌, ◌++◌, map,
}
use yori.Common.{
  Text, text, to_string, length, take, ltb, has_value, ◌==◌, nat_eq, int_eq, list_eq, if◌then◌else◌,
}
use yori.Gpu.Uuid.{GpuUuid}
use yori.Gpu.Provider.{GpuObservation, GpuObservationSnapshot, GpuLease, derive_logical_state}
use yori.Job.Spec.{JobId}
use yori.Job.State.{JobState}
use yori.Store.Types.{StoredJob, StateSnapshot, store_ok}
use yori.Store.Execution.{is_queued}
use yori.Scheduler.Types.{ScheduleSkip, ScheduleEvaluation}
use yori.Ipc.Wire.{protocol_version}
use yori.Ipc.Kind.{IpcRequestKind}
use yori.Ipc.Listing.{IpcJobSummary, IpcQueueEntry, Shown, shown_of, hidden}
use yori.Ipc.Device.{IpcGpuDevice}
use yori.Ipc.Response.{IpcResponse, IpcError, blank}
use yori.Service.{
  PeerCredentials, IpcService, is_denied, load_failure, error_response, job_state_wire,
  wait_reason_wire, unix_ns, exit_of, gpu_observed_wire, gpu_logical_wire,
}

-- The first entry of the last scheduling round on a job.
unfoldable pub find_skip : List ScheduleSkip → JobId → Option ScheduleSkip
find_skip [] id = none
find_skip (skip ∷ rest) id = if skip.job == id then some skip else find_skip rest id

abbrev pub skip_of : Option ScheduleEvaluation → JobId → Option ScheduleSkip
skip_of none id = none
skip_of (some evaluation) id = find_skip evaluation.skipped id

abbrev pub reason_of : Option ScheduleSkip → ℕ
reason_of none = 0
reason_of (some skip) = wait_reason_wire skip.reason

-- The target is for the owner and administrators.
abbrev pub target_of : Bool → Option ScheduleSkip → Option GpuUuid
target_of true skip = none
target_of false none = none
target_of false (some skip) = skip.target

abbrev pub shown_to : Bool → StoredJob → Shown
shown_to true r = hidden
shown_to false r = record {
  argv = r.spec.argv;
  cwd = r.spec.cwd;
  tensorboard_logdir = r.spec.tensorboard_logdir;
}

abbrev pub skip_if_queued : IpcService → StoredJob → Option ScheduleSkip
skip_if_queued service r = if is_queued r.state then skip_of service.schedule_source r.id else none

-- The body of the loop of `handle_ps`.
unfoldable pub summary_of : IpcService → PeerCredentials → StoredJob → IpcJobSummary
summary_of service peer r =
    let masked = is_denied service peer r in
    record {
      job_id = r.id;
      state = job_state_wire r.state;
      owner_uid = r.spec.owner_uid;
      revision = r.revision;
      masked = masked;
      argv = (shown_to masked r).argv;
      cwd = (shown_to masked r).cwd;
      tensorboard_logdir = (shown_to masked r).tensorboard_logdir;
      exit = exit_of r.execution.exit;
      wait_reason = reason_of (skip_if_queued service r);
      wait_detail = target_of masked (skip_if_queued service r);
    }

-- The error and the detail of a list that may be cut off.
abbrev pub listing : {A : Type 0} → IpcService → IpcRequestKind → List A → IpcResponse
listing service kind records =
    if ltb service.config.max_listed_jobs (length records)
    then blank protocol_version kind IpcError.limit
        (text "listing truncated to " ++ to_string service.config.max_listed_jobs ++ text " jobs")
    else blank protocol_version kind IpcError.no_error []

unfoldable pub handle_ps : IpcService → PeerCredentials → IpcResponse
handle_ps service peer =
    if not (store_ok service.load.code)
    then load_failure service IpcRequestKind.ps
    else record (listing service IpcRequestKind.ps service.load.snapshot.jobs) {
      jobs =
          map (summary_of service peer)
            (take service.config.max_listed_jobs service.load.snapshot.jobs);
    }

-- The order of the queue's list.
abbrev pub submitted_before : StoredJob → StoredJob → Bool
submitted_before lhs rhs =
    if not (lhs.spec.submit_time == rhs.spec.submit_time)
    then ltz lhs.spec.submit_time rhs.spec.submit_time
    else ltb lhs.id rhs.id

unfoldable pub insert_record : StoredJob → List StoredJob → List StoredJob
insert_record r [] = r ∷ []
insert_record r (x ∷ xs) =
    let further = insert_record r xs in if submitted_before x r then x ∷ further else r ∷ x ∷ xs

-- `std::sort`, whose result is the same since the order is strict on distinct ids.
unfoldable pub sort_records : List StoredJob → List StoredJob
sort_records [] = []
sort_records (r ∷ rest) = insert_record r (sort_records rest)

-- The loop that collects the queued jobs.
unfoldable pub queued_jobs : List StoredJob → List StoredJob
queued_jobs [] = []
queued_jobs (r ∷ rest) = if is_queued r.state then r ∷ queued_jobs rest else queued_jobs rest

unfoldable pub entry_of : IpcService → PeerCredentials → StoredJob → IpcQueueEntry
entry_of service peer r = record {
  job_id = r.id;
  owner_uid = r.spec.owner_uid;
  submit_time_unix_ns = unix_ns r.spec.submit_time;
  state = job_state_wire r.state;
  wait_reason = reason_of (skip_of service.schedule_source r.id);
  wait_detail = target_of (is_denied service peer r) (skip_of service.schedule_source r.id);
}

unfoldable pub handle_queue : IpcService → PeerCredentials → IpcResponse
handle_queue service peer =
    let queued = sort_records (queued_jobs service.load.snapshot.jobs) in
    if not (store_ok service.load.code)
    then load_failure service IpcRequestKind.queue
    else record (listing service IpcRequestKind.queue queued) {
      queue = map (entry_of service peer) (take service.config.max_listed_jobs queued);
    }

-- The job of the first lease on a device.
unfoldable pub leased_by : List GpuLease → GpuUuid → Option JobId
leased_by [] uuid = none
leased_by (lease ∷ rest) uuid =
    if lease.gpu_uuid == uuid then some lease.job_id else leased_by rest uuid

unfoldable pub device_of : List GpuLease → GpuObservation → IpcGpuDevice
device_of leases observation =
    let holder = leased_by leases observation.uuid in
    record {
      uuid = observation.uuid;
      index = observation.index;
      observed_state = gpu_observed_wire observation.state;
      logical_state = gpu_logical_wire (derive_logical_state observation.state (has_value holder));
      utilization_percent = observation.telemetry.utilization_percent;
      memory_used_bytes = observation.telemetry.memory_used_bytes;
      memory_total_bytes = observation.telemetry.memory_total_bytes;
      leased_by_job = holder;
    }

unfoldable pub handle_gpu : IpcService → IpcResponse
handle_gpu service = elim service.gpu_source [
  | none ↦
      error_response IpcRequestKind.gpu IpcError.not_available (text "no gpu observation available")
  | some snapshot ↦
      if not (store_ok service.load.code)
      then load_failure service IpcRequestKind.gpu
      else record (blank protocol_version IpcRequestKind.gpu IpcError.no_error []) {
        gpu_revision = snapshot.revision;
        devices = map (device_of service.load.snapshot.leases) snapshot.devices;
      }
]
