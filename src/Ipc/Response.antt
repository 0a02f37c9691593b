-- ===== src/Ipc/Response.antt =====
-- Responses and their encoding (include/yori/ipc/ipc_protocol.hpp, src/ipc/ipc_protocol.cpp).
pub mod Laws
use yori.Common.{ℕ, Bool, true, false, not, Option, none, some, List, [], ◌∷◌}
use yori.Common.{Text, Result, length, ltb, ◌==◌, nat_eq, if◌then◌else◌}
use yori.Ipc.Wire.{
  Bytes, Writer, Reader, ◌▸◌, IpcDecodeError, invalid_value, version_supported, max_list_items,
}
use yori.Ipc.Wire.Write
use yori.Ipc.Wire.Read
use yori.Ipc.Wire.Read.{◌>>=◌, ◌>>◌, pure}
use yori.Ipc.Payload.{as_payload, framed, whole, decode}
use yori.Ipc.Kind.{
  IpcRequestKind, submit, ps, queue, gpu, cancel, logs, logs_follow, tensorboard, inspect,
  write_head, read_head,
}
use yori.Ipc.Stream.{max_job_state}
use yori.Ipc.Listing.{
  IpcJobSummary, IpcQueueEntry, write_summary, read_summary, write_entry, read_entry,
}
use yori.Ipc.Device.{IpcGpuDevice, write_device, read_device}
use yori.Ipc.Inspect.{IpcInspectPayload, no_inspect, write_inspect, read_inspect}

pub data IpcError : Type 0 where
  no_error protocol unsupported denied invalid_spec queue_rejected store_failed : IpcError
  not_found invalid_state not_available limit internal : IpcError

pub record IpcLogsPayload : Type 0 where
  pub stdout_truncated : Bool
  pub stdout_tail : Bytes
  pub stderr_truncated : Bool
  pub stderr_tail : Bytes

pub record IpcLogsFollowPayload : Type 0 where
  pub job_state : ℕ
  pub stdout_offset : ℕ
  pub stderr_offset : ℕ

pub record IpcTensorboardPayload : Type 0 where
  pub logdir : Option Text
  pub cwd : Text

pub record IpcResponse : Type 0 where
  pub kind : IpcRequestKind
  pub version : ℕ
  pub error : IpcError
  pub detail : Text
  pub job_id : ℕ
  pub jobs : List IpcJobSummary
  pub queue : List IpcQueueEntry
  pub gpu_revision : ℕ
  pub devices : List IpcGpuDevice
  pub state : ℕ
  pub logs : IpcLogsPayload
  pub logs_follow : IpcLogsFollowPayload
  pub tensorboard : IpcTensorboardPayload
  pub inspect : IpcInspectPayload

-- A response whose results are at their defaults.
abbrev pub blank : ℕ → IpcRequestKind → IpcError → Text → IpcResponse
blank version kind error detail = record {
  kind = kind;
  version = version;
  error = error;
  detail = detail;
  job_id = 0;
  jobs = [];
  queue = [];
  gpu_revision = 0;
  devices = [];
  state = 0;
  logs = record {
    stdout_truncated = false;
    stdout_tail = [];
    stderr_truncated = false;
    stderr_tail = [];
  };
  logs_follow = record { job_state = 0; stdout_offset = 0; stderr_offset = 0 };
  tensorboard = record { logdir = none; cwd = [] };
  inspect = no_inspect;
}

-- The numbers of the errors.
abbrev pub error_byte : IpcError → ℕ
error_byte no_error = 0
error_byte protocol = 1
error_byte unsupported = 2
error_byte denied = 3
error_byte invalid_spec = 4
error_byte queue_rejected = 5
error_byte store_failed = 6
error_byte not_found = 7
error_byte invalid_state = 8
error_byte not_available = 9
error_byte limit = 10
error_byte internal = 11

-- The test of the range and the cast.
unfoldable pub known_error : ℕ → Reader IpcError
known_error n =
    if n == 0
    then pure no_error
    else if n == 1
    then pure protocol
    else if n == 2
    then pure unsupported
    else if n == 3
    then pure denied
    else if n == 4
    then pure invalid_spec
    else if n == 5
    then pure queue_rejected
    else if n == 6
    then pure store_failed
    else if n == 7
    then pure not_found
    else if n == 8
    then pure invalid_state
    else if n == 9
    then pure not_available
    else if n == 10
    then pure limit
    else if n == 11
    then pure internal
    else Read.fail_if true invalid_value >> pure internal

-- The switch of `encode_response_body`.
unfoldable pub write_result : ℕ → IpcRequestKind → IpcResponse → Writer
write_result version submit r = Write.u64 r.job_id
write_result version ps r =
    Write.fail_if (ltb max_list_items (length r.jobs))
    ▸ Write.u32 (length r.jobs)
    ▸ Write.each (write_summary version) r.jobs
write_result version queue r =
    Write.fail_if (ltb max_list_items (length r.queue))
    ▸ Write.u32 (length r.queue)
    ▸ Write.each (write_entry version) r.queue
write_result version gpu r =
    Write.fail_if (ltb max_list_items (length r.devices))
    ▸ Write.u64 r.gpu_revision
    ▸ Write.u32 (length r.devices)
    ▸ Write.each write_device r.devices
write_result version cancel r = Write.u8 r.state
write_result version logs r =
    Write.flag r.logs.stdout_truncated
    ▸ Write.bytes r.logs.stdout_tail
    ▸ Write.flag r.logs.stderr_truncated
    ▸ Write.bytes r.logs.stderr_tail
write_result version logs_follow r =
    Write.u8 r.logs_follow.job_state
    ▸ Write.u64 r.logs_follow.stdout_offset
    ▸ Write.u64 r.logs_follow.stderr_offset
write_result version tensorboard r =
    Write.optional Write.string r.tensorboard.logdir ▸ Write.string r.tensorboard.cwd
write_result version inspect r = write_inspect version r.inspect

-- `encode_response_body`.
unfoldable pub write_body : ℕ → IpcRequestKind → IpcResponse → Writer
write_body version kind r =
    Write.u8 (error_byte r.error) ▸ Write.string r.detail ▸ write_result version kind r

unfoldable pub write_response : IpcResponse → Writer
write_response r =
    Write.fail_if (not (version_supported r.version))
    ▸ write_head r.version r.kind (write_body r.version r.kind r)

-- `encode_response_payload`.
abbrev pub encode_response_payload : IpcResponse → Writer
encode_response_payload r = as_payload (write_response r)

-- `append_response_frame`.
abbrev pub append_response_frame : IpcResponse → Writer
append_response_frame r = framed (encode_response_payload r)

-- The switch of `decode_response_body`, on a response with its error and its detail.
unfoldable pub read_result : ℕ → IpcRequestKind → IpcResponse → Reader IpcResponse
read_result version submit r = do job_id ← Read.u64; pure (record r { job_id = job_id })
read_result version ps r = do
  count ← Read.count max_list_items
  jobs ← Read.times count (read_summary version)
  pure (record r { jobs = jobs })
read_result version queue r = do
  count ← Read.count max_list_items
  entries ← Read.times count (read_entry version)
  pure (record r { queue = entries })
read_result version gpu r = do
  gpu_revision ← Read.u64
  count ← Read.count max_list_items
  devices ← Read.times count read_device
  pure (record r { gpu_revision = gpu_revision; devices = devices })
read_result version cancel r = do
  state ← Read.u8
  Read.fail_if (ltb max_job_state state) invalid_value
  pure (record r { state = state })
read_result version logs r = do
  stdout_truncated ← Read.flag
  stdout_tail ← Read.bytes
  stderr_truncated ← Read.flag
  stderr_tail ← Read.bytes
  pure (record r {
    logs = record {
      stdout_truncated = stdout_truncated;
      stdout_tail = stdout_tail;
      stderr_truncated = stderr_truncated;
      stderr_tail = stderr_tail;
    };
  })
read_result version logs_follow r = do
  job_state ← Read.u8
  stdout_offset ← Read.u64
  stderr_offset ← Read.u64
  Read.fail_if (ltb max_job_state job_state) invalid_value
  pure (record r {
    logs_follow = record {
      job_state = job_state;
      stdout_offset = stdout_offset;
      stderr_offset = stderr_offset;
    };
  })
read_result version tensorboard r = do
  logdir ← Read.optional Read.string
  cwd ← Read.string
  pure (record r { tensorboard = record { logdir = logdir; cwd = cwd } })
read_result version inspect r = do i ← read_inspect version; pure (record r { inspect = i })

unfoldable pub read_body : ℕ → IpcRequestKind → Reader IpcResponse
read_body version kind = do
  code ← Read.u8
  error ← known_error code
  detail ← Read.string
  read_result version kind (blank version kind error detail)

-- `decode_response_payload`.
abbrev pub decode_response_payload : Bytes → Result IpcDecodeError IpcResponse
decode_response_payload payload = decode (whole (read_head read_body)) payload
