-- ===== src/Ipc/Request.antt =====
-- Requests and their encoding (include/yori/ipc/ipc_protocol.hpp, src/ipc/ipc_protocol.cpp).
pub mod Laws
use yori.Common.{ℕ, Bool, true, false, not, Option, none, some}
use yori.Common.{Result}
use yori.Ipc.Wire.{Bytes, Writer, Reader, ◌▸◌, IpcDecodeError, version_supported}
use yori.Ipc.Wire.Write
use yori.Ipc.Wire.Read
use yori.Ipc.Wire.Read.{◌>>=◌, ◌>>◌, pure}
use yori.Ipc.Payload.{as_payload, framed, whole, decode}
use yori.Ipc.Kind.{
  IpcRequestKind, submit, ps, queue, gpu, cancel, logs, logs_follow, tensorboard, inspect,
  write_head, read_head,
}
use yori.Ipc.Submit.{IpcSubmitRequest, no_submit, write_submit, read_submit}

-- `IpcCancelRequest`, `IpcTensorboardRequest` and `IpcInspectRequest` hold a job's number alone.
pub record IpcLogsRequest : Type 0 where
  pub job_id : ℕ
  pub max_bytes : ℕ

pub record IpcLogsFollowRequest : Type 0 where
  pub job_id : ℕ
  pub since_stdout : Option ℕ
  pub since_stderr : Option ℕ

pub record IpcRequest : Type 0 where
  pub kind : IpcRequestKind
  pub version : ℕ
  pub submit : IpcSubmitRequest
  pub cancel : ℕ
  pub logs : IpcLogsRequest
  pub logs_follow : IpcLogsFollowRequest
  pub tensorboard : ℕ
  pub inspect : ℕ

-- The fields of every kind at their defaults.
abbrev pub blank : ℕ → IpcRequestKind → IpcRequest
blank version kind = record {
  kind = kind;
  version = version;
  submit = no_submit;
  cancel = 0;
  logs = record { job_id = 0; max_bytes = 0 };
  logs_follow = record { job_id = 0; since_stdout = none; since_stderr = none };
  tensorboard = 0;
  inspect = 0;
}

-- `encode_request_body`.
unfoldable pub write_body : ℕ → IpcRequestKind → IpcRequest → Writer
write_body version submit request = write_submit version request.submit
write_body version ps request = Write.nothing
write_body version queue request = Write.nothing
write_body version gpu request = Write.nothing
write_body version cancel request = Write.u64 request.cancel
write_body version logs request = Write.u64 request.logs.job_id ▸ Write.u32 request.logs.max_bytes
write_body version logs_follow request =
    Write.u64 request.logs_follow.job_id
    ▸ Write.optional Write.u64 request.logs_follow.since_stdout
    ▸ Write.optional Write.u64 request.logs_follow.since_stderr
write_body version tensorboard request = Write.u64 request.tensorboard
write_body version inspect request = Write.u64 request.inspect

unfoldable pub write_request : IpcRequest → Writer
write_request request =
    Write.fail_if (not (version_supported request.version))
    ▸ write_head request.version request.kind (write_body request.version request.kind request)

-- `encode_request_payload`.
abbrev pub encode_request_payload : IpcRequest → Writer
encode_request_payload request = as_payload (write_request request)

-- `append_request_frame`.
abbrev pub append_request_frame : IpcRequest → Writer
append_request_frame request = framed (encode_request_payload request)

-- The switch of `decode_request_body`.
unfoldable pub read_body : ℕ → IpcRequestKind → Reader IpcRequest
read_body version submit = do
  s ← read_submit version
  pure (record (blank version submit) { submit = s })
read_body version ps = pure (blank version ps)
read_body version queue = pure (blank version queue)
read_body version gpu = pure (blank version gpu)
read_body version cancel = do
  job_id ← Read.u64
  pure (record (blank version cancel) { cancel = job_id })
read_body version logs = do
  job_id ← Read.u64
  max_bytes ← Read.u32
  pure (record (blank version logs) { logs = record { job_id = job_id; max_bytes = max_bytes } })
read_body version logs_follow = do
  job_id ← Read.u64
  since_stdout ← Read.optional Read.u64
  since_stderr ← Read.optional Read.u64
  pure (record (blank version logs_follow) {
    logs_follow = record {
      job_id = job_id;
      since_stdout = since_stdout;
      since_stderr = since_stderr;
    };
  })
read_body version tensorboard = do
  job_id ← Read.u64
  pure (record (blank version tensorboard) { tensorboard = job_id })
read_body version inspect = do
  job_id ← Read.u64
  pure (record (blank version inspect) { inspect = job_id })

-- `decode_request_payload`.
abbrev pub decode_request_payload : Bytes → Result IpcDecodeError IpcRequest
decode_request_payload payload = decode (whole (read_head read_body)) payload
