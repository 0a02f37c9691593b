-- ===== src/Ipc/Request/Laws.antt =====
-- A request decodes to what was encoded (src/ipc/ipc_protocol.cpp).
use yori.Common.{ℕ, ◌≡◌, true, Option, some, arith}
use yori.Ipc.Wire.{Bytes}
use yori.Ipc.Wire.Write
use yori.Ipc.Wire.Read
use yori.Ipc.Wire.Read.{◌>>=◌, pure}
use yori.Ipc.Wire.RoundTrip.{RoundTrips, nothing-pure, ▸->>=, fail_if-▸, then_pure}
use yori.Ipc.Wire.Fields.{IsU32, IsU64, u32-RoundTrips, u64-RoundTrips, optional-RoundTrips}
use yori.Ipc.Payload.{Decodes, as_payload-Decodes}
use yori.Ipc.Kind.{
  IpcRequestKind, submit, ps, queue, gpu, cancel, logs, logs_follow, tensorboard, inspect,
  is_versioned, read_head, write_head-RoundTrips,
}
use yori.Ipc.Map.{IsAscending}
use yori.Ipc.Submit.{write_submit-RoundTrips}
use yori.Ipc.Request.{
  IpcRequest, blank, write_body, read_body, write_request, encode_request_payload,
}

-- What a request of its kind carries.
abbrev pub carried : IpcRequest → IpcRequestKind → IpcRequest
carried request submit = record (blank request.version submit) { submit = request.submit }
carried request ps = blank request.version ps
carried request queue = blank request.version queue
carried request gpu = blank request.version gpu
carried request cancel = record (blank request.version cancel) { cancel = request.cancel }
carried request logs = record (blank request.version logs) { logs = request.logs }
carried request logs_follow = record (blank request.version logs_follow) {
  logs_follow = request.logs_follow;
}
carried request tensorboard = record (blank request.version tensorboard) {
  tensorboard = request.tensorboard;
}
carried request inspect = record (blank request.version inspect) { inspect = request.inspect }

-- The fields are values of their C++ types.
pub record IsTyped (request : IpcRequest) : Type 0 where
  pub gpu_request_fits : IsU32 request.submit.gpu_request
  pub env_ascends : IsAscending request.submit.env
  pub cancel_fits : IsU64 request.cancel
  pub logs_fits : IsU64 request.logs.job_id
  pub max_bytes_fits : IsU32 request.logs.max_bytes
  pub follow_fits : IsU64 request.logs_follow.job_id
  pub stdout_fits : (offset : ℕ) → request.logs_follow.since_stdout ≡ some offset → IsU64 offset
  pub stderr_fits : (offset : ℕ) → request.logs_follow.since_stderr ≡ some offset → IsU64 offset
  pub tensorboard_fits : IsU64 request.tensorboard
  pub inspect_fits : IsU64 request.inspect

offset-RoundTrips :
    (value : Option ℕ)
    → ((offset : ℕ) → value ≡ some offset → IsU64 offset)
    → RoundTrips (Write.optional Write.u64 value) (Read.optional Read.u64) value
offset-RoundTrips value h =
    optional-RoundTrips Write.u64 Read.u64 value (λ offset e. u64-RoundTrips (h offset e))

body-RoundTrips :
    (request : IpcRequest) (kind : IpcRequestKind)
    → IsTyped request
    → RoundTrips
        (write_body request.version kind request)
        (read_body request.version kind)
        (carried request kind)
unfolding write_body read_body
body-RoundTrips request submit t =
    then_pure _
      (write_submit-RoundTrips request.version request.submit t.gpu_request_fits t.env_ascends)
body-RoundTrips request ps t = nothing-pure _
body-RoundTrips request queue t = nothing-pure _
body-RoundTrips request gpu t = nothing-pure _
body-RoundTrips request cancel t = then_pure _ (u64-RoundTrips t.cancel_fits)
body-RoundTrips request logs t =
    ▸->>= _ (u64-RoundTrips t.logs_fits) (then_pure _ (u32-RoundTrips t.max_bytes_fits))
body-RoundTrips request logs_follow t = ▸->>= _ (u64-RoundTrips t.follow_fits) (
    ▸->>= _ (offset-RoundTrips request.logs_follow.since_stdout t.stdout_fits)
      (then_pure _ (offset-RoundTrips request.logs_follow.since_stderr t.stderr_fits)))
body-RoundTrips request tensorboard t = then_pure _ (u64-RoundTrips t.tensorboard_fits)
body-RoundTrips request inspect t = then_pure _ (u64-RoundTrips t.inspect_fits)

-- Whenever a request of a kind that its version has can be encoded, what is appended is a payload
-- within the limit that decodes to the fields that a request of its kind carries.
pub encode_request_payload-Decodes :
    (request : IpcRequest) (out longer : Bytes)
    → IsTyped request
    → is_versioned request.version request.kind ≡ true
    → encode_request_payload request out ≡ some longer
    → Decodes (read_head read_body) (carried request request.kind) out longer
unfolding write_request
encode_request_payload-Decodes request out longer t versioned h =
    as_payload-Decodes out longer
      (fail_if-▸ _ (λ supported.
        write_head-RoundTrips request.version request.kind read_body (ground arith) versioned
          (body-RoundTrips request request.kind t)))
      h
