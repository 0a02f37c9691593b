-- ===== src/Ipc/Response/Laws.antt =====
-- A response decodes to what was encoded (src/ipc/ipc_protocol.cpp).
use yori.Common.{ℕ, ◌≡◌, refl, true, some, List, [], ◌∷◌, map, arith}
use yori.Common.{All, length}
use yori.Ipc.Wire.{Bytes, max_list_items}
use yori.Ipc.Wire.Read.{pure}
use yori.Ipc.Wire.RoundTrip.{
  RoundTrips, nothing-pure, last, ▸->>=, known->>=, fail_if-▸, fail_if->>, then_pure,
}
use yori.Ipc.Wire.Fields.{
  IsU64, u8-RoundTrips, u64-RoundTrips, flag-RoundTrips, string-RoundTrips, bytes-RoundTrips,
  count-RoundTrips, each-times-map,
}
use yori.Ipc.Payload.{Decodes, as_payload-Decodes}
use yori.Ipc.Kind.{
  IpcRequestKind, submit, ps, queue, gpu, cancel, logs, logs_follow, tensorboard, inspect,
  is_versioned, read_head, write_head-RoundTrips,
}
use yori.Ipc.Exit.{optional-string-RoundTrips}
use yori.Ipc.Listing.{
  write_summary, read_summary, write_entry, read_entry, carried_summary, carried_entry, IsSummary,
  IsEntry, IsJobState, write_summary-RoundTrips, write_entry-RoundTrips,
}
use yori.Ipc.Device.{write_device, read_device, carried_device, IsDevice, write_device-RoundTrips}
use yori.Ipc.Inspect.Laws.{IsInspected, carried_inspect, write_inspect-RoundTrips}
use yori.Ipc.Response.{
  IpcError, no_error, protocol, unsupported, denied, invalid_spec, queue_rejected, store_failed,
  not_found, invalid_state, not_available, limit, internal, IpcResponse, blank, error_byte,
  known_error, write_result, read_result, write_body, read_body, write_response,
  encode_response_payload,
}

-- What a response of its kind carries, on one with its error and its detail.
abbrev pub carried_result : ℕ → IpcRequestKind → IpcResponse → IpcResponse → IpcResponse
carried_result version submit r s = record s { job_id = r.job_id }
carried_result version ps r s = record s { jobs = map (carried_summary version) r.jobs }
carried_result version queue r s = record s { queue = map (carried_entry version) r.queue }
carried_result version gpu r s = record s {
  gpu_revision = r.gpu_revision;
  devices = map carried_device r.devices;
}
carried_result version cancel r s = record s { state = r.state }
carried_result version logs r s = record s { logs = r.logs }
carried_result version logs_follow r s = record s { logs_follow = r.logs_follow }
carried_result version tensorboard r s = record s { tensorboard = r.tensorboard }
carried_result version inspect r s = record s { inspect = carried_inspect version r.inspect }

abbrev pub carried : IpcResponse → IpcRequestKind → IpcResponse
carried r kind = carried_result r.version kind r (blank r.version kind r.error r.detail)

-- The fields are values of their C++ types and within the bounds that the decoder checks and the
-- encoder does not: states, utilizations, used memory, and the number of placement devices, which
-- goes into a byte.
pub record IsInRange (r : IpcResponse) : Type 0 where
  pub job_id_fits : IsU64 r.job_id
  pub jobs_typed : All IsSummary r.jobs
  pub queue_typed : All IsEntry r.queue
  pub gpu_revision_fits : IsU64 r.gpu_revision
  pub devices_typed : All IsDevice r.devices
  pub state_known : IsJobState r.state
  pub follow_state_known : IsJobState r.logs_follow.job_state
  pub stdout_fits : IsU64 r.logs_follow.stdout_offset
  pub stderr_fits : IsU64 r.logs_follow.stderr_offset
  pub inspect_typed : IsInspected r.inspect

All-imp :
    {A : Type 0} {P Q : A → Type 0} (xs : List A) → ((x : A) → P x → Q x) → All P xs → All Q xs
All-imp [] f h = tt
All-imp (x ∷ xs) f (h, hs) = (f x h, All-imp xs f hs)

result-RoundTrips :
    (kind : IpcRequestKind) (r s : IpcResponse)
    → IsInRange r
    → RoundTrips
        (write_result r.version kind r)
        (read_result r.version kind s)
        (carried_result r.version kind r s)
unfolding write_result read_result
result-RoundTrips submit r s t = then_pure _ (u64-RoundTrips t.job_id_fits)
result-RoundTrips ps r s t = fail_if-▸ _ (λ counted.
    ▸->>= _ (count-RoundTrips max_list_items (length r.jobs) (omega arith) counted) (
      then_pure _ (
        each-times-map (carried_summary r.version) (write_summary r.version)
          (read_summary r.version) r.jobs
          (All-imp r.jobs (write_summary-RoundTrips r.version) t.jobs_typed))))
result-RoundTrips queue r s t = fail_if-▸ _ (λ counted.
    ▸->>= _ (count-RoundTrips max_list_items (length r.queue) (omega arith) counted) (
      then_pure _ (
        each-times-map (carried_entry r.version) (write_entry r.version) (read_entry r.version)
          r.queue (All-imp r.queue (write_entry-RoundTrips r.version) t.queue_typed))))
result-RoundTrips gpu r s t = fail_if-▸ _ (λ counted. ▸->>= _ (u64-RoundTrips t.gpu_revision_fits) (
    ▸->>= _ (count-RoundTrips max_list_items (length r.devices) (omega arith) counted) (
      then_pure _ (
        each-times-map carried_device write_device read_device r.devices
          (All-imp r.devices write_device-RoundTrips t.devices_typed)))))
result-RoundTrips cancel r s t =
    let known = t.state_known in
    last (
      ▸->>= _ (u8-RoundTrips (omega arith))
        (fail_if->> _ _ (ground arith) (nothing-pure (record s { state = r.state }))))
result-RoundTrips logs r s t = ▸->>= _ (flag-RoundTrips r.logs.stdout_truncated) (
    ▸->>= _ (bytes-RoundTrips r.logs.stdout_tail) (
      ▸->>= _ (flag-RoundTrips r.logs.stderr_truncated)
        (then_pure _ (bytes-RoundTrips r.logs.stderr_tail))))
result-RoundTrips logs_follow r s t =
    let known = t.follow_state_known in
    ▸->>= _ (u8-RoundTrips (omega arith)) (
      ▸->>= _ (u64-RoundTrips t.stdout_fits) (
        last (
          ▸->>= _ (u64-RoundTrips t.stderr_fits) (
            fail_if->> _ _ (ground arith)
              (nothing-pure (record s { logs_follow = r.logs_follow }))))))
result-RoundTrips tensorboard r s t =
    ▸->>= _ (optional-string-RoundTrips r.tensorboard.logdir)
      (then_pure _ (string-RoundTrips r.tensorboard.cwd))
result-RoundTrips inspect r s t =
    then_pure _ (write_inspect-RoundTrips r.version r.inspect t.inspect_typed)

known_error_lem : (error : IpcError) → known_error (error_byte error) ≡ pure error
unfolding known_error
known_error_lem no_error = refl
known_error_lem protocol = refl
known_error_lem unsupported = refl
known_error_lem denied = refl
known_error_lem invalid_spec = refl
known_error_lem queue_rejected = refl
known_error_lem store_failed = refl
known_error_lem not_found = refl
known_error_lem invalid_state = refl
known_error_lem not_available = refl
known_error_lem limit = refl
known_error_lem internal = refl

body-RoundTrips :
    (r : IpcResponse) (kind : IpcRequestKind)
    → IsInRange r
    → RoundTrips (write_body r.version kind r) (read_body r.version kind) (carried r kind)
unfolding write_body read_body
body-RoundTrips r kind t = ▸->>= _ (u8-RoundTrips (ground arith)) (
    known->>= _ r.error (known_error_lem r.error) (
      ▸->>= _ (string-RoundTrips r.detail)
        (result-RoundTrips kind r (blank r.version kind r.error r.detail) t)))

-- Of a response whose numbers fit their C++ types, whose job and device states are numbers of the
-- enumerations, whose utilizations are at most 100, whose used memory is at most the total, and
-- which has fewer than 256 placement devices: if its version has its kind and it can be encoded,
-- what is appended is a payload within the limit that decodes to the error, the detail and the result
-- that a response of its kind and version carries, a masked job without what is masked and nothing
-- that came with a later version.
pub encode_response_payload-Decodes :
    (r : IpcResponse) (out longer : Bytes)
    → IsInRange r
    → is_versioned r.version r.kind ≡ true
    → encode_response_payload r out ≡ some longer
    → Decodes (read_head read_body) (carried r r.kind) out longer
unfolding write_response
encode_response_payload-Decodes r out longer t versioned h =
    as_payload-Decodes out longer
      (fail_if-▸ _ (λ supported.
        write_head-RoundTrips r.version r.kind read_body (ground arith) versioned
          (body-RoundTrips r r.kind t)))
      h
