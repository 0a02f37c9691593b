-- ===== src/Tests/Messages.antt =====
-- Messages as bytes (src/ipc/ipc_protocol.cpp).
use yori.Common.{contains_nul, ◌≡◌, refl, sym, subst, none, some, true, false, [], ◌∷◌, pos, arith}
use yori.Ipc.Wire.{Bytes, le_bytes, ◌▸◌}
use yori.Ipc.Wire.Write
use yori.Ipc.Payload.{as_payload, Decodes}
use yori.Ipc.Kind.{IpcRequestKind, write_head, read_head}
use yori.Ipc.Wire.Fields.{IsI32}
use yori.Ipc.Exit.{IpcExitStatus, write_exit, write_metadata}
use yori.Ipc.Map.{write_pairs}
use yori.Ipc.Submit.{no_submit, write_submit}
use yori.Ipc.Request.{IpcRequest, encode_request_payload}
use yori.Ipc.Request
use yori.Ipc.Request.Laws.{encode_request_payload-Decodes}
use yori.Ipc.Request.Laws as RequestLaws
use yori.Ipc.Listing.{write_summary, write_wait_reason}
use yori.Ipc.Inspect.{no_inspect}
use yori.Ipc.Inspect.Laws.{IsInspected}
use yori.Ipc.Response.{IpcResponse, IpcError, encode_response_payload, write_result, write_response}
use yori.Ipc.Response
use yori.Ipc.Response.Laws.{encode_response_payload-Decodes}
use yori.Ipc.Response.Laws as ResponseLaws
use yori.Ipc.Stream.{
  IpcStreamFrame, log_eof, blank, encode_stream_frame_payload, encode_fields, write_frame,
  read_frame,
}
use yori.Ipc.Stream.Laws.{IsTyped, carried, encode_stream_frame_payload-Decodes}

-- `a` in the directory `/` with `V` set to `1`, on device 0.
abbrev request : IpcRequest
request = record (Request.blank 4 IpcRequestKind.submit) {
  submit = record no_submit {
    argv = (b'a' ∷ []) ∷ [];
    cwd = b'/' ∷ [];
    env = (b'V' ∷ [], b'1' ∷ []) ∷ [];
    env_metadata = some (record { source = 1; python_version = none });
    gpu_spec = some (b'0' ∷ []);
  };
}

abbrev request_bytes : Bytes
request_bytes =
    4 ∷ 1 ∷ 1 ∷ 0 ∷ 0 ∷ 0 ∷ 1 ∷ 0 ∷ 0 ∷ 0 ∷ 97 ∷ 1 ∷ 0 ∷ 0 ∷ 0 ∷ 47 ∷ 1 ∷ 0 ∷ 0 ∷ 0 ∷ 1 ∷ 0 ∷ 0 ∷ 0
    ∷ 86 ∷ 1 ∷ 0 ∷ 0 ∷ 0 ∷ 49 ∷ 1 ∷ 0 ∷ 0 ∷ 0 ∷ 0 ∷ 0 ∷ 0 ∷ 1 ∷ 1 ∷ 0 ∷ 1 ∷ 1 ∷ 0 ∷ 0 ∷ 0 ∷ 48 ∷ 0
    ∷ []

request_encoded : encode_request_payload request [] ≡ some request_bytes
unfolding as_payload Request.write_request write_head Request.write_body write_submit write_pairs
    write_metadata ◌▸◌ Write.fail_if Write.put Write.string Write.each Write.nothing le_bytes
    contains_nul
request_encoded = refl

-- A masked job that ended with 3.
abbrev response : IpcResponse
response = record (Response.blank 3 IpcRequestKind.ps IpcError.no_error []) {
  jobs =
      record {
        job_id = 7;
        state = 4;
        owner_uid = 1000;
        revision = 3;
        masked = true;
        argv = [];
        cwd = [];
        tensorboard_logdir = none;
        exit = some (record { exited_normally = true; code = pos 3 });
        wait_reason = 0;
        wait_detail = none;
      }
      ∷ [];
}

abbrev response_bytes : Bytes
response_bytes =
    3 ∷ 2 ∷ 0 ∷ 0 ∷ 0 ∷ 0 ∷ 0 ∷ 1 ∷ 0 ∷ 0 ∷ 0 ∷ 7 ∷ 0 ∷ 0 ∷ 0 ∷ 0 ∷ 0 ∷ 0 ∷ 0 ∷ 4 ∷ 232 ∷ 3 ∷ 0 ∷ 0
    ∷ 3 ∷ 0 ∷ 0 ∷ 0 ∷ 0 ∷ 0 ∷ 0 ∷ 0 ∷ 1 ∷ 1 ∷ 1 ∷ 3 ∷ 0 ∷ 0 ∷ 0 ∷ 0 ∷ 0 ∷ []

response_encoded : encode_response_payload response [] ≡ some response_bytes
unfolding as_payload write_response write_head Response.write_body write_result write_summary
    write_wait_reason write_exit ◌▸◌ Write.fail_if Write.put Write.string Write.each Write.nothing
    le_bytes contains_nul
response_encoded = refl

abbrev frame : IpcStreamFrame
frame = record (blank log_eof) {
  job_state = 5;
  exit = some (record { exited_normally = false; code = pos 9 });
}

abbrev frame_bytes : Bytes
frame_bytes = 1 ∷ 4 ∷ 5 ∷ 1 ∷ 0 ∷ 9 ∷ 0 ∷ 0 ∷ 0 ∷ []

frame_encoded : encode_stream_frame_payload frame [] ≡ some frame_bytes
unfolding as_payload write_frame encode_fields write_exit ◌▸◌ Write.fail_if Write.put Write.nothing
    le_bytes
frame_encoded = refl

request-IsTyped : RequestLaws.IsTyped request
request-IsTyped = record {
  gpu_request_fits = ground arith;
  env_ascends = (tt, tt);
  cancel_fits = ground arith;
  logs_fits = ground arith;
  max_bytes_fits = ground arith;
  follow_fits = ground arith;
  stdout_fits = λ n h. cc;
  stderr_fits = λ n h. cc;
  tensorboard_fits = ground arith;
  inspect_fits = ground arith;
}

encode_request_payload-Decodes_example :
    Decodes
      (read_head Request.read_body)
      (RequestLaws.carried request IpcRequestKind.submit)
      []
      request_bytes
encode_request_payload-Decodes_example =
    encode_request_payload-Decodes request [] request_bytes request-IsTyped refl request_encoded

nothing-IsInspected : IsInspected no_inspect
nothing-IsInspected = record {
  job_id_fits = ground arith;
  state_known = ground arith;
  owner_fits = ground arith;
  revision_fits = ground arith;
  index_fits = tt;
  time_fits = ground arith;
  code_fits = tt;
  devices_counted = ground arith;
}

response-IsInRange : ResponseLaws.IsInRange response
response-IsInRange = record {
  job_id_fits = ground arith;
  jobs_typed = (
    record {
      job_id_fits = ground arith;
      state_known = ground arith;
      owner_fits = ground arith;
      revision_fits = ground arith;
      code_fits = ground arith;
    },
    tt,
  );
  queue_typed = tt;
  gpu_revision_fits = ground arith;
  devices_typed = tt;
  state_known = ground arith;
  follow_state_known = ground arith;
  stdout_fits = ground arith;
  stderr_fits = ground arith;
  inspect_typed = nothing-IsInspected;
}

encode_response_payload-Decodes_example :
    Decodes
      (read_head Response.read_body)
      (ResponseLaws.carried response IpcRequestKind.ps)
      []
      response_bytes
encode_response_payload-Decodes_example =
    encode_response_payload-Decodes response [] response_bytes response-IsInRange refl
      response_encoded

frame-IsTyped : IsTyped frame
frame-IsTyped = record {
  begin_fits = ground arith;
  end_fits = ground arith;
  code_fits = λ exit h. nine exit (ground arith);
}
  where
    nine : (exit : IpcExitStatus) → exit.code ≡ pos 9 → IsI32 exit.code
    nine exit h = subst IsI32 (sym h) (ground arith)

encode_stream_frame_payload-Decodes_example :
    Decodes read_frame (carried frame log_eof) [] frame_bytes
encode_stream_frame_payload-Decodes_example =
    encode_stream_frame_payload-Decodes frame [] frame_bytes frame-IsTyped frame_encoded
