-- ===== src/Ipc/Stream/Laws.antt =====
-- A stream frame decodes to what was encoded (src/ipc/ipc_protocol.cpp).
use yori.Common.{◌≡◌, refl, some, arith}
use yori.Ipc.Wire.{Bytes}
use yori.Ipc.Wire.Read.{pure}
use yori.Ipc.Wire.RoundTrip.{
  RoundTrips, nothing-pure, ▸->>=, fail_if-▸, fail_if->>, last, then_pure, known->>=,
}
use yori.Ipc.Wire.Fields.{
  IsU64, IsI32, u8-RoundTrips, u64-RoundTrips, bytes-RoundTrips, optional-RoundTrips,
}
use yori.Ipc.Payload.{Decodes, as_payload-Decodes}
use yori.Ipc.Exit.{IpcExitStatus, write_exit, read_exit, write_exit-RoundTrips}
use yori.Ipc.Stream.{
  IpcStreamFrame, IpcStreamFrameKind, log_data, log_gap, log_backpressure, log_eof, blank,
  kind_byte, known_kind, encode_fields, decode_fields, write_frame, read_frame,
  encode_stream_frame_payload,
}

-- What a frame of its kind carries.
abbrev pub carried : IpcStreamFrame → IpcStreamFrameKind → IpcStreamFrame
carried frame log_data = record (blank log_data) {
  stream = frame.stream;
  begin_offset = frame.begin_offset;
  end_offset = frame.end_offset;
  contents = frame.contents;
}
carried frame log_gap = record (blank log_gap) {
  stream = frame.stream;
  begin_offset = frame.begin_offset;
  end_offset = frame.end_offset;
}
carried frame log_backpressure = record (blank log_backpressure) {
  stream = frame.stream;
  begin_offset = frame.begin_offset;
}
carried frame log_eof = record (blank log_eof) { job_state = frame.job_state; exit = frame.exit }

-- The fields are values of their C++ types.
pub record IsTyped (frame : IpcStreamFrame) : Type 0 where
  pub begin_fits : IsU64 frame.begin_offset
  pub end_fits : IsU64 frame.end_offset
  pub code_fits : (exit : IpcExitStatus) → frame.exit ≡ some exit → IsI32 exit.code

fields-RoundTrips :
    (frame : IpcStreamFrame) (kind : IpcStreamFrameKind)
    → IsTyped frame
    → RoundTrips (encode_fields kind frame) (decode_fields kind) (carried frame kind)
unfolding encode_fields decode_fields
fields-RoundTrips frame log_data t = fail_if-▸ _ (λ legal. ▸->>= _ (u8-RoundTrips (ground arith)) (
    ▸->>= _ (u64-RoundTrips t.begin_fits) (
      ▸->>= _ (u64-RoundTrips t.end_fits) (
        fail_if->> _ _ (ground arith) (
          last (
            ▸->>= _ (bytes-RoundTrips frame.contents)
              (fail_if->> _ _ (ground arith) (nothing-pure _))))))))
fields-RoundTrips frame log_gap t = fail_if-▸ _ (λ legal. ▸->>= _ (u8-RoundTrips (ground arith)) (
    ▸->>= _ (u64-RoundTrips t.begin_fits)
      (last (▸->>= _ (u64-RoundTrips t.end_fits) (fail_if->> _ _ legal (nothing-pure _))))))
fields-RoundTrips frame log_backpressure t = fail_if-▸ _ (λ legal.
    ▸->>= _ (u8-RoundTrips (ground arith))
      (last (▸->>= _ (u64-RoundTrips t.begin_fits) (fail_if->> _ _ legal (nothing-pure _)))))
fields-RoundTrips frame log_eof t = fail_if-▸ _ (λ legal. ▸->>= _ (u8-RoundTrips (ground arith)) (
    fail_if->> _ _ legal (
      then_pure _ (
        optional-RoundTrips write_exit read_exit frame.exit
          (λ exit e. write_exit-RoundTrips exit (t.code_fits exit e))))))

known_kind_lem : (kind : IpcStreamFrameKind) → known_kind (kind_byte kind) ≡ pure kind
unfolding known_kind
known_kind_lem log_data = refl
known_kind_lem log_gap = refl
known_kind_lem log_backpressure = refl
known_kind_lem log_eof = refl

frame-RoundTrips :
    (frame : IpcStreamFrame)
    → IsTyped frame
    → RoundTrips (write_frame frame) read_frame (carried frame frame.kind)
unfolding write_frame read_frame
frame-RoundTrips frame t = ▸->>= _ (u8-RoundTrips (omega arith)) (
    ▸->>= _ (u8-RoundTrips (ground arith)) (
      fail_if->> _ _ refl (
        known->>= _ frame.kind (known_kind_lem frame.kind) (fields-RoundTrips frame frame.kind t))))

-- Whenever a stream frame can be encoded, what is appended is a payload within the limit that
-- decodes to the fields that a frame of its kind carries.
pub encode_stream_frame_payload-Decodes :
    (frame : IpcStreamFrame) (out longer : Bytes)
    → IsTyped frame
    → encode_stream_frame_payload frame out ≡ some longer
    → Decodes read_frame (carried frame frame.kind) out longer
encode_stream_frame_payload-Decodes frame out longer t h =
    as_payload-Decodes out longer (frame-RoundTrips frame t) h
