-- ===== src/Ipc/Stream.antt =====
-- The frames that follow an accepted log session (include/yori/ipc/ipc_protocol.hpp,
-- src/ipc/ipc_protocol.cpp).
pub mod Laws
use yori.Common.{ℕ, Bool, true, false, not, ◌||◌, Option, none, some, List, [], ◌∷◌}
use yori.Common.{length, ltb, ◌==◌, nat_eq, if◌then◌else◌, Result}
use yori.Ipc.Wire.{
  Bytes, Writer, Reader, ◌▸◌, IpcDecodeError, bad_version, bad_kind, invalid_value, oversize,
  max_stream_data_bytes, stream_frame_version,
}
use yori.Ipc.Wire.Write
use yori.Ipc.Wire.Read
use yori.Ipc.Wire.Read.{◌>>=◌, ◌>>◌, pure}
use yori.Ipc.Payload.{as_payload, framed, whole, decode}
use yori.Ipc.Exit.{IpcExitStatus, write_exit, read_exit}

pub data IpcStreamFrameKind : Type 0 where
  log_data log_gap log_backpressure log_eof : IpcStreamFrameKind

pub record IpcStreamFrame : Type 0 where
  pub kind : IpcStreamFrameKind
  pub stream : ℕ
  pub begin_offset : ℕ
  pub end_offset : ℕ
  pub contents : Bytes
  pub job_state : ℕ
  pub exit : Option IpcExitStatus

-- The numbers of the kinds.
abbrev pub kind_byte : IpcStreamFrameKind → ℕ
kind_byte log_data = 1
kind_byte log_gap = 2
kind_byte log_backpressure = 3
kind_byte log_eof = 4

-- The test of the range and the cast.
unfoldable pub known_kind : ℕ → Reader IpcStreamFrameKind
known_kind n =
    if n == 1
    then pure log_data
    else if n == 2
    then pure log_gap
    else if n == 3
    then pure log_backpressure
    else if n == 4
    then pure log_eof
    else Read.fail_if true bad_kind >> pure log_eof

abbrev pub max_stream : ℕ
max_stream = 1

abbrev pub max_job_state : ℕ
max_job_state = 7

-- A frame of a kind with its other fields at their defaults.
abbrev pub blank : IpcStreamFrameKind → IpcStreamFrame
blank kind = record {
  kind = kind;
  stream = 0;
  begin_offset = 0;
  end_offset = 0;
  contents = [];
  job_state = 0;
  exit = none;
}

-- `encode_stream_frame_body`.
unfoldable pub encode_fields : IpcStreamFrameKind → IpcStreamFrame → Writer
encode_fields log_data frame =
    Write.fail_if (
      ltb max_stream frame.stream
      || ltb max_stream_data_bytes (length frame.contents)
      || ltb frame.end_offset frame.begin_offset)
    ▸ Write.u8 frame.stream
    ▸ Write.u64 frame.begin_offset
    ▸ Write.u64 frame.end_offset
    ▸ Write.bytes frame.contents
encode_fields log_gap frame =
    Write.fail_if (ltb max_stream frame.stream || ltb frame.end_offset frame.begin_offset)
    ▸ Write.u8 frame.stream
    ▸ Write.u64 frame.begin_offset
    ▸ Write.u64 frame.end_offset
encode_fields log_backpressure frame =
    Write.fail_if (ltb max_stream frame.stream)
    ▸ Write.u8 frame.stream
    ▸ Write.u64 frame.begin_offset
encode_fields log_eof frame =
    Write.fail_if (ltb max_job_state frame.job_state)
    ▸ Write.u8 frame.job_state
    ▸ Write.optional write_exit frame.exit

unfoldable pub write_frame : IpcStreamFrame → Writer
write_frame frame =
    Write.u8 stream_frame_version ▸ Write.u8 (kind_byte frame.kind) ▸ encode_fields frame.kind frame

-- `encode_stream_frame_payload`.
abbrev pub encode_stream_frame_payload : IpcStreamFrame → Writer
encode_stream_frame_payload frame = as_payload (write_frame frame)

-- `append_stream_frame`.
abbrev pub append_stream_frame : IpcStreamFrame → Writer
append_stream_frame frame = framed (encode_stream_frame_payload frame)

-- The switch of `decode_stream_frame_body`.
unfoldable pub decode_fields : IpcStreamFrameKind → Reader IpcStreamFrame
decode_fields log_data = do
  stream ← Read.u8
  begin_offset ← Read.u64
  end_offset ← Read.u64
  Read.fail_if (ltb max_stream stream || ltb end_offset begin_offset) invalid_value
  contents ← Read.bytes
  Read.fail_if (ltb max_stream_data_bytes (length contents)) oversize
  pure (record (blank log_data) {
    stream = stream;
    begin_offset = begin_offset;
    end_offset = end_offset;
    contents = contents;
  })
decode_fields log_gap = do
  stream ← Read.u8
  begin_offset ← Read.u64
  end_offset ← Read.u64
  Read.fail_if (ltb max_stream stream || ltb end_offset begin_offset) invalid_value
  pure (record (blank log_gap) {
    stream = stream;
    begin_offset = begin_offset;
    end_offset = end_offset;
  })
decode_fields log_backpressure = do
  stream ← Read.u8
  begin_offset ← Read.u64
  Read.fail_if (ltb max_stream stream) invalid_value
  pure (record (blank log_backpressure) { stream = stream; begin_offset = begin_offset })
decode_fields log_eof = do
  job_state ← Read.u8
  Read.fail_if (ltb max_job_state job_state) invalid_value
  exit ← Read.optional read_exit
  pure (record (blank log_eof) { job_state = job_state; exit = exit })

unfoldable pub read_frame : Reader IpcStreamFrame
read_frame = do
  version ← Read.u8
  kind ← Read.u8
  Read.fail_if (not (version == stream_frame_version)) bad_version
  found ← known_kind kind
  decode_fields found

-- `decode_stream_frame_payload`.
abbrev pub decode_stream_frame_payload : Bytes → Result IpcDecodeError IpcStreamFrame
decode_stream_frame_payload payload = decode (whole read_frame) payload
