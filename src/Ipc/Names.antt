-- ===== src/Ipc/Names.antt =====
-- The printed names of the codes of the protocol (src/ipc/ipc_protocol.cpp).
use Prim.Native.String.{String}
use yori.Ipc.Kind.{IpcRequestKind}
use yori.Ipc.Listing.{IpcWaitReason}
use yori.Ipc.Stream.{IpcStreamFrameKind}
use yori.Ipc.Response.{IpcError}
use yori.Ipc.Wire.{IpcDecodeError}

-- `to_string(IpcRequestKind)`.
unfoldable pub ipc_request_kind_to_string : IpcRequestKind → String
ipc_request_kind_to_string IpcRequestKind.submit = "submit"
ipc_request_kind_to_string IpcRequestKind.ps = "ps"
ipc_request_kind_to_string IpcRequestKind.queue = "queue"
ipc_request_kind_to_string IpcRequestKind.gpu = "gpu"
ipc_request_kind_to_string IpcRequestKind.cancel = "cancel"
ipc_request_kind_to_string IpcRequestKind.logs = "logs"
ipc_request_kind_to_string IpcRequestKind.logs_follow = "logs-follow"
ipc_request_kind_to_string IpcRequestKind.tensorboard = "tensorboard"
ipc_request_kind_to_string IpcRequestKind.inspect = "inspect"

-- `to_string(IpcWaitReason)`.
unfoldable pub ipc_wait_reason_to_string : IpcWaitReason → String
ipc_wait_reason_to_string IpcWaitReason.no_reason = "NONE"
ipc_wait_reason_to_string IpcWaitReason.no_free_gpu = "NO_FREE_GPU"
ipc_wait_reason_to_string IpcWaitReason.affinity_gpu_allocated = "AFFINITY_GPU_ALLOCATED"
ipc_wait_reason_to_string IpcWaitReason.affinity_gpu_external = "AFFINITY_GPU_EXTERNAL"
ipc_wait_reason_to_string IpcWaitReason.affinity_gpu_state = "AFFINITY_GPU_STATE"

-- `to_string(IpcStreamFrameKind)`.
unfoldable pub ipc_stream_frame_kind_to_string : IpcStreamFrameKind → String
ipc_stream_frame_kind_to_string IpcStreamFrameKind.log_data = "log-data"
ipc_stream_frame_kind_to_string IpcStreamFrameKind.log_gap = "log-gap"
ipc_stream_frame_kind_to_string IpcStreamFrameKind.log_backpressure = "log-backpressure"
ipc_stream_frame_kind_to_string IpcStreamFrameKind.log_eof = "log-eof"

-- `to_string(IpcError)`.
unfoldable pub ipc_error_to_string : IpcError → String
ipc_error_to_string IpcError.no_error = "none"
ipc_error_to_string IpcError.protocol = "protocol"
ipc_error_to_string IpcError.unsupported = "unsupported"
ipc_error_to_string IpcError.denied = "denied"
ipc_error_to_string IpcError.invalid_spec = "invalid spec"
ipc_error_to_string IpcError.queue_rejected = "queue rejected"
ipc_error_to_string IpcError.store_failed = "store failed"
ipc_error_to_string IpcError.not_found = "not found"
ipc_error_to_string IpcError.invalid_state = "invalid state"
ipc_error_to_string IpcError.not_available = "not available"
ipc_error_to_string IpcError.limit = "limit"
ipc_error_to_string IpcError.internal = "internal"

-- `to_string(IpcDecodeError)`.
unfoldable pub ipc_decode_error_to_string : IpcDecodeError → String
ipc_decode_error_to_string IpcDecodeError.no_error = "none"
ipc_decode_error_to_string IpcDecodeError.truncated = "truncated"
ipc_decode_error_to_string IpcDecodeError.oversize = "oversize"
ipc_decode_error_to_string IpcDecodeError.bad_version = "bad version"
ipc_decode_error_to_string IpcDecodeError.bad_kind = "bad kind"
ipc_decode_error_to_string IpcDecodeError.bad_string = "bad string"
ipc_decode_error_to_string IpcDecodeError.too_many_items = "too many items"
ipc_decode_error_to_string IpcDecodeError.trailing_bytes = "trailing bytes"
ipc_decode_error_to_string IpcDecodeError.invalid_value = "invalid value"
