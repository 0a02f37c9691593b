-- ===== src/Service/Handle.antt =====
-- `IpcService::handle` (src/ipc/ipc_service.cpp).
pub mod Visible
pub mod Calls
use yori.Common.{text}
use yori.Ipc.Kind.{
  IpcRequestKind, submit, ps, queue, gpu, cancel, logs, logs_follow, tensorboard, inspect,
}
use yori.Ipc.Request.{IpcRequest}
use yori.Ipc.Response.{IpcResponse, IpcError}
use yori.Service.{PeerCredentials, IpcService, error_response}
use yori.Service.Control.{JobControl}
use yori.Service.Submit.{handle_submit}
use yori.Service.Lists.{handle_ps, handle_queue, handle_gpu}
use yori.Service.Records.{handle_cancel, handle_logs, handle_tensorboard}
use yori.Service.Inspect.{handle_inspect}

-- The switch; a stream of logs has a delegate of the transport, so that it is refused here.
unfoldable pub dispatch :
    {C : Type 0}
    → JobControl C
    → IpcService
    → PeerCredentials
    → IpcRequest
    → IpcRequestKind
    → C
    → C × IpcResponse
dispatch control service peer request submit c = handle_submit control service peer request.submit c
dispatch control service peer request ps c = (c, handle_ps service peer)
dispatch control service peer request queue c = (c, handle_queue service peer)
dispatch control service peer request gpu c = (c, handle_gpu service)
dispatch control service peer request cancel c = handle_cancel control service peer request.cancel c
dispatch control service peer request logs c = (c, handle_logs service peer request.logs)
dispatch control service peer request logs_follow c = (
  c,
  error_response logs_follow IpcError.unsupported
      (text "streaming follow is not enabled on this endpoint"),
)
dispatch control service peer request tensorboard c =
    (c, handle_tensorboard service peer request.tensorboard)
dispatch control service peer request inspect c = (c, handle_inspect service peer request.inspect)

abbrev pub handle :
    {C : Type 0} → JobControl C → IpcService → PeerCredentials → IpcRequest → C → C × IpcResponse
handle control service peer request c = dispatch control service peer request request.kind c
