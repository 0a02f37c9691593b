-- ===== src/Service/Handle/Visible/Laws.antt =====
-- No request tells a client more of others' jobs than what is public (src/ipc/ipc_service.cpp).
use yori.Common.{ℕ, ◌≡◌, refl, ap, ◌∙◌, false}
use yori.Common.{Result, ok, err}
use yori.Store.Types.{StoredJob}
use yori.Ipc.Kind.{
  IpcRequestKind, submit, ps, queue, gpu, cancel, logs, logs_follow, tensorboard, inspect,
}
use yori.Ipc.Request.{IpcRequest, IpcLogsRequest}
use yori.Ipc.Response.{IpcResponse}
use yori.Service.{PeerCredentials, IpcService, is_admin, is_denied, find_record, settle}
use yori.Service.Control.{JobControl}
use yori.Service.Submit.{placement_of}
use yori.Service.Lists.{handle_gpu}
use yori.Service.Records.{
  refusal_in, guard_found, cancel_guard, cancel_unless, handle_logs, handle_tensorboard,
}
use yori.Service.Inspect.{payload_of, handle_inspect}
use yori.Service.Handle.{handle, dispatch}
use yori.Service.Handle.Visible.{
  visible_job, visible_to, visible_public, found, find_record-visible, guarded,
}
use yori.Service.Handle.Visible.Lists.{denied-visible, handle_ps-visible, handle_queue-visible}

handle_logs-visible :
    (service : IpcService) (peer : PeerCredentials) (request : IpcLogsRequest)
    → is_admin service.config peer ≡ false
    → handle_logs (visible_to peer service) peer request ≡ handle_logs service peer request
unfolding handle_logs
handle_logs-visible service peer request h =
    ap settle (guarded service peer logs request.job_id _ h)

handle_tensorboard-visible :
    (service : IpcService) (peer : PeerCredentials) (id : ℕ)
    → is_admin service.config peer ≡ false
    → handle_tensorboard (visible_to peer service) peer id ≡ handle_tensorboard service peer id
unfolding handle_tensorboard
handle_tensorboard-visible service peer id h = ap settle (guarded service peer tensorboard id _ h)

handle_inspect-visible :
    (service : IpcService) (peer : PeerCredentials) (id : ℕ)
    → is_admin service.config peer ≡ false
    → handle_inspect (visible_to peer service) peer id ≡ handle_inspect service peer id
unfolding handle_inspect payload_of
handle_inspect-visible service peer id h = ap settle (guarded service peer inspect id _ h)

cancel_guard-visible :
    (service : IpcService) (peer : PeerCredentials) (id : ℕ)
    → cancel_guard (visible_to peer service) peer id ≡ cancel_guard service peer id
cancel_guard-visible service peer id =
    ap (guard_found (visible_to peer service) peer) (find_record-visible service peer cancel id)
    ∙ go (find_record service cancel id)
  where
    go :
        (result : Result IpcResponse StoredJob)
        → guard_found (visible_to peer service) peer (found peer result)
          ≡ guard_found service peer result
    go (err failure) = refl
    go (ok r) =
        let (_, state, _, _, _, _) = visible_public peer r in
        ap (λ b. refusal_in b (visible_job peer r).state) (denied-visible service peer r)
        ∙ ap (refusal_in (is_denied service peer r)) state

module _ {C : Type 0} (control : JobControl C) (service : IpcService) (peer : PeerCredentials) where
  dispatch-visible :
      (request : IpcRequest) (kind : IpcRequestKind) (c : C)
      → is_admin service.config peer ≡ false
      → dispatch control (visible_to peer service) peer request kind c
        ≡ dispatch control service peer request kind c
  unfolding dispatch placement_of handle_gpu
  dispatch-visible request submit c h = refl
  dispatch-visible request ps c h = ap (λ x. (c, x)) (handle_ps-visible service peer h)
  dispatch-visible request queue c h = ap (λ x. (c, x)) (handle_queue-visible service peer h)
  dispatch-visible request gpu c h = refl
  dispatch-visible request cancel c h =
      ap (cancel_unless control request.cancel c) (cancel_guard-visible service peer request.cancel)
  dispatch-visible request logs c h =
      ap (λ x. (c, x)) (handle_logs-visible service peer request.logs h)
  dispatch-visible request logs_follow c h = refl
  dispatch-visible request tensorboard c h =
      ap (λ x. (c, x)) (handle_tensorboard-visible service peer request.tensorboard h)
  dispatch-visible request inspect c h =
      ap (λ x. (c, x)) (handle_inspect-visible service peer request.inspect h)

-- A client that is no administrator is answered, and the job control called, as if every private
-- field of others' jobs were erased from the store and from the schedule: the command, directory,
-- environment, placement and log path of a job, and the device for which it waits.
pub handle-visible_to :
    {C : Type 0} (control : JobControl C) (service : IpcService) (peer : PeerCredentials)
    (request : IpcRequest) (c : C)
    → is_admin service.config peer ≡ false
    → handle control (visible_to peer service) peer request c
      ≡ handle control service peer request c
handle-visible_to control service peer request c h =
    dispatch-visible control service peer request request.kind c h
