-- ===== src/Service/Handle/Calls.antt =====
-- What requests have done (src/ipc/ipc_service.cpp).
use yori.Common.{ℕ, ◌≡◌, refl, sym, subst, ap, Bool, true, false, none, some, inl, inr, arith}
use yori.Common.{Result, ok, err, Bool-cases, Option-cases}
use yori.Job.Spec.{JobSpec, GpuPlacement}
use yori.Job.State.{
  JobState, is_terminal, queued, starting, running, stopping, finished, failed, cancelled, lost,
}
use yori.Job.Validate.{validate, validation_ok}
use yori.Store.Types.{StoredJob}
use yori.Ipc.Kind.{
  IpcRequestKind, submit, ps, queue, gpu, cancel, logs, logs_follow, tensorboard, inspect,
}
use yori.Ipc.Request.{IpcRequest}
use yori.Ipc.Submit.{IpcSubmitRequest}
use yori.Ipc.Response.{IpcResponse}
use yori.Service.{PeerCredentials, IpcService, is_denied, find_job, find_record}
use yori.Service.Control.{JobControl}
use yori.Service.Submit.{submit_accepted, validated, accept_placed, accept, placement_of, spec_of}
use yori.Service.Records.{refusal_in, guard_found, cancel_unless}
use yori.Service.Handle.{handle, dispatch}

-- The state of the job control after a request: as it was; or after the submission of a valid
-- specification that belongs to the peer; or after the cancellation of a job of the store that has
-- not ended, by its owner or an administrator.
pub data IsAuthorized {C : Type 0} (control : JobControl C) (service : IpcService)
    (peer : PeerCredentials) (c after : C) : Type 0 where
  untouched : after ≡ c → IsAuthorized control service peer c after
  submission :
      (spec : JobSpec)
      → spec.owner_uid ≡ peer.uid
      → validation_ok (validate spec) ≡ true
      → after ≡ (control.submit_job c spec).0
      → IsAuthorized control service peer c after
  cancellation :
      (id : ℕ) (r : StoredJob)
      → find_job service.load.snapshot.jobs id ≡ some r
      → is_denied service peer r ≡ false
      → is_terminal r.state ≡ false
      → after ≡ (control.cancel_job c id).0
      → IsAuthorized control service peer c after

validated-eq-ok :
    (made spec : JobSpec)
    → validated made ≡ ok spec
    → (made ≡ spec) × (validation_ok (validate made) ≡ true)
unfolding validated
validated-eq-ok made spec h = elim (Bool-cases (validation_ok (validate made))) [
  | inl e ↦ (ground arith, e)
  | inr e ↦ absurd (ground arith)
]

accept_placed-eq-ok :
    (service : IpcService) (peer : PeerCredentials) (request : IpcSubmitRequest)
    (placed : Result IpcResponse GpuPlacement) (spec : JobSpec)
    → accept_placed service peer request placed ≡ ok spec
    → (spec.owner_uid ≡ peer.uid) × (validation_ok (validate spec) ≡ true)
accept_placed-eq-ok service peer request (err refusal) spec h = cc
accept_placed-eq-ok service peer request (ok placement) spec h =
    let made = spec_of service peer request placement in
    let (same, valid) = validated-eq-ok made spec h in
    (ap (λ s. s.owner_uid) (sym same), subst (λ s. validation_ok (validate s) ≡ true) same valid)

-- Every job that the guard lets through is one that has not ended, of an authorized peer.
refusal_in-eq-none :
    (b : Bool) (state : JobState)
    → refusal_in b state ≡ none
    → (b ≡ false) × (is_terminal state ≡ false)
unfolding refusal_in is_terminal
refusal_in-eq-none true state h = cc
refusal_in-eq-none false queued h = (refl, refl)
refusal_in-eq-none false starting h = (refl, refl)
refusal_in-eq-none false running h = (refl, refl)
refusal_in-eq-none false stopping h = (refl, refl)
refusal_in-eq-none false finished h = cc
refusal_in-eq-none false failed h = cc
refusal_in-eq-none false cancelled h = cc
refusal_in-eq-none false lost h = cc

find_record-eq-ok :
    (service : IpcService) (kind : IpcRequestKind) (id : ℕ) (r : StoredJob)
    → find_record service kind id ≡ ok r
    → find_job service.load.snapshot.jobs id ≡ some r
unfolding find_record
find_record-eq-ok service kind id r h =
    elim (Option-cases (find_job service.load.snapshot.jobs id)) [
      | inl e ↦ absurd (ground arith)
      | inr (x, e) ↦ ground arith
    ]

module _ {C : Type 0} (control : JobControl C) (service : IpcService) (peer : PeerCredentials) where
  submit_accepted-IsAuthorized :
      (c : C) (accepted : Result IpcResponse JobSpec)
      → ((spec : JobSpec)
          → accepted ≡ ok spec
          → (spec.owner_uid ≡ peer.uid) × (validation_ok (validate spec) ≡ true))
      → IsAuthorized control service peer c (submit_accepted control c accepted).0
  unfolding submit_accepted
  submit_accepted-IsAuthorized c (err refusal) h = untouched refl
  submit_accepted-IsAuthorized c (ok spec) h =
      let (owner, valid) = h spec refl in submission spec owner valid refl

  cancel_unless-IsAuthorized :
      (c : C) (id : ℕ) (result : Result IpcResponse StoredJob)
      → find_record service cancel id ≡ result
      → IsAuthorized control service peer c
          (cancel_unless control id c (guard_found service peer result)).0
  unfolding cancel_unless
  cancel_unless-IsAuthorized c id (err failure) h = untouched refl
  cancel_unless-IsAuthorized c id (ok r) h =
      elim (Option-cases (refusal_in (is_denied service peer r) r.state)) [
        | inr (refusal, e) ↦ rw e (untouched refl)
        | inl e ↦
            let (mine, going) = refusal_in-eq-none (is_denied service peer r) r.state e in
            rw e (cancellation id r (find_record-eq-ok service cancel id r h) mine going refl)
      ]

  dispatch-IsAuthorized :
      (request : IpcRequest) (kind : IpcRequestKind) (c : C)
      → IsAuthorized control service peer c (dispatch control service peer request kind c).0
  unfolding dispatch
  dispatch-IsAuthorized request submit c =
      submit_accepted-IsAuthorized c (accept service peer request.submit) (λ spec h.
        accept_placed-eq-ok service peer request.submit (placement_of service request.submit) spec
          h)
  dispatch-IsAuthorized request ps c = untouched refl
  dispatch-IsAuthorized request queue c = untouched refl
  dispatch-IsAuthorized request gpu c = untouched refl
  dispatch-IsAuthorized request cancel c =
      cancel_unless-IsAuthorized c request.cancel (find_record service cancel request.cancel) refl
  dispatch-IsAuthorized request logs c = untouched refl
  dispatch-IsAuthorized request logs_follow c = untouched refl
  dispatch-IsAuthorized request tensorboard c = untouched refl
  dispatch-IsAuthorized request inspect c = untouched refl

-- Whatever a client sends, the job control is left as it was, or is given one valid specification
-- owned by the user that the socket names, or is asked to cancel a job of the store that has not
-- ended and that the client owns or administers.
pub handle-IsAuthorized :
    {C : Type 0} (control : JobControl C) (service : IpcService) (peer : PeerCredentials)
    (request : IpcRequest) (c : C)
    → IsAuthorized control service peer c (handle control service peer request c).0
handle-IsAuthorized control service peer request c =
    dispatch-IsAuthorized control service peer request request.kind c
