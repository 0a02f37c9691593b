-- ===== src/Service/Submit.antt =====
-- `handle_submit` (src/ipc/ipc_service.cpp).
pub mod Fits
use yori.Common.{ℕ, not, ◌||◌, ◌&&◌, Option, none, some, [], ◌∷◌}
use yori.Common.{Text, Result, ok, err, text, has_value, ◌==◌, nat_eq, if◌then◌else◌}
use yori.Gpu.Provider.{GpuObservationSnapshot}
use yori.Job.Spec.{
  JobSpec, EnvSource, EnvMetadata, GpuPlacement, no_source, conda, venv, any_gpu, required,
  preferred,
}
use yori.Job.Validate.{JobSpecErrorCode, validate, validation_ok}
use yori.Job.Names.{job_spec_error_code_to_string}
use yori.Ipc.Wire.{protocol_version}
use yori.Ipc.Kind.{IpcRequestKind}
use yori.Ipc.Exit.{IpcEnvMetadata}
use yori.Ipc.Submit.{IpcSubmitRequest}
use yori.Ipc.Response.{IpcResponse, IpcError, blank}
use yori.Service.{PeerCredentials, IpcService, error_response}
use yori.Service.Control.{JobControl, JobSubmitOutcome, SubmitCode}
use yori.Service.Placement.{resolve_gpu_spec, resolve_gpu_spec_list}

abbrev pub refuse : IpcError → Text → IpcResponse
refuse error detail = error_response IpcRequestKind.submit error detail

-- The cast to `job::EnvSource`; the decoder lets 0, 1 and 2 pass.
abbrev pub source_of : ℕ → EnvSource
source_of n = if n == 0 then no_source else if n == 1 then conda else venv

abbrev pub metadata_of : Option IpcEnvMetadata → Option EnvMetadata
metadata_of none = none
metadata_of (some m) =
    some (record { source = source_of m.source; python_version = m.python_version })

abbrev pub anywhere : GpuPlacement
anywhere = record { mode = any_gpu; devices = [] }

abbrev pub why : {A : Type 0} → Result Text A → (A → GpuPlacement) → Result IpcResponse GpuPlacement
why (err failure) f = err (refuse IpcError.invalid_spec failure)
why (ok a) f = ok (f a)

-- The devices that the request names, in the current observation.
abbrev pub resolve :
    Option Text → Option Text → GpuObservationSnapshot → Result IpcResponse GpuPlacement
resolve gpu_spec (some wish) snapshot =
    why (resolve_gpu_spec wish snapshot)
      (λ target. record { mode = preferred; devices = target ∷ [] })
resolve (some list) none snapshot =
    why (resolve_gpu_spec_list list snapshot)
      (λ devices. record { mode = required; devices = devices })
resolve none none snapshot = ok anywhere

unfoldable pub placement_of : IpcService → IpcSubmitRequest → Result IpcResponse GpuPlacement
placement_of service request =
    if not (has_value request.gpu_spec || has_value request.gpu_preferred_spec)
    then ok anywhere
    else if has_value request.gpu_spec && has_value request.gpu_preferred_spec
    then err (
        refuse IpcError.invalid_spec
          (text "gpu_spec and gpu_preferred_spec are mutually exclusive"))
    else if not (request.gpu_request == 1)
    then err (
        refuse IpcError.invalid_spec
          (text (job_spec_error_code_to_string JobSpecErrorCode.placement_gpu_request_conflict)))
    else elim service.gpu_source [
      | none ↦ err (
          refuse IpcError.not_available
            (text "no gpu observation available for placement resolution"))
      | some snapshot ↦ resolve request.gpu_spec request.gpu_preferred_spec snapshot
    ]

-- The specification: its owner is the peer that the socket names, whatever the request says.
abbrev pub spec_of : IpcService → PeerCredentials → IpcSubmitRequest → GpuPlacement → JobSpec
spec_of service peer request placement = record {
  owner_uid = peer.uid;
  owner_gid = peer.gid;
  argv = request.argv;
  cwd = request.cwd;
  env = request.env;
  executable = request.executable;
  env_metadata = metadata_of request.env_metadata;
  gpu_request = request.gpu_request;
  gpu_placement = placement;
  launch_profile = request.launch_profile;
  tensorboard_logdir = request.tensorboard_logdir;
  submit_time = service.now;
}

abbrev pub invalid : JobSpecErrorCode → IpcResponse
invalid JobSpecErrorCode.root_owner_not_allowed =
    refuse IpcError.denied (text "root cannot submit jobs")
invalid code = refuse IpcError.invalid_spec (text (job_spec_error_code_to_string code))

unfoldable pub validated : JobSpec → Result IpcResponse JobSpec
validated spec =
    if validation_ok (validate spec) then ok spec else err (invalid (validate spec).code)

abbrev pub accept_placed :
    IpcService
    → PeerCredentials
    → IpcSubmitRequest
    → Result IpcResponse GpuPlacement
    → Result IpcResponse JobSpec
accept_placed service peer request (err refusal) = err refusal
accept_placed service peer request (ok placement) =
    validated (spec_of service peer request placement)

-- The specification that is submitted, or the refusal.
abbrev pub accept : IpcService → PeerCredentials → IpcSubmitRequest → Result IpcResponse JobSpec
accept service peer request = accept_placed service peer request (placement_of service request)

abbrev pub submit_response : JobSubmitOutcome → IpcResponse
submit_response outcome = elim outcome.code [
  | SubmitCode.submitted ↦
      record (blank protocol_version IpcRequestKind.submit IpcError.no_error []) {
        job_id = outcome.job_id;
      }
  | SubmitCode.store_failed ↦ refuse IpcError.store_failed outcome.detail
  | SubmitCode.queue_rejected ↦ refuse IpcError.queue_rejected outcome.detail
  | SubmitCode.unavailable ↦ refuse IpcError.not_available outcome.detail
]

module _ {C : Type 0} where
  abbrev pub replied_submit : C × JobSubmitOutcome → C × IpcResponse
  replied_submit (after, outcome) = (after, submit_response outcome)

  unfoldable pub submit_accepted : JobControl C → C → Result IpcResponse JobSpec → C × IpcResponse
  submit_accepted control c (err refusal) = (c, refusal)
  submit_accepted control c (ok spec) = replied_submit (control.submit_job c spec)

  abbrev pub handle_submit :
      JobControl C → IpcService → PeerCredentials → IpcSubmitRequest → C → C × IpcResponse
  handle_submit control service peer request c =
      submit_accepted control c (accept service peer request)
