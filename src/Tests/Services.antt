-- ===== src/Tests/Services.antt =====
-- Requests of an owner and of a stranger (src/ipc/ipc_service.cpp).
use yori.Common.{ℕ, ◌≡◌, refl, pos, true, false, some, List, [], ◌∷◌, map}
use yori.Common.{ok, text, take, contains_nul}
use yori.Gpu.Uuid.{uuid_valid}
use yori.Gpu.Provider.{
  GpuObservationSnapshot, observation_ok, check_all, check_device, check_earlier, snapshot_checks,
}
use yori.Gpu.Provider
use yori.Gpu.Observed.{IsSnapshot, validate-IsSnapshot_iff}
use yori.Job.Spec.{required}
use yori.Job.Validate.{
  validate, validation_ok, checks, check_command, check_context, check_gpus, check_options,
  check_arguments, check_environment, check_placement, check_devices, add_within_limit,
}
use yori.Job.Validate.Loops.{IsPlacement}
use yori.Store.Types.{StoredJob, StateSnapshot, StateStoreErrorCode}
use yori.Queue.Types.{GlobalJobQueue, no_error}
use yori.Queue.Operations.{restore, restore_loop, record_error}
use yori.Scheduler.Select.{affinity_gpu_allocated}
use yori.Ipc.Kind.{IpcRequestKind}
use yori.Ipc.Request.{IpcRequest}
use yori.Ipc.Request
use yori.Service.{PeerCredentials, IpcService, IpcServiceConfig, is_admin}
use yori.Service.Control.{JobControl, SubmitCode, CancelCode}
use yori.Service.Placement.{
  decimal, find_index, resolve_gpu_spec, split_entry, resolve_entries, resolve_gpu_spec_list,
}
use yori.Service.Placement.Resolved.{resolve_gpu_spec_list-IsPlacement}
use yori.Service.Lists.{handle_queue}
use yori.Service.Lists.Order.{handle_queue-restore}
use yori.Service.Handle.{handle}
use yori.Service.Handle.Calls.{IsAuthorized, handle-IsAuthorized}
use yori.Service.Handle.Visible.{visible_to}
use yori.Service.Handle.Visible.Laws.{handle-visible_to}
use yori.Job.Spec.{GpuPlacement, any_gpu}
use yori.Ipc.Wire.{Bytes}
use yori.Ipc.Submit.{IpcSubmitRequest, no_submit}
use yori.Ipc.Request.{encode_request_payload}
use yori.Service.Submit.{spec_of}
use yori.Service.Submit.Fits.{IsSendable, submission, encode_request_payload-accepts}
use yori.Tests.Data.{job_a, job_b, gpu_a, gpu_b, gpus}

-- The jobs of user 1000, of which the second has a token in its environment.
abbrev with_token : StoredJob
with_token = record job_b {
  spec = record job_b.spec { env = (text "API_TOKEN", text "secret") ∷ [] };
}

abbrev held : StateSnapshot
held = record { revision = 2; jobs = job_a ∷ with_token ∷ []; leases = [] }

abbrev settings : IpcServiceConfig
settings = record {
  admin_gids = 4 ∷ [];
  admin_uids = [];
  max_listed_jobs = 1;
  max_log_tail_bytes = 1024;
  sensitive_env_patterns = text "TOKEN" ∷ [];
}

abbrev service : IpcService
service = record {
  config = settings;
  load = record { code = StateStoreErrorCode.no_error; snapshot = held };
  gpu_source = some gpus;
  read_tail = λ path max_bytes. record { succeeded = true; truncated = false; tail = [] };
  schedule_source = some (record {
    skipped = record { job = 1; reason = affinity_gpu_allocated; target = some gpu_a } ∷ [];
    window_truncated = false;
  });
  now = pos 20;
}

abbrev owner : PeerCredentials
owner = record { uid = 1000; gid = 1000; pid = 5 }

abbrev stranger : PeerCredentials
stranger = record { uid = 2000; gid = 2000; pid = 6 }

-- A job control that remembers the jobs it was asked to cancel.
abbrev control : JobControl (List ℕ)
control = record {
  submit_job =
      λ asked spec. (asked, record { code = SubmitCode.submitted; job_id = 9; detail = [] });
  cancel_job =
      λ asked id. (id ∷ asked, record { code = CancelCode.cancelled; state = 6; detail = [] });
}

abbrev list_jobs : IpcRequest
list_jobs = Request.blank 4 IpcRequestKind.ps

abbrev cancel_one : IpcRequest
cancel_one = record (Request.blank 4 IpcRequestKind.cancel) { cancel = 1 }

stranger_plain : is_admin settings stranger ≡ false
unfolding is_admin
stranger_plain = refl

handle-visible_to_example :
    handle control (visible_to stranger service) stranger list_jobs []
    ≡ handle control service stranger list_jobs []
handle-visible_to_example = handle-visible_to control service stranger list_jobs [] stranger_plain

handle-IsAuthorized_example :
    IsAuthorized control service owner [] (handle control service owner cancel_one []).0
handle-IsAuthorized_example = handle-IsAuthorized control service owner cancel_one []

gpus_valid : IsSnapshot gpus
unfolding Provider.validate snapshot_checks check_all check_device check_earlier uuid_valid
    contains_nul
gpus_valid = (validate-IsSnapshot_iff gpus).0 refl

-- Device 0 by its index, then device B by its name.
both_resolved : resolve_gpu_spec_list (text "0,B") gpus ≡ ok (gpu_a ∷ gpu_b ∷ [])
unfolding resolve_gpu_spec_list resolve_entries split_entry resolve_gpu_spec decimal find_index text
    uuid_valid contains_nul
both_resolved = refl

resolve_gpu_spec_list-IsPlacement_example : IsPlacement required (gpu_a ∷ gpu_b ∷ [])
resolve_gpu_spec_list-IsPlacement_example =
    resolve_gpu_spec_list-IsPlacement (text "0,B") gpus (gpu_a ∷ gpu_b ∷ []) gpus_valid
      both_resolved

abbrev empty_queue : GlobalJobQueue
empty_queue = record { capacity = 4; entries = [] }

held_restored : (restore empty_queue held).1.code ≡ no_error
unfolding restore restore_loop record_error validate checks check_command check_context check_gpus
    check_options check_arguments check_environment check_placement check_devices add_within_limit
    uuid_valid contains_nul text
held_restored = refl

handle_queue-restore_example :
    map (λ e. e.job_id) (handle_queue service stranger).queue
    ≡ take 1 (map (λ e. e.job_id) (restore empty_queue held).0.entries)
handle_queue-restore_example = handle_queue-restore service stranger empty_queue refl held_restored

-- `a` in `/`, on any device.
abbrev plain : IpcSubmitRequest
plain = record no_submit { argv = (b'a' ∷ []) ∷ []; cwd = b'/' ∷ [] }

abbrev any_device : GpuPlacement
any_device = record { mode = any_gpu; devices = [] }

plain_valid : validation_ok (validate (spec_of service owner plain any_device)) ≡ true
unfolding validate checks check_command check_context check_gpus check_options check_arguments
    check_environment check_placement add_within_limit contains_nul
plain_valid = refl

plain-IsSendable : IsSendable plain
plain-IsSendable = record { source_known = λ m h. cc; required_text = tt; preferred_text = tt }

encode_request_payload-accepts_example :
    (longer : Bytes) × (encode_request_payload (submission plain) [] ≡ some longer)
encode_request_payload-accepts_example =
    encode_request_payload-accepts service owner plain any_device [] plain-IsSendable plain_valid
