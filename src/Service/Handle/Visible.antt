-- ===== src/Service/Handle/Visible.antt =====
-- What a client without rights sees of others' jobs (src/ipc/ipc_service.cpp).
pub mod Lists
pub mod Laws
use yori.Common.{
  ℕ, pos, ◌≡◌, refl, sym, ap, ◌∙◌, Bool, true, false, not, ◌&&◌, ◌||◌, Option, none, some, List, [],
  ◌∷◌, map, ◌⊎◌, inl, inr, arith,
}
use yori.Common.{
  Result, ok, err, any, ◌==◌, nat_eq, if◌then◌else◌, ◌>>=◌, or_fail, Bool-cases, Option-cases, text,
}
use yori.Job.Spec.{JobId, JobSpec, GpuPlacementMode, any_gpu}
use yori.Process.{ProcessIdentity}
use yori.Store.Types.{StoredJob, JobExecutionRecord, store_ok}
use yori.Scheduler.Types.{ScheduleSkip, ScheduleEvaluation}
use yori.Ipc.Kind.{IpcRequestKind}
use yori.Ipc.Request.{IpcLogsRequest}
use yori.Ipc.Response.{IpcResponse}
use yori.Service.{
  PeerCredentials, IpcService, is_admin, is_denied, find_job, find_record, authorize, settle,
}

-- What everyone may know of a specification and of an execution.
abbrev pub public_spec : JobSpec → JobSpec
public_spec spec = record {
  owner_uid = spec.owner_uid;
  owner_gid = 0;
  argv = [];
  cwd = [];
  env = [];
  executable = none;
  env_metadata = none;
  gpu_request = 0;
  gpu_placement = record { mode = any_gpu; devices = [] };
  launch_profile = none;
  tensorboard_logdir = none;
  submit_time = spec.submit_time;
}

abbrev pub public_execution : JobExecutionRecord → JobExecutionRecord
public_execution execution = record {
  identity = record { pid = pos 0; pgid = pos 0; start_ticks = 0 };
  start_time = none;
  end_time = none;
  exit = execution.exit;
  failure_reason = none;
  log_path = none;
}

-- A job as a client may see it.
unfoldable pub visible_job : PeerCredentials → StoredJob → StoredJob
visible_job peer r =
    if r.spec.owner_uid == peer.uid
    then r
    else record r { spec = public_spec r.spec; execution = public_execution r.execution }

abbrev pub owns_id : PeerCredentials → List StoredJob → JobId → Bool
owns_id peer jobs id = any (λ r. r.id == id && r.spec.owner_uid == peer.uid) jobs

-- A reason to wait without the device, unless the job is the client's.
abbrev pub visible_skip : PeerCredentials → List StoredJob → ScheduleSkip → ScheduleSkip
visible_skip peer jobs skip =
    if owns_id peer jobs skip.job then skip else record skip { target = none }

abbrev pub visible_schedule :
    PeerCredentials → List StoredJob → Option ScheduleEvaluation → Option ScheduleEvaluation
visible_schedule peer jobs none = none
visible_schedule peer jobs (some evaluation) =
    some (record evaluation { skipped = map (visible_skip peer jobs) evaluation.skipped })

-- The service over a store and a schedule in which everything private of others is erased.
abbrev pub visible_to : PeerCredentials → IpcService → IpcService
visible_to peer service = record service {
  load = record service.load {
    snapshot = record service.load.snapshot {
      jobs = map (visible_job peer) service.load.snapshot.jobs;
    };
  };
  schedule_source = visible_schedule peer service.load.snapshot.jobs service.schedule_source;
}

-- One's own job is seen as it is.
pub visible_mine :
    (peer : PeerCredentials) (r : StoredJob)
    → (r.spec.owner_uid == peer.uid) ≡ true
    → visible_job peer r ≡ r
unfolding visible_job
visible_mine peer r e = rw e refl

-- What is public stays.
pub visible_public :
    (peer : PeerCredentials) (r : StoredJob)
    → ((visible_job peer r).id ≡ r.id)
      × ((visible_job peer r).state ≡ r.state)
      × ((visible_job peer r).revision ≡ r.revision)
      × ((visible_job peer r).spec.owner_uid ≡ r.spec.owner_uid)
      × ((visible_job peer r).spec.submit_time ≡ r.spec.submit_time)
      × ((visible_job peer r).execution.exit ≡ r.execution.exit)
unfolding visible_job
visible_public peer r = elim (Bool-cases (r.spec.owner_uid == peer.uid)) [
  | inl e ↦ rw e (refl, refl, refl, refl, refl, refl)
  | inr e ↦ rw e (refl, refl, refl, refl, refl, refl)
]

find_job-visible :
    (peer : PeerCredentials) (jobs : List StoredJob) (id : JobId)
    → find_job (map (visible_job peer) jobs) id
      ≡ elim (find_job jobs id) [ none ↦ none | some r ↦ some (visible_job peer r) ]
unfolding find_job
find_job-visible peer [] id = refl
find_job-visible peer (r ∷ rest) id =
    ground (arith, find_job-visible peer rest id, visible_public peer r)

-- The owner and an administrator get the record, everyone else the same refusal.
pub authorize-visible :
    (service : IpcService) (peer : PeerCredentials) (kind : IpcRequestKind) (r : StoredJob)
    → is_admin service.config peer ≡ false
    → authorize (visible_to peer service) peer kind (visible_job peer r)
      ≡ authorize service peer kind r
unfolding authorize
authorize-visible service peer kind r h =
    let (_, _, _, owner, _, _) = visible_public peer r in
    elim (Bool-cases (r.spec.owner_uid == peer.uid)) [
      | inl e ↦ ap (authorize service peer kind) (visible_mine peer r e)
      | inr e ↦ rw (owner, e, h) refl
    ]

-- What is seen of a record that was found.
abbrev pub found : PeerCredentials → Result IpcResponse StoredJob → Result IpcResponse StoredJob
found peer (err failure) = err failure
found peer (ok r) = ok (visible_job peer r)

pub find_record-visible :
    (service : IpcService) (peer : PeerCredentials) (kind : IpcRequestKind) (id : ℕ)
    → find_record (visible_to peer service) kind id ≡ found peer (find_record service kind id)
unfolding find_record
find_record-visible service peer kind id =
    let g = find_job-visible peer service.load.snapshot.jobs id in
    elim (Bool-cases (store_ok service.load.code)) [
      | inr e ↦ rw e refl
      | inl e ↦ elim (Option-cases (find_job service.load.snapshot.jobs id)) [
        | inl f ↦ rw (e, g, f) refl
        | inr (r, f) ↦ rw (e, g, f) refl
      ]
    ]

-- A handler of one job that lets only owners and administrators on answers the same.
pub guarded :
    (service : IpcService) (peer : PeerCredentials) (kind : IpcRequestKind) (id : ℕ)
    (next : StoredJob → Result IpcResponse IpcResponse)
    → is_admin service.config peer ≡ false
    → (find_record (visible_to peer service) kind id >>= λ r.
        authorize (visible_to peer service) peer kind r >>= next)
      ≡ (find_record service kind id >>= λ r. authorize service peer kind r >>= next)
guarded service peer kind id next h =
    rw (find_record-visible service peer kind id) (go (find_record service kind id))
  where
    go :
        (result : Result IpcResponse StoredJob)
        → (found peer result >>= λ r. authorize (visible_to peer service) peer kind r >>= next)
          ≡ (result >>= λ r. authorize service peer kind r >>= next)
    go (err failure) = refl
    go (ok r) = ap (λ x. x >>= next) (authorize-visible service peer kind r h)
