-- ===== src/Ipc/Listing.antt =====
-- The entries of the lists of jobs and of the queue (include/yori/ipc/ipc_protocol.hpp,
-- src/ipc/ipc_protocol.cpp).
use yori.Common.{ℕ, ◌≡◌, ◌≤◌, Bool, true, false, Option, none, List, [], arith}
use yori.Common.{Text, length, ltb}
use yori.Ipc.Wire.{Writer, Reader, ◌▸◌, invalid_value, max_item_count}
use yori.Ipc.Wire.Write
use yori.Ipc.Wire.Read
use yori.Ipc.Wire.Read.{◌>>=◌, ◌>>◌, pure}
use yori.Ipc.Wire.RoundTrip.{
  RoundTrips, nothing-pure, last, ▸->>=, fail_if-▸, fail_if->>, then_pure,
}
use yori.Ipc.Wire.Fields.{
  IsU32, IsU64, IsI32, IfSet, u8-RoundTrips, u32-RoundTrips, u64-RoundTrips, flag-RoundTrips,
  string-RoundTrips, count-RoundTrips, IfSet-RoundTrips, carried_since, carried_since-RoundTrips,
}
use yori.Ipc.Exit.{
  IpcExitStatus, write_exit, read_exit, write_exit-RoundTrips, optional-string-RoundTrips,
}
use yori.Ipc.Submit.{strings-RoundTrips}
use yori.Ipc.Stream.{max_job_state}

abbrev pub max_wait_reason : ℕ
max_wait_reason = 4

-- The values of `wait_reason`.
pub data IpcWaitReason : Type 0 where
  no_reason no_free_gpu affinity_gpu_allocated affinity_gpu_external : IpcWaitReason
  affinity_gpu_state : IpcWaitReason

-- The fields of a summary that is not masked.
pub record Shown : Type 0 where
  pub argv : List Text
  pub cwd : Text
  pub tensorboard_logdir : Option Text

pub record IpcJobSummary : Type 0 where
  pub job_id : ℕ
  pub state : ℕ
  pub owner_uid : ℕ
  pub revision : ℕ
  pub masked : Bool
  pub argv : List Text
  pub cwd : Text
  pub tensorboard_logdir : Option Text
  pub exit : Option IpcExitStatus
  pub wait_reason : ℕ
  pub wait_detail : Option Text

pub record IpcQueueEntry : Type 0 where
  pub job_id : ℕ
  pub owner_uid : ℕ
  pub submit_time_unix_ns : ℕ
  pub state : ℕ
  pub wait_reason : ℕ
  pub wait_detail : Option Text

abbrev pub shown_of : IpcJobSummary → Shown
shown_of s = record { argv = s.argv; cwd = s.cwd; tensorboard_logdir = s.tensorboard_logdir }

abbrev pub hidden : Shown
hidden = record { argv = []; cwd = []; tensorboard_logdir = none }

abbrev pub write_shown : Bool → Shown → Writer
write_shown true s = Write.nothing
write_shown false s =
    Write.u32 (length s.argv)
    ▸ Write.each Write.string s.argv
    ▸ Write.string s.cwd
    ▸ Write.optional Write.string s.tensorboard_logdir

abbrev pub read_shown : Bool → Reader Shown
read_shown true = pure hidden
read_shown false = do
  argv_count ← Read.count max_item_count
  argv ← Read.times argv_count Read.string
  cwd ← Read.string
  tensorboard_logdir ← Read.optional Read.string
  pure (record { argv = argv; cwd = cwd; tensorboard_logdir = tensorboard_logdir })

-- The reason for waiting, which came with version 3.
unfoldable pub write_wait_reason : ℕ → Writer
write_wait_reason reason = Write.fail_if (ltb max_wait_reason reason) ▸ Write.u8 reason

unfoldable pub read_wait_reason : Reader ℕ
read_wait_reason = do
  reason ← Read.u8
  Read.fail_if (ltb max_wait_reason reason) invalid_value
  pure reason

-- The body of the loop over the jobs.
unfoldable pub write_summary : ℕ → IpcJobSummary → Writer
write_summary version s =
    Write.fail_if (ltb max_item_count (length s.argv))
    ▸ Write.u64 s.job_id
    ▸ Write.u8 s.state
    ▸ Write.u32 s.owner_uid
    ▸ Write.u64 s.revision
    ▸ Write.flag s.masked
    ▸ write_shown s.masked (shown_of s)
    ▸ Write.optional write_exit s.exit
    ▸ Write.since 3 version (write_wait_reason s.wait_reason)
    ▸ Write.since 3 version (Write.optional Write.string s.wait_detail)

unfoldable pub read_summary : ℕ → Reader IpcJobSummary
read_summary version = do
  job_id ← Read.u64
  state ← Read.u8
  owner_uid ← Read.u32
  revision ← Read.u64
  Read.fail_if (ltb max_job_state state) invalid_value
  masked ← Read.flag
  shown ← read_shown masked
  exit ← Read.optional read_exit
  wait_reason ← Read.since 3 version 0 read_wait_reason
  wait_detail ← Read.since 3 version none (Read.optional Read.string)
  pure (record {
    job_id = job_id;
    state = state;
    owner_uid = owner_uid;
    revision = revision;
    masked = masked;
    argv = shown.argv;
    cwd = shown.cwd;
    tensorboard_logdir = shown.tensorboard_logdir;
    exit = exit;
    wait_reason = wait_reason;
    wait_detail = wait_detail;
  })

-- The body of the loop over the queue.
unfoldable pub write_entry : ℕ → IpcQueueEntry → Writer
write_entry version q =
    Write.u64 q.job_id
    ▸ Write.u32 q.owner_uid
    ▸ Write.u64 q.submit_time_unix_ns
    ▸ Write.u8 q.state
    ▸ Write.since 3 version (write_wait_reason q.wait_reason)
    ▸ Write.since 3 version (Write.optional Write.string q.wait_detail)

unfoldable pub read_entry : ℕ → Reader IpcQueueEntry
read_entry version = do
  job_id ← Read.u64
  owner_uid ← Read.u32
  submit_time_unix_ns ← Read.u64
  state ← Read.u8
  Read.fail_if (ltb max_job_state state) invalid_value
  wait_reason ← Read.since 3 version 0 read_wait_reason
  wait_detail ← Read.since 3 version none (Read.optional Read.string)
  pure (record {
    job_id = job_id;
    owner_uid = owner_uid;
    submit_time_unix_ns = submit_time_unix_ns;
    state = state;
    wait_reason = wait_reason;
    wait_detail = wait_detail;
  })

-- What a message of a version carries of an entry.
abbrev pub carried_shown : Bool → Shown → Shown
carried_shown true s = hidden
carried_shown false s = s

abbrev pub carried_summary : ℕ → IpcJobSummary → IpcJobSummary
carried_summary version s = record s {
  argv = (carried_shown s.masked (shown_of s)).argv;
  cwd = (carried_shown s.masked (shown_of s)).cwd;
  tensorboard_logdir = (carried_shown s.masked (shown_of s)).tensorboard_logdir;
  wait_reason = carried_since 3 version 0 s.wait_reason;
  wait_detail = carried_since 3 version none s.wait_detail;
}

abbrev pub carried_entry : ℕ → IpcQueueEntry → IpcQueueEntry
carried_entry version q = record q {
  wait_reason = carried_since 3 version 0 q.wait_reason;
  wait_detail = carried_since 3 version none q.wait_detail;
}

-- The values of `job::JobState`.
abbrev pub IsJobState : ℕ → Type 0
IsJobState n = n ≤ max_job_state

-- The fields are values of their types, and the state is one of a job.
pub record IsSummary (s : IpcJobSummary) : Type 0 where
  pub job_id_fits : IsU64 s.job_id
  pub state_known : IsJobState s.state
  pub owner_fits : IsU32 s.owner_uid
  pub revision_fits : IsU64 s.revision
  pub code_fits : IfSet (λ exit. IsI32 exit.code) s.exit

pub record IsEntry (q : IpcQueueEntry) : Type 0 where
  pub job_id_fits : IsU64 q.job_id
  pub owner_fits : IsU32 q.owner_uid
  pub time_fits : IsU64 q.submit_time_unix_ns
  pub state_known : IsJobState q.state

wait_reason-RoundTrips :
    (reason : ℕ) → RoundTrips (write_wait_reason reason) read_wait_reason reason
unfolding write_wait_reason read_wait_reason
wait_reason-RoundTrips reason = fail_if-▸ _ (λ known.
    last (▸->>= _ (u8-RoundTrips (ground arith)) (fail_if->> _ _ known (nothing-pure reason))))

shown-RoundTrips :
    (masked : Bool) (s : Shown)
    → ltb max_item_count (length s.argv) ≡ false
    → RoundTrips (write_shown masked s) (read_shown masked) (carried_shown masked s)
shown-RoundTrips true s h = nothing-pure hidden
shown-RoundTrips false s h =
    ▸->>= _ (count-RoundTrips max_item_count (length s.argv) (omega arith) h) (
      ▸->>= _ (strings-RoundTrips s.argv) (
        ▸->>= _ (string-RoundTrips s.cwd)
          (then_pure _ (optional-string-RoundTrips s.tensorboard_logdir))))

pub exit-RoundTrips :
    (exit : Option IpcExitStatus)
    → IfSet (λ e. IsI32 e.code) exit
    → RoundTrips (Write.optional write_exit exit) (Read.optional read_exit) exit
exit-RoundTrips exit h =
    IfSet-RoundTrips (λ e. IsI32 e.code) write_exit read_exit exit
      (λ e k. write_exit-RoundTrips e k) h

pub write_summary-RoundTrips :
    (version : ℕ) (s : IpcJobSummary)
    → IsSummary s
    → RoundTrips (write_summary version s) (read_summary version) (carried_summary version s)
unfolding write_summary read_summary
write_summary-RoundTrips version s t = fail_if-▸ _ (λ counted.
    ▸->>= _ (u64-RoundTrips t.job_id_fits) (
      ▸->>= _ (u8-RoundTrips (let k = t.state_known in omega arith)) (
        ▸->>= _ (u32-RoundTrips t.owner_fits) (
          ▸->>= _ (u64-RoundTrips t.revision_fits) (
            fail_if->> _ _ (let k = t.state_known in ground arith) (
              ▸->>= _ (flag-RoundTrips s.masked) (
                ▸->>= _ (shown-RoundTrips s.masked (shown_of s) counted) (
                  ▸->>= _ (exit-RoundTrips s.exit t.code_fits) (
                    ▸->>= _
                      (carried_since-RoundTrips 3 version 0 (wait_reason-RoundTrips s.wait_reason))
                      (then_pure _ (
                        carried_since-RoundTrips 3 version none
                          (optional-string-RoundTrips s.wait_detail))))))))))))

pub write_entry-RoundTrips :
    (version : ℕ) (q : IpcQueueEntry)
    → IsEntry q
    → RoundTrips (write_entry version q) (read_entry version) (carried_entry version q)
unfolding write_entry read_entry
write_entry-RoundTrips version q t = ▸->>= _ (u64-RoundTrips t.job_id_fits) (
    ▸->>= _ (u32-RoundTrips t.owner_fits) (
      ▸->>= _ (u64-RoundTrips t.time_fits) (
        ▸->>= _ (u8-RoundTrips (let k = t.state_known in omega arith)) (
          fail_if->> _ _ (let k = t.state_known in ground arith) (
            ▸->>= _ (carried_since-RoundTrips 3 version 0 (wait_reason-RoundTrips q.wait_reason)) (
              then_pure _ (
                carried_since-RoundTrips 3 version none
                  (optional-string-RoundTrips q.wait_detail))))))))
