-- ===== src/Recovery/Recover.antt =====
-- `JobRecovery::recover` (src/recovery/job_recovery.cpp), over any store.
pub mod Keeps
use yori.Common.{ℕ, ℤ, ◌+◌, not, Option, none, some, List, [], ◌∷◌, ◌++◌}
use yori.Common.{Result, ok, err, ◌>>=◌, ltb, ◌==◌, nat_eq, if◌then◌else◌}
use yori.Gpu.Uuid.{GpuUuid}
use yori.Process.{ProcessIdentity}
use yori.Store.Types.{
  StateStore, StateMutation, StateStoreErrorCode, StateStoreLoadResult, StateStoreWriteResult,
  StateSnapshot, store_ok, entry_count, max_entries,
}
use yori.Queue.Types.{GlobalJobQueue, QueueErrorCode, QueueOperationResult, queue_ok}
use yori.Queue.Operations.{restore}
use yori.Recovery.{
  IdentityVerification, RecoveryJobOutcome, RecoveryMutationEntry, RecoveryPlan, plan,
}

pub data RecoveryErrorCode : Type 0 where
  no_error store_load_failed store_write_failed queue_restore_failed : RecoveryErrorCode

pub record RecoveryResult : Type 0 where
  pub code : RecoveryErrorCode
  pub outcomes : List RecoveryJobOutcome
  pub store_error : StateStoreErrorCode
  pub queue_error : QueueErrorCode
  pub store_revision : ℕ

-- A result as it is made, with the fields that the failures set.
abbrev pub result_with :
    RecoveryErrorCode
    → List RecoveryJobOutcome
    → StateStoreErrorCode
    → QueueErrorCode
    → ℕ
    → RecoveryResult
result_with code outcomes store_error queue_error store_revision = record {
  code = code;
  outcomes = outcomes;
  store_error = store_error;
  queue_error = queue_error;
  store_revision = store_revision;
}

abbrev pub no_chunk : StateMutation
no_chunk = record {
  expected_revision = 0;
  create_jobs = [];
  update_jobs = [];
  acquire_leases = [];
  release_leases = [];
}

-- The local variables of the loop, with the store.
pub record Progress (S : Type 0) : Type 0 where
  pub state : S
  pub expected_revision : ℕ
  pub chunk : StateMutation

abbrev pub release_of : Option GpuUuid → List GpuUuid
release_of none = []
release_of (some uuid) = uuid ∷ []

abbrev pub entries_needed : Option GpuUuid → ℕ
entries_needed none = 1
entries_needed (some uuid) = 2

module _ {S : Type 0} (store : StateStore S) (outcomes : List RecoveryJobOutcome) where
  abbrev pub written : S × StateStoreWriteResult → Result (S × RecoveryResult) (Progress S)
  written (after, write) =
      if not (store_ok write.code)
      then err (
        after,
        result_with RecoveryErrorCode.store_write_failed outcomes write.code QueueErrorCode.no_error
            write.revision,
      )
      else ok (record { state = after; expected_revision = write.revision; chunk = no_chunk })

  -- `flush_chunk`: the result, or the loop's variables after it.
  unfoldable pub flush_chunk : Progress S → Result (S × RecoveryResult) (Progress S)
  flush_chunk p =
      if entry_count p.chunk == 0
      then ok p
      else written
          (store.apply p.state (record p.chunk { expected_revision = p.expected_revision }))

  abbrev pub add_entry : RecoveryMutationEntry → Progress S → Progress S
  add_entry entry p = record p {
    chunk = record p.chunk {
      update_jobs = p.chunk.update_jobs ++ entry.update_job ∷ [];
      release_leases = p.chunk.release_leases ++ release_of entry.release_gpu;
    };
  }

  -- The test before an entry is added.
  unfoldable pub make_room :
      RecoveryMutationEntry → Progress S → Result (S × RecoveryResult) (Progress S)
  make_room entry p =
      if ltb max_entries (entry_count p.chunk + entries_needed entry.release_gpu)
      then flush_chunk p
      else ok p

  -- The loop over the entries of the plan.
  unfoldable pub gather :
      List RecoveryMutationEntry → Progress S → Result (S × RecoveryResult) (Progress S)
  gather [] p = ok p
  gather (entry ∷ rest) p = make_room entry p >>= λ q. gather rest (add_entry entry q)

  abbrev pub write_all :
      List RecoveryMutationEntry → Progress S → Result (S × RecoveryResult) (Progress S)
  write_all mutations p = gather mutations p >>= flush_chunk

  abbrev pub restored :
      S → ℕ → GlobalJobQueue × QueueOperationResult → S × GlobalJobQueue × RecoveryResult
  restored after revision (q, restoration) =
      if not (queue_ok restoration.code)
      then (
        after,
        q,
        result_with RecoveryErrorCode.queue_restore_failed outcomes StateStoreErrorCode.no_error
            restoration.code 0,
      )
      else (
        after,
        q,
        result_with RecoveryErrorCode.no_error outcomes StateStoreErrorCode.no_error
            QueueErrorCode.no_error revision,
      )

  abbrev pub restore_after :
      GlobalJobQueue
      → StateSnapshot
      → Result (S × RecoveryResult) (Progress S)
      → S × GlobalJobQueue × RecoveryResult
  restore_after q snapshot (err (after, failure)) = (after, q, failure)
  restore_after q snapshot (ok p) = restored p.state p.expected_revision (restore q snapshot)

module _ {S : Type 0} (store : StateStore S) where
  abbrev pub recover_loaded :
      (ProcessIdentity → IdentityVerification)
      → ℤ
      → GlobalJobQueue
      → S × StateStoreLoadResult
      → S × GlobalJobQueue × RecoveryResult
  recover_loaded verifier now q (s, loaded) =
      let planned = plan verifier now loaded.snapshot in
      if not (store_ok loaded.code)
      then (
        s,
        q,
        result_with RecoveryErrorCode.store_load_failed [] loaded.code QueueErrorCode.no_error 0,
      )
      else restore_after store planned.outcomes q loaded.snapshot (
          write_all store planned.outcomes planned.mutations
            (record { state = s; expected_revision = loaded.snapshot.revision; chunk = no_chunk }))

  unfoldable pub recover :
      (ProcessIdentity → IdentityVerification)
      → ℤ
      → GlobalJobQueue
      → S
      → S × GlobalJobQueue × RecoveryResult
  recover verifier now q s = recover_loaded verifier now q (store.load s)
