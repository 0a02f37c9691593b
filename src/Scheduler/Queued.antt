-- ===== src/Scheduler/Queued.antt =====
-- The comparison of the queue with the queued records, in `FifoScheduler::run_once`
-- (src/scheduler/scheduler.cpp).
use yori.Common.{ℕ, ◌+◌, Bool, true, not, ◌&&◌, ◌||◌, Option, none, some, List, [], ◌∷◌}
use yori.Common.{ltb, ltz, ◌==◌, nat_eq, int_eq, if◌then◌else◌}
use yori.Common.Map.{Map, find, emplace, nat_less}
use yori.Job.Spec.{JobId}
use yori.Store.Types.{StoredJob}
use yori.Store.Execution.{is_queued}
use yori.Queue.Types.{GlobalJobQueue, QueueEntry, QueueErrorCode, queue_ok}
use yori.Queue.Operations.{contains}

abbrev pub RecordMap : Type 0
RecordMap = Map JobId StoredJob

-- The map of the queued records of the snapshot.
unfoldable pub collect_queued : List StoredJob → RecordMap → RecordMap
collect_queued [] records = records
collect_queued (r ∷ rest) records =
    collect_queued rest (if is_queued r.state then emplace r.id r records else records)

abbrev pub is_earlier : StoredJob → Option StoredJob → Bool
is_earlier r none = true
is_earlier r (some e) =
    ltz r.spec.submit_time e.spec.submit_time
    || r.spec.submit_time == e.spec.submit_time && ltb r.id e.id

-- The loop that looks for the earliest record missing from the queue.
unfoldable pub earliest_missing : GlobalJobQueue → RecordMap → Option StoredJob → Option StoredJob
earliest_missing q [] earliest = earliest
earliest_missing q ((id, r) ∷ rest) earliest =
    earliest_missing q rest
      (if not (contains q r.id) && is_earlier r earliest then some r else earliest)

abbrev pub id_of_record : Option StoredJob → Option JobId
id_of_record none = none
id_of_record (some r) = some r.id

abbrev pub id_of_entry : Option QueueEntry → Option JobId
id_of_entry none = none
id_of_entry (some e) = some e.job_id

abbrev pub or_else : Option JobId → Option JobId → Option JobId
or_else none other = other
or_else (some id) other = some id

-- The check of one entry against its record.
unfoldable pub entry_error : RecordMap → ℕ → ℕ → QueueEntry → QueueErrorCode
entry_error records window index entry = elim (find entry.job_id records) [
  | none ↦ QueueErrorCode.job_not_found
  | some r ↦
      if not (ltb index window)
      then QueueErrorCode.no_error
      else if not (r.spec.submit_time == entry.submit_time)
      then QueueErrorCode.invalid_job_spec
      else if not (r.revision == 0)
      then QueueErrorCode.invalid_job_revision
      else QueueErrorCode.no_error
]

-- The loop over the entries: the first that does not agree, with the error.
unfoldable pub find_divergence :
    RecordMap → ℕ → ℕ → List QueueEntry → Option (JobId × QueueErrorCode)
find_divergence records window index [] = none
find_divergence records window index (entry ∷ rest) =
    let later = find_divergence records window (index + 1) rest in
    if queue_ok (entry_error records window index entry)
    then later
    else some (entry.job_id, entry_error records window index entry)
