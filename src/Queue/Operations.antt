-- ===== src/Queue/Operations.antt =====
-- `GlobalJobQueue` (src/queue/job_queue.cpp). The standard algorithms are list functions:
-- `lower_bound` by scanning, which on a sorted range finds the same place, and `sort` by insertion,
-- which has the same result since the order is strict on entries with different ids.
use yori.Common.{ℕ, zero, suc, ◌+◌, Bool, not, ◌&&◌, ◌||◌, Option, none, some, List, [], ◌∷◌, ◌++◌}
use yori.Common.{length, any, empty, head?, ltb, leb, ◌==◌, nat_eq, int_eq, if◌then◌else◌}
use yori.Job.Spec.{JobId, id_valid}
use yori.Job.Validate.{JobSpecValidationResult, validate, validation_ok}
use yori.Store.Types.{StoredJob, StateSnapshot}
use yori.Store.Execution.{is_queued}
use yori.Queue.Types.{
  max_capacity, QueueErrorCode, QueueEntry, QueueOperationResult, GlobalJobQueue, entry_less,
  known_state, spec_fine, result, no_error, invalid_capacity, invalid_snapshot_revision,
  invalid_job_id, invalid_job_spec, invalid_job_state, invalid_job_revision, job_not_queued,
  duplicate_job, capacity_exceeded, job_not_found, admission_accepted, admission_rejected,
  removal_applied, removal_rejected, restore_applied, restore_rejected,
}

-- The queue, or null, and the error code.
unfoldable pub create : ℕ → Option GlobalJobQueue × QueueErrorCode
create capacity =
    if capacity == 0 || ltb max_capacity capacity
    then (none, invalid_capacity)
    else (some (record { capacity = capacity; entries = [] }), no_error)

abbrev pub size : GlobalJobQueue → ℕ
size q = length q.entries

unfoldable pub front : GlobalJobQueue → Option QueueEntry
front q = head? q.entries

abbrev pub has_id : JobId → List QueueEntry → Bool
has_id id entries = any (λ entry. entry.job_id == id) entries

unfoldable pub contains : GlobalJobQueue → JobId → Bool
contains q id = has_id id q.entries

-- `std::lower_bound(begin, end, entry, entry_less) - begin`.
unfoldable pub lower_bound : QueueEntry → List QueueEntry → ℕ
lower_bound entry [] = 0
lower_bound entry (x ∷ xs) =
    let further = lower_bound entry xs in if entry_less x entry then suc further else 0

-- `entries_.insert(begin + position, entry)`.
unfoldable pub insert_at : ℕ → QueueEntry → List QueueEntry → List QueueEntry
insert_at zero entry xs = entry ∷ xs
insert_at (suc n) entry [] = entry ∷ []
insert_at (suc n) entry (x ∷ xs) = x ∷ insert_at n entry xs

-- The distance to what `std::find_if` finds.
unfoldable pub find_id : JobId → List QueueEntry → Option ℕ
find_id id [] = none
find_id id (x ∷ xs) =
    let further = find_id id xs in
    if x.job_id == id then some 0 else elim further [ none ↦ none | some n ↦ some (suc n) ]

-- `entries_.erase(begin + position)`.
unfoldable pub erase_at : ℕ → List QueueEntry → List QueueEntry
erase_at n [] = []
erase_at zero (x ∷ xs) = xs
erase_at (suc n) (x ∷ xs) = x ∷ erase_at n xs

abbrev pub reported : JobId → Option JobId
reported id = if id_valid id then some id else none

-- The guards of `admit`, in order: the refusal, if there is one.
unfoldable pub admission_error :
    GlobalJobQueue → StoredJob → Option (QueueErrorCode × JobSpecValidationResult)
admission_error q r =
    if not (id_valid r.id)
    then some (invalid_job_id, spec_fine)
    else if not (validation_ok (validate r.spec))
    then some (invalid_job_spec, validate r.spec)
    else if not (known_state r.state)
    then some (invalid_job_state, spec_fine)
    else if not (is_queued r.state)
    then some (job_not_queued, spec_fine)
    else if not (r.revision == 0)
    then some (invalid_job_revision, spec_fine)
    else if contains q r.id
    then some (duplicate_job, spec_fine)
    else if leb q.capacity (size q)
    then some (capacity_exceeded, spec_fine)
    else none

abbrev pub entry_of : StoredJob → QueueEntry
entry_of r = record { job_id = r.id; submit_time = r.spec.submit_time }

unfoldable pub admit : GlobalJobQueue → StoredJob → GlobalJobQueue × QueueOperationResult
admit q r = elim (admission_error q r) [
  | some (code, validation) ↦ (
    q,
    result admission_rejected code (reported r.id) (size q) (size q) q.capacity none none
        validation,
  )
  | none ↦
      let position = lower_bound (entry_of r) q.entries in
      let entries = insert_at position (entry_of r) q.entries in
      (
        record q { entries = entries },
        result admission_accepted no_error (some r.id) (size q) (length entries) q.capacity
            (some position) none spec_fine,
      )
]

unfoldable pub remove : GlobalJobQueue → JobId → GlobalJobQueue × QueueOperationResult
remove q id =
    if not (id_valid id)
    then (
      q,
      result removal_rejected invalid_job_id none (size q) (size q) q.capacity none none spec_fine,
    )
    else elim (find_id id q.entries) [
      | none ↦ (
        q,
        result removal_rejected job_not_found (some id) (size q) (size q) q.capacity none none
            spec_fine,
      )
      | some position ↦
          let entries = erase_at position q.entries in
          (
            record q { entries = entries },
            result removal_applied no_error (some id) (size q) (length entries) q.capacity
                (some position) none spec_fine,
          )
    ]

-- A refusal of `restore`: the code, the job, the item and the validation that it reports.
pub record Refusal : Type 0 where
  pub code : QueueErrorCode
  pub job_id : Option JobId
  pub item_index : Option ℕ
  pub validation : JobSpecValidationResult

abbrev pub refuse_at : QueueErrorCode → JobId → ℕ → JobSpecValidationResult → Option Refusal
refuse_at code id index validation =
    some (record {
      code = code;
      job_id = reported id;
      item_index = some index;
      validation = validation;
    })

-- The guards on one record of the snapshot, before the test of its state.
unfoldable pub record_error : StoredJob → ℕ → List JobId → Option Refusal
record_error r index seen =
    if not (id_valid r.id)
    then refuse_at invalid_job_id r.id index spec_fine
    else if not (validation_ok (validate r.spec))
    then refuse_at invalid_job_spec r.id index (validate r.spec)
    else if not (known_state r.state)
    then refuse_at invalid_job_state r.id index spec_fine
    else if is_queued r.state && not (r.revision == 0) || not (is_queued r.state) && r.revision == 0
    then refuse_at invalid_job_revision r.id index spec_fine
    else if any (λ id. id == r.id) seen
    then refuse_at duplicate_job r.id index spec_fine
    else none

pub data Restored : Type 0 where
  entries : List QueueEntry → Restored
  refused : Refusal → Restored

-- The loop over the snapshot's jobs: `seen` are the ids so far, `restored` the queued entries.
unfoldable pub restore_loop : ℕ → List StoredJob → ℕ → List JobId → List QueueEntry → Restored
restore_loop capacity [] index seen restored = entries restored
restore_loop capacity (r ∷ rest) index seen restored =
    let skip = restore_loop capacity rest (index + 1) (r.id ∷ seen) restored in
    let push = restore_loop capacity rest (index + 1) (r.id ∷ seen) (restored ++ entry_of r ∷ []) in
    elim (record_error r index seen) [
      | some refusal ↦ refused refusal
      | none ↦
          if not (is_queued r.state)
          then skip
          else if leb capacity (length restored)
          then refused (record {
            code = capacity_exceeded;
            job_id = some r.id;
            item_index = some index;
            validation = spec_fine;
          })
          else push
    ]

unfoldable pub insert_sorted : QueueEntry → List QueueEntry → List QueueEntry
insert_sorted entry [] = entry ∷ []
insert_sorted entry (x ∷ xs) =
    let further = insert_sorted entry xs in
    if entry_less x entry then x ∷ further else entry ∷ x ∷ xs

-- `std::sort(begin, end, entry_less)`.
unfoldable pub sort : List QueueEntry → List QueueEntry
sort [] = []
sort (x ∷ xs) = insert_sorted x (sort xs)

abbrev pub rejected : GlobalJobQueue → Refusal → GlobalJobQueue × QueueOperationResult
rejected q refusal = (
  q,
  result restore_rejected refusal.code refusal.job_id (size q) (size q) q.capacity none
      refusal.item_index refusal.validation,
)

unfoldable pub restore : GlobalJobQueue → StateSnapshot → GlobalJobQueue × QueueOperationResult
restore q snapshot =
    if snapshot.revision == 0 && (not (empty snapshot.jobs) || not (empty snapshot.leases))
    then rejected q (record {
      code = invalid_snapshot_revision;
      job_id = none;
      item_index = none;
      validation = spec_fine;
    })
    else elim (restore_loop q.capacity snapshot.jobs 0 [] []) [
      | refused refusal ↦ rejected q refusal
      | entries restored ↦ (
        record q { entries = sort restored },
        result restore_applied no_error none (size q) (length (sort restored)) q.capacity none none
            spec_fine,
      )
    ]
