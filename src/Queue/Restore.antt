-- ===== src/Queue/Restore.antt =====
-- What `restore` promises (src/queue/job_queue.cpp).
use yori.Common.{
  ℕ, ◌+◌, ◌≤◌, ◌≡◌, refl, ◌≢◌, ◌⊎◌, inl, inr, false, none, some, List, [], ◌∷◌, ◌++◌, arith,
}
use mathlib.Core.List.{append-nil, append_assoc}
use yori.Common.{length, length-append, any, All, ◌==◌, nat_eq, if◌then◌else◌}
use yori.Job.Spec.{JobId}
use yori.Store.Types.{StoredJob, StateSnapshot}
use yori.Store.Execution.{is_queued}
use yori.Queue.Types.{GlobalJobQueue, QueueEntry, no_error}
use yori.Queue.Operations.{
  entry_of, has_id, sort, Refusal, record_error, Restored, entries, refused, restore_loop, restore,
}
use yori.Queue.Sorted.{
  IsSorted, HasDistinctIds, entry_with, insert_sorted-IsSorted, length-insert_sorted,
  has_id-insert_sorted, insert_sorted-HasDistinctIds, entry_with-insert_sorted,
}
use yori.Queue.Invariant.{IsQueue}

-- The queued jobs of a snapshot, in its order.
abbrev pub waiting : List StoredJob → List QueueEntry
waiting [] = []
waiting (r ∷ rest) = if is_queued r.state then entry_of r ∷ waiting rest else waiting rest

Restored-cases :
    (o : Restored) → ((es : List QueueEntry) × (o ≡ entries es)) ⊎ ((r : Refusal) × (o ≡ refused r))
Restored-cases (entries es) = inl (es, refl)
Restored-cases (refused r) = inr (r, refl)

-- No job of the list has an id of `seen`.
abbrev Unseen : List JobId → List StoredJob → Type 0
Unseen seen jobs = All (λ r. any (λ id. id == r.id) seen ≡ false) jobs

record_error-none :
    (r : StoredJob) (index : ℕ) (seen : List JobId)
    → record_error r index seen ≡ none
    → any (λ id. id == r.id) seen ≡ false
unfolding record_error
record_error-none r index seen h = ground arith

-- No id twice among the jobs.
abbrev pub DistinctJobs : List StoredJob → Type 0
DistinctJobs [] = Unit
DistinctJobs (r ∷ rest) = All (λ s. (r.id == s.id) ≡ false) rest × DistinctJobs rest

Unseen-cons :
    (id : JobId) (seen : List JobId) (jobs : List StoredJob)
    → Unseen (id ∷ seen) jobs
    → All (λ s. (id == s.id) ≡ false) jobs × Unseen seen jobs
Unseen-cons id seen [] h = (tt, tt)
Unseen-cons id seen (r ∷ rest) h = ground (arith, Unseen-cons id seen rest h.1)

-- What the loop returns when it refuses nothing.
restore_loop_lem :
    (capacity : ℕ) (jobs : List StoredJob) (index : ℕ) (seen : List JobId)
    (restored result : List QueueEntry)
    → restore_loop capacity jobs index seen restored ≡ entries result
    → length restored ≤ capacity
    → (result ≡ restored ++ waiting jobs)
      × (length result ≤ capacity)
      × Unseen seen jobs
      × DistinctJobs jobs
unfolding restore_loop
restore_loop_lem capacity [] index seen restored result h room = ground (arith, append-nil restored)
restore_loop_lem capacity (r ∷ rest) index seen restored result h room = ground (
  arith,
  record_error-none r index seen,
  restore_loop_lem capacity rest (index + 1) (r.id ∷ seen) restored result,
  restore_loop_lem capacity rest (index + 1) (r.id ∷ seen) (restored ++ entry_of r ∷ []) result,
  Unseen-cons r.id seen rest,
  length-append restored (entry_of r ∷ []),
  append_assoc restored (entry_of r ∷ []) (waiting rest),
)

has_id-waiting :
    (id : JobId) (jobs : List StoredJob)
    → All (λ s. (id == s.id) ≡ false) jobs
    → has_id id (waiting jobs) ≡ false
has_id-waiting id [] h = refl
has_id-waiting id (r ∷ rest) h = ground (arith, has_id-waiting id rest h.1)

waiting-HasDistinctIds : (jobs : List StoredJob) → DistinctJobs jobs → HasDistinctIds (waiting jobs)
waiting-HasDistinctIds [] d = tt
waiting-HasDistinctIds (r ∷ rest) d =
    ground (arith, waiting-HasDistinctIds rest d.1, has_id-waiting r.id rest d.0)

has_id-sort : (id : JobId) (xs : List QueueEntry) → has_id id (sort xs) ≡ has_id id xs
unfolding sort
has_id-sort id [] = refl
has_id-sort id (x ∷ xs) = ground (arith, has_id-insert_sorted id x (sort xs), has_id-sort id xs)

entry_with-sort :
    (id : JobId) (xs : List QueueEntry)
    → HasDistinctIds xs
    → entry_with id (sort xs) ≡ entry_with id xs
unfolding sort
entry_with-sort id [] d = refl
entry_with-sort id (x ∷ xs) d = ground (
  arith,
  has_id-sort x.job_id xs,
  entry_with-insert_sorted id x (sort xs),
  entry_with-sort id xs d.1,
)

length-sort : (xs : List QueueEntry) → length (sort xs) ≡ length xs
unfolding sort
length-sort [] = refl
length-sort (x ∷ xs) = ground (arith, length-insert_sorted x (sort xs), length-sort xs)

sort-IsSorted :
    (xs : List QueueEntry) → HasDistinctIds xs → IsSorted (sort xs) × HasDistinctIds (sort xs)
unfolding sort
sort-IsSorted [] d = (tt, tt)
sort-IsSorted (x ∷ xs) d =
    let (s, t) = sort-IsSorted xs d.1 in
    let new : has_id x.job_id (sort xs) ≡ false = rw (has_id-sort x.job_id xs) d.0 in
    (insert_sorted-IsSorted x (sort xs) new s, insert_sorted-HasDistinctIds x (sort xs) new t)

record_error-ne :
    (r : StoredJob) (index : ℕ) (seen : List JobId) (f : Refusal)
    → record_error r index seen ≡ some f
    → f.code ≢ no_error
unfolding record_error
record_error-ne r index seen f h = ground arith

restore_loop-ne :
    (capacity : ℕ) (jobs : List StoredJob) (index : ℕ) (seen : List JobId)
    (restored : List QueueEntry) (f : Refusal)
    → restore_loop capacity jobs index seen restored ≡ refused f
    → f.code ≢ no_error
unfolding restore_loop
restore_loop-ne capacity [] index seen restored f h = λ e. cc
restore_loop-ne capacity (r ∷ rest) index seen restored f h = ground (
  arith,
  record_error-ne r index seen f,
  restore_loop-ne capacity rest (index + 1) (r.id ∷ seen) restored f,
  restore_loop-ne capacity rest (index + 1) (r.id ∷ seen) (restored ++ entry_of r ∷ []) f,
)

-- `restore` either puts the waiting jobs in order in place of the entries, or changes nothing.
pub restore_cases :
    (q : GlobalJobQueue) (snapshot : StateSnapshot)
    → (((restore q snapshot).1.code ≡ no_error)
        × (restore_loop q.capacity snapshot.jobs 0 [] [] ≡ entries (waiting snapshot.jobs))
        × ((restore q snapshot).0 ≡ record q { entries = sort (waiting snapshot.jobs) }))
      ⊎ (((restore q snapshot).1.code ≢ no_error) × ((restore q snapshot).0 ≡ q))
unfolding restore
restore_cases q snapshot = elim (Restored-cases (restore_loop q.capacity snapshot.jobs 0 [] [])) [
  | inl (result, e) ↦
      let facts = restore_loop_lem q.capacity snapshot.jobs 0 [] [] result e (omega arith) in
      ground arith
  | inr (refusal, e) ↦ ground (arith, restore_loop-ne q.capacity snapshot.jobs 0 [] [] refusal)
]

-- A restoration that is accepted holds exactly the queued jobs of the snapshot, each under its id
-- with its submission time; one that is refused leaves the queue as it was.
pub restore_rebuilds :
    (q : GlobalJobQueue) (snapshot : StateSnapshot)
    → (((restore q snapshot).1.code ≡ no_error)
        × ((restore q snapshot).0.capacity ≡ q.capacity)
        × ((id : JobId)
            → entry_with id (restore q snapshot).0.entries ≡ entry_with id (waiting snapshot.jobs)))
      ⊎ (((restore q snapshot).1.code ≢ no_error) × ((restore q snapshot).0 ≡ q))
restore_rebuilds q snapshot = elim (restore_cases q snapshot) [
  | inr h ↦ inr h
  | inl (good, loop, e) ↦
      let (_, _, _, distinct) =
        restore_loop_lem q.capacity snapshot.jobs 0 [] [] _ loop (omega arith) in
      inl (
        good,
        rw e,
        λ id. rw e (
            entry_with-sort id (waiting snapshot.jobs)
              (waiting-HasDistinctIds snapshot.jobs distinct)),
      )
]

-- `restore`, whatever it answers, keeps a queue ordered by submission, without duplicates and within
-- a legal capacity.
pub restore-IsQueue :
    (q : GlobalJobQueue) (snapshot : StateSnapshot) → IsQueue q → IsQueue (restore q snapshot).0
restore-IsQueue q snapshot v = elim (restore_cases q snapshot) [
  | inr (_, e) ↦ rw e v
  | inl (_, loop, e) ↦
      let (_, room, _, distinct) =
        restore_loop_lem q.capacity snapshot.jobs 0 [] [] _ loop (omega arith) in
      let (s, d) =
        sort-IsSorted (waiting snapshot.jobs) (waiting-HasDistinctIds snapshot.jobs distinct) in
      rw e (record {
        capacity_set = v.capacity_set;
        capacity_legal = v.capacity_legal;
        within = omega (arith, length-sort (waiting snapshot.jobs), room);
        sorted = s;
        distinct = d;
      })
]
