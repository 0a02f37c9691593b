-- ===== src/Queue/Invariant.antt =====
-- What `create`, `admit`, `remove`, `front` and `contains` promise (src/queue/job_queue.cpp).
use yori.Common.{
  ℕ, ◌≤◌, ◌<◌, ◌≡◌, ap, ◌∙◌, ◌≢◌, ◌⊎◌, ◌↔◌, inl, inr, subst, true, false, none, some, List, [], ◌∷◌,
  arith,
}
use yori.Common.{length, All, nat_eq, Option-cases, head?}
use yori.Job.Spec.{JobId}
use yori.Job.Validate.{JobSpecValidationResult}
use yori.Job.Validate.Valid.{IsValidSpec, validate_iff}
use yori.Job.State.{queued}
use yori.Store.Types.{StoredJob}
use yori.Queue.Types.{GlobalJobQueue, QueueEntry, QueueErrorCode, no_error, max_capacity}
use yori.Queue.Operations.{
  admission_error, entry_of, create, front, contains, admit, remove, find_id, has_id, insert_sorted,
}
use yori.Queue.Sorted.{
  Before, IsSorted, HasDistinctIds, entry_with, without, insert_at-lower_bound, erase_at-find_id,
  find_id-none, find_id-some, insert_sorted-IsSorted, length-insert_sorted, has_id-insert_sorted,
  insert_sorted-HasDistinctIds, without-insert_sorted, insert_sorted-without, without-IsSorted,
  has_id-without, without-HasDistinctIds, length-without,
}

-- Strictly ordered by submission, one entry for each job, within a legal capacity.
pub record IsQueue (q : GlobalJobQueue) : Type 0 where
  pub capacity_set : 0 < q.capacity
  pub capacity_legal : q.capacity ≤ max_capacity
  pub within : length q.entries ≤ q.capacity
  pub sorted : IsSorted q.entries
  pub distinct : HasDistinctIds q.entries

pub create-IsQueue : (capacity : ℕ) (q : GlobalJobQueue) → (create capacity).0 ≡ some q → IsQueue q
unfolding create
create-IsQueue capacity q h = ground arith

-- What `admit` accepts.
pub record IsAdmissible (q : GlobalJobQueue) (r : StoredJob) : Type 0 where
  pub id_set : r.id ≢ 0
  pub spec_valid : IsValidSpec r.spec
  pub waiting : r.state ≡ queued
  pub untouched : r.revision ≡ 0
  pub new : has_id r.id q.entries ≡ false
  pub room : length q.entries < q.capacity

admission_error_iff :
    (q : GlobalJobQueue) (r : StoredJob) → (admission_error q r ≡ none) ↔ IsAdmissible q r
unfolding admission_error contains
admission_error_iff q r = ground (arith, validate_iff r.spec)

admission_error-ne :
    (q : GlobalJobQueue) (r : StoredJob) {code : QueueErrorCode} {v : JobSpecValidationResult}
    → admission_error q r ≡ some (code, v)
    → code ≢ no_error
unfolding admission_error
admission_error-ne q r h e = ground arith

-- `admit` inserts a job that meets all its conditions at its place in the order and reports no
-- error; a job that does not meet them is refused with an error and the queue is unchanged.
pub admit_cases :
    (q : GlobalJobQueue) (r : StoredJob)
    → (IsAdmissible q r
        × ((admit q r).1.code ≡ no_error)
        × ((admit q r).0 ≡ record q { entries = insert_sorted (entry_of r) q.entries }))
      ⊎ ((¬ IsAdmissible q r) × ((admit q r).1.code ≢ no_error) × ((admit q r).0 ≡ q))
unfolding admit
admit_cases q r = elim (Option-cases (admission_error q r)) [
  | inl e ↦ inl (
    (admission_error_iff q r).0 e,
    rw (e, admit),
    rw (e, admit) (ground (arith, insert_at-lower_bound (entry_of r) q.entries)),
  )
  | inr ((code, v), e) ↦ inr (
    (λ a. ground (arith, (admission_error_iff q r).1 a)),
    rw (e, admit) (admission_error-ne q r e),
    rw (e, admit),
  )
]

-- `remove` takes out the entry of an id that is set and queued, and reports no error; for any other
-- id it reports an error and the queue is unchanged.
pub remove_cases :
    (q : GlobalJobQueue) (id : JobId)
    → (((id ≢ 0) × (has_id id q.entries ≡ true))
        × ((remove q id).1.code ≡ no_error)
        × ((remove q id).0 ≡ record q { entries = without id q.entries }))
      ⊎ (((id ≡ 0) ⊎ (has_id id q.entries ≡ false))
          × ((remove q id).1.code ≢ no_error)
          × ((remove q id).0 ≡ q))
unfolding remove
remove_cases q id = elim (Option-cases (find_id id q.entries)) [
  | inl e ↦ ground (arith, find_id-none id q.entries)
  | inr (n, e) ↦ ground (arith, find_id-some id n q.entries, erase_at-find_id id n q.entries)
]

-- `admit`, whatever it answers, keeps a queue ordered by submission, without duplicates and within
-- a legal capacity.
pub admit-IsQueue : (q : GlobalJobQueue) (r : StoredJob) → IsQueue q → IsQueue (admit q r).0
admit-IsQueue q r v = elim (admit_cases q r) [
  | inr (_, _, e) ↦ rw e v
  | inl (a, _, e) ↦ rw e (record {
    capacity_set = v.capacity_set;
    capacity_legal = v.capacity_legal;
    within = omega (arith, length-insert_sorted (entry_of r) q.entries, a.room);
    sorted = insert_sorted-IsSorted (entry_of r) q.entries a.new v.sorted;
    distinct = insert_sorted-HasDistinctIds (entry_of r) q.entries a.new v.distinct;
  })
]

-- `remove`, whatever it answers, keeps a queue ordered by submission, without duplicates and within
-- a legal capacity.
pub remove-IsQueue : (q : GlobalJobQueue) (id : JobId) → IsQueue q → IsQueue (remove q id).0
remove-IsQueue q id v = elim (remove_cases q id) [
  | inr (_, _, e) ↦ rw e v
  | inl (h, _, e) ↦ rw e (record {
    capacity_set = v.capacity_set;
    capacity_legal = v.capacity_legal;
    within = omega (arith, length-without id q.entries h.1, v.within);
    sorted = without-IsSorted id q.entries v.sorted;
    distinct = without-HasDistinctIds id q.entries v.distinct;
  })
]

-- Where `admit` accepted a job, removing it again gives the queue back as it was.
pub remove-admit :
    (q : GlobalJobQueue) (r : StoredJob)
    → (admit q r).1.code ≡ no_error
    → (remove (admit q r).0 r.id).0 ≡ q
remove-admit q r h = elim (admit_cases q r) [
  | inr (_, bad, _) ↦ absurd (bad h)
  | inl (a, _, e) ↦
      let present = has_id-insert_sorted r.id (entry_of r) q.entries in
      let back = without-insert_sorted (entry_of r) q.entries a.new in
      ground (arith, e, remove_cases (admit q r).0 r.id, present, back, a.id_set)
]

pub entry_with-has_id :
    (id : JobId) (e : QueueEntry) (xs : List QueueEntry)
    → entry_with id xs ≡ some e
    → has_id id xs ≡ true
entry_with-has_id id e [] h = cc
entry_with-has_id id e (x ∷ xs) h = ground (arith, entry_with-has_id id e xs)

front_of :
    (xs : List QueueEntry) (e : QueueEntry)
    → IsSorted xs
    → head? xs ≡ some e
    → (rest : List QueueEntry) × (xs ≡ e ∷ rest) × All (Before e) rest
front_of [] e s h = cc
front_of (x ∷ xs) e s h =
    let same : x ≡ e = ground arith in
    (xs, ap (λ y. y ∷ xs) same, subst (λ y. All (Before y) xs) same s.0)

-- Removing a job that waits in a sound queue under its own submission time and admitting it again
-- succeeds and gives the queue back, if its id is set, its specification valid, its state queued
-- and its revision 0.
pub admit-remove :
    (q : GlobalJobQueue) (r : StoredJob)
    → IsQueue q
    → r.id ≢ 0
    → IsValidSpec r.spec
    → r.state ≡ queued
    → r.revision ≡ 0
    → entry_with r.id q.entries ≡ some (entry_of r)
    → ((admit (remove q r.id).0 r).1.code ≡ no_error) × ((admit (remove q r.id).0 r).0 ≡ q)
admit-remove q r v set valid waiting untouched there =
    let present : has_id r.id q.entries ≡ true =
      entry_with-has_id r.id (entry_of r) q.entries there in
    let shorter = length-without r.id q.entries present in
    elim (remove_cases q r.id) [
      | inr (absent, _, _) ↦ absurd (ground arith)
      | inl (_, _, e) ↦
          let rest : GlobalJobQueue = record q { entries = without r.id q.entries } in
          let fits : IsAdmissible rest r = record {
            id_set = set;
            spec_valid = valid;
            waiting = waiting;
            untouched = untouched;
            new = ground (arith, has_id-without r.id r.id q.entries v.distinct);
            room = omega (arith, shorter, v.within);
          } in
          rw e (elim (admit_cases rest r) [
            | inr (refused, _, _) ↦ absurd (refused fits)
            | inl (_, good, back) ↦ (
              good,
              back
                  ∙ ap (λ xs. record q { entries = xs })
                      (insert_sorted-without (entry_of r) q.entries v.sorted there),
            )
          ])
    ]

-- In a sound queue, `front` is the first entry and stands before every other one in the order of
-- submission time and id.
pub front-Before :
    (q : GlobalJobQueue) (e : QueueEntry)
    → IsQueue q
    → front q ≡ some e
    → (rest : List QueueEntry) × (q.entries ≡ e ∷ rest) × All (Before e) rest
unfolding front
front-Before q e v h = front_of q.entries e v.sorted h
