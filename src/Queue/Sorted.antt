-- ===== src/Queue/Sorted.antt =====
-- Sorted queues as lists: insertion, removal and lookup by id (src/queue/job_queue.cpp).
use yori.Common.{ℕ, suc, ◌≡◌, refl, inl, inr, true, false, Option, none, some, List, [], ◌∷◌, arith}
use yori.Common.{length, All, All-map, ◌==◌, nat_eq, if◌then◌else◌, Bool-cases, Option-cases}
use yori.Job.Spec.{JobId}
use yori.Queue.Types.{QueueEntry, entry_less}
use yori.Queue.Operations.{lower_bound, insert_at, insert_sorted, find_id, erase_at, has_id}
use yori.Queue.Order.{entry_less_trans, entry_less_asymm, entry_less_connex}

abbrev pub Before : QueueEntry → QueueEntry → Type 0
Before x y = entry_less x y ≡ true

-- Every entry stands before all that follow it.
abbrev pub IsSorted : List QueueEntry → Type 0
IsSorted [] = Unit
IsSorted (x ∷ xs) = All (Before x) xs × IsSorted xs

-- No id twice.
abbrev pub HasDistinctIds : List QueueEntry → Type 0
HasDistinctIds [] = Unit
HasDistinctIds (x ∷ xs) = (has_id x.job_id xs ≡ false) × HasDistinctIds xs

-- The entry with an id.
abbrev pub entry_with : JobId → List QueueEntry → Option QueueEntry
entry_with id [] = none
entry_with id (x ∷ xs) = if x.job_id == id then some x else entry_with id xs

-- The entries without those of an id.
abbrev pub without : JobId → List QueueEntry → List QueueEntry
without id [] = []
without id (x ∷ xs) = if x.job_id == id then xs else x ∷ without id xs

pub insert_at-lower_bound :
    (e : QueueEntry) (xs : List QueueEntry) → insert_at (lower_bound e xs) e xs ≡ insert_sorted e xs
unfolding insert_at lower_bound insert_sorted
insert_at-lower_bound e [] = refl
insert_at-lower_bound e (x ∷ xs) = ground (arith, insert_at-lower_bound e xs)

pub erase_at-find_id :
    (id : JobId) (n : ℕ) (xs : List QueueEntry)
    → find_id id xs ≡ some n
    → erase_at n xs ≡ without id xs
unfolding find_id erase_at
erase_at-find_id id n [] h = cc
erase_at-find_id id n (x ∷ xs) h = elim (Option-cases (find_id id xs)) [
  | inl e ↦ ground arith
  | inr (k, e) ↦ ground (arith, erase_at-find_id id k xs e)
]

pub find_id-none : (id : JobId) (xs : List QueueEntry) → find_id id xs ≡ none → has_id id xs ≡ false
unfolding find_id
find_id-none id [] h = refl
find_id-none id (x ∷ xs) h = ground (arith, find_id-none id xs)

pub find_id-some :
    (id : JobId) (n : ℕ) (xs : List QueueEntry) → find_id id xs ≡ some n → has_id id xs ≡ true
unfolding find_id
find_id-some id n [] h = cc
find_id-some id n (x ∷ xs) h = elim (Option-cases (find_id id xs)) [
  | inl e ↦ ground arith
  | inr (k, e) ↦ ground (arith, find_id-some id k xs e)
]

insert_sorted-All :
    (P : QueueEntry → Type 0) (e : QueueEntry) (xs : List QueueEntry)
    → P e
    → All P xs
    → All P (insert_sorted e xs)
unfolding insert_sorted
insert_sorted-All P e [] p h = (p, tt)
insert_sorted-All P e (x ∷ xs) p h = elim (Bool-cases (entry_less x e)) [
  | inl lt ↦ rw lt (h.0, insert_sorted-All P e xs p h.1)
  | inr ge ↦ rw ge (p, h)
]

pub insert_sorted-IsSorted :
    (e : QueueEntry) (xs : List QueueEntry)
    → has_id e.job_id xs ≡ false
    → IsSorted xs
    → IsSorted (insert_sorted e xs)
unfolding insert_sorted
insert_sorted-IsSorted e [] new s = (tt, tt)
insert_sorted-IsSorted e (x ∷ xs) new s = elim (Bool-cases (entry_less x e)) [
  | inl lt ↦
      rw lt
        (insert_sorted-All (Before x) e xs lt s.0, insert_sorted-IsSorted e xs (ground arith) s.1)
  | inr ge ↦
      let first : Before e x = entry_less_connex x e (ground arith) ge in
      rw ge ((first, All-map (Before x) (Before e) xs (λ y. entry_less_trans e x y first) s.0), s)
]

pub length-insert_sorted :
    (e : QueueEntry) (xs : List QueueEntry) → length (insert_sorted e xs) ≡ suc (length xs)
unfolding insert_sorted
length-insert_sorted e [] = refl
length-insert_sorted e (x ∷ xs) = ground (arith, length-insert_sorted e xs)

pub has_id-insert_sorted :
    (id : JobId) (e : QueueEntry) (xs : List QueueEntry)
    → has_id id (insert_sorted e xs) ≡ (if e.job_id == id then true else has_id id xs)
unfolding insert_sorted
has_id-insert_sorted id e [] = ground arith
has_id-insert_sorted id e (x ∷ xs) = ground (arith, has_id-insert_sorted id e xs)

pub insert_sorted-HasDistinctIds :
    (e : QueueEntry) (xs : List QueueEntry)
    → has_id e.job_id xs ≡ false
    → HasDistinctIds xs
    → HasDistinctIds (insert_sorted e xs)
unfolding insert_sorted
insert_sorted-HasDistinctIds e [] new d = (refl, tt)
insert_sorted-HasDistinctIds e (x ∷ xs) new d =
    ground (arith, insert_sorted-HasDistinctIds e xs, has_id-insert_sorted x.job_id e xs)

-- An entry that was inserted is found under its id, and the others as before.
pub entry_with-insert_sorted :
    (id : JobId) (e : QueueEntry) (xs : List QueueEntry)
    → has_id e.job_id xs ≡ false
    → entry_with id (insert_sorted e xs) ≡ (if e.job_id == id then some e else entry_with id xs)
unfolding insert_sorted
entry_with-insert_sorted id e [] new = refl
entry_with-insert_sorted id e (x ∷ xs) new = ground (arith, entry_with-insert_sorted id e xs)

pub without-insert_sorted :
    (e : QueueEntry) (xs : List QueueEntry)
    → has_id e.job_id xs ≡ false
    → without e.job_id (insert_sorted e xs) ≡ xs
unfolding insert_sorted
without-insert_sorted e [] new = ground arith
without-insert_sorted e (x ∷ xs) new = ground (arith, without-insert_sorted e xs)

entry_with-Before :
    (x e : QueueEntry) (id : JobId) (xs : List QueueEntry)
    → All (Before x) xs
    → entry_with id xs ≡ some e
    → Before x e
entry_with-Before x e id [] a h = cc
entry_with-Before x e id (y ∷ ys) a h = ground (arith, entry_with-Before x e id ys)

insert_sorted-first :
    (e : QueueEntry) (xs : List QueueEntry) → All (Before e) xs → insert_sorted e xs ≡ e ∷ xs
unfolding insert_sorted
insert_sorted-first e [] a = refl
insert_sorted-first e (x ∷ xs) a = ground (arith, entry_less_asymm e x)

-- Taking an entry out of a sorted queue and putting it back restores the queue.
pub insert_sorted-without :
    (e : QueueEntry) (xs : List QueueEntry)
    → IsSorted xs
    → entry_with e.job_id xs ≡ some e
    → insert_sorted e (without e.job_id xs) ≡ xs
unfolding insert_sorted
insert_sorted-without e [] s h = cc
insert_sorted-without e (x ∷ xs) s h = ground (
  arith,
  insert_sorted-first e xs,
  insert_sorted-without e xs s.1,
  entry_with-Before x e e.job_id xs,
)

without-All :
    (P : QueueEntry → Type 0) (id : JobId) (xs : List QueueEntry) → All P xs → All P (without id xs)
without-All P id [] h = tt
without-All P id (x ∷ xs) h = elim (Bool-cases (x.job_id == id)) [
  | inl hit ↦ rw hit h.1
  | inr miss ↦ rw miss (h.0, without-All P id xs h.1)
]

pub without-IsSorted : (id : JobId) (xs : List QueueEntry) → IsSorted xs → IsSorted (without id xs)
without-IsSorted id [] s = tt
without-IsSorted id (x ∷ xs) s = elim (Bool-cases (x.job_id == id)) [
  | inl hit ↦ rw hit s.1
  | inr miss ↦ rw miss (without-All (Before x) id xs s.0, without-IsSorted id xs s.1)
]

pub has_id-without :
    (i id : JobId) (xs : List QueueEntry)
    → HasDistinctIds xs
    → has_id i (without id xs) ≡ (if id == i then false else has_id i xs)
has_id-without i id [] d = ground arith
has_id-without i id (x ∷ xs) d = ground (arith, has_id-without i id xs)

pub without-HasDistinctIds :
    (id : JobId) (xs : List QueueEntry) → HasDistinctIds xs → HasDistinctIds (without id xs)
without-HasDistinctIds id [] d = tt
without-HasDistinctIds id (x ∷ xs) d =
    ground (arith, without-HasDistinctIds id xs, has_id-without x.job_id id xs)

pub length-without :
    (id : JobId) (xs : List QueueEntry)
    → has_id id xs ≡ true
    → suc (length (without id xs)) ≡ length xs
length-without id [] h = cc
length-without id (x ∷ xs) h = ground (arith, length-without id xs)
