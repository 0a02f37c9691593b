-- ===== src/Scheduler/Agree.antt =====
-- What the agreement of queue and store says of the selected job
-- (src/scheduler/scheduler.cpp, the first half of `run_once`).
use yori.Common.{
  ℕ, zero, suc, ◌+◌, ◌<◌, ◌≡◌, sym, ap, subst, ◌≢◌, ◌⊎◌, inl, inr, true, none, some, List, [], ◌∷◌,
  ◌++◌, arith,
}
use yori.Common.{All, take, Bool-cases, nat_eq, nat_beq_iff, int_eq}
use yori.Common.Map.{find, emplace, nat_less}
use yori.Job.Spec.{JobId}
use yori.Job.Validate.Valid.{IsValidSpec}
use yori.Job.State.{queued}
use yori.Store.Types.{StoredJob}
use yori.Store.Execution.{is_queued}
use yori.Queue.Types.{QueueEntry, queue_ok}
use yori.Queue.Operations.{has_id}
use yori.Queue.Sorted.{HasDistinctIds, entry_with}
use yori.Scheduler.Queued.{RecordMap, collect_queued, entry_error, find_divergence}

-- What a store promises of the records it loads.
pub record IsLoaded (r : StoredJob) : Type 0 where
  pub id_set : r.id ≢ 0
  pub spec_valid : IsValidSpec r.spec

pub record IsCollected (id : JobId) (r : StoredJob) : Type 0 where
  pub keyed : r.id ≡ id
  pub waiting : r.state ≡ queued
  pub loaded : IsLoaded r

abbrev pub AreCollected : RecordMap → Type 0
AreCollected records = (id : JobId) (r : StoredJob) → find id records ≡ some r → IsCollected id r

is_queued_lem : (r : StoredJob) → is_queued r.state ≡ true → r.state ≡ queued
is_queued_lem r h = ground arith

find-emplace_old :
    (k j : JobId) (v w : StoredJob) (m : RecordMap)
    → find j (emplace k v m) ≡ some w
    → ((k ≡ j) × (w ≡ v)) ⊎ (find j m ≡ some w)
unfolding find emplace
find-emplace_old k j v w [] h = ground (arith, nat_beq_iff k j)
find-emplace_old k j v w ((i, u) ∷ m) h =
    ground (arith, find-emplace_old k j v w m, nat_beq_iff i k, nat_beq_iff i j, nat_beq_iff k j)

pub collect_queued-IsCollected :
    (jobs : List StoredJob) (records : RecordMap)
    → All IsLoaded jobs
    → AreCollected records
    → AreCollected (collect_queued jobs records)
unfolding collect_queued
collect_queued-IsCollected [] records l c = c
collect_queued-IsCollected (j ∷ jobs) records (l, ls) c = elim (Bool-cases (is_queued j.state)) [
  | inr f ↦ rw (f, collect_queued) (collect_queued-IsCollected jobs records ls c)
  | inl t ↦
      rw (t, collect_queued)
        (collect_queued-IsCollected jobs (emplace j.id j records) ls (λ id r h.
          elim (find-emplace_old j.id id j r records h) [
            | inl (k, e) ↦
                subst (λ x. IsCollected id x) (sym e)
                  (record { keyed = k; waiting = is_queued_lem j t; loaded = l })
            | inr old ↦ c id r old
          ]))
]

-- The entry has the record's submission time, and the record was never changed.
abbrev pub Agrees : RecordMap → QueueEntry → Type 0
Agrees records e =
    (r : StoredJob)
    → find e.job_id records ≡ some r
    → (r.spec.submit_time ≡ e.submit_time) × (r.revision ≡ 0)

entry_error-none :
    (records : RecordMap) (window index : ℕ) (e : QueueEntry)
    → index < window
    → queue_ok (entry_error records window index e) ≡ true
    → Agrees records e
unfolding entry_error
entry_error-none records window index e h k r f = ground (arith, f)

divergence_cons :
    (records : RecordMap) (window index : ℕ) (x : QueueEntry) (xs : List QueueEntry)
    → find_divergence records window index (x ∷ xs) ≡ none
    → (queue_ok (entry_error records window index x) ≡ true)
      × (find_divergence records window (index + 1) xs ≡ none)
unfolding find_divergence
divergence_cons records window index x xs h =
    elim (Bool-cases (queue_ok (entry_error records window index x))) [
      | inl t ↦ (t, ground arith)
      | inr f ↦ absurd (ground arith)
    ]

pub find_divergence-none :
    (records : RecordMap) (n index : ℕ) (xs : List QueueEntry)
    → find_divergence records (index + n) index xs ≡ none
    → All (Agrees records) (take n xs)
unfolding find_divergence
find_divergence-none records zero index xs h = tt
find_divergence-none records (suc n) index [] h = tt
find_divergence-none records (suc n) index (x ∷ xs) h =
    let shift : index + suc n ≡ (index + 1) + n = omega arith in
    let (here, later) = divergence_cons records (index + suc n) index x xs h in
    (
      entry_error-none records (index + suc n) index x (omega arith) here,
      find_divergence-none records n (index + 1) xs
          (subst (λ w. find_divergence records w (index + 1) xs ≡ none) shift later),
    )

pub All-middle :
    {A : Type 0} (P : A → Type 0) (xs : List A) (y : A) (ys : List A) → All P (xs ++ y ∷ ys) → P y
All-middle P [] y ys h = h.0
All-middle P (x ∷ xs) y ys h = All-middle P xs y ys h.1

has_id-take :
    (n : ℕ) (xs before : List QueueEntry) (e : QueueEntry) (after : List QueueEntry)
    → take n xs ≡ before ++ e ∷ after
    → has_id e.job_id xs ≡ true
has_id-take zero xs [] e after h = cc
has_id-take zero xs (b ∷ before) e after h = cc
has_id-take (suc n) [] [] e after h = cc
has_id-take (suc n) [] (b ∷ before) e after h = cc
has_id-take (suc n) (x ∷ xs) [] e after h =
    let same : x ≡ e = cc in ground (arith, ap (λ y. y.job_id) same)
has_id-take (suc n) (x ∷ xs) (b ∷ before) e after h =
    let same : take n xs ≡ before ++ e ∷ after = cc in
    ground (arith, has_id-take n xs before e after same)

-- An entry of the window is the entry with its id.
pub entry_with-take :
    (n : ℕ) (xs before : List QueueEntry) (e : QueueEntry) (after : List QueueEntry)
    → HasDistinctIds xs
    → take n xs ≡ before ++ e ∷ after
    → entry_with e.job_id xs ≡ some e
entry_with-take zero xs [] e after u h = cc
entry_with-take zero xs (b ∷ before) e after u h = cc
entry_with-take (suc n) [] [] e after u h = cc
entry_with-take (suc n) [] (b ∷ before) e after u h = cc
entry_with-take (suc n) (x ∷ xs) [] e after u h =
    let same : x ≡ e = cc in ground (arith, ap (λ y. y.job_id) same, same)
entry_with-take (suc n) (x ∷ xs) (b ∷ before) e after u h =
    let same : take n xs ≡ before ++ e ∷ after = cc in
    ground
      (arith, entry_with-take n xs before e after u.1 same, has_id-take n xs before e after same)

pub nothing_collected : AreCollected []
unfolding find
nothing_collected id r h = cc
