-- ===== src/Service/Handle/Visible/Lists.antt =====
-- The lists of jobs show of others' jobs what is public (src/ipc/ipc_service.cpp).
use yori.Common.{
  ℕ, zero, suc, ◌≡◌, refl, ap, ◌∙◌, Bool, true, false, Option, none, some, List, [], ◌∷◌, map, inl,
  inr, arith,
}
use yori.Common.{
  take, length, All, All-map, ◌==◌, nat_eq, nat_beq_iff, int_eq, if◌then◌else◌, Bool-cases,
  Option-cases,
}
use yori.Job.Spec.{JobId}
use yori.Store.Types.{StoredJob}
use yori.Store.Execution.{is_queued}
use yori.Scheduler.Types.{ScheduleSkip, ScheduleEvaluation}
use yori.Service.{PeerCredentials, IpcService, is_admin, is_denied}
use yori.Service.Lists.{
  shown_to, find_skip, skip_of, reason_of, target_of, summary_of, handle_ps, submitted_before,
  insert_record, sort_records, queued_jobs, entry_of, handle_queue,
}
use yori.Service.Handle.Visible.{
  visible_job, owns_id, visible_skip, visible_schedule, visible_to, visible_mine, visible_public,
}

-- What is seen of an entry of the schedule.
abbrev seen : PeerCredentials → List StoredJob → Option ScheduleSkip → Option ScheduleSkip
seen peer jobs none = none
seen peer jobs (some skip) = some (visible_skip peer jobs skip)

find_skip-visible :
    (peer : PeerCredentials) (jobs : List StoredJob) (skips : List ScheduleSkip) (id : JobId)
    → find_skip (map (visible_skip peer jobs) skips) id ≡ seen peer jobs (find_skip skips id)
unfolding find_skip
find_skip-visible peer jobs [] id = refl
find_skip-visible peer jobs (skip ∷ rest) id = ground (arith, find_skip-visible peer jobs rest id)

skip_of-visible :
    (peer : PeerCredentials) (jobs : List StoredJob) (schedule : Option ScheduleEvaluation)
    (id : JobId)
    → skip_of (visible_schedule peer jobs schedule) id ≡ seen peer jobs (skip_of schedule id)
skip_of-visible peer jobs none id = refl
skip_of-visible peer jobs (some evaluation) id = find_skip-visible peer jobs evaluation.skipped id

reason_of-seen :
    (peer : PeerCredentials) (jobs : List StoredJob) (skip : Option ScheduleSkip)
    → reason_of (seen peer jobs skip) ≡ reason_of skip
reason_of-seen peer jobs none = refl
reason_of-seen peer jobs (some skip) = ground arith

-- The entry that is found is that of the job.
find_skip_id :
    (skips : List ScheduleSkip) (id : JobId) (skip : ScheduleSkip)
    → find_skip skips id ≡ some skip
    → skip.job ≡ id
unfolding find_skip
find_skip_id [] id skip h = cc
find_skip_id (s ∷ rest) id skip h = ground (arith, find_skip_id rest id skip, nat_beq_iff s.job id)

skip_of_id :
    (schedule : Option ScheduleEvaluation) (id : JobId) (skip : ScheduleSkip)
    → skip_of schedule id ≡ some skip
    → skip.job ≡ id
skip_of_id none id skip h = cc
skip_of_id (some evaluation) id skip h = find_skip_id evaluation.skipped id skip h

-- A client's own job is one that the client owns in the store.
abbrev IsListed : PeerCredentials → List StoredJob → StoredJob → Type 0
IsListed peer jobs r = (r.spec.owner_uid == peer.uid) ≡ true → owns_id peer jobs r.id ≡ true

target_of-visible :
    (service : IpcService) (peer : PeerCredentials) (r : StoredJob)
    → is_admin service.config peer ≡ false
    → IsListed peer service.load.snapshot.jobs r
    → target_of (is_denied service peer r) (skip_of (visible_to peer service).schedule_source r.id)
      ≡ target_of (is_denied service peer r) (skip_of service.schedule_source r.id)
target_of-visible service peer r h listed =
    let jobs = service.load.snapshot.jobs in
    let e = skip_of-visible peer jobs service.schedule_source r.id in
    elim (Bool-cases (r.spec.owner_uid == peer.uid)) [
      | inr other ↦ rw (other, h) refl
      | inl mine ↦ elim (Option-cases (skip_of service.schedule_source r.id)) [
        | inl f ↦ rw (e, f) refl
        | inr (skip, f) ↦
            let id = skip_of_id service.schedule_source r.id skip f in
            let owned = listed mine in rw (e, f, id, owned) refl
      ]
    ]

pub denied-visible :
    (service : IpcService) (peer : PeerCredentials) (r : StoredJob)
    → is_denied (visible_to peer service) peer (visible_job peer r) ≡ is_denied service peer r
denied-visible service peer r = let (_, _, _, owner, _, _) = visible_public peer r in rw owner refl

entry_of-visible :
    (service : IpcService) (peer : PeerCredentials) (r : StoredJob)
    → is_admin service.config peer ≡ false
    → IsListed peer service.load.snapshot.jobs r
    → entry_of (visible_to peer service) peer (visible_job peer r) ≡ entry_of service peer r
unfolding entry_of
entry_of-visible service peer r h listed =
    let (id, state, revision, owner, time, exit) = visible_public peer r in
    let jobs = service.load.snapshot.jobs in
    let denied = denied-visible service peer r in
    let target = target_of-visible service peer r h listed in
    let reason =
      ap reason_of (skip_of-visible peer jobs service.schedule_source r.id)
      ∙ reason_of-seen peer jobs (skip_of service.schedule_source r.id) in
    rw (denied, id, state, owner, time, target, reason) refl

shown_to-visible :
    (service : IpcService) (peer : PeerCredentials) (r : StoredJob)
    → is_admin service.config peer ≡ false
    → shown_to (is_denied service peer r) (visible_job peer r)
      ≡ shown_to (is_denied service peer r) r
shown_to-visible service peer r h = elim (Bool-cases (r.spec.owner_uid == peer.uid)) [
  | inl mine ↦ ap (shown_to (is_denied service peer r)) (visible_mine peer r mine)
  | inr other ↦ rw (other, h) refl
]

-- A test of the state before the search changes nothing.
only_if :
    {A : Type 0} (b : Bool) (f : Option ScheduleSkip → A) (x y : Option ScheduleSkip)
    → f x ≡ f y
    → f (if b then x else none) ≡ f (if b then y else none)
only_if true f x y h = h
only_if false f x y h = refl

summary_of-visible :
    (service : IpcService) (peer : PeerCredentials) (r : StoredJob)
    → is_admin service.config peer ≡ false
    → IsListed peer service.load.snapshot.jobs r
    → summary_of (visible_to peer service) peer (visible_job peer r) ≡ summary_of service peer r
unfolding summary_of
summary_of-visible service peer r h listed =
    let (id, state, revision, owner, time, exit) = visible_public peer r in
    let jobs = service.load.snapshot.jobs in
    let denied = denied-visible service peer r in
    let target = target_of-visible service peer r h listed in
    let reason =
      ap reason_of (skip_of-visible peer jobs service.schedule_source r.id)
      ∙ reason_of-seen peer jobs (skip_of service.schedule_source r.id) in
    let shown = shown_to-visible service peer r h in
    let x = skip_of (visible_to peer service).schedule_source r.id in
    let y = skip_of service.schedule_source r.id in
    let target_if = only_if (is_queued r.state) (target_of (is_denied service peer r)) x y target in
    let reason_if = only_if (is_queued r.state) reason_of x y reason in
    rw (denied, shown, id, state, revision, owner, exit, target_if, reason_if) refl

seen-All : (peer : PeerCredentials) (jobs : List StoredJob) → All (IsListed peer jobs) jobs
seen-All peer [] = tt
seen-All peer (r ∷ rest) = (
  (λ mine. ground (arith, nat_beq_iff r.id r.id)),
  All-map (IsListed peer rest) (IsListed peer (r ∷ rest)) rest
      (λ x listed mine. ground (arith, listed mine)) (seen-All peer rest),
)

module _ (P : StoredJob → Type 0) where
  All-take : (n : ℕ) (xs : List StoredJob) → All P xs → All P (take n xs)
  All-take zero xs h = tt
  All-take (suc n) [] h = tt
  All-take (suc n) (x ∷ xs) (h, hs) = (h, All-take n xs hs)

  All-queued_jobs : (xs : List StoredJob) → All P xs → All P (queued_jobs xs)
  unfolding queued_jobs
  All-queued_jobs [] h = tt
  All-queued_jobs (x ∷ xs) (h, hs) = elim (Bool-cases (is_queued x.state)) [
    | inl e ↦ rw e (h, All-queued_jobs xs hs)
    | inr e ↦ rw e (All-queued_jobs xs hs)
  ]

  All-insert_record :
      (r : StoredJob) (xs : List StoredJob) → P r → All P xs → All P (insert_record r xs)
  unfolding insert_record
  All-insert_record r [] p h = (p, tt)
  All-insert_record r (x ∷ xs) p (h, hs) = elim (Bool-cases (submitted_before x r)) [
    | inl e ↦ rw e (h, All-insert_record r xs p hs)
    | inr e ↦ rw e (p, (h, hs))
  ]

  All-sort_records : (xs : List StoredJob) → All P xs → All P (sort_records xs)
  unfolding sort_records
  All-sort_records [] h = tt
  All-sort_records (x ∷ xs) (h, hs) =
      All-insert_record x (sort_records xs) h (All-sort_records xs hs)

queued_jobs-visible :
    (peer : PeerCredentials) (xs : List StoredJob)
    → queued_jobs (map (visible_job peer) xs) ≡ map (visible_job peer) (queued_jobs xs)
unfolding queued_jobs
queued_jobs-visible peer [] = refl
queued_jobs-visible peer (x ∷ xs) =
    ground (arith, queued_jobs-visible peer xs, visible_public peer x)

before-visible :
    (peer : PeerCredentials) (x r : StoredJob)
    → submitted_before (visible_job peer x) (visible_job peer r) ≡ submitted_before x r
before-visible peer x r =
    let (id, _, _, _, time, _) = visible_public peer x in
    let (jd, _, _, _, time', _) = visible_public peer r in rw (id, jd, time, time') refl

insert_record-visible :
    (peer : PeerCredentials) (r : StoredJob) (xs : List StoredJob)
    → insert_record (visible_job peer r) (map (visible_job peer) xs)
      ≡ map (visible_job peer) (insert_record r xs)
unfolding insert_record
insert_record-visible peer r [] = refl
insert_record-visible peer r (x ∷ xs) =
    let e = before-visible peer x r in
    let f = insert_record-visible peer r xs in
    elim (Bool-cases (submitted_before x r)) [
      | inl g ↦ rw (e, f, g) refl
      | inr g ↦ rw (e, f, g) refl
    ]

sort_records-visible :
    (peer : PeerCredentials) (xs : List StoredJob)
    → sort_records (map (visible_job peer) xs) ≡ map (visible_job peer) (sort_records xs)
unfolding sort_records
sort_records-visible peer [] = refl
sort_records-visible peer (x ∷ xs) =
    rw (sort_records-visible peer xs) (insert_record-visible peer x (sort_records xs))

length-map : {A B : Type 0} (f : A → B) (xs : List A) → length (map f xs) ≡ length xs
length-map f [] = refl
length-map f (x ∷ xs) = ap suc (length-map f xs)

-- Two maps over the first elements.
take-map :
    {A B C : Type 0} (f : B → C) (g : A → C) (v : A → B) (n : ℕ) (xs : List A)
    → All (λ x. f (v x) ≡ g x) xs
    → map f (take n (map v xs)) ≡ map g (take n xs)
take-map f g v zero xs h = refl
take-map f g v (suc n) [] h = refl
take-map f g v (suc n) (x ∷ xs) (h, hs) = rw (h, take-map f g v n xs hs) refl

pub handle_ps-visible :
    (service : IpcService) (peer : PeerCredentials)
    → is_admin service.config peer ≡ false
    → handle_ps (visible_to peer service) peer ≡ handle_ps service peer
unfolding handle_ps
handle_ps-visible service peer h =
    let jobs = service.load.snapshot.jobs in
    let same =
      take-map (summary_of (visible_to peer service) peer) (summary_of service peer)
        (visible_job peer) service.config.max_listed_jobs jobs
        (All-map (IsListed peer jobs) _ jobs
          (λ r listed. summary_of-visible service peer r h listed) (seen-All peer jobs)) in
    rw (same, length-map (visible_job peer) jobs) refl

pub handle_queue-visible :
    (service : IpcService) (peer : PeerCredentials)
    → is_admin service.config peer ≡ false
    → handle_queue (visible_to peer service) peer ≡ handle_queue service peer
unfolding handle_queue
handle_queue-visible service peer h =
    let jobs = service.load.snapshot.jobs in
    let queue = sort_records (queued_jobs jobs) in
    let sorted =
      ap sort_records (queued_jobs-visible peer jobs)
      ∙ sort_records-visible peer (queued_jobs jobs) in
    let listed =
      All-sort_records (IsListed peer jobs) (queued_jobs jobs)
        (All-queued_jobs (IsListed peer jobs) jobs (seen-All peer jobs)) in
    let same =
      take-map (entry_of (visible_to peer service) peer) (entry_of service peer) (visible_job peer)
        service.config.max_listed_jobs queue
        (All-map (IsListed peer jobs) _ queue (λ r seen. entry_of-visible service peer r h seen)
          listed) in
    rw (sorted, same, length-map (visible_job peer) queue) refl
