-- ===== src/Service/Lists/Order.antt =====
-- The queue that is listed is the queue that is scheduled (src/ipc/ipc_service.cpp,
-- src/queue/job_queue.cpp).
use yori.Common.{ℕ, zero, suc, ◌≡◌, refl, ap, ◌∙◌, true, List, [], ◌∷◌, map, inl, inr, arith}
use yori.Common.{take, nat_eq, int_eq, Bool-cases}
use yori.Store.Types.{StoredJob, store_ok}
use yori.Queue.Types.{GlobalJobQueue, no_error, entry_less}
use yori.Queue.Operations.{insert_sorted, sort, restore}
use yori.Queue.Operations
use yori.Queue.Restore.{waiting, restore_cases}
use yori.Service.{PeerCredentials, IpcService}
use yori.Service.Lists.{
  submitted_before, insert_record, sort_records, queued_jobs, entry_of, handle_queue,
}

waiting-queued_jobs :
    (jobs : List StoredJob) → waiting jobs ≡ map Operations.entry_of (queued_jobs jobs)
unfolding queued_jobs
waiting-queued_jobs [] = refl
waiting-queued_jobs (r ∷ rest) = ground (arith, waiting-queued_jobs rest)

insert_sorted-insert_record :
    (r : StoredJob) (xs : List StoredJob)
    → insert_sorted (Operations.entry_of r) (map Operations.entry_of xs)
      ≡ map Operations.entry_of (insert_record r xs)
unfolding insert_sorted insert_record entry_less
insert_sorted-insert_record r [] = refl
insert_sorted-insert_record r (x ∷ xs) =
    let rest = insert_sorted-insert_record r xs in
    elim (Bool-cases (submitted_before x r)) [ inl e ↦ rw (e, rest) refl | inr e ↦ rw e refl ]

sort-sort_records :
    (xs : List StoredJob)
    → sort (map Operations.entry_of xs) ≡ map Operations.entry_of (sort_records xs)
unfolding sort sort_records
sort-sort_records [] = refl
sort-sort_records (x ∷ xs) =
    ap (insert_sorted (Operations.entry_of x)) (sort-sort_records xs)
    ∙ insert_sorted-insert_record x (sort_records xs)

listed_ids :
    (service : IpcService) (peer : PeerCredentials) (n : ℕ) (xs : List StoredJob)
    → map (λ e. e.job_id) (map (entry_of service peer) (take n xs))
      ≡ take n (map (λ e. e.job_id) (map Operations.entry_of xs))
unfolding entry_of
listed_ids service peer zero xs = refl
listed_ids service peer (suc n) [] = refl
listed_ids service peer (suc n) (x ∷ xs) = ap (λ ys. x.id ∷ ys) (listed_ids service peer n xs)

-- Where the store can be read and a queue restored from what it holds, every client is listed the
-- jobs of that queue in its order, up to the greatest number that is listed.
pub handle_queue-restore :
    (service : IpcService) (peer : PeerCredentials) (q : GlobalJobQueue)
    → store_ok service.load.code ≡ true
    → (restore q service.load.snapshot).1.code ≡ no_error
    → map (λ e. e.job_id) (handle_queue service peer).queue
      ≡ take service.config.max_listed_jobs
          (map (λ e. e.job_id) (restore q service.load.snapshot).0.entries)
unfolding handle_queue
handle_queue-restore service peer q loaded restored = elim (restore_cases q service.load.snapshot) [
  | inr (bad, e) ↦ absurd (bad restored)
  | inl (good, loop, e) ↦
      let jobs = service.load.snapshot.jobs in
      let same = ap sort (waiting-queued_jobs jobs) ∙ sort-sort_records (queued_jobs jobs) in
      rw (loaded, e, same)
        (listed_ids service peer service.config.max_listed_jobs (sort_records (queued_jobs jobs)))
]
