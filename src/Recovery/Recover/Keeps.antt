-- ===== src/Recovery/Recover/Keeps.antt =====
-- What `recover` does to a store (src/recovery/job_recovery.cpp).
use yori.Common.{
  ℕ, ℤ, ◌+◌, ◌≤◌, ◌≡◌, refl, ap, inl, inr, Option, none, some, List, [], ◌∷◌, ◌++◌, arith,
}
use yori.Common.{Result, ok, err, ◌>>=◌, length, length-append, ltb, ◌==◌, nat_eq, Bool-cases}
use yori.Gpu.Uuid.{GpuUuid}
use yori.Process.{ProcessIdentity}
use yori.Store.Types.{
  StateStore, StateMutation, StateSnapshot, StateStoreLoadResult, StateStoreWriteResult, store_ok,
  entry_count, entry_count_lem, max_entries,
}
use yori.Queue.Types.{GlobalJobQueue, QueueOperationResult, queue_ok}
use yori.Queue.Operations.{restore}
use yori.Recovery.{IdentityVerification, RecoveryJobOutcome, RecoveryMutationEntry, plan}
use yori.Recovery.Recover.{
  RecoveryResult, Progress, no_chunk, release_of, entries_needed, written, flush_chunk, add_entry,
  make_room, gather, write_all, restored, restore_after, recover_loaded, recover,
}

-- A mutation that updates jobs and releases leases, within the limit of entries.
pub record IsChunk (m : StateMutation) : Type 0 where
  pub creates_none : m.create_jobs ≡ []
  pub acquires_none : m.acquire_leases ≡ []
  pub within : length m.update_jobs + length m.release_leases ≤ max_entries

no_chunk-IsChunk : IsChunk no_chunk
no_chunk-IsChunk = record { creates_none = refl; acquires_none = refl; within = omega arith }

count_chunk :
    (m : StateMutation) → IsChunk m → entry_count m ≡ length m.update_jobs + length m.release_leases
count_chunk m c =
    let count = entry_count_lem m in
    let a : length m.create_jobs ≡ 0 = ap length c.creates_none in
    let b : length m.acquire_leases ≡ 0 = ap length c.acquires_none in
    let within = c.within in omega arith

add_entry-IsChunk :
    (m : StateMutation) (entry : RecoveryMutationEntry)
    → IsChunk m
    → length m.update_jobs + length m.release_leases + entries_needed entry.release_gpu
      ≤ max_entries
    → IsChunk (record m {
      update_jobs = m.update_jobs ++ entry.update_job ∷ [];
      release_leases = m.release_leases ++ release_of entry.release_gpu;
    })
add_entry-IsChunk m entry c h = record {
  creates_none = c.creates_none;
  acquires_none = c.acquires_none;
  within = longer entry.release_gpu h;
}
  where
    longer :
        (release : Option _)
        → length m.update_jobs + length m.release_leases + entries_needed release ≤ max_entries
        → length (m.update_jobs ++ entry.update_job ∷ [])
            + length (m.release_leases ++ release_of release)
          ≤ max_entries
    longer none k = omega (
      arith,
      length-append m.update_jobs (entry.update_job ∷ []),
      length-append m.release_leases [],
      k,
    )
    longer (some uuid) k = omega (
      arith,
      length-append m.update_jobs (entry.update_job ∷ []),
      length-append m.release_leases (uuid ∷ []),
      k,
    )

module _ {S : Type 0} (store : StateStore S) (P : S → Type 0)
    (keeps : (s : S) (m : StateMutation) → IsChunk m → P s → P (store.apply s m).0)
    (outcomes : List RecoveryJobOutcome) where
  IsKept : Result (S × RecoveryResult) (Progress S) → Type 0
  IsKept (err (after, failure)) = P after
  IsKept (ok p) = P p.state × IsChunk p.chunk

  -- A flush leaves an empty chunk.
  IsFlushed : Result (S × RecoveryResult) (Progress S) → Type 0
  IsFlushed (err (after, failure)) = P after
  IsFlushed (ok p) =
      P p.state × IsChunk p.chunk × (length p.chunk.update_jobs + length p.chunk.release_leases ≡ 0)

  written-IsFlushed : (w : S × StateStoreWriteResult) → P w.0 → IsFlushed (written store outcomes w)
  unfolding IsFlushed
  written-IsFlushed (after, write) h = elim (Bool-cases (store_ok write.code)) [
    | inl e ↦ rw e (h, no_chunk-IsChunk, refl)
    | inr e ↦ rw e h
  ]

  flush_chunk-IsFlushed :
      (p : Progress S) → P p.state → IsChunk p.chunk → IsFlushed (flush_chunk store outcomes p)
  unfolding IsFlushed flush_chunk
  flush_chunk-IsFlushed p h c = elim (Bool-cases (entry_count p.chunk == 0)) [
    | inl e ↦
        let count = count_chunk p.chunk c in
        let nil : entry_count p.chunk ≡ 0 = ground arith in rw e (h, c, omega arith)
    | inr e ↦
        let sent = record p.chunk { expected_revision = p.expected_revision } in
        rw e (
          written-IsFlushed (store.apply p.state sent) (
            keeps p.state sent
              (record {
                creates_none = c.creates_none;
                acquires_none = c.acquires_none;
                within = c.within;
              })
              h))
  ]

  -- A flushed or a roomy chunk takes one more entry.
  IsRoomy : RecoveryMutationEntry → Result (S × RecoveryResult) (Progress S) → Type 0
  IsRoomy entry (err (after, failure)) = P after
  IsRoomy entry (ok p) =
      P p.state
      × IsChunk p.chunk
      × (length p.chunk.update_jobs
            + length p.chunk.release_leases
            + entries_needed entry.release_gpu
          ≤ max_entries)

  flushed-IsRoomy :
      (entry : RecoveryMutationEntry) (r : Result (S × RecoveryResult) (Progress S))
      → IsFlushed r
      → IsRoomy entry r
  unfolding IsFlushed IsRoomy
  flushed-IsRoomy entry (err (after, failure)) h = h
  flushed-IsRoomy entry (ok p) (h, c, nil) = (h, c, omega (arith, nil, two entry.release_gpu))
    where
      two : (release : Option GpuUuid) → entries_needed release ≤ 2
      two none = omega arith
      two (some uuid) = omega arith

  make_room-IsRoomy :
      (entry : RecoveryMutationEntry) (p : Progress S)
      → P p.state
      → IsChunk p.chunk
      → IsRoomy entry (make_room store outcomes entry p)
  unfolding IsRoomy make_room
  make_room-IsRoomy entry p h c =
      elim (Bool-cases (ltb max_entries (entry_count p.chunk + entries_needed entry.release_gpu))) [
        | inl e ↦
            rw e
              (flushed-IsRoomy entry (flush_chunk store outcomes p) (flush_chunk-IsFlushed p h c))
        | inr e ↦ let count = count_chunk p.chunk c in rw e (h, c, ground arith)
      ]

  -- The rest of the loop, after room was made for an entry.
  after_room :
      (entry : RecoveryMutationEntry) (next : Progress S → Result (S × RecoveryResult) (Progress S))
      (r : Result (S × RecoveryResult) (Progress S))
      → IsRoomy entry r
      → ((q : Progress S) → P q.state → IsChunk q.chunk → IsKept (next q))
      → IsKept (r >>= λ q. next (add_entry store outcomes entry q))
  unfolding IsKept IsRoomy
  after_room entry next (err (after, failure)) k f = k
  after_room entry next (ok q) (k, d, roomy) f =
      f (add_entry store outcomes entry q) k (add_entry-IsChunk q.chunk entry d roomy)

  gather-IsKept :
      (mutations : List RecoveryMutationEntry) (p : Progress S)
      → P p.state
      → IsChunk p.chunk
      → IsKept (gather store outcomes mutations p)
  unfolding IsKept gather
  gather-IsKept [] p h c = (h, c)
  gather-IsKept (entry ∷ rest) p h c =
      after_room entry (gather store outcomes rest) (make_room store outcomes entry p)
        (make_room-IsRoomy entry p h c) (gather-IsKept rest)

  -- What is kept by every write is kept by all of them.
  write_all-IsKept :
      (mutations : List RecoveryMutationEntry) (p : Progress S)
      → P p.state
      → IsChunk p.chunk
      → IsFlushed (write_all store outcomes mutations p)
  unfolding IsKept IsFlushed
  write_all-IsKept mutations p h c =
      go (gather store outcomes mutations p) (gather-IsKept mutations p h c)
    where
      go :
          (r : Result (S × RecoveryResult) (Progress S))
          → IsKept r
          → IsFlushed (r >>= flush_chunk store outcomes)
      go (err (after, failure)) k = k
      go (ok q) (k, d) = flush_chunk-IsFlushed q k d

  restored-keeps :
      (after : S) (revision : ℕ) (w : GlobalJobQueue × QueueOperationResult)
      → P after
      → P (restored store outcomes after revision w).0
  restored-keeps after revision (q, restoration) h = elim (Bool-cases (queue_ok restoration.code)) [
    | inl e ↦ rw e h
    | inr e ↦ rw e h
  ]

  restore_after-keeps :
      (q : GlobalJobQueue) (snapshot : StateSnapshot) (r : Result (S × RecoveryResult) (Progress S))
      → IsFlushed r
      → P (restore_after store outcomes q snapshot r).0
  unfolding IsFlushed
  restore_after-keeps q snapshot (err (after, failure)) h = h
  restore_after-keeps q snapshot (ok p) (h, c, nil) =
      restored-keeps p.state p.expected_revision (restore q snapshot) h

-- Over any store: what holds of the store's state and is kept by its reading and by every write of
-- at most 64 entries that neither creates a job nor acquires a lease, holds after a recovery,
-- however it ends and however many jobs it changes.
pub recover-keeps :
    {S : Type 0} (store : StateStore S) (P : S → Type 0)
    (verifier : ProcessIdentity → IdentityVerification) (now : ℤ) (q : GlobalJobQueue) (s : S)
    → ((t : S) → P t → P (store.load t).0)
    → ((t : S) (m : StateMutation) → IsChunk m → P t → P (store.apply t m).0)
    → P s
    → P (recover store verifier now q s).0
unfolding recover
recover-keeps {S = S} store P verifier now q s reading keeps h = go (store.load s) (reading s h)
  where
    go : (w : S × StateStoreLoadResult) → P w.0 → P (recover_loaded store verifier now q w).0
    go (t, loaded) k =
        let planned = plan verifier now loaded.snapshot in
        let start : Progress S = record {
          state = t;
          expected_revision = loaded.snapshot.revision;
          chunk = no_chunk;
        } in
        elim (Bool-cases (store_ok loaded.code)) [
          | inr e ↦ rw e k
          | inl e ↦ rw e (
              restore_after-keeps store P keeps planned.outcomes q loaded.snapshot
                (write_all store planned.outcomes planned.mutations start)
                (write_all-IsKept store P keeps planned.outcomes planned.mutations start k
                  no_chunk-IsChunk))
        ]
