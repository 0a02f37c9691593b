-- ===== src/Store/Memory.antt =====
-- The in-memory adapter of the store (src/testing/in_memory_state_store.cpp).
use yori.Common.{
  ℕ, ◌<◌, ◌≡◌, refl, ◌≢◌, ◌⊎◌, inl, inr, not, Option, none, some, List, [], ◌∷◌, arith,
  if◌then◌else◌, u64_modulus,
}
use yori.Common.Map.{find, values}
use yori.Store.Types.{
  StateSnapshot, StateMutation, StateStoreErrorCode, no_error, revision_conflict, store_ok,
  StateStoreLoadResult, StateStoreWriteResult, StateStore,
}
use yori.Store.Mutation.{JobMap, LeaseMap, ValidationConfig, MutationOutcome, apply_mutation}
use yori.Store.Mutation.Sound.{IsConsistent, apply_mutation_cases}
use yori.Store.Mutation.Accepted.{apply_mutation-IsConsistent, apply_mutation_conflict}

pub record InMemoryStateStore : Type 0 where
  pub config : ValidationConfig
  pub revision : ℕ
  pub jobs : JobMap
  pub leases : LeaseMap
  pub failure : Option StateStoreErrorCode
  pub next_apply_failure : Option StateStoreErrorCode

unfoldable pub init : ValidationConfig → InMemoryStateStore
init config = record {
  config = config;
  revision = 0;
  jobs = [];
  leases = [];
  failure = none;
  next_apply_failure = none;
}

abbrev pub injected : StateStoreErrorCode → Option StateStoreErrorCode
injected no_error = none
injected error = some error

unfoldable pub fail_with : InMemoryStateStore → StateStoreErrorCode → InMemoryStateStore
fail_with s error = record s { failure = injected error }

unfoldable pub fail_next_apply_with : InMemoryStateStore → StateStoreErrorCode → InMemoryStateStore
fail_next_apply_with s error = record s { next_apply_failure = injected error }

unfoldable pub clear_failure : InMemoryStateStore → InMemoryStateStore
clear_failure s = record s { failure = none }

abbrev pub no_snapshot : StateSnapshot
no_snapshot = record { revision = 0; jobs = []; leases = [] }

unfoldable pub load : InMemoryStateStore → InMemoryStateStore × StateStoreLoadResult
load s = elim s.failure [
  | some error ↦ (s, record { code = error; snapshot = no_snapshot })
  | none ↦ (
    s,
    record {
      code = no_error;
      snapshot = record { revision = s.revision; jobs = values s.jobs; leases = values s.leases };
    },
  )
]

-- The end of `apply`: the verdict of the mutation core is taken over.
unfoldable pub commit :
    InMemoryStateStore → MutationOutcome → InMemoryStateStore × StateStoreWriteResult
commit s outcome =
    if not (store_ok outcome.code)
    then (s, record { code = outcome.code; revision = s.revision })
    else (
      record s {
        jobs = outcome.next_jobs;
        leases = outcome.next_leases;
        revision = outcome.next_revision;
      },
      record { code = no_error; revision = outcome.next_revision },
    )

unfoldable pub apply :
    InMemoryStateStore → StateMutation → InMemoryStateStore × StateStoreWriteResult
unfolding commit
apply s m = elim s.failure [
  | some error ↦ (s, record { code = error; revision = s.revision })
  | none ↦ elim s.next_apply_failure [
    | some error ↦
        (record s { next_apply_failure = none }, record { code = error; revision = s.revision })
    | none ↦ commit s (apply_mutation s.jobs s.leases s.revision s.config m)
  ]
]

abbrev pub in_memory : StateStore InMemoryStateStore
in_memory = record { load = load; apply = apply }

pub record IsSound (s : InMemoryStateStore) : Type 0 where
  pub consistent : IsConsistent s.config s.jobs s.leases
  pub revision_fits : s.revision < u64_modulus

-- The data that the store holds, apart from injected failures.
abbrev pub SameData : InMemoryStateStore → InMemoryStateStore → Type 0
SameData s t =
    (t.config ≡ s.config) × (t.revision ≡ s.revision) × (t.jobs ≡ s.jobs) × (t.leases ≡ s.leases)

-- A write that fails leaves jobs, leases and revision as they were, and reports that revision.
pub apply_atomic :
    (s : InMemoryStateStore) (m : StateMutation)
    → (apply s m).1.code ≢ no_error
    → SameData s (apply s m).0 × ((apply s m).1.revision ≡ s.revision)
unfolding apply
apply_atomic s m h = ground arith

-- What a write does where it succeeds.
apply_success :
    (s : InMemoryStateStore) (m : StateMutation)
    → (apply s m).1.code ≡ no_error
    → SameData s (apply s m).0
      ⊎ (((apply_mutation s.jobs s.leases s.revision s.config m).code ≡ no_error)
          × ((apply s m).0 ≡ record s {
            jobs = (apply_mutation s.jobs s.leases s.revision s.config m).next_jobs;
            leases = (apply_mutation s.jobs s.leases s.revision s.config m).next_leases;
            revision = (apply_mutation s.jobs s.leases s.revision s.config m).next_revision;
          })
          × (s.failure ≡ none)
          × (s.next_apply_failure ≡ none))
unfolding apply
apply_success s m h = ground arith

code-cases : (c : StateStoreErrorCode) → (c ≡ no_error) ⊎ (c ≢ no_error)
code-cases no_error = inl refl
code-cases _ = inr (λ e. cc)

SameData-IsSound : (s t : InMemoryStateStore) → SameData s t → IsSound s → IsSound t
SameData-IsSound s t h v = record {
  consistent = rw (h.0, h.2, h.3) v.consistent;
  revision_fits = rw h.1 v.revision_fits;
}

-- Every write, whether accepted, refused or failed, keeps the store sound.
pub apply-IsSound : (s : InMemoryStateStore) (m : StateMutation) → IsSound s → IsSound (apply s m).0
apply-IsSound s m v = elim (code-cases (apply s m).1.code) [
  | inr bad ↦ SameData-IsSound s (apply s m).0 (apply_atomic s m bad).0 v
  | inl good ↦ elim (apply_success s m good) [
    | inl unchanged ↦ SameData-IsSound s (apply s m).0 unchanged v
    | inr (accepted, e, _, _) ↦ rw e (record {
      consistent =
          apply_mutation-IsConsistent s.jobs s.leases s.revision s.config m v.revision_fits
            v.consistent accepted;
      revision_fits =
          ground
            (arith, apply_mutation_cases s.jobs s.leases s.revision s.config m v.revision_fits);
    })
  ]
]

pub data Call : Type 0 where
  loads : Call
  applies : StateMutation → Call
  fails_with : StateStoreErrorCode → Call
  fails_next_apply_with : StateStoreErrorCode → Call
  clears_failure : Call

unfoldable pub step : InMemoryStateStore → Call → InMemoryStateStore
step s loads = (load s).0
step s (applies m) = (apply s m).0
step s (fails_with error) = fail_with s error
step s (fails_next_apply_with error) = fail_next_apply_with s error
step s clears_failure = clear_failure s

unfoldable pub run : InMemoryStateStore → List Call → InMemoryStateStore
run s [] = s
run s (c ∷ cs) = run (step s c) cs

others-SameData :
    (s : InMemoryStateStore) (error : StateStoreErrorCode)
    → SameData s (load s).0
      × SameData s (fail_with s error)
      × SameData s (fail_next_apply_with s error)
      × SameData s (clear_failure s)
unfolding load fail_with fail_next_apply_with clear_failure
others-SameData s error = ground arith

step-IsSound : (s : InMemoryStateStore) (c : Call) → IsSound s → IsSound (step s c)
unfolding step
step-IsSound s loads v = SameData-IsSound s _ (others-SameData s no_error).0 v
step-IsSound s (applies m) v = apply-IsSound s m v
step-IsSound s (fails_with error) v = SameData-IsSound s _ (others-SameData s error).1 v
step-IsSound s (fails_next_apply_with error) v = SameData-IsSound s _ (others-SameData s error).2 v
step-IsSound s clears_failure v = SameData-IsSound s _ (others-SameData s no_error).3 v

run-IsSound : (s : InMemoryStateStore) (calls : List Call) → IsSound s → IsSound (run s calls)
unfolding run
run-IsSound s [] v = v
run-IsSound s (c ∷ cs) v = run-IsSound (step s c) cs (step-IsSound s c v)

pub init-IsSound : (config : ValidationConfig) → IsSound (init config)
unfolding init find
init-IsSound config = record {
  consistent = record {
    jobs_sound = record { unique = tt; within = omega arith; stored = λ id r h. cc };
    leases_sound = record { unique = tt; within = omega arith; stored = λ uuid l h. cc };
    active = λ uuid l h. cc;
    matrix = λ id r h. cc;
  };
  revision_fits = omega arith;
}

-- From an empty store, every history of loads, writes and injected failures leads to a sound store:
-- every record valid in its state, the maps within capacity, and each active job, and no other,
-- holding exactly one lease.
pub run-init-IsSound :
    (config : ValidationConfig) (calls : List Call) → IsSound (run (init config) calls)
run-init-IsSound config calls = run-IsSound (init config) calls (init-IsSound config)

-- In a sound store without injected failures, a mutation that was accepted is refused as a revision
-- conflict when it is applied a second time.
pub apply_again :
    (s : InMemoryStateStore) (m : StateMutation)
    → IsSound s
    → (apply s m).1.code ≡ no_error
    → s.failure ≡ none
    → s.next_apply_failure ≡ none
    → (apply (apply s m).0 m).1.code ≡ revision_conflict
unfolding apply
apply_again s m v h f n =
    let o = apply_mutation s.jobs s.leases s.revision s.config m in
    ground (
      arith,
      apply_mutation_cases s.jobs s.leases s.revision s.config m v.revision_fits,
      apply_mutation_conflict o.next_jobs o.next_leases o.next_revision s.config m,
    )
