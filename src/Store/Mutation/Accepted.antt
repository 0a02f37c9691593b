-- ===== src/Store/Mutation/Accepted.antt =====
-- What callers of `apply_mutation` (src/store/mutation_core.cpp) rely on.
use yori.Common.{ℕ, ◌<◌, ◌≡◌, ap, ◌∙◌, ◌≢◌, inl, inr, true, some, arith}
use yori.Common.{nat_eq, list_eq, u64_modulus}
use yori.Common.Map.{find}
use yori.Job.Spec.{JobId}
use yori.Job.State.{is_terminal}
use yori.Store.Types.{StoredJob, StateMutation, no_error, revision_conflict}
use yori.Store.Mutation.{JobMap, LeaseMap, ValidationConfig, apply_mutation}
use yori.Store.Mutation.Evolution.{EvolvesTo, Evolves-terminal}
use yori.Store.Mutation.Sound.{
  IsConsistent, Run-updates, Run-IsConsistent, advance_lem, apply_mutation_cases,
}

module _ (jobs : JobMap) (leases : LeaseMap) (revision : ℕ) (config : ValidationConfig)
    (m : StateMutation) (fits : revision < u64_modulus) (v : IsConsistent config jobs leases)
    (accepted : (apply_mutation jobs leases revision config m).code ≡ no_error) where
  -- An accepted mutation leaves a consistent state: every stored record is valid in its state, the
  -- maps are within capacity, every lease is held by an active job, and every active job holds
  -- exactly one lease and every other job none.
  pub apply_mutation-IsConsistent :
      let outcome = apply_mutation jobs leases revision config m in
      IsConsistent config outcome.next_jobs outcome.next_leases
  apply_mutation-IsConsistent = elim (apply_mutation_cases jobs leases revision config m fits) [
    | inl p ↦ Run-IsConsistent (advance_lem jobs leases config m _ _ p.6) v
    | inr p ↦ absurd (p.0 accepted)
  ]

  -- An accepted mutation deletes no job, and takes each job of the store only along allowed
  -- transitions, one revision each, with its specification unchanged.
  pub apply_mutation-EvolvesTo :
      EvolvesTo jobs (apply_mutation jobs leases revision config m).next_jobs
  apply_mutation-EvolvesTo = elim (apply_mutation_cases jobs leases revision config m fits) [
    | inl p ↦ (Run-updates (advance_lem jobs leases config m _ _ p.6) v).1
    | inr p ↦ absurd (p.0 accepted)
  ]

  -- A job in a terminal state is still there, unchanged, after an accepted mutation.
  pub apply_mutation_terminal :
      (id : JobId) (r : StoredJob)
      → find id jobs ≡ some r
      → is_terminal r.state ≡ true
      → find id (apply_mutation jobs leases revision config m).next_jobs ≡ some r
  apply_mutation_terminal id r found ended =
      let (new, there, evolved) = apply_mutation-EvolvesTo id r found in
      there ∙ ap some (Evolves-terminal evolved ended)

-- A mutation prepared against another revision is refused as a conflict.
pub apply_mutation_conflict :
    (jobs : JobMap) (leases : LeaseMap) (revision : ℕ) (config : ValidationConfig)
    (m : StateMutation)
    → m.expected_revision ≢ revision
    → (apply_mutation jobs leases revision config m).code ≡ revision_conflict
unfolding apply_mutation
apply_mutation_conflict jobs leases revision config m h = ground arith
