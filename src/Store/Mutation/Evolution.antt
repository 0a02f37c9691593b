-- ===== src/Store/Mutation/Evolution.antt =====
-- How a stored job may change in one mutation (src/store/mutation_core.cpp, the loop over
-- `update_jobs`).
use yori.Common.{ℕ, ◌+◌, ◌≤◌, ◌<◌, ◌≡◌, refl, ◌∙◌, true, some, arith}
use yori.Common.{nat_eq, nat_beq, nat_beq_iff, ok, inl, inr, Bool-cases, u64_modulus}
use yori.Common.Map.{find, find-emplace, find-assign, nat_less}
use yori.Job.Spec.{JobId}
use yori.Job.State.{is_terminal, can_transition}
use yori.Job.Lifecycle.{is_terminal_iff, stage, can_transition-stage}
use yori.Store.Types.{StoredJob}
use yori.Store.Mutation.{JobMap, create_job, update_job}
use yori.Store.Mutation.Jobs.{AreJobs, create_job_lem, update_job_lem}

-- Allowed transitions, one revision each, under a fixed specification.
pub data Evolves (old : StoredJob) : StoredJob → Type 0 where
  same : Evolves old old
  step :
      {mid new : StoredJob}
      → Evolves old mid
      → can_transition mid.state new.state ≡ true
      → new.revision ≡ mid.revision + 1
      → new.spec ≡ mid.spec
      → Evolves old new

pub Evolves-spec : {old new : StoredJob} → Evolves old new → new.spec ≡ old.spec
Evolves-spec same = refl
Evolves-spec (step e t r s) = s ∙ Evolves-spec e

-- Each revision is a stage further at least.
pub Evolves-revision :
    {old new : StoredJob}
    → Evolves old new
    → (old.revision ≤ new.revision)
      × (new.revision + stage old.state ≤ old.revision + stage new.state)
Evolves-revision same = omega arith
Evolves-revision (step {mid} {new} e t r s) =
    omega (arith, Evolves-revision e, can_transition-stage mid.state new.state t)

pub Evolves-terminal :
    {old new : StoredJob} → Evolves old new → is_terminal old.state ≡ true → new ≡ old
Evolves-terminal same h = refl
Evolves-terminal {old} (step {mid} {new} e t r s) h =
    let still : mid ≡ old = Evolves-terminal e h in
    absurd (ground (arith, (is_terminal_iff old.state).0 h new.state))

-- Every job of the first map is in the second, evolved.
abbrev pub EvolvesTo : JobMap → JobMap → Type 0
EvolvesTo jobs next =
    (id : JobId) (old : StoredJob)
    → find id jobs ≡ some old
    → (new : StoredJob) × (find id next ≡ some new) × Evolves old new

pub create_job-EvolvesTo :
    (max_jobs : ℕ) (r : StoredJob) (start jobs next : JobMap)
    → create_job max_jobs r jobs ≡ ok next
    → EvolvesTo start jobs
    → EvolvesTo start next
create_job-EvolvesTo max_jobs r start jobs next h v id old found =
    let (_, _, _, fresh, _, e) = create_job_lem max_jobs r jobs next h in
    let (new, there, evolved) = v id old found in
    (new, ground (arith, find-emplace r.id id r jobs fresh, nat_beq_iff r.id id), evolved)

pub update_job-EvolvesTo :
    (max_jobs : ℕ) (r : StoredJob) (start jobs next : JobMap)
    → update_job r jobs ≡ ok next
    → AreJobs max_jobs jobs
    → EvolvesTo start jobs
    → EvolvesTo start next
update_job-EvolvesTo max_jobs r start jobs next h jobs_ok v id old found =
    let (before, _, here, below, revised, spec, allowed, e) = update_job_lem r jobs next h in
    let (mid, there, evolved) = v id old found in
    elim (Bool-cases (nat_beq r.id id)) [
      | inr other ↦ (mid, ground (arith, find-assign r.id id r before jobs here), evolved)
      | inl hit ↦
          let same_id : r.id ≡ id = (nat_beq_iff r.id id).0 hit in
          let is_mid : before ≡ mid = ground arith in
          let bound : before.revision < u64_modulus =
            (jobs_ok.stored r.id before here).revision_fits in
          (
            r,
            ground (arith, find-assign r.id id r before jobs here),
            step {mid = mid} evolved (ground arith) (ground arith) (ground arith),
          )
    ]
