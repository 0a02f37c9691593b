-- ===== src/Job/Lifecycle.antt =====
-- What holds of a job over its life (src/job/job.cpp).
use yori.Common.{
  ℕ, ◌≤◌, ◌<◌, ◌≡◌, refl, ◌≢◌, ◌↔◌, ◌⊎◌, true, false, some, List, [], ◌∷◌, arith, next_u64,
}
use yori.Job.Spec.{JobId, JobSpec}
use yori.Job.Validate.Valid.{IsValidSpec, validate_iff}
use yori.Job.State.{
  JobState, queued, starting, running, stopping, lost, is_terminal, can_transition, Job, applied,
  rejected, idempotent_terminal, ignored_after_terminal, create, transition_to, run,
}

-- A job never returns to an earlier stage.
abbrev pub stage : JobState → ℕ
stage queued = 0
stage starting = 1
stage running = 2
stage stopping = 3
stage _ = 4

pub can_transition-stage :
    (from to : JobState) → can_transition from to ≡ true → stage from < stage to
unfolding can_transition
can_transition-stage from to h = ground arith

-- `is_terminal` holds of exactly the states from which no transition is allowed.
pub is_terminal_iff :
    (s : JobState) → (is_terminal s ≡ true) ↔ ((to : JobState) → can_transition s to ≡ false)
unfolding is_terminal can_transition
is_terminal_iff queued = ((λ h. cc), (λ h. cc (h starting)))
is_terminal_iff starting = ((λ h. cc), (λ h. cc (h running)))
is_terminal_iff running = ((λ h. cc), (λ h. cc (h stopping)))
is_terminal_iff stopping = ((λ h. cc), (λ h. cc (h lost)))
is_terminal_iff _ = ((λ h to. refl), (λ h. refl))

-- The result reports the state before, the request and the revision after.
pub transition_to_reports :
    (job : Job) (to : JobState)
    → let (job', result) = transition_to job to in
      (result.from ≡ job.state) × (result.requested ≡ to) × (result.revision ≡ job'.revision)
unfolding transition_to
transition_to_reports job to = ground arith

-- An allowed transition is applied and moves the revision by one; any other changes nothing.
pub transition_to_moves :
    (job : Job) (to : JobState)
    → let (job', result) = transition_to job to in
      ((can_transition job.state to ≡ true)
        × (result.outcome ≡ applied)
        × (job' ≡ record job { state = to; revision = next_u64 job.revision }))
      ⊎ ((can_transition job.state to ≡ false) × (result.outcome ≢ applied) × (job' ≡ job))
unfolding transition_to
transition_to_moves job to = ground arith

-- A transition is `rejected` exactly if the state is not terminal and the transition is not allowed,
-- `idempotent_terminal` exactly if a terminal state is requested again, and
-- `ignored_after_terminal` exactly if another one is requested in a terminal state.
pub transition_to_refusals :
    (job : Job) (to : JobState)
    → let outcome = (transition_to job to).1.outcome in
      ((outcome ≡ rejected)
        ↔ ((is_terminal job.state ≡ false) × (can_transition job.state to ≡ false)))
      × ((outcome ≡ idempotent_terminal) ↔ ((is_terminal job.state ≡ true) × (to ≡ job.state)))
      × ((outcome ≡ ignored_after_terminal) ↔ ((is_terminal job.state ≡ true) × (to ≢ job.state)))
unfolding transition_to
transition_to_refusals job to = ground arith

-- The revision never runs ahead of the stage.
abbrev pub IsPaced : Job → Type 0
IsPaced job = job.revision ≤ stage job.state

transition_to-IsPaced : (job : Job) (to : JobState) → IsPaced job → IsPaced (transition_to job to).0
transition_to-IsPaced job to h =
    ground (arith, transition_to_moves job to, can_transition-stage job.state to)

run-IsPaced : (job : Job) (requests : List JobState) → IsPaced job → IsPaced (run job requests)
unfolding run
run-IsPaced job [] h = h
run-IsPaced job (to ∷ rest) h =
    run-IsPaced (transition_to job to).0 rest (transition_to-IsPaced job to h)

stage-le : (s : JobState) → stage s ≤ 4
stage-le s = ground arith

-- Whatever is requested of a job that `create` returned, its revision stays at most 4.
pub run-create_bounded :
    (id : JobId) (spec : JobSpec) (job : Job) (requests : List JobState)
    → (create id spec).0 ≡ some job
    → (run job requests).revision ≤ 4
unfolding create
run-create_bounded id spec job requests h =
    let paced = run-IsPaced job requests (ground arith) in
    omega (arith, stage-le (run job requests).state)

-- Once a job is in a terminal state, no history changes it.
pub run_terminal :
    (job : Job) (requests : List JobState) → is_terminal job.state ≡ true → run job requests ≡ job
unfolding run
run_terminal job [] h = refl
run_terminal job (to ∷ rest) h =
    let still : (transition_to job to).0 ≡ job =
      ground (arith, transition_to_moves job to, (is_terminal_iff job.state).0 h to) in
    rw still (run_terminal job rest h)

-- `create` returns a job, queued at revision 0 with the id and the specification as given, exactly
-- for a non-zero id and a valid specification.
pub create_iff :
    (id : JobId) (spec : JobSpec)
    → ((create id spec).0 ≡ some (record { id = id; spec = spec; state = queued; revision = 0 }))
      ↔ ((id ≢ 0) × IsValidSpec spec)
unfolding create
create_iff id spec = ground (arith, validate_iff spec)
