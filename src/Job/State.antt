-- ===== src/Job/State.antt =====
-- The life of a job (src/job/job.cpp: `is_terminal`, `can_transition`, `Job::create`,
-- `Job::transition_to`).
use yori.Common.{
  ℕ, Bool, true, false, not, Option, none, some, List, [], ◌∷◌, nat_eq, next_u64, if◌then◌else◌,
}
use yori.Job.Spec.{JobId, JobSpec, id_valid}
use yori.Job.Validate.{JobSpecValidationResult, validate, validation_ok, whole, no_error}

pub data JobState : Type 0 where
  queued starting running stopping finished failed cancelled lost : JobState

unfoldable pub is_terminal : JobState → Bool
is_terminal finished = true
is_terminal failed = true
is_terminal cancelled = true
is_terminal lost = true
is_terminal _ = false

-- The `switch` on `from`, with the comparisons of `to` as clauses.
unfoldable pub can_transition : JobState → JobState → Bool
can_transition queued starting = true
can_transition queued cancelled = true
can_transition starting running = true
can_transition starting stopping = true
can_transition starting failed = true
can_transition starting lost = true
can_transition running stopping = true
can_transition running finished = true
can_transition running failed = true
can_transition running lost = true
can_transition stopping cancelled = true
can_transition stopping failed = true
can_transition stopping lost = true
can_transition _ _ = false

pub data TransitionOutcome : Type 0 where
  applied rejected idempotent_terminal ignored_after_terminal : TransitionOutcome

pub record TransitionResult : Type 0 where
  pub from : JobState
  pub requested : JobState
  pub outcome : TransitionOutcome
  pub revision : ℕ

pub data JobCreationErrorCode : Type 0 where
  created invalid_job_id invalid_spec : JobCreationErrorCode

pub record JobCreationError : Type 0 where
  pub code : JobCreationErrorCode
  pub spec_validation : JobSpecValidationResult

pub record Job : Type 0 where
  pub id : JobId
  pub spec : JobSpec
  pub state : JobState
  pub revision : ℕ

-- `Job::create`: the job, or null, and the error that is reported.
unfoldable pub create : JobId → JobSpec → Option Job × JobCreationError
create id spec =
    if not (id_valid id)
    then (none, record { code = invalid_job_id; spec_validation = whole no_error })
    else if not (validation_ok (validate spec))
    then (none, record { code = invalid_spec; spec_validation = validate spec })
    else (
      some (record { id = id; spec = spec; state = queued; revision = 0 }),
      record { code = created; spec_validation = whole no_error },
    )

-- The equality of enumerators in `requested == from`, which is asked of terminal states.
abbrev pub same_terminal : JobState → JobState → Bool
same_terminal finished finished = true
same_terminal failed failed = true
same_terminal cancelled cancelled = true
same_terminal lost lost = true
same_terminal _ _ = false

-- `Job::transition_to`.
unfoldable pub transition_to : Job → JobState → Job × TransitionResult
unfolding is_terminal can_transition
transition_to job to =
    if is_terminal job.state
    then (
      job,
      record {
        from = job.state;
        requested = to;
        outcome =
            if same_terminal to job.state then idempotent_terminal else ignored_after_terminal;
        revision = job.revision;
      },
    )
    else if not (can_transition job.state to)
    then (
      job,
      record { from = job.state; requested = to; outcome = rejected; revision = job.revision },
    )
    else (
      record job { state = to; revision = next_u64 job.revision },
      record {
        from = job.state;
        requested = to;
        outcome = applied;
        revision = next_u64 job.revision;
      },
    )

-- A history of requests, the results left aside.
unfoldable pub run : Job → List JobState → Job
run job [] = job
run job (to ∷ rest) = run (transition_to job to).0 rest
