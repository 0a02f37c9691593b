-- ===== src/Store/Allowed.antt =====
-- The execution facts that `validate_execution` lets a job carry, described by state.
use yori.Common.{◌≡◌, ◌≢◌, ◌↔◌, Bool, true, false, Option, none, some, [], ◌∷◌, arith}
use yori.Common.{ℤ, pos, ltz, int_beq_iff, Text, contains_nul_iff, has_value, nat_eq, int_eq, ok}
use yori.Job.Spec.{JobSpec}
use yori.Job.Validate.Valid.{IsLabel, IsAbsolute}
use yori.Job.State.{JobState, queued, running, stopping, is_terminal}
use yori.Process.{ProcessIdentity, identity_valid}
use yori.Store.Types.{JobExecutionRecord}
use yori.Store.Execution.{
  max_failure_reason_bytes, max_log_path_bytes, identity_is_blank, has_identity, ExecutionCheck,
  check_identity, check_start, check_end, check_reason, check_log_path, execution_checks,
  settle_code, execution_ok, validate_execution, ends_before,
}

abbrev pub blank : ProcessIdentity
blank = record { pid = pos 0; pgid = pos 0; start_ticks = 0 }

-- A recorded identity, as far as the state allows and asks for one.
abbrev pub IdentityFits : ProcessIdentity → JobState → Type 0
IdentityFits i queued = i ≡ blank
IdentityFits i running = identity_valid i ≡ true
IdentityFits i stopping = identity_valid i ≡ true
IdentityFits i _ = (i ≢ blank) → identity_valid i ≡ true

abbrev pub StartFits : Option ℤ → ProcessIdentity → ℤ → Type 0
StartFits none i submitted = Unit
StartFits (some start) i submitted = (identity_valid i ≡ true) × (ltz start submitted ≡ false)

abbrev pub EndFits : Option ℤ → Option ℤ → JobState → Type 0
EndFits none start state = Unit
EndFits (some end) start state = (is_terminal state ≡ true) × (ends_before end start ≡ false)

abbrev pub ReasonFits : Option Text → JobState → Type 0
ReasonFits none state = Unit
ReasonFits (some reason) state =
    (is_terminal state ≡ true) × IsLabel max_failure_reason_bytes reason

abbrev pub LogFits : Option Text → JobState → Type 0
LogFits none state = Unit
LogFits (some path) state = (state ≢ queued) × IsAbsolute max_log_path_bytes path

pub record IsExecution (execution : JobExecutionRecord) (state : JobState) (spec : JobSpec)
    : Type 0 where
  pub identity : IdentityFits execution.identity state
  pub exit : has_value execution.exit ≡ true → is_terminal state ≡ true
  pub start : StartFits execution.start_time execution.identity spec.submit_time
  pub end : EndFits execution.end_time execution.start_time state
  pub reason : ReasonFits execution.failure_reason state
  pub log : LogFits execution.log_path state

identity_is_blank_iff : (i : ProcessIdentity) → (identity_is_blank i ≡ true) ↔ (i ≡ blank)
identity_is_blank_iff i = ground (arith, int_beq_iff i.pid (pos 0), int_beq_iff i.pgid (pos 0))

blank_invalid : (i : ProcessIdentity) → i ≡ blank → identity_valid i ≡ false
blank_invalid i h = ground arith

check_identity_iff :
    (execution : JobExecutionRecord) (state : JobState)
    → (check_identity execution state ≡ ok tt) ↔ (
        IdentityFits execution.identity state
        × (has_value execution.exit ≡ true → is_terminal state ≡ true))
unfolding check_identity is_terminal
check_identity_iff execution queued =
    ground (arith, identity_is_blank_iff execution.identity, blank_invalid execution.identity)
check_identity_iff execution _ =
    ground (arith, identity_is_blank_iff execution.identity, blank_invalid execution.identity)

check_start_iff :
    (start : Option ℤ) (i : ProcessIdentity) (submitted : ℤ)
    → (check_start start (identity_valid i) submitted ≡ ok tt) ↔ StartFits start i submitted
unfolding check_start
check_start_iff none i submitted = ground arith
check_start_iff (some start) i submitted = ground arith

check_end_iff :
    (end start : Option ℤ) (state : JobState)
    → (check_end end start state ≡ ok tt) ↔ EndFits end start state
unfolding check_end
check_end_iff none start state = ground arith
check_end_iff (some end) start state = ground arith

check_reason_iff :
    (reason : Option Text) (state : JobState)
    → (check_reason reason state ≡ ok tt) ↔ ReasonFits reason state
unfolding check_reason
check_reason_iff none state = ground arith
check_reason_iff (some []) state = ground arith
check_reason_iff (some (c ∷ t)) state = ground (arith, contains_nul_iff (c ∷ t))

check_log_path_iff :
    (path : Option Text) (state : JobState)
    → (check_log_path path state ≡ ok tt) ↔ LogFits path state
unfolding check_log_path
check_log_path_iff none state = ground arith
check_log_path_iff (some []) state = ground arith
check_log_path_iff (some (c ∷ t)) state = ground (arith, contains_nul_iff (c ∷ t))

abbrev IsHonest : ExecutionCheck → Type 0
IsHonest m = execution_ok (settle_code m) ≡ true → m ≡ ok tt

identity-IsHonest :
    (execution : JobExecutionRecord) (state : JobState) → IsHonest (check_identity execution state)
unfolding check_identity
identity-IsHonest execution state h = ground arith

times-IsHonest :
    (start end : Option ℤ) (identified : Bool) (submitted : ℤ) (state : JobState)
    → IsHonest (check_start start identified submitted) × IsHonest (check_end end start state)
unfolding check_start check_end
times-IsHonest start end identified submitted state = ground arith

texts-IsHonest :
    (reason path : Option Text) (state : JobState)
    → IsHonest (check_reason reason state) × IsHonest (check_log_path path state)
unfolding check_reason check_log_path
texts-IsHonest reason path state = ground arith

execution_checks-IsHonest :
    (execution : JobExecutionRecord) (state : JobState) (spec : JobSpec)
    → IsHonest (execution_checks execution state spec)
unfolding execution_checks
execution_checks-IsHonest execution state spec h = ground (
  arith,
  identity-IsHonest execution state,
  times-IsHonest execution.start_time execution.end_time (has_identity execution) spec.submit_time
      state,
  texts-IsHonest execution.failure_reason execution.log_path state,
)

execution_checks_iff :
    (execution : JobExecutionRecord) (state : JobState) (spec : JobSpec)
    → (execution_checks execution state spec ≡ ok tt) ↔ IsExecution execution state spec
unfolding execution_checks
execution_checks_iff execution state spec = ground (
  arith,
  check_identity_iff execution state,
  check_start_iff execution.start_time execution.identity spec.submit_time,
  check_end_iff execution.end_time execution.start_time state,
  check_reason_iff execution.failure_reason state,
  check_log_path_iff execution.log_path state,
)

-- `validate_execution` accepts exactly the records that `IsExecution` describes.
pub validate_execution_iff :
    (execution : JobExecutionRecord) (state : JobState) (spec : JobSpec)
    → (execution_ok (validate_execution execution state spec) ≡ true)
      ↔ IsExecution execution state spec
unfolding validate_execution
validate_execution_iff execution state spec = (
  (λ h.
      (execution_checks_iff execution state spec).0
        (execution_checks-IsHonest execution state spec h)),
  (λ v. rw ((execution_checks_iff execution state spec).1 v)),
)
