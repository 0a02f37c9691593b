-- ===== src/Recovery/Names.antt =====
-- The printed names of the codes of the recovery (src/recovery/job_recovery.cpp).
use Prim.Native.String.{String}
use yori.Recovery.{RecoveryDecisionCode, IdentityVerification}
use yori.Recovery.Recover.{RecoveryErrorCode}

-- `to_string(RecoveryDecisionCode)`.
unfoldable pub recovery_decision_code_to_string : RecoveryDecisionCode → String
recovery_decision_code_to_string RecoveryDecisionCode.adopted_running = "ADOPTED_RUNNING"
recovery_decision_code_to_string RecoveryDecisionCode.adopted_promoted_to_running =
    "ADOPTED_PROMOTED_TO_RUNNING"
recovery_decision_code_to_string RecoveryDecisionCode.adopted_stopping_needs_recancel =
    "ADOPTED_STOPPING_NEEDS_RECANCEL"
recovery_decision_code_to_string RecoveryDecisionCode.queued_restored = "QUEUED_RESTORED"
recovery_decision_code_to_string RecoveryDecisionCode.lost_process_gone = "LOST_PROCESS_GONE"
recovery_decision_code_to_string RecoveryDecisionCode.lost_identity_mismatch =
    "LOST_IDENTITY_MISMATCH"
recovery_decision_code_to_string RecoveryDecisionCode.lost_identity_missing =
    "LOST_IDENTITY_MISSING"
recovery_decision_code_to_string RecoveryDecisionCode.terminal_untouched = "TERMINAL_UNTOUCHED"

-- `to_string(IdentityVerification)`.
unfoldable pub identity_verification_to_string : IdentityVerification → String
identity_verification_to_string IdentityVerification.verified = "VERIFIED"
identity_verification_to_string IdentityVerification.process_gone = "PROCESS_GONE"
identity_verification_to_string IdentityVerification.mismatch = "MISMATCH"

-- `to_string(RecoveryErrorCode)`.
unfoldable pub recovery_error_code_to_string : RecoveryErrorCode → String
recovery_error_code_to_string RecoveryErrorCode.no_error = "NONE"
recovery_error_code_to_string RecoveryErrorCode.store_load_failed = "STORE_LOAD_FAILED"
recovery_error_code_to_string RecoveryErrorCode.store_write_failed = "STORE_WRITE_FAILED"
recovery_error_code_to_string RecoveryErrorCode.queue_restore_failed = "QUEUE_RESTORE_FAILED"
