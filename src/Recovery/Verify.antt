-- ===== src/Recovery/Verify.antt =====
-- `verify_identity_via_proc` (src/recovery/job_recovery.cpp). What /proc says of a process id, its
-- start ticks and its group, is a parameter.
use yori.Common.{ℕ, ℤ, Option, none, some, not, if◌then◌else◌, ◌==◌, nat_eq, int_eq}
use yori.Process.{ProcessIdentity, identity_valid}
use yori.Recovery.{IdentityVerification, verified, process_gone, mismatch}

unfoldable pub verify_identity_via_proc :
    (ℤ → Option ℕ) → (ℤ → Option ℤ) → ProcessIdentity → IdentityVerification
verify_identity_via_proc start_ticks pgid identity =
    if not (identity_valid identity) then mismatch else elim (start_ticks identity.pid) [
      | none ↦ process_gone
      | some live_ticks ↦
          if not (live_ticks == identity.start_ticks) then mismatch else elim (pgid identity.pid) [
            | none ↦ process_gone
            | some live_pgid ↦ if not (live_pgid == identity.pgid) then mismatch else verified
          ]
    ]
