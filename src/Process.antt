-- ===== src/Process.antt =====
-- Process identities and exit statuses (include/yori/process/process_supervisor.hpp).
use yori.Common.{ℕ, ℤ, pos, ltz, Bool, ◌&&◌, ltb, nat_eq, int_eq}

pub record ProcessIdentity : Type 0 where
  pub pid : ℤ
  pub pgid : ℤ
  pub start_ticks : ℕ

-- `ProcessIdentity::valid`.
abbrev pub identity_valid : ProcessIdentity → Bool
identity_valid i = ltz (pos 0) i.pid && ltz (pos 0) i.pgid && ltb 0 i.start_ticks

pub data ExitReason : Type 0 where
  exited signaled unknown : ExitReason

pub record ExitStatus : Type 0 where
  pub reason : ExitReason
  pub exit_code : ℤ
  pub signal_number : ℤ
