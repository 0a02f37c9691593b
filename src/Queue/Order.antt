-- ===== src/Queue/Order.antt =====
-- `entry_less` (src/queue/job_queue.cpp) is a strict order, total on entries with different ids.
use yori.Common.{◌≡◌, ◌≢◌, true, false, arith, ltz_asymm, ltz_trans, ltz_connex, int_beq_iff}
use yori.Queue.Types.{QueueEntry, entry_less}

pub entry_less_irrefl : (x : QueueEntry) → entry_less x x ≡ false
unfolding entry_less
entry_less_irrefl x = ground (arith, int_beq_iff x.submit_time x.submit_time)

pub entry_less_trans :
    (x y z : QueueEntry) → entry_less x y ≡ true → entry_less y z ≡ true → entry_less x z ≡ true
unfolding entry_less
entry_less_trans x y z h k = ground (
  arith,
  int_beq_iff x.submit_time y.submit_time,
  int_beq_iff y.submit_time z.submit_time,
  int_beq_iff x.submit_time z.submit_time,
  ltz_asymm x.submit_time y.submit_time,
  ltz_trans x.submit_time y.submit_time z.submit_time,
)

pub entry_less_asymm : (x y : QueueEntry) → entry_less x y ≡ true → entry_less y x ≡ false
unfolding entry_less
entry_less_asymm x y h = ground (
  arith,
  int_beq_iff x.submit_time y.submit_time,
  int_beq_iff y.submit_time x.submit_time,
  ltz_asymm x.submit_time y.submit_time,
)

pub entry_less_connex :
    (x y : QueueEntry) → x.job_id ≢ y.job_id → entry_less x y ≡ false → entry_less y x ≡ true
unfolding entry_less
entry_less_connex x y h k = ground (
  arith,
  int_beq_iff x.submit_time y.submit_time,
  int_beq_iff y.submit_time x.submit_time,
  ltz_connex x.submit_time y.submit_time,
)
