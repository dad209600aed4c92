-- ===== src/Pool/Backoff.antt =====
-- The backoff of a job queue whose executor rejected executions.
use ora.Base.{ℕ, ◌+◌, ◌*◌, ◌^◌, ◌≤◌, ◌<◌, ◌≡◌, min, true, arith, pow2_mono, length, ◌↔◌}
use ora.Time.{from_secs, saturating_mul, saturating_pow2}
use ora.Pool.State.{ExecutorJobQueue}
use ora.Pool.Queue.{rejection_backoff, has_capacity, note_rejected}

-- The backoff is one second doubled for each rejection before, and half a minute at most: the
-- 32 bits of the power, and the largest duration, are never felt.
pub rejection_backoff_lem : (k : ℕ) → rejection_backoff k ≡ min (from_secs 1 * 2 ^ k) (from_secs 30)
unfolding rejection_backoff saturating_mul saturating_pow2
rejection_backoff_lem k = omega arith

-- It does not fall from one rejection to the next.
rejection_backoff_mono : (j k : ℕ) → j ≤ k → rejection_backoff j ≤ rejection_backoff k
rejection_backoff_mono j k h =
    omega (arith, rejection_backoff_lem j, rejection_backoff_lem k, pow2_mono j k h)

-- A queue whose executor rejected an execution can be offered one again exactly when it has room
-- and the backoff is over: a second, doubled for each of the rejections in a row before this one,
-- but half a minute at most.
pub note_rejected-has_capacity :
    (now later : ℕ) (q : ExecutorJobQueue)
    → (has_capacity later (note_rejected now q) ≡ true) ↔ (
        (length q.executions < q.max_executions)
        × (now + min (from_secs 1 * 2 ^ q.consecutive_rejections) (from_secs 30) ≤ later))
unfolding has_capacity note_rejected
note_rejected-has_capacity now later q =
    ground (arith, rejection_backoff_lem q.consecutive_rejections)
