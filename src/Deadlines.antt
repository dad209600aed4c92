-- ===== src/Deadlines.antt =====
-- What the deadlines and the time check of crates/ora-server/src/util.rs promise.
use ora.Base.{ℕ, ◌+◌, ◌≤◌, ◌<◌, ◌≡◌, ◌↔◌, true, arith}
use ora.Time.{from_secs, checked_add}
use ora.Util.{deadline_after, validate_time, min_seconds_before_epoch, max_seconds_after_epoch}

-- If now is representable, so is the deadline, and it is not before now; it is the given duration
-- from now wherever that is representable.
pub deadline_after_lem :
    (limit now d : ℕ)
    → now ≤ limit
    → (now ≤ deadline_after limit now d)
      × (deadline_after limit now d ≤ limit)
      × (now + d ≤ limit → deadline_after limit now d ≡ now + d)
unfolding deadline_after checked_add
deadline_after_lem limit now d h = (ground arith, ground arith, λ e. ground arith)

-- The times that are valid are those from the beginning of the year 1 to the end of the year 9999,
-- as seconds around the epoch: the first bound is valid, the second is not.
pub validate_time_lem :
    (epoch time : ℕ)
    → (validate_time epoch time ≡ true) ↔ (
        (epoch ≤ time + from_secs min_seconds_before_epoch)
        × (time < epoch + from_secs max_seconds_after_epoch))
unfolding validate_time
validate_time_lem epoch time = ground arith
