-- ===== src/Util.antt =====
-- crates/ora-server/src/util.rs, its deadlines and time checks.
use ora.Base.{ℕ, ◌-◌, ◌*◌, Bool, Option, none, some, ltb, leb, if◌then◌else◌}
use ora.Time.{from_secs, checked_add}

-- Thirty years of 365 days.
abbrev pub forever : ℕ
forever = from_secs (30 * 365 * 24 * 3600)

abbrev pub or_else : Option ℕ → Option ℕ → Option ℕ
or_else none y = y
or_else (some x) y = some x

abbrev pub unwrap_or : Option ℕ → ℕ → ℕ
unwrap_or none y = y
unwrap_or (some x) y = x

-- The last representable instant is `limit`.
unfoldable pub deadline_after : ℕ → ℕ → ℕ → ℕ
unfolding checked_add
deadline_after limit now d =
    unwrap_or (or_else (checked_add limit now d) (checked_add limit now forever)) now

abbrev pub min_seconds_before_epoch : ℕ
min_seconds_before_epoch = 62_135_596_800

abbrev pub max_seconds_after_epoch : ℕ
max_seconds_after_epoch = 253_402_300_800

-- `validate_time(time).is_ok()`; `epoch` is where `UNIX_EPOCH` stands among the system's times.
unfoldable pub validate_time : ℕ → ℕ → Bool
validate_time epoch time =
    if leb epoch time
    then ltb (time - epoch) (from_secs max_seconds_after_epoch)
    else leb (epoch - time) (from_secs min_seconds_before_epoch)
