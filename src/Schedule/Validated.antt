-- ===== src/Schedule/Validated.antt =====
-- What the validation of a schedule promises.
use ora.Base.{ℕ, String, ◌+◌, ◌<◌, ◌≤◌, ◌≡◌, refl, Bool, true, false, Option, none, some, arith}
use ora.Backend.{
  SchedulingPolicy, fixed_interval, cron, ScheduleDefinition, MissedTimePolicy, skip, create,
}
use ora.Schedule.Defs.{
  Result, ok, err, to_timestamp, or_err, ◌>>=◌, no_execution_times, next_interval, next_cron,
  next_by_policy, start_of, as_pending, not_immediate, next_execution_time, validate_schedule,
}
use ora.Schedule.Interval.{next_interval-skip, next_interval-inv, add_time-eq}

some_time :
    (r : Result (Option ℕ))
    → (do next ← r; t ← or_err next no_execution_times; ok (tt {0})) ≡ ok tt
    → (t : ℕ) × (r ≡ ok (some t))
some_time (ok none) h = ground arith
some_time (ok (some t)) h = (t, refl)
some_time (err e) h = ground arith

module _ (limit : ℕ) (in_range : ℕ → Bool) where
  -- The time after the last one of an interval schedule, if one comes out, is later than it, by an
  -- interval at least, and by just an interval if missed times are created.
  pub next_interval-advances :
      (interval now last : ℕ) (immediate : Bool) (missed : MissedTimePolicy) (t : ℕ)
      → next_interval limit in_range interval immediate missed now (some last) ≡ ok (some t)
      → (last < t) × (last + interval ≤ t) × (missed ≡ create → t ≡ last + interval)
  unfolding next_interval
  next_interval-advances interval now last immediate skip t h =
      let (k, same, from_now, which, ranged) =
        next_interval-skip limit in_range interval now last immediate t h in
      let (pos, first, skipped) =
        next_interval-inv limit in_range interval now last immediate t h in
      (omega arith, omega arith, λ e. cc)
  next_interval-advances interval now last immediate create t h =
      ground (arith, add_time-eq limit in_range last interval)

  module _ {Crontab : Type 0} (parse : String → Option Crontab)
      (find_next : Crontab → ℕ → Option ℕ) where
    by_policy-immediate :
        (policy : SchedulingPolicy) (now t : ℕ)
        → in_range now ≡ true
        → next_by_policy limit in_range parse find_next (not_immediate policy) now none
          ≡ ok (some t)
        → (u : ℕ) × (next_by_policy limit in_range parse find_next policy now none ≡ ok (some u))
    unfolding next_interval next_cron to_timestamp
    by_policy-immediate (fixed_interval interval true missed) now t r h = (now, ground arith)
    by_policy-immediate (fixed_interval interval false missed) now t r h = (t, h)
    by_policy-immediate (cron expression true missed) now t r h = (now, ground arith)
    by_policy-immediate (cron expression false missed) now t r h = (t, h)

    validate_schedule-inv :
        (now : ℕ) (s : ScheduleDefinition)
        → validate_schedule limit in_range parse find_next now s ≡ ok tt
        → (t : ℕ) × (next_by_policy limit in_range parse find_next
              (not_immediate s.scheduling)
              (start_of s.time_range.start now)
              none
            ≡ ok (some t))
    unfolding validate_schedule next_execution_time
    validate_schedule-inv now s h =
        some_time
          (next_by_policy limit in_range parse find_next (not_immediate s.scheduling)
            (start_of s.time_range.start now) none)
          h

    -- A schedule that passes the validation has a next time: computing it at the same time gives one,
    -- whether the first job is to come immediately or not, if the start of its range is a time that a
    -- timestamp can hold. The end of the range is not looked at.
    validate_schedule-runs :
        (now : ℕ) (s : ScheduleDefinition)
        → in_range (start_of s.time_range.start now) ≡ true
        → validate_schedule limit in_range parse find_next now s ≡ ok tt
        → (t : ℕ) × (next_execution_time limit in_range parse find_next now
              (as_pending s s.scheduling)
            ≡ ok (some t))
    unfolding next_execution_time
    validate_schedule-runs now s r h =
        let (t, e) = validate_schedule-inv now s h in
        by_policy-immediate s.scheduling (start_of s.time_range.start now) t r e
