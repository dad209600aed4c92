-- ===== src/Schedule/Defs.antt =====
-- The functions of crates/ora-server/src/server/schedules.rs that compute a schedule's next time.
use ora.Base.{
  ℕ, String, ◌+◌, ◌-◌, ◌*◌, ◌/◌, ◌%◌, max, Bool, true, false, Option, none, some, leb, ltb, ◌==◌,
  if◌then◌else◌,
}
use ora.Time.{checked_add, second, u64_max, u128_max}
use ora.Backend.{
  MissedTimePolicy, skip, create, SchedulingPolicy, fixed_interval, cron, ScheduleDefinition,
  PendingSchedule,
}

pub data ScheduleTimeError : Type 0 where
  zero_interval out_of_range cron_error no_execution_times : ScheduleTimeError

pub data Result (A : Type 0) : Type 0 where
  ok : A → Result A
  err : ScheduleTimeError → Result A

infixl 5 ◌>>=◌
abbrev pub ◌>>=◌ : {A B : Type 0} → Result A → (A → Result B) → Result B
ok a >>= f = f a
err e >>= f = err e

abbrev pub or_err : {A : Type 0} → Option A → ScheduleTimeError → Result A
or_err none e = err e
or_err (some a) e = ok a

-- `duration_from_nanos`.
unfoldable pub duration_from_nanos : ℕ → Option ℕ
duration_from_nanos nanos = if leb (nanos / second) u64_max then some nanos else none

-- `u128::checked_mul` and `u128::div_ceil`.
unfoldable pub checked_mul : ℕ → ℕ → Option ℕ
checked_mul a b = if leb (a * b) u128_max then some (a * b) else none

unfoldable pub div_ceil : ℕ → ℕ → ℕ
div_ceil a b = if ltb 0 (a % b) then a / b + 1 else a / b

-- `checked_mul(…).and_then(duration_from_nanos)`.
unfoldable pub skipped_time : ℕ → ℕ → Option ℕ
unfolding duration_from_nanos checked_mul
skipped_time intervals interval = elim (checked_mul intervals interval) [
  | none ↦ none
  | some nanos ↦ duration_from_nanos nanos
]

-- A job can be scheduled ahead of time: the range may start later than now.
abbrev pub start_of : Option ℕ → ℕ → ℕ
start_of none now = now
start_of (some start) now = if ltb now start then start else now

-- The first job is not created immediately when a schedule is validated.
abbrev pub not_immediate : SchedulingPolicy → SchedulingPolicy
not_immediate (fixed_interval interval immediate missed) = fixed_interval interval false missed
not_immediate (cron expression immediate missed) = cron expression false missed

abbrev pub as_pending : ScheduleDefinition → SchedulingPolicy → PendingSchedule
as_pending s scheduling = record {
  schedule_id = 0;
  last_target_execution_time = none;
  scheduling = scheduling;
  time_range = s.time_range;
  job_template = s.job_template;
}

module _ (limit : ℕ) (in_range : ℕ → Bool) where
  unfoldable pub to_timestamp : ℕ → Result ℕ
  to_timestamp time = if in_range time then ok time else err out_of_range

  unfoldable pub add_time : ℕ → ℕ → Result ℕ
  unfolding checked_add to_timestamp
  add_time time d = do
    sum ← or_err (checked_add limit time d) out_of_range
    t ← to_timestamp sum
    ok sum

  -- The smallest multiple of the interval after `next` that is not before `now`.
  unfoldable pub late_time : ℕ → ℕ → ℕ → Result (Option ℕ)
  unfolding skipped_time div_ceil
  late_time now next interval = do
    skipped ← or_err (skipped_time (div_ceil (now - next) interval) interval) out_of_range
    t ← add_time next skipped
    ok (some t)

  unfoldable pub skip_missed : ℕ → ℕ → ℕ → Result (Option ℕ)
  unfolding late_time
  skip_missed now next interval =
      if ltb now next then ok (some next) else late_time now next interval

  abbrev pub after_last : MissedTimePolicy → ℕ → ℕ → ℕ → Result (Option ℕ)
  after_last skip now next interval = skip_missed now next interval
  after_last create now next interval = ok (some next)

  abbrev pub first_time : Bool → ℕ → ℕ → Result (Option ℕ)
  first_time true now interval = do t ← to_timestamp now; ok (some now)
  first_time false now interval = do t ← add_time now interval; ok (some t)

  abbrev pub interval_time : ℕ → Bool → MissedTimePolicy → ℕ → Option ℕ → Result (Option ℕ)
  interval_time interval immediate missed now none = first_time immediate now interval
  interval_time interval immediate missed now (some last) = do
    next ← add_time last interval
    after_last missed now next interval

  unfoldable pub next_interval : ℕ → Bool → MissedTimePolicy → ℕ → Option ℕ → Result (Option ℕ)
  unfolding add_time skip_missed to_timestamp
  next_interval interval immediate missed now last =
      if interval == 0 then err zero_interval else interval_time interval immediate missed now last

  -- `to_timestamp(last_time).map_or(now_ts, |last_ts| now_ts.max(last_ts))`.
  abbrev pub later_of : ℕ → ℕ → ℕ
  later_of now last = if in_range last then max now last else now

  module _ {Crontab : Type 0} (parse : String → Option Crontab)
      (find_next : Crontab → ℕ → Option ℕ) where
    abbrev pub cron_after_last : Crontab → MissedTimePolicy → ℕ → ℕ → Result (Option ℕ)
    cron_after_last tab skip now last = ok (find_next tab (later_of now last))
    cron_after_last tab create now last = do t ← to_timestamp last; ok (find_next tab t)

    abbrev pub cron_first : Crontab → Bool → ℕ → Result (Option ℕ)
    cron_first tab true now = ok (some now)
    cron_first tab false now = ok (find_next tab now)

    abbrev pub cron_time : Crontab → Bool → MissedTimePolicy → ℕ → Option ℕ → Result (Option ℕ)
    cron_time tab immediate missed now none = cron_first tab immediate now
    cron_time tab immediate missed now (some last) = cron_after_last tab missed now last

    unfoldable pub next_cron : String → Bool → MissedTimePolicy → ℕ → Option ℕ → Result (Option ℕ)
    unfolding to_timestamp
    next_cron expression immediate missed now last = do
      tab ← or_err (parse expression) cron_error
      now_ts ← to_timestamp now
      cron_time tab immediate missed now last

    abbrev pub next_by_policy : SchedulingPolicy → ℕ → Option ℕ → Result (Option ℕ)
    next_by_policy (fixed_interval interval immediate missed) now last =
        next_interval interval immediate missed now last
    next_by_policy (cron expression immediate missed) now last =
        next_cron expression immediate missed now last

    unfoldable pub next_execution_time : ℕ → PendingSchedule → Result (Option ℕ)
    unfolding next_interval next_cron
    next_execution_time now s =
        next_by_policy s.scheduling (start_of s.time_range.start now) s.last_target_execution_time

    unfoldable pub validate_schedule : ℕ → ScheduleDefinition → Result (Unit {0})
    unfolding next_execution_time
    validate_schedule now s = do
      next ← next_execution_time now (as_pending s (not_immediate s.scheduling))
      t ← or_err next no_execution_times
      ok tt
