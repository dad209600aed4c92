-- ===== src/Convert/RoundTrip.antt =====
-- What goes out as a message comes back as it was.
use mathlib.Core.Option
use ora.Base.{ℕ, true, Option, none, some, ◌≡◌, refl, ap}
use ora.Backend.{
  TimeRange, TimeoutBaseTime, from_target_execution_time, from_start_time, BackoffStrategy, fixed,
  exponential, MissedTimePolicy, skip, create, TimeoutPolicy, RetryPolicy, JobDefinition,
  SchedulingPolicy, fixed_interval, cron, ScheduleDefinition,
}
use ora.JobTypes.Ids.{codes, validate, new_job_type_id}
use ora.Convert.Status.{fine, Invalid}
use ora.Convert.Messages.{Protobuf}
use ora.Convert.Policies.{
  base_time_from, base_time, base_time_number, base_time_to, backoff_strategy_from,
  backoff_strategy, backoff_strategy_number, backoff_strategy_to, missed_from, missed_time_policy,
  missed_time_policy_number, missed_to, duration_from, duration_to, timeout_policy_from,
  timeout_policy_to, retry_policy_from, retry_policy_to, time_from, time_range_from, time_range_to,
}
use ora.Convert.Jobs.{job_from, job_to, scheduling_from, scheduling_to, schedule_from, schedule_to}

base_time_returns :
    (b : TimeoutBaseTime) → base_time_from (base_time (base_time_number (base_time_to b))) ≡ b
unfolding base_time_from base_time base_time_number base_time_to
base_time_returns from_target_execution_time = refl
base_time_returns from_start_time = refl

backoff_strategy_returns :
    (b : BackoffStrategy)
    → backoff_strategy_from (backoff_strategy (backoff_strategy_number (backoff_strategy_to b))) ≡ b
unfolding backoff_strategy_from backoff_strategy backoff_strategy_number backoff_strategy_to
backoff_strategy_returns fixed = refl
backoff_strategy_returns exponential = refl

missed_returns :
    (m : MissedTimePolicy)
    → missed_from (missed_time_policy (missed_time_policy_number (missed_to m))) ≡ m
unfolding missed_from missed_time_policy missed_time_policy_number missed_to
missed_returns skip = refl
missed_returns create = refl

module _ (P : Protobuf) where
  -- A duration that the protocol can carry.
  abbrev pub IsCarried : ℕ → Type 0
  IsCarried d = (p : P.Duration) × (P.to_duration d ≡ some p)

  abbrev pub AllCarried : Option ℕ → Type 0
  AllCarried none = Unit
  AllCarried (some d) = IsCarried d

  duration_from-duration_to : (d : ℕ) → IsCarried d → duration_from P (duration_to P d) ≡ d
  unfolding duration_from duration_to
  duration_from-duration_to d (p, e) = rw (e, P.duration_returns d p e) refl

  timeout_policy_from-to :
      (t : TimeoutPolicy) → IsCarried t.timeout → timeout_policy_from P (timeout_policy_to P t) ≡ t
  unfolding timeout_policy_from timeout_policy_to
  timeout_policy_from-to t c =
      rw (duration_from-duration_to t.timeout c, base_time_returns t.base_time) refl

  max_backoff_returns :
      (o : Option ℕ)
      → AllCarried o
      → Option.map (duration_from P) (Option.map (duration_to P) o) ≡ o
  max_backoff_returns none c = refl
  max_backoff_returns (some d) c = ap some (duration_from-duration_to d c)

  retry_policy_from-to :
      (r : RetryPolicy)
      → IsCarried r.backoff_duration
      → AllCarried r.max_backoff_duration
      → retry_policy_from P (retry_policy_to P r) ≡ r
  unfolding retry_policy_from retry_policy_to
  retry_policy_from-to r c m =
      rw
        (
          duration_from-duration_to r.backoff_duration c,
          max_backoff_returns r.max_backoff_duration m,
          backoff_strategy_returns r.backoff_strategy,
        )
        refl

  -- The protocol can carry the durations of a job, and its type has a valid ID.
  pub record IsSendable (j : JobDefinition) : Type 0 where
    pub valid_id : validate (codes j.job_type_id) ≡ true
    pub timeout_carried : IsCarried j.timeout_policy.timeout
    pub backoff_carried : IsCarried j.retry_policy.backoff_duration
    pub max_backoff_carried : AllCarried j.retry_policy.max_backoff_duration

  job_from-job_to : (j : JobDefinition) → IsSendable j → job_from P (job_to P j) ≡ fine j
  unfolding job_from job_to new_job_type_id
  job_from-job_to j v =
      rw
        (
          v.valid_id,
          P.timestamp_returns j.target_execution_time,
          timeout_policy_from-to j.timeout_policy v.timeout_carried,
          retry_policy_from-to j.retry_policy v.backoff_carried v.max_backoff_carried,
        )
        refl

  abbrev pub IntervalCarried : SchedulingPolicy → Type 0
  IntervalCarried (fixed_interval d immediate missed) = IsCarried d
  IntervalCarried (cron expression immediate missed) = Unit

  scheduling_from-to :
      (s : SchedulingPolicy) → IntervalCarried s → scheduling_from P (scheduling_to P s) ≡ s
  unfolding scheduling_from scheduling_to
  scheduling_from-to (fixed_interval d immediate missed) c =
      rw (duration_from-duration_to d c, missed_returns missed) refl
  scheduling_from-to (cron expression immediate missed) c = rw (missed_returns missed) refl

  time_from-to :
      (t : Option ℕ) (why : Invalid) → time_from P (Option.map P.to_timestamp t) why ≡ fine t
  unfolding time_from
  time_from-to none why = refl
  time_from-to (some t) why = rw (P.timestamp_returns t) refl

  pub time_range_from-to : (r : TimeRange) → time_range_from P (time_range_to P r) ≡ fine r
  unfolding time_range_from time_range_to
  time_range_from-to r = rw (time_from-to r.start _, time_from-to r.end _) refl

  -- A schedule that is turned into a message is read back from it as it was, if the protocol can
  -- carry its interval and the durations of its job template, and the template's job type has a
  -- valid ID.
  pub schedule_from-schedule_to :
      (s : ScheduleDefinition)
      → IsSendable s.job_template
      → IntervalCarried s.scheduling
      → schedule_from P (schedule_to P s) ≡ fine s
  unfolding schedule_from schedule_to
  schedule_from-schedule_to s v c =
      rw
        (
          scheduling_from-to s.scheduling c,
          job_from-job_to s.job_template v,
          time_range_from-to s.time_range,
        )
        refl
