-- ===== src/Convert/Policies.antt =====
-- The conversions of policies and time ranges.
use mathlib.Core.Option
use ora.Base.{ℕ, zero, suc, Option, none, some}
use ora.Base.Int.{ℤ, pos}
use ora.Backend.{
  TimeRange, TimeoutBaseTime, from_target_execution_time, from_start_time, TimeoutPolicy,
  BackoffStrategy, fixed, exponential, RetryPolicy, MissedTimePolicy, skip, create,
}
use ora.Convert.Status.{
  Answer, fine, ◌>>=◌, or_invalid, Invalid, invalid_start_time, invalid_end_time,
}
use ora.Convert.Messages.{
  Protobuf, ProtoTimeoutBaseTime, base_unspecified, base_target_execution_time, base_start_time,
  ProtoBackoffStrategy, strategy_unspecified, strategy_fixed, strategy_exponential,
  ProtoMissedTimePolicy, missed_unspecified, missed_skip, missed_create, ProtoTimeRange,
  ProtoTimeoutPolicy, ProtoRetryPolicy,
}

-- The getters of enumeration fields: an unknown number stands for the first of the enumeration.
unfoldable pub base_time : ℤ → ProtoTimeoutBaseTime
base_time (pos (suc zero)) = base_target_execution_time
base_time (pos (suc (suc zero))) = base_start_time
base_time _ = base_unspecified

unfoldable pub backoff_strategy : ℤ → ProtoBackoffStrategy
backoff_strategy (pos (suc zero)) = strategy_fixed
backoff_strategy (pos (suc (suc zero))) = strategy_exponential
backoff_strategy _ = strategy_unspecified

unfoldable pub missed_time_policy : ℤ → ProtoMissedTimePolicy
missed_time_policy (pos (suc zero)) = missed_skip
missed_time_policy (pos (suc (suc zero))) = missed_create
missed_time_policy _ = missed_unspecified

-- The numbers of the enumerations.
unfoldable pub base_time_number : ProtoTimeoutBaseTime → ℤ
base_time_number base_unspecified = pos 0
base_time_number base_target_execution_time = pos 1
base_time_number base_start_time = pos 2

unfoldable pub backoff_strategy_number : ProtoBackoffStrategy → ℤ
backoff_strategy_number strategy_unspecified = pos 0
backoff_strategy_number strategy_fixed = pos 1
backoff_strategy_number strategy_exponential = pos 2

unfoldable pub missed_time_policy_number : ProtoMissedTimePolicy → ℤ
missed_time_policy_number missed_unspecified = pos 0
missed_time_policy_number missed_skip = pos 1
missed_time_policy_number missed_create = pos 2

unfoldable pub base_time_from : ProtoTimeoutBaseTime → TimeoutBaseTime
base_time_from base_unspecified = from_start_time
base_time_from base_start_time = from_start_time
base_time_from base_target_execution_time = from_target_execution_time

unfoldable pub base_time_to : TimeoutBaseTime → ProtoTimeoutBaseTime
base_time_to from_start_time = base_start_time
base_time_to from_target_execution_time = base_target_execution_time

unfoldable pub backoff_strategy_from : ProtoBackoffStrategy → BackoffStrategy
backoff_strategy_from strategy_unspecified = fixed
backoff_strategy_from strategy_fixed = fixed
backoff_strategy_from strategy_exponential = exponential

unfoldable pub backoff_strategy_to : BackoffStrategy → ProtoBackoffStrategy
backoff_strategy_to fixed = strategy_fixed
backoff_strategy_to exponential = strategy_exponential

unfoldable pub missed_from : ProtoMissedTimePolicy → MissedTimePolicy
missed_from missed_skip = skip
missed_from missed_unspecified = skip
missed_from missed_create = create

unfoldable pub missed_to : MissedTimePolicy → ProtoMissedTimePolicy
missed_to skip = missed_skip
missed_to create = missed_create

abbrev pub unwrap_or : {A : Type 0} → Option A → A → A
unwrap_or none d = d
unwrap_or (some a) d = a

module _ (P : Protobuf) where
  -- `try_into().unwrap_or_default()`, both ways.
  unfoldable pub duration_from : P.Duration → ℕ
  duration_from d = unwrap_or (P.from_duration d) 0

  unfoldable pub duration_to : ℕ → P.Duration
  duration_to d = unwrap_or (P.to_duration d) P.default_duration

  unfoldable pub timeout_policy_from : ProtoTimeoutPolicy P → TimeoutPolicy
  unfolding duration_from base_time base_time_from
  timeout_policy_from t = record {
    timeout = duration_from (unwrap_or t.timeout P.default_duration);
    base_time = base_time_from (base_time t.base_time);
  }

  unfoldable pub timeout_policy_to : TimeoutPolicy → ProtoTimeoutPolicy P
  unfolding duration_to base_time_number base_time_to
  timeout_policy_to t = record {
    timeout = some (duration_to t.timeout);
    base_time = base_time_number (base_time_to t.base_time);
  }

  unfoldable pub retry_policy_from : ProtoRetryPolicy P → RetryPolicy
  unfolding duration_from backoff_strategy backoff_strategy_from
  retry_policy_from r = record {
    retries = r.retries;
    backoff_duration = duration_from (unwrap_or r.backoff_duration P.default_duration);
    max_backoff_duration = Option.map duration_from r.max_backoff_duration;
    backoff_strategy = backoff_strategy_from (backoff_strategy r.backoff_strategy);
  }

  unfoldable pub retry_policy_to : RetryPolicy → ProtoRetryPolicy P
  unfolding duration_to backoff_strategy_number backoff_strategy_to
  retry_policy_to r = record {
    retries = r.retries;
    backoff_duration = some (duration_to r.backoff_duration);
    max_backoff_duration = Option.map duration_to r.max_backoff_duration;
    backoff_strategy = backoff_strategy_number (backoff_strategy_to r.backoff_strategy);
  }

  -- An optional time; one that cannot be read is refused.
  unfoldable pub time_from : Option P.Timestamp → Invalid → Answer (Option ℕ)
  time_from none why = fine none
  time_from (some t) why = do time ← or_invalid (P.from_timestamp t) why; fine (some time)

  unfoldable pub time_range_from : ProtoTimeRange P → Answer TimeRange
  unfolding time_from
  time_range_from r = do
    start ← time_from r.start invalid_start_time
    end ← time_from r.end invalid_end_time
    fine (record { start = start; end = end })

  unfoldable pub time_range_to : TimeRange → ProtoTimeRange P
  time_range_to r = record {
    start = Option.map P.to_timestamp r.start;
    end = Option.map P.to_timestamp r.end;
  }
