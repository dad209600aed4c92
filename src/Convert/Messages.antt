-- ===== src/Convert/Messages.antt =====
-- The messages of the protocol, as generated in crates/ora-server/src/proto/generated. An
-- enumeration's field is a number. Durations and timestamps of the protocol are another library's:
-- `Protobuf` is what the conversions use of them.
use ora.Base.{ℕ, String, Bool, Option, some, List, ◌≡◌}
use ora.Base.Int.{ℤ}
use ora.Backend.{Label}

-- `prost_types`: `default_duration` is `Default`; a duration or time that went through the
-- protocol comes back as it was.
pub record Protobuf : Type 1 where
  pub Duration : Type 0
  pub Timestamp : Type 0
  pub default_duration : Duration
  pub to_duration : ℕ → Option Duration
  pub from_duration : Duration → Option ℕ
  pub to_timestamp : ℕ → Timestamp
  pub from_timestamp : Timestamp → Option ℕ
  pub duration_returns : (d : ℕ) (p : Duration) → to_duration d ≡ some p → from_duration p ≡ some d
  pub timestamp_returns : (t : ℕ) → from_timestamp (to_timestamp t) ≡ some t

pub data ProtoTimeoutBaseTime : Type 0 where
  base_unspecified base_target_execution_time base_start_time : ProtoTimeoutBaseTime

pub data ProtoBackoffStrategy : Type 0 where
  strategy_unspecified strategy_fixed strategy_exponential : ProtoBackoffStrategy

pub data ProtoMissedTimePolicy : Type 0 where
  missed_unspecified missed_skip missed_create : ProtoMissedTimePolicy

module _ (P : Protobuf) where
  pub record ProtoTimeRange : Type 0 where
    pub start : Option P.Timestamp
    pub end : Option P.Timestamp

  pub record ProtoTimeoutPolicy : Type 0 where
    pub timeout : Option P.Duration
    pub base_time : ℤ

  pub record ProtoRetryPolicy : Type 0 where
    pub retries : ℕ
    pub backoff_duration : Option P.Duration
    pub max_backoff_duration : Option P.Duration
    pub backoff_strategy : ℤ

  pub record ProtoJob : Type 0 where
    pub job_type_id : String
    pub target_execution_time : Option P.Timestamp
    pub input_payload_json : String
    pub labels : List Label
    pub timeout_policy : Option ProtoTimeoutPolicy
    pub retry_policy : Option ProtoRetryPolicy
    pub priority : ℤ

  pub data ProtoPolicy : Type 0 where
    interval :
        (interval : Option P.Duration) (immediate : Bool) (missed_time_policy : ℤ) → ProtoPolicy
    cron : (cron_expression : String) (immediate : Bool) (missed_time_policy : ℤ) → ProtoPolicy

  pub record ProtoSchedulingPolicy : Type 0 where
    pub policy : Option ProtoPolicy

  pub record ProtoSchedule : Type 0 where
    pub scheduling : Option ProtoSchedulingPolicy
    pub job_template : Option ProtoJob
    pub labels : List Label
    pub time_range : Option ProtoTimeRange
