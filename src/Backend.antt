-- ===== src/Backend.antt =====
-- The types of crates/ora-backend/src that the server shares with its backends: jobs.rs,
-- executions.rs, schedules.rs and common.rs. UUIDs are numbers, times are nanoseconds.
use ora.Base.{ℕ, String, Bool, Option, List}
use ora.Base.Int.{ℤ}

pub record Label : Type 0 where
  pub key : String
  pub value : String

-- Open at an end that is `none`.
pub record TimeRange : Type 0 where
  pub start : Option ℕ
  pub end : Option ℕ

pub record JobType : Type 0 where
  pub id : String
  pub description : Option String
  pub input_schema_json : Option String
  pub output_schema_json : Option String

pub data TimeoutBaseTime : Type 0 where
  from_target_execution_time from_start_time : TimeoutBaseTime

pub record TimeoutPolicy : Type 0 where
  pub timeout : ℕ
  pub base_time : TimeoutBaseTime

pub data BackoffStrategy : Type 0 where
  fixed exponential : BackoffStrategy

pub record RetryPolicy : Type 0 where
  pub retries : ℕ
  pub backoff_duration : ℕ
  pub max_backoff_duration : Option ℕ
  pub backoff_strategy : BackoffStrategy

pub record JobDefinition : Type 0 where
  pub job_type_id : String
  pub target_execution_time : ℕ
  pub input_payload_json : String
  pub labels : List Label
  pub timeout_policy : TimeoutPolicy
  pub retry_policy : RetryPolicy
  pub priority : ℤ

pub record NewJob : Type 0 where
  pub job : JobDefinition
  pub schedule_id : Option ℕ

pub record CancelledJob : Type 0 where
  pub job_id : ℕ
  pub last_execution_id : ℕ
  pub job_type_id : String

pub record ReadyExecution : Type 0 where
  pub execution_id : ℕ
  pub job_id : ℕ
  pub job_type_id : String
  pub input_payload_json : String
  pub attempt_number : ℕ
  pub retry_policy : RetryPolicy
  pub target_execution_time : ℕ
  pub priority : ℤ

pub record StartedExecution : Type 0 where
  pub execution_id : ℕ
  pub executor_id : ℕ
  pub started_at : ℕ

pub record SucceededExecution : Type 0 where
  pub execution_id : ℕ
  pub succeeded_at : ℕ
  pub output_json : String

pub record FailedExecution : Type 0 where
  pub execution_id : ℕ
  pub job_id : ℕ
  pub failed_at : ℕ
  pub failure_reason : String

pub record RetriedExecution : Type 0 where
  pub failed_execution : FailedExecution
  pub retry_execution_time : ℕ

pub record InProgressExecution : Type 0 where
  pub execution_id : ℕ
  pub job_id : ℕ
  pub job_type_id : String
  pub executor_id : ℕ
  pub target_execution_time : ℕ
  pub started_at : ℕ
  pub timeout_policy : TimeoutPolicy
  pub retry_policy : RetryPolicy
  pub attempt_number : ℕ

pub data MissedTimePolicy : Type 0 where
  skip create : MissedTimePolicy

pub data SchedulingPolicy : Type 0 where
  fixed_interval : (interval : ℕ) (immediate : Bool) (missed : MissedTimePolicy) → SchedulingPolicy
  cron : (expression : String) (immediate : Bool) (missed : MissedTimePolicy) → SchedulingPolicy

pub record ScheduleDefinition : Type 0 where
  pub scheduling : SchedulingPolicy
  pub job_template : JobDefinition
  pub labels : List Label
  pub time_range : TimeRange

pub record PendingSchedule : Type 0 where
  pub schedule_id : ℕ
  pub last_target_execution_time : Option ℕ
  pub scheduling : SchedulingPolicy
  pub time_range : TimeRange
  pub job_template : JobDefinition
