-- ===== src/Convert/Jobs.antt =====
-- The conversions of jobs and schedules.
use ora.Base.{none, some}
use ora.Base.Int.{pos}
use ora.Backend.{JobDefinition, SchedulingPolicy, fixed_interval, cron, ScheduleDefinition}
use ora.JobTypes.Ids.{new_job_type_id}
use ora.Convert.Status.{
  Answer, fine, ◌>>=◌, or_invalid, job_type_id, missing_target_execution_time,
  invalid_target_execution_time, missing_scheduling_policy, missing_job_template,
}
use ora.Convert.Messages.{
  Protobuf, ProtoTimeRange, ProtoTimeoutPolicy, ProtoRetryPolicy, ProtoJob, ProtoPolicy, interval,
  ProtoSchedulingPolicy, ProtoSchedule,
}
use ora.Convert.Messages as Messages
use ora.Convert.Policies.{
  unwrap_or, missed_time_policy, missed_time_policy_number, missed_from, missed_to, duration_from,
  duration_to, timeout_policy_from, timeout_policy_to, retry_policy_from, retry_policy_to,
  time_range_from, time_range_to,
}

module _ (P : Protobuf) where
  -- The defaults of messages.
  abbrev pub default_timeout_policy : ProtoTimeoutPolicy P
  default_timeout_policy = record { timeout = none; base_time = pos 0 }

  abbrev pub default_retry_policy : ProtoRetryPolicy P
  default_retry_policy = record {
    retries = 0;
    backoff_duration = none;
    max_backoff_duration = none;
    backoff_strategy = pos 0;
  }

  abbrev pub default_scheduling_policy : ProtoSchedulingPolicy P
  default_scheduling_policy = record { policy = none }

  abbrev pub default_time_range : ProtoTimeRange P
  default_time_range = record { start = none; end = none }

  unfoldable pub job_from : ProtoJob P → Answer JobDefinition
  unfolding timeout_policy_from retry_policy_from
  job_from j = do
    id ← or_invalid (new_job_type_id j.job_type_id) (job_type_id j.job_type_id)
    stamp ← or_invalid j.target_execution_time missing_target_execution_time
    time ← or_invalid (P.from_timestamp stamp) invalid_target_execution_time
    fine (record {
      job_type_id = id;
      target_execution_time = time;
      input_payload_json = j.input_payload_json;
      labels = j.labels;
      timeout_policy = timeout_policy_from P (unwrap_or j.timeout_policy default_timeout_policy);
      retry_policy = retry_policy_from P (unwrap_or j.retry_policy default_retry_policy);
      priority = j.priority;
    })

  unfoldable pub job_to : JobDefinition → ProtoJob P
  unfolding timeout_policy_to retry_policy_to
  job_to j = record {
    job_type_id = j.job_type_id;
    target_execution_time = some (P.to_timestamp j.target_execution_time);
    input_payload_json = j.input_payload_json;
    labels = j.labels;
    timeout_policy = some (timeout_policy_to P j.timeout_policy);
    retry_policy = some (retry_policy_to P j.retry_policy);
    priority = j.priority;
  }

  unfoldable pub scheduling_from : ProtoPolicy P → SchedulingPolicy
  unfolding duration_from missed_time_policy missed_from
  scheduling_from (interval d immediate missed) =
      fixed_interval (duration_from P (unwrap_or d P.default_duration)) immediate
        (missed_from (missed_time_policy missed))
  scheduling_from (Messages.cron expression immediate missed) =
      cron expression immediate (missed_from (missed_time_policy missed))

  unfoldable pub scheduling_to : SchedulingPolicy → ProtoPolicy P
  unfolding duration_to missed_time_policy_number missed_to
  scheduling_to (fixed_interval d immediate missed) =
      interval (some (duration_to P d)) immediate (missed_time_policy_number (missed_to missed))
  scheduling_to (cron expression immediate missed) =
      Messages.cron expression immediate (missed_time_policy_number (missed_to missed))

  unfoldable pub schedule_from : ProtoSchedule P → Answer ScheduleDefinition
  unfolding scheduling_from job_from time_range_from
  schedule_from s = do
    policy ←
        or_invalid (unwrap_or s.scheduling default_scheduling_policy).policy
          missing_scheduling_policy
    template ← or_invalid s.job_template missing_job_template
    job ← job_from template
    range ← time_range_from P (unwrap_or s.time_range default_time_range)
    fine (record {
      scheduling = scheduling_from policy;
      job_template = job;
      labels = s.labels;
      time_range = range;
    })

  unfoldable pub schedule_to : ScheduleDefinition → ProtoSchedule P
  unfolding scheduling_to job_to time_range_to
  schedule_to s = record {
    scheduling = some (record { policy = some (scheduling_to s.scheduling) });
    job_template = some (job_to s.job_template);
    labels = s.labels;
    time_range = some (time_range_to P s.time_range);
  }
