-- ===== src/Convert/Queries.antt =====
-- The message of job filters, and both conversions of it.
use mathlib.Core.Option
use ora.Base.{
  ℕ, String, not, Option, none, some, List, [], ◌∷◌, map, any, filter_map, if◌then◌else◌,
}
use ora.Base.Int.{ℤ}
use ora.Backend.{TimeRange}
use ora.JobTypes.Ids.{new_job_type_id}
use ora.Convert.Status.{
  Answer, fine, refused, ◌>>=◌, or_invalid, collect, invalid_argument, job_type_id, id,
  pending_reasons_without_pending,
}
use ora.Convert.Messages.{Protobuf, ProtoTimeRange}
use ora.Convert.Policies.{time_range_from, time_range_to}
use ora.Convert.Filters.{
  LabelFilter, Uuids, JobFilters, ExecutionStatus, ExecutionPendingReason, status_of, status_number,
  reason_of, reason_number, status_to, status_from, reason_to, reason_from, is_pending,
  label_filter_to, flatten, given,
}

-- `id.parse::<Uuid>()` of each, and `JobTypeId::new` of each.
unfoldable pub ids_from : Uuids → List String → Answer (List ℕ)
unfolding collect
ids_from U texts = collect (λ text. or_invalid (U.parse text) (id text)) texts

unfoldable pub job_type_ids_from : List String → Answer (List String)
unfolding collect
job_type_ids_from texts =
    collect (λ text. or_invalid (new_job_type_id text) (job_type_id text)) texts

unfoldable pub range_from : (P : Protobuf) → Option (ProtoTimeRange P) → Answer (Option TimeRange)
range_from P none = fine none
range_from P (some range) = do r ← time_range_from P range; fine (some r)

-- The getter of statuses leaves out unknown numbers.
unfoldable pub statuses_from : List ℤ → List ExecutionStatus
unfolding status_from status_of
statuses_from numbers = map status_from (filter_map status_of numbers)

-- Reasons need the pending status, if there are statuses.
unfoldable pub reasons_from : List ℤ → List ℤ → Answer (List ExecutionPendingReason)
unfolding is_pending status_of reason_of reason_from collect
reasons_from [] reasons = collect (λ n. reason_from n (reason_of n)) reasons
reasons_from (s ∷ ss) reasons =
    if not (any (λ n. is_pending (status_of n)) (s ∷ ss))
    then refused (invalid_argument pending_reasons_without_pending)
    else collect (λ n. reason_from n (reason_of n)) reasons

module _ (P : Protobuf) (U : Uuids) where
  pub record ProtoJobFilters : Type 0 where
    pub job_ids : List String
    pub job_type_ids : List String
    pub schedule_ids : List String
    pub executor_ids : List String
    pub execution_ids : List String
    pub execution_statuses : List ℤ
    pub target_execution_time : Option (ProtoTimeRange P)
    pub created_at : Option (ProtoTimeRange P)
    pub labels : List LabelFilter
    pub min_priority : Option ℤ
    pub max_priority : Option ℤ
    pub pending_reasons : List ℤ

  -- The client's.
  unfoldable pub job_filters_to : JobFilters → ProtoJobFilters
  unfolding status_to status_number reason_to reason_number label_filter_to time_range_to
  job_filters_to f = record {
    job_ids = map U.print (flatten f.job_ids);
    job_type_ids = flatten f.job_type_ids;
    schedule_ids = map U.print (flatten f.schedule_ids);
    executor_ids = map U.print (flatten f.executor_ids);
    execution_ids = map U.print (flatten f.execution_ids);
    execution_statuses = map (λ s. status_number (status_to s)) (flatten f.execution_statuses);
    target_execution_time = Option.map (time_range_to P) f.target_execution_time;
    created_at = Option.map (time_range_to P) f.created_at;
    labels = map label_filter_to (flatten f.labels);
    min_priority = f.min_priority;
    max_priority = f.max_priority;
    pending_reasons = map (λ r. reason_number (reason_to r)) (flatten f.pending_reasons);
  }

  -- The server's.
  unfoldable pub job_filters_from : ProtoJobFilters → Answer JobFilters
  unfolding ids_from job_type_ids_from range_from statuses_from reasons_from
  job_filters_from f = do
    statuses ← given f.execution_statuses (fine (statuses_from f.execution_statuses))
    jobs ← given f.job_ids (ids_from U f.job_ids)
    types ← given f.job_type_ids (job_type_ids_from f.job_type_ids)
    executors ← given f.executor_ids (ids_from U f.executor_ids)
    target ← range_from P f.target_execution_time
    created ← range_from P f.created_at
    label_filters ← given f.labels (fine f.labels)
    executions ← given f.execution_ids (ids_from U f.execution_ids)
    schedules ← given f.schedule_ids (ids_from U f.schedule_ids)
    reasons ← given f.pending_reasons (reasons_from f.execution_statuses f.pending_reasons)
    fine (record {
      job_ids = jobs;
      job_type_ids = types;
      executor_ids = executors;
      execution_ids = executions;
      execution_statuses = statuses;
      target_execution_time = target;
      created_at = created;
      labels = label_filters;
      schedule_ids = schedules;
      min_priority = f.min_priority;
      max_priority = f.max_priority;
      pending_reasons = reasons;
    })
