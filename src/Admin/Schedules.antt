-- ===== src/Admin/Schedules.antt =====
-- `add_schedules` and `stop_schedules` of crates/ora-server/src/grpc/admin.rs.
use ora.Base.{
  ℕ, String, Bool, true, false, not, Option, none, some, List, [], map, if◌then◌else◌, is_none_or,
}
use ora.Backend.{ScheduleDefinition, CancelledJob}
use ora.Util.{validate_time}
use ora.Labels.Defs.{deduplicate_labels, inherit_labels}
use ora.Schedule.Defs.{Result, ok, err, validate_schedule}
use ora.Convert.Status.{
  Answer, fine, refused, ◌>>=◌, collect, invalid_argument, labels, time, payload, schedule,
  unavailable, internal,
}
use ora.Convert.Messages.{Protobuf, ProtoSchedule}
use ora.Convert.Policies.{unwrap_or}
use ora.Convert.Jobs.{schedule_from}
use ora.Convert.Filters.{Uuids, JobFilters}
use ora.Convert.Schedules.{ScheduleFilters, ProtoScheduleFilters, schedule_filters_from}
use ora.Admin.Checks.{validate_labels, err_status}

pub data AddedSchedules : Type 0 where
  schedules_added : (schedule_ids : List ℕ) → AddedSchedules
  schedules_existing : (schedule_ids : List ℕ) → AddedSchedules

-- What these calls use of a backend; `none` is an error. A stopped schedule is its ID.
pub record ScheduleBackend : Type 1 where
  pub Store : Type 0
  pub add_schedules :
      List ScheduleDefinition → Option ScheduleFilters → Store → Option AddedSchedules × Store
  pub stop_schedules : ScheduleFilters → Store → Option (List ℕ) × Store
  pub cancel_jobs : JobFilters → Store → Option (List CancelledJob) × Store

pub record AddSchedulesResponse : Type 0 where
  pub schedule_ids : List String
  pub existing_schedule_ids : List String

-- Both lists of labels are deduplicated first.
unfoldable pub with_labels : ScheduleDefinition → ScheduleDefinition
unfolding deduplicate_labels
with_labels s = record s {
  labels = deduplicate_labels s.labels;
  job_template = record s.job_template { labels = deduplicate_labels s.job_template.labels };
}

unfoldable pub inherit_from_schedule : ScheduleDefinition → ScheduleDefinition
unfolding inherit_labels
inherit_from_schedule s = record s {
  job_template = record s.job_template { labels = inherit_labels s.labels s.job_template.labels };
}

module _ (epoch limit : ℕ) (in_range : ℕ → Bool) {Crontab : Type 0}
    (parse : String → Option Crontab) (find_next : Crontab → ℕ → Option ℕ)
    (is_json : String → Bool) where
  abbrev pub scheduled_or : ScheduleDefinition → Result (Unit {0}) → Answer ScheduleDefinition
  scheduled_or s (ok u) = fine s
  scheduled_or s (err e) = refused (invalid_argument (schedule e))

  -- One round of the loop, with its labels deduplicated.
  unfoldable pub check_labelled : ℕ → ScheduleDefinition → Answer ScheduleDefinition
  unfolding validate_labels validate_time validate_schedule
  check_labelled now s =
      if not (validate_labels s.labels)
      then refused (invalid_argument labels)
      else if not (validate_labels s.job_template.labels)
      then refused (invalid_argument labels)
      else if not (is_none_or s.time_range.start (validate_time epoch))
      then refused (invalid_argument time)
      else if not (is_none_or s.time_range.end (validate_time epoch))
      then refused (invalid_argument time)
      else if not (is_json s.job_template.input_payload_json)
      then refused (invalid_argument payload)
      else scheduled_or s (validate_schedule limit in_range parse find_next now s)

  unfoldable pub check_schedule : ℕ → ScheduleDefinition → Answer ScheduleDefinition
  unfolding check_labelled with_labels
  check_schedule now s = check_labelled now (with_labels s)

  module _ (P : Protobuf) (U : Uuids) (B : ScheduleBackend) where
    pub record AddSchedulesRequest : Type 0 where
      pub schedules : List (ProtoSchedule P)
      pub if_not_exists : Option (ProtoScheduleFilters P U)
      pub inherit_labels : Option Bool

    unfoldable pub unless_exists_from :
        Option (ProtoScheduleFilters P U) → Answer (Option ScheduleFilters)
    unfolding err_status
    unless_exists_from none = fine none
    unless_exists_from (some filters) = do
      read ← err_status (schedule_filters_from P U filters)
      fine (some read)

    abbrev pub inheriting : Bool → List ScheduleDefinition → List ScheduleDefinition
    inheriting true schedules = map inherit_from_schedule schedules
    inheriting false schedules = schedules

    -- What is made of a request before the backend is called.
    unfoldable pub read_schedules :
        ℕ → AddSchedulesRequest → Answer (List ScheduleDefinition × Option ScheduleFilters)
    unfolding collect check_schedule unless_exists_from inherit_from_schedule
    read_schedules now request = do
      filters ← unless_exists_from request.if_not_exists
      converted ← collect (schedule_from P) request.schedules
      checked ← collect (check_schedule now) converted
      fine (inheriting (unwrap_or request.inherit_labels true) checked, filters)

    unfoldable pub schedules_response : Option AddedSchedules → Answer AddSchedulesResponse
    schedules_response none = refused internal
    schedules_response (some (schedules_added ids)) =
        fine (record { schedule_ids = map U.print ids; existing_schedule_ids = [] })
    schedules_response (some (schedules_existing ids)) =
        fine (record { schedule_ids = []; existing_schedule_ids = map U.print ids })

    abbrev pub add_read_schedules :
        Answer (List ScheduleDefinition × Option ScheduleFilters)
        → B.Store
        → Answer AddSchedulesResponse × B.Store
    add_read_schedules (refused s) store = (refused s, store)
    add_read_schedules (fine (schedules, filters)) store =
        let (result, after) = B.add_schedules schedules filters store in
        (schedules_response result, after)

    unfoldable pub add_schedules :
        Bool → ℕ → AddSchedulesRequest → B.Store → Answer AddSchedulesResponse × B.Store
    unfolding read_schedules schedules_response
    add_schedules is_waiting now request store =
        if is_waiting
        then (refused unavailable, store)
        else add_read_schedules (read_schedules now request) store
