-- ===== src/Convert/Schedules.antt =====
-- Filters of schedules: the client's conversion of crates/ora/src/proto/convert.rs, and the server's
-- of crates/ora-server/src/grpc/conv.rs.
use mathlib.Core.Option
use ora.Base.{ℕ, zero, suc, String, Option, none, some, List, map, filter_map}
use ora.Base.Int.{ℤ, pos}
use ora.Backend.{TimeRange}
use ora.Convert.Status.{Answer, fine, ◌>>=◌}
use ora.Convert.Messages.{Protobuf, ProtoTimeRange}
use ora.Convert.Policies.{time_range_to}
use ora.Convert.Filters.{LabelFilter, Uuids, label_filter_to, flatten, given}
use ora.Convert.Queries.{ids_from, job_type_ids_from, range_from}

pub data ScheduleStatus : Type 0 where
  active stopped : ScheduleStatus

pub data ProtoScheduleStatus : Type 0 where
  schedule_unspecified schedule_active schedule_stopped : ProtoScheduleStatus

pub record ScheduleFilters : Type 0 where
  pub schedule_ids : Option (List ℕ)
  pub job_type_ids : Option (List String)
  pub statuses : Option (List ScheduleStatus)
  pub created_at : Option TimeRange
  pub labels : Option (List LabelFilter)

unfoldable pub schedule_status_of : ℤ → Option ProtoScheduleStatus
schedule_status_of (pos zero) = some schedule_unspecified
schedule_status_of (pos (suc zero)) = some schedule_active
schedule_status_of (pos (suc (suc zero))) = some schedule_stopped
schedule_status_of _ = none

unfoldable pub schedule_status_number : ProtoScheduleStatus → ℤ
schedule_status_number schedule_unspecified = pos 0
schedule_status_number schedule_active = pos 1
schedule_status_number schedule_stopped = pos 2

unfoldable pub schedule_status_to : ScheduleStatus → ProtoScheduleStatus
schedule_status_to active = schedule_active
schedule_status_to stopped = schedule_stopped

unfoldable pub schedule_status_from : ProtoScheduleStatus → ScheduleStatus
schedule_status_from schedule_unspecified = active
schedule_status_from schedule_active = active
schedule_status_from schedule_stopped = stopped

module _ (P : Protobuf) (U : Uuids) where
  pub record ProtoScheduleFilters : Type 0 where
    pub schedule_ids : List String
    pub job_type_ids : List String
    pub statuses : List ℤ
    pub created_at : Option (ProtoTimeRange P)
    pub labels : List LabelFilter

  -- The client's.
  unfoldable pub schedule_filters_to : ScheduleFilters → ProtoScheduleFilters
  unfolding schedule_status_to schedule_status_number label_filter_to time_range_to
  schedule_filters_to f = record {
    schedule_ids = map U.print (flatten f.schedule_ids);
    job_type_ids = flatten f.job_type_ids;
    statuses = map (λ s. schedule_status_number (schedule_status_to s)) (flatten f.statuses);
    created_at = Option.map (time_range_to P) f.created_at;
    labels = map label_filter_to (flatten f.labels);
  }

  -- The server's; the getter of statuses leaves out unknown numbers.
  unfoldable pub schedule_filters_from : ProtoScheduleFilters → Answer ScheduleFilters
  unfolding ids_from job_type_ids_from range_from schedule_status_from schedule_status_of
  schedule_filters_from f = do
    statuses ←
        given f.statuses
          (fine (map schedule_status_from (filter_map schedule_status_of f.statuses)))
    schedules ← given f.schedule_ids (ids_from U f.schedule_ids)
    created ← range_from P f.created_at
    label_filters ← given f.labels (fine f.labels)
    types ← given f.job_type_ids (job_type_ids_from f.job_type_ids)
    fine (record {
      schedule_ids = schedules;
      job_type_ids = types;
      statuses = statuses;
      created_at = created;
      labels = label_filters;
    })
