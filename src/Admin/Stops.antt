-- ===== src/Admin/Stops.antt =====
-- `stop_schedules` of crates/ora-server/src/grpc/admin.rs.
use ora.Base.{ℕ, String, Bool, true, false, Option, none, some, List, [], ◌++◌, map, if◌then◌else◌}
use ora.Backend.{CancelledJob}
use ora.Pool.State.{ExecutorPool, Output}
use ora.Pool.Cancel.{cancel_executions}
use ora.Convert.Status.{Answer, fine, refused, unavailable, internal}
use ora.Convert.Messages.{Protobuf}
use ora.Convert.Policies.{unwrap_or}
use ora.Convert.Filters.{Uuids, JobFilters}
use ora.Convert.Schedules.{ScheduleFilters, ProtoScheduleFilters, schedule_filters_from}
use ora.Admin.Schedules.{ScheduleBackend}

-- The filters by schedules alone.
abbrev pub of_schedules : List ℕ → JobFilters
of_schedules ids = record {
  job_ids = none;
  job_type_ids = none;
  executor_ids = none;
  execution_ids = none;
  execution_statuses = none;
  target_execution_time = none;
  created_at = none;
  labels = none;
  schedule_ids = some ids;
  min_priority = none;
  max_priority = none;
  pending_reasons = none;
}

module _ (P : Protobuf) (U : Uuids) (B : ScheduleBackend) where
  pub record ScheduleServer : Type 0 where
    pub store : B.Store
    pub pool : ExecutorPool
    pub outputs : List Output

  -- The jobs of stopped schedules are cancelled.
  abbrev pub jobs_cancelled :
      List ℕ
      → Option (List CancelledJob)
      → B.Store
      → ScheduleServer
      → Answer (List String) × ScheduleServer
  jobs_cancelled ids none after s = (refused internal, record s { store = after })
  jobs_cancelled ids (some jobs) after s =
      let (pool, outputs) = cancel_executions jobs s.pool in
      (
        fine (map U.print ids),
        record { store = after; pool = pool; outputs = s.outputs ++ outputs },
      )

  unfoldable pub stopped_by :
      Bool → Option (List ℕ) → B.Store → ScheduleServer → Answer (List String) × ScheduleServer
  stopped_by cancel_active_jobs none after s = (refused internal, record s { store = after })
  stopped_by false (some ids) after s = (fine (map U.print ids), record s { store = after })
  stopped_by true (some ids) after s =
      let (result, later) = B.cancel_jobs (of_schedules ids) after in
      jobs_cancelled ids result later s

  abbrev pub stop_read :
      Bool → Answer ScheduleFilters → ScheduleServer → Answer (List String) × ScheduleServer
  stop_read cancel_active_jobs (refused why) s = (refused why, s)
  stop_read cancel_active_jobs (fine filters) s =
      let (result, after) = B.stop_schedules filters s.store in
      stopped_by cancel_active_jobs result after s

  abbrev pub no_schedule_filters : ProtoScheduleFilters P U
  no_schedule_filters = record {
    schedule_ids = [];
    job_type_ids = [];
    statuses = [];
    created_at = none;
    labels = [];
  }

  unfoldable pub stop_schedules :
      Bool
      → Bool
      → Option (ProtoScheduleFilters P U)
      → ScheduleServer
      → Answer (List String) × ScheduleServer
  unfolding stopped_by
  stop_schedules is_waiting cancel_active_jobs filters s =
      if is_waiting
      then (refused unavailable, s)
      else stop_read cancel_active_jobs
          (schedule_filters_from P U (unwrap_or filters no_schedule_filters)) s
