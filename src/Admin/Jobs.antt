-- ===== src/Admin/Jobs.antt =====
-- `add_jobs` and `cancel_jobs` of crates/ora-server/src/grpc/admin.rs.
use ora.Base.{ℕ, String, Bool, Option, none, some, List, [], ◌++◌, map, if◌then◌else◌}
use ora.Backend.{JobDefinition, NewJob, CancelledJob}
use ora.Pool.State.{ExecutorPool, Output}
use ora.Pool.Cancel.{cancel_executions}
use ora.Convert.Status.{Answer, fine, refused, ◌>>=◌, collect, unavailable, internal}
use ora.Convert.Messages.{Protobuf, ProtoJob}
use ora.Convert.Policies.{unwrap_or}
use ora.Convert.Jobs.{job_from}
use ora.Convert.Filters.{Uuids, JobFilters}
use ora.Convert.Queries.{ProtoJobFilters, job_filters_from}
use ora.Admin.Checks.{check_job, err_status}

pub data AddedJobs : Type 0 where
  added : (job_ids : List ℕ) → AddedJobs
  existing : (job_ids : List ℕ) → AddedJobs

-- What the service uses of a backend; `none` is an error.
pub record JobBackend : Type 1 where
  pub Store : Type 0
  pub add_jobs : List NewJob → Option JobFilters → Store → Option AddedJobs × Store
  pub cancel_jobs : JobFilters → Store → Option (List CancelledJob) × Store

pub record AddJobsResponse : Type 0 where
  pub job_ids : List String
  pub existing_job_ids : List String

abbrev pub without_schedule : JobDefinition → NewJob
without_schedule job = record { job = job; schedule_id = none }

module _ (P : Protobuf) (U : Uuids) (B : JobBackend) (epoch : ℕ) (is_json : String → Bool) where
  pub record AddJobsRequest : Type 0 where
    pub jobs : List (ProtoJob P)
    pub if_not_exists : Option (ProtoJobFilters P U)

  unfoldable pub if_not_exists_from : Option (ProtoJobFilters P U) → Answer (Option JobFilters)
  unfolding err_status
  if_not_exists_from none = fine none
  if_not_exists_from (some filters) = do
    read ← err_status (job_filters_from P U filters)
    fine (some read)

  -- What is made of a request before the backend is called.
  unfoldable pub read_jobs : AddJobsRequest → Answer (List JobDefinition × Option JobFilters)
  unfolding collect check_job if_not_exists_from
  read_jobs request = do
    converted ← collect (job_from P) request.jobs
    jobs ← collect (check_job epoch is_json) converted
    filters ← if_not_exists_from request.if_not_exists
    fine (jobs, filters)

  unfoldable pub added_response : Option AddedJobs → Answer AddJobsResponse
  added_response none = refused internal
  added_response (some (added ids)) =
      fine (record { job_ids = map U.print ids; existing_job_ids = [] })
  added_response (some (existing ids)) =
      fine (record { job_ids = []; existing_job_ids = map U.print ids })

  abbrev pub add_read :
      Answer (List JobDefinition × Option JobFilters) → B.Store → Answer AddJobsResponse × B.Store
  add_read (refused s) store = (refused s, store)
  add_read (fine (jobs, filters)) store =
      let (result, after) = B.add_jobs (map without_schedule jobs) filters store in
      (added_response result, after)

  unfoldable pub add_jobs : Bool → AddJobsRequest → B.Store → Answer AddJobsResponse × B.Store
  unfolding read_jobs added_response
  add_jobs is_waiting request store =
      if is_waiting then (refused unavailable, store) else add_read (read_jobs request) store

  pub record Server : Type 0 where
    pub store : B.Store
    pub pool : ExecutorPool
    pub outputs : List Output

  -- The executions of cancelled jobs are cancelled at their executors.
  abbrev pub cancelled_by :
      Option (List CancelledJob) → B.Store → Server → Answer (List String) × Server
  cancelled_by none after s = (refused internal, record s { store = after })
  cancelled_by (some jobs) after s =
      let (pool, outputs) = cancel_executions jobs s.pool in
      (
        fine (map (λ j. U.print j.job_id) jobs),
        record { store = after; pool = pool; outputs = s.outputs ++ outputs },
      )

  abbrev pub cancel_read : Answer JobFilters → Server → Answer (List String) × Server
  cancel_read (refused why) s = (refused why, s)
  cancel_read (fine filters) s =
      let (result, after) = B.cancel_jobs filters s.store in cancelled_by result after s

  -- No filters of a request are the default ones.
  abbrev pub no_filters : ProtoJobFilters P U
  no_filters = record {
    job_ids = [];
    job_type_ids = [];
    schedule_ids = [];
    executor_ids = [];
    execution_ids = [];
    execution_statuses = [];
    target_execution_time = none;
    created_at = none;
    labels = [];
    min_priority = none;
    max_priority = none;
    pending_reasons = [];
  }

  unfoldable pub cancel_jobs :
      Bool → Option (ProtoJobFilters P U) → Server → Answer (List String) × Server
  cancel_jobs is_waiting filters s =
      if is_waiting
      then (refused unavailable, s)
      else cancel_read (job_filters_from P U (unwrap_or filters no_filters)) s
