-- ===== src/Tests/Admin.antt =====
-- The theorems about the admin service, its filters and its refusals at concrete requests.
use ora.Base.{
  ℕ, String, zero, suc, ◌+◌, ◌≡◌, ◌↔◌, ◌⊎◌, refl, ap, inr, Bool, true, false, Option, none, some,
  List, [], ◌∷◌, map, All, length, any,
}
use ora.Base.Int.{pos}
use ora.Backend.{CancelledJob, JobDefinition}
use ora.Pool.History.{Reachable-Inv}
use ora.JobTypes.Ids.{validate, all_segments, is_segment, is_letter, all_word, is_word}
use ora.Convert.Status.{Status, refused, fine, invalid_argument, missing_job_template}
use ora.Convert.Messages.{ProtoSchedule, interval}
use ora.Convert.Jobs.{schedule_from}
use ora.Convert.Filters.{Uuids, JobFilters, failed, pending, ready}
use ora.Convert.Queries.{job_filters_from, job_filters_to}
use ora.Convert.Arrivals.{
  arriving, IsWellFormed, is_pending_status, job_filters_from-job_filters_to,
}
use ora.Convert.Refusals.{ScheduleProblem, schedule_from-ScheduleProblem}
use ora.Admin.Jobs.{
  JobBackend, added, AddJobsRequest, Server, add_jobs, cancel_jobs, without_schedule,
}
use ora.Admin.Admitted.{IsFit, add_jobs-IsFit}
use ora.Admin.Cancelled.{IsCancelled, cancel_jobs-IsCancelled}
use ora.Convert.Jobs.{schedule_to}
use ora.Admin.Schedules.{ScheduleBackend, AddSchedulesRequest, schedules_added, add_schedules}
use ora.Admin.Planned.{PlannedOutcome, add_schedules-PlannedOutcome}
use ora.Tests.Data.{offered_pool}
use ora.Tests.Pool.{offered_pool-Reachable}
use ora.Tests.Convert.{plain, template, hourly}
use ora.Convert.Jobs.{job_to}

-- An ID is written in strokes.
unfoldable strokes : ℕ → String
strokes zero = ""
strokes (suc n) = String.◌∷◌ "|" (strokes n)

unfoldable count_strokes : String → ℕ
count_strokes String.[] = 0
count_strokes (String.◌∷◌ c s) = suc (count_strokes s)

count_strokes-strokes : (n : ℕ) → count_strokes (strokes n) ≡ n
unfolding strokes count_strokes
count_strokes-strokes zero = refl
count_strokes-strokes (suc n) = ap suc (count_strokes-strokes n)

abbrev uuids : Uuids
uuids = record {
  print = strokes;
  parse = λ s. some (count_strokes s);
  parse_print = λ id. ap some (count_strokes-strokes id);
}

abbrev cancelled_job : CancelledJob
cancelled_job = record { job_id = 70; last_execution_id = 7; job_type_id = "send_mail" }

-- A backend that counts its jobs, and cancels one.
abbrev backend : JobBackend
backend = record {
  Store = ℕ;
  add_jobs = λ jobs filters n. (some (added (n ∷ [])), n + length jobs);
  cancel_jobs = λ filters n. (some (cancelled_job ∷ []), n);
}

abbrev accepts : String → Bool
accepts s = true

abbrev request : AddJobsRequest plain uuids backend 0 accepts
request = record { jobs = job_to plain template ∷ []; if_not_exists = none }

add_jobs-IsFit_example :
    let (answer, after) = add_jobs plain uuids backend 0 accepts false request 5 in
    ((why : Status) × (answer ≡ refused why) × (after ≡ 5))
    ⊎ ((jobs : List JobDefinition) × (filters : Option JobFilters) × All (IsFit 0 accepts) jobs
        × (length jobs ≡ length request.jobs)
        × (after ≡ (backend.add_jobs (map without_schedule jobs) filters 5).1))
add_jobs-IsFit_example = add_jobs-IsFit plain uuids backend 0 accepts false request 5

-- By an empty list of schedules, two statuses and a reason.
abbrev filters : JobFilters
filters = record {
  job_ids = some (1 ∷ 2 ∷ []);
  job_type_ids = some ("mail.send" ∷ []);
  executor_ids = none;
  execution_ids = none;
  execution_statuses = some (failed ∷ pending ∷ []);
  target_execution_time = none;
  created_at = some (record { start = some 5; end = none });
  labels = none;
  schedule_ids = some [];
  min_priority = some (pos 1);
  max_priority = none;
  pending_reasons = some (ready ∷ []);
}

filters-IsWellFormed : IsWellFormed filters
unfolding validate all_segments is_segment is_letter all_word is_word is_pending_status any
filters-IsWellFormed = record { valid_types = (refl, tt); pending_if_reasons = inr (inr refl) }

job_filters_from-job_filters_to_example :
    job_filters_from plain uuids (job_filters_to plain uuids filters) ≡ fine (arriving filters)
job_filters_from-job_filters_to_example =
    job_filters_from-job_filters_to plain uuids filters filters-IsWellFormed

abbrev server : Server plain uuids backend 0 accepts
server = record { store = 3; pool = offered_pool; outputs = [] }

cancel_jobs-IsCancelled_example :
    IsCancelled plain uuids backend 0 accepts (cancelled_job ∷ []) 3 7 server (
      cancel_jobs plain uuids backend 0 accepts false
        (some (job_filters_to plain uuids filters))
        server)
cancel_jobs-IsCancelled_example =
    cancel_jobs-IsCancelled plain uuids backend 0 accepts filters (cancelled_job ∷ []) 3 7 server
      filters-IsWellFormed refl ((Reachable-Inv offered_pool-Reachable).distinct 7)

-- A schedule without a job template.
abbrev no_job : ProtoSchedule plain
no_job = record {
  scheduling = some (record { policy = some (interval (some 5) true (pos 0)) });
  job_template = none;
  labels = [];
  time_range = none;
}

schedule_from-ScheduleProblem_example :
    (schedule_from plain no_job ≡ refused (invalid_argument missing_job_template))
    ↔ ScheduleProblem plain no_job (invalid_argument missing_job_template)
schedule_from-ScheduleProblem_example =
    schedule_from-ScheduleProblem plain no_job (invalid_argument missing_job_template)

-- A backend that counts its schedules.
abbrev schedule_backend : ScheduleBackend
schedule_backend = record {
  Store = ℕ;
  add_schedules = λ schedules filters n. (some (schedules_added (n ∷ [])), n + length schedules);
  stop_schedules = λ filters n. (some [], n);
  cancel_jobs = λ filters n. (some [], n);
}

abbrev no_crontab : String → Option ℕ
no_crontab s = none

abbrev never : ℕ → ℕ → Option ℕ
never tab now = none

abbrev every_time : ℕ → Bool
every_time t = true

abbrev schedule_request :
    AddSchedulesRequest 0 1_000_000 every_time no_crontab never accepts plain uuids schedule_backend
schedule_request = record {
  schedules = schedule_to plain hourly ∷ [];
  if_not_exists = none;
  inherit_labels = some true;
}

add_schedules-PlannedOutcome_example :
    PlannedOutcome 0 1_000_000 every_time no_crontab never accepts plain uuids schedule_backend 50
      schedule_request 2
      (add_schedules 0 1_000_000 every_time no_crontab never accepts plain uuids schedule_backend
        false 50 schedule_request 2)
add_schedules-PlannedOutcome_example =
    add_schedules-PlannedOutcome 0 1_000_000 every_time no_crontab never accepts plain uuids
      schedule_backend 50 schedule_request false 2
