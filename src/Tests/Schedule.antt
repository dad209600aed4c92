-- ===== src/Tests/Schedule.antt =====
-- The theorems about schedules at concrete inputs.
use ora.Base.{
  ℕ, String, ◌+◌, ◌*◌, ◌≤◌, ◌<◌, ◌≡◌, ◌⊎◌, refl, Bool, true, false, Option, none, some, List, [],
  ◌∷◌, leb, sum_by, one, ◌==◌, All,
}
use ora.Backend.{PendingSchedule, ScheduleDefinition, fixed_interval, skip, create, from_start_time}
use ora.Base.Int.{pos}
use ora.Schedule.Batch.{plan}
use ora.Schedule.Plans.{handled, IsPlanned, plan-handled, plan-due}
use ora.Schedule.Defs.{ok, next_interval, next_execution_time, validate_schedule, as_pending}
use ora.Schedule.Interval.{next_interval-skip}
use ora.Tests.Data.{policy}

abbrev far : ℕ
far = 1_000_000_000_000

abbrev in_range : ℕ → Bool
in_range t = leb t far

-- The last time was 100, an interval is 30, and it is 175 now.
skips : next_interval far in_range 30 false skip 175 (some 100) ≡ ok (some 190)
unfolding next_interval
skips = refl

next_interval-skip_example :
    (k : ℕ) × (190 ≡ 100 + 30 + k * 30)
    × (175 ≤ 190)
    × ((k ≡ 0) ⊎ (190 < 175 + 30))
    × (in_range 190 ≡ true)
next_interval-skip_example = next_interval-skip far in_range 30 175 100 false 190 skips

-- Every ten minutes from time 600 on, the first job at once.
abbrev schedule : ScheduleDefinition
schedule = record {
  scheduling = fixed_interval 600 true create;
  job_template = record {
    job_type_id = "send_mail";
    target_execution_time = 0;
    input_payload_json = "{}";
    labels = [];
    timeout_policy = record { timeout = 0; base_time = from_start_time };
    retry_policy = policy;
    priority = pos 0;
  };
  labels = [];
  time_range = record { start = some 600; end = none };
}

abbrev no_crontab : String → Option ℕ
no_crontab expression = none

abbrev no_times : ℕ → ℕ → Option ℕ
no_times tab now = none

is_valid : validate_schedule far in_range no_crontab no_times 50 schedule ≡ ok tt
unfolding validate_schedule next_execution_time
is_valid = refl

abbrev pending_schedules : List PendingSchedule
pending_schedules = as_pending schedule schedule.scheduling ∷ []

plan-handled_example :
    let r = plan far in_range no_crontab no_times 50 pending_schedules in
    (handled 0 r ≤ sum_by (λ s. one (s.schedule_id == 0)) pending_schedules)
    × (r.unhandled_schedules ≡ false
        → handled 0 r ≡ sum_by (λ s. one (s.schedule_id == 0)) pending_schedules)
plan-handled_example = plan-handled far in_range no_crontab no_times 50 0 pending_schedules

plan-due_example :
    All
      (IsPlanned far in_range no_crontab no_times 50 pending_schedules)
      (plan far in_range no_crontab no_times 50 pending_schedules).new_jobs
plan-due_example = plan-due far in_range no_crontab no_times 50 pending_schedules
