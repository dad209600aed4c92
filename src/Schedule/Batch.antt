-- ===== src/Schedule/Batch.antt =====
-- What `schedule_new_jobs_loop` of crates/ora-server/src/server/schedules.rs makes of a batch of
-- pending schedules.
use ora.Base.{
  ℕ, String, Bool, true, false, Option, none, some, List, [], ◌∷◌, leb, is_some_and, if◌then◌else◌,
}
use ora.Backend.{NewJob, PendingSchedule}
use ora.Schedule.Defs.{Result, ok, err, next_execution_time}

-- What becomes of a schedule: a job at a time, no more jobs, or nothing for now.
pub data Decision : Type 0 where
  create_job : (next_time : ℕ) → Decision
  stop unhandled : Decision

-- The jobs of a schedule end before the end of its range.
abbrev pub is_past_end : Option ℕ → ℕ → Bool
is_past_end end next_time = is_some_and end (λ e. leb e next_time)

unfoldable pub decide_time : PendingSchedule → Result (Option ℕ) → Decision
decide_time s (err e) = unhandled
decide_time s (ok none) = stop
decide_time s (ok (some t)) = if is_past_end s.time_range.end t then stop else create_job t

unfoldable pub new_job : PendingSchedule → ℕ → NewJob
new_job s t = record {
  job = record s.job_template { target_execution_time = t };
  schedule_id = some s.schedule_id;
}

pub record Planned : Type 0 where
  pub new_jobs : List NewJob
  pub stop_scheduling_ids : List ℕ
  pub unhandled_schedules : Bool

unfoldable pub note : PendingSchedule → Decision → Planned → Planned
note s (create_job t) r = record r { new_jobs = new_job s t ∷ r.new_jobs }
note s stop r = record r { stop_scheduling_ids = s.schedule_id ∷ r.stop_scheduling_ids }
note s unhandled r = record r { unhandled_schedules = true }

module _ (limit : ℕ) (in_range : ℕ → Bool) {Crontab : Type 0} (parse : String → Option Crontab)
    (find_next : Crontab → ℕ → Option ℕ) where
  unfoldable pub decide : ℕ → PendingSchedule → Decision
  unfolding decide_time
  decide now s = decide_time s (next_execution_time limit in_range parse find_next now s)

  -- The loop over the batch; it appends, so the first schedule comes first.
  unfoldable pub plan : ℕ → List PendingSchedule → Planned
  unfolding note decide
  plan now [] = record { new_jobs = []; stop_scheduling_ids = []; unhandled_schedules = false }
  plan now (s ∷ ss) = note s (decide now s) (plan now ss)
