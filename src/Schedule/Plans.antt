-- ===== src/Schedule/Plans.antt =====
-- What a batch of pending schedules comes to.
use mathlib.Core.List.{Mem, mem-cons}
use ora.Base.{
  ℕ, String, ◌+◌, ◌≤◌, ◌<◌, ◌≡◌, refl, subst, Bool, false, Option, none, some, List, [], ◌∷◌, arith,
  sum_by, one, ◌==◌, All, is_some_and, inl, inr, All-mapped,
}
use ora.Backend.{NewJob, PendingSchedule}
use ora.Schedule.Defs.{Result, ok, err, next_execution_time}
use ora.Schedule.Batch.{
  Decision, create_job, stop, unhandled, decide_time, new_job, Planned, note, decide, plan,
}

-- Whether a job is one of a schedule.
abbrev pub is_job_of : ℕ → NewJob → ℕ
is_job_of id j = one (is_some_and j.schedule_id (λ k. k == id))

-- In how many entries of the plan a schedule has a job or is stopped.
abbrev pub handled : ℕ → Planned → ℕ
handled id r = sum_by (is_job_of id) r.new_jobs + sum_by (λ k. one (k == id)) r.stop_scheduling_ids

note-handled :
    (id : ℕ) (s : PendingSchedule) (d : Decision) (r : Planned)
    → let r' = note s d r in
      (handled id r' ≤ handled id r + one (s.schedule_id == id))
      × (r'.unhandled_schedules ≡ false
          → (r.unhandled_schedules ≡ false)
            × (handled id r' ≡ handled id r + one (s.schedule_id == id)))
unfolding note new_job sum_by
note-handled id s (create_job t) r = (ground arith, λ h. (h, ground arith))
note-handled id s stop r = (ground arith, λ h. (h, ground arith))
note-handled id s unhandled r = (omega arith, λ h. cc)

-- A job is one of a schedule at a time: all but the time is as the schedule's template says.
pub record IsJobAt (s : PendingSchedule) (t : ℕ) (j : NewJob) : Type 0 where
  pub of_schedule : j.schedule_id ≡ some s.schedule_id
  pub at_time : j.job.target_execution_time ≡ t
  pub same_type : j.job.job_type_id ≡ s.job_template.job_type_id
  pub same_input : j.job.input_payload_json ≡ s.job_template.input_payload_json
  pub same_labels : j.job.labels ≡ s.job_template.labels
  pub same_timeout : j.job.timeout_policy ≡ s.job_template.timeout_policy
  pub same_retries : j.job.retry_policy ≡ s.job_template.retry_policy
  pub same_priority : j.job.priority ≡ s.job_template.priority

new_job-IsJobAt : (s : PendingSchedule) (t : ℕ) → IsJobAt s t (new_job s t)
unfolding new_job
new_job-IsJobAt s t = record {
  of_schedule = refl;
  at_time = refl;
  same_type = refl;
  same_input = refl;
  same_labels = refl;
  same_timeout = refl;
  same_retries = refl;
  same_priority = refl;
}

-- A job is due for a schedule: it is one of the schedule at the schedule's next time, which lies
-- before the end of its range.
abbrev pub IsDue : (Result (Option ℕ)) → PendingSchedule → NewJob → Type 0
IsDue next s j =
    (t : ℕ) × (next ≡ ok (some t)) × IsJobAt s t j × ((e : ℕ) → s.time_range.end ≡ some e → t < e)

decide_time-IsDue :
    (s : PendingSchedule) (next : Result (Option ℕ)) (t : ℕ)
    → decide_time s next ≡ create_job t
    → IsDue next s (new_job s t)
unfolding decide_time
decide_time-IsDue s (err e) t h = ground arith
decide_time-IsDue s (ok none) t h = ground arith
decide_time-IsDue s (ok (some u)) t h =
    let same : u ≡ t = ground arith in
    (
      u,
      refl,
      subst (λ x. IsJobAt s u (new_job s x)) same (new_job-IsJobAt s u),
      λ e end. ground arith,
    )

note-All :
    (P : NewJob → Type 0) (s : PendingSchedule) (d : Decision) (r : Planned)
    → ((t : ℕ) → d ≡ create_job t → P (new_job s t))
    → All P r.new_jobs
    → All P (note s d r).new_jobs
unfolding note
note-All P s (create_job t) r h a = (h t refl, a)
note-All P s stop r h a = a
note-All P s unhandled r h a = a

module _ (limit : ℕ) (in_range : ℕ → Bool) {Crontab : Type 0} (parse : String → Option Crontab)
    (find_next : Crontab → ℕ → Option ℕ) (now : ℕ) where
  -- A batch gives each schedule one job or stops it, but does neither more often than the schedule
  -- is listed; if no schedule is noted as unhandled, it does so exactly as often.
  pub plan-handled :
      (id : ℕ) (ss : List PendingSchedule)
      → let r = plan limit in_range parse find_next now ss in
        (handled id r ≤ sum_by (λ s. one (s.schedule_id == id)) ss)
        × (r.unhandled_schedules ≡ false
            → handled id r ≡ sum_by (λ s. one (s.schedule_id == id)) ss)
  unfolding plan sum_by
  plan-handled id [] = (omega arith, λ h. refl)
  plan-handled id (s ∷ ss) =
      let rest = plan-handled id ss in
      let step =
        note-handled id s (decide limit in_range parse find_next now s)
          (plan limit in_range parse find_next now ss) in
      (omega (arith, rest, step), λ h. ground (arith, rest, step))

  -- A new job is due for a schedule of the batch.
  abbrev pub IsPlanned : List PendingSchedule → NewJob → Type 0
  IsPlanned ss j =
      (s : PendingSchedule) × Mem s ss
      × IsDue (next_execution_time limit in_range parse find_next now s) s j

  -- Every new job is one of a schedule of the batch, at the schedule's next time, which lies before
  -- the end of its range; otherwise the job is the schedule's template.
  pub plan-due :
      (ss : List PendingSchedule)
      → All (IsPlanned ss) (plan limit in_range parse find_next now ss).new_jobs
  unfolding plan decide
  plan-due [] = tt
  plan-due (s ∷ ss) =
      note-All (IsPlanned (s ∷ ss)) s (decide limit in_range parse find_next now s)
        (plan limit in_range parse find_next now ss)
        (λ t h. (s, mem-cons.1 ∣ inl refl ∣₁, decide_time-IsDue s _ t h))
        (All-mapped (IsPlanned ss) (IsPlanned (s ∷ ss)) (λ j d. (d.0, mem-cons.1 ∣ inr d.1 ∣₁, d.2))
          (plan limit in_range parse find_next now ss).new_jobs (plan-due ss))
