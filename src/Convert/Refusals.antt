-- ===== src/Convert/Refusals.antt =====
-- When the server refuses the message of a job or a schedule, and with which status.
use ora.Base.{
  ℕ, true, false, ◌≡◌, refl, sym, ◌∙◌, ap, subst, ◌↔◌, ◌⊎◌, inl, inr, Option, none, some,
  Bool-cases, Option-cases,
}
use ora.Backend.{JobDefinition, ScheduleDefinition, TimeRange}
use ora.JobTypes.Ids.{codes, validate, new_job_type_id}
use ora.Convert.Status.{
  Answer, fine, refused, Status, invalid_argument, Invalid, job_type_id,
  missing_target_execution_time, invalid_target_execution_time, missing_scheduling_policy,
  missing_job_template, invalid_start_time, invalid_end_time,
}
use ora.Convert.Messages.{Protobuf, ProtoJob, ProtoSchedule, ProtoPolicy, ProtoTimeRange}
use ora.Convert.Policies.{unwrap_or, time_from, time_range_from}
use ora.Convert.Jobs.{job_from, schedule_from, default_scheduling_policy, default_time_range}

-- The status of a refusal.
status_of_refusal : {A : Type 0} → Answer A → Status → Status
status_of_refusal (fine a) s = s
status_of_refusal (refused t) s = t

refused_same : {A : Type 0} (s t : Status) → ◌≡◌ {A = Answer A} (refused s) (refused t) → s ≡ t
unfolding status_of_refusal
refused_same s t e = ap (λ a. status_of_refusal a s) e

module _ (P : Protobuf) where
  -- What is wrong with a job first.
  pub data JobProblem (j : ProtoJob P) : Status → Type 0 where
    bad_type :
        validate (codes j.job_type_id) ≡ false
        → JobProblem j (invalid_argument (job_type_id j.job_type_id))
    no_time :
        validate (codes j.job_type_id) ≡ true
        → j.target_execution_time ≡ none
        → JobProblem j (invalid_argument missing_target_execution_time)
    bad_time :
        {t : P.Timestamp}
        → validate (codes j.job_type_id) ≡ true
        → j.target_execution_time ≡ some t
        → P.from_timestamp t ≡ none
        → JobProblem j (invalid_argument invalid_target_execution_time)

  JobProblem-refused : (j : ProtoJob P) {s : Status} → JobProblem j s → job_from P j ≡ refused s
  unfolding job_from new_job_type_id
  JobProblem-refused j (bad_type h) = rw h refl
  JobProblem-refused j (no_time h n) = rw (h, n) refl
  JobProblem-refused j (bad_time h t n) = rw (h, t, n) refl

  -- Either something is wrong with a job, or it is read.
  JobProblem-or_fine :
      (j : ProtoJob P)
      → ((s : Status) × JobProblem j s) ⊎ ((d : JobDefinition) × (job_from P j ≡ fine d))
  unfolding job_from new_job_type_id
  JobProblem-or_fine j = elim (Bool-cases (validate (codes j.job_type_id))) [
    | inr bad ↦ inl (_, bad_type bad)
    | inl good ↦ elim (Option-cases j.target_execution_time) [
      | inl n ↦ inl (_, no_time good n)
      | inr (t, e) ↦ elim (Option-cases (P.from_timestamp t)) [
        | inl n ↦ inl (_, bad_time good e n)
        | inr (time, f) ↦ inr (rw (good, e, f) (_, refl))
      ]
    ]
  ]

  -- A bound that cannot be represented; the start is read first.
  pub data RangeProblem (r : ProtoTimeRange P) : Status → Type 0 where
    bad_start :
        {t : P.Timestamp}
        → r.start ≡ some t
        → P.from_timestamp t ≡ none
        → RangeProblem r (invalid_argument invalid_start_time)
    bad_end :
        {start : Option ℕ} {t : P.Timestamp}
        → time_from P r.start invalid_start_time ≡ fine start
        → r.end ≡ some t
        → P.from_timestamp t ≡ none
        → RangeProblem r (invalid_argument invalid_end_time)

  RangeProblem-refused :
      (r : ProtoTimeRange P) {s : Status} → RangeProblem r s → time_range_from P r ≡ refused s
  unfolding time_range_from time_from
  RangeProblem-refused r (bad_start e n) = rw (e, n) refl
  RangeProblem-refused r (bad_end f e n) = rw (f, e, n) refl

  -- A time is read, or it cannot be represented.
  time_problem_or_fine :
      (o : Option P.Timestamp) (why : Invalid)
      → ((t : P.Timestamp) × (o ≡ some t) × (P.from_timestamp t ≡ none))
        ⊎ ((time : Option ℕ) × (time_from P o why ≡ fine time))
  unfolding time_from
  time_problem_or_fine none why = inr (none, refl)
  time_problem_or_fine (some t) why = elim (Option-cases (P.from_timestamp t)) [
    | inl n ↦ inl (t, refl, n)
    | inr (time, e) ↦ inr (some time, rw e refl)
  ]

  RangeProblem-or_fine :
      (r : ProtoTimeRange P)
      → ((s : Status) × RangeProblem r s) ⊎ ((d : TimeRange) × (time_range_from P r ≡ fine d))
  unfolding time_range_from
  RangeProblem-or_fine r = elim (time_problem_or_fine r.start invalid_start_time) [
    | inl (t, e, n) ↦ inl (_, bad_start e n)
    | inr (start, f) ↦ elim (time_problem_or_fine r.end invalid_end_time) [
      | inl (t, e, n) ↦ inl (_, bad_end f e n)
      | inr (end, g) ↦ inr (rw (f, g) (_, refl))
    ]
  ]

  abbrev pub range_of : ProtoSchedule P → ProtoTimeRange P
  range_of s = unwrap_or s.time_range (default_time_range P)

  -- What is wrong with a schedule first.
  pub data ScheduleProblem (s : ProtoSchedule P) : Status → Type 0 where
    no_policy :
        (unwrap_or s.scheduling (default_scheduling_policy P)).policy ≡ none
        → ScheduleProblem s (invalid_argument missing_scheduling_policy)
    no_template :
        {p : ProtoPolicy P}
        → (unwrap_or s.scheduling (default_scheduling_policy P)).policy ≡ some p
        → s.job_template ≡ none
        → ScheduleProblem s (invalid_argument missing_job_template)
    bad_template :
        {p : ProtoPolicy P} {j : ProtoJob P} {why : Status}
        → (unwrap_or s.scheduling (default_scheduling_policy P)).policy ≡ some p
        → s.job_template ≡ some j
        → JobProblem j why
        → ScheduleProblem s why
    bad_range :
        {p : ProtoPolicy P} {j : ProtoJob P} {d : JobDefinition} {why : Status}
        → (unwrap_or s.scheduling (default_scheduling_policy P)).policy ≡ some p
        → s.job_template ≡ some j
        → job_from P j ≡ fine d
        → RangeProblem (range_of s) why
        → ScheduleProblem s why

  ScheduleProblem-refused :
      (s : ProtoSchedule P) {why : Status} → ScheduleProblem s why → schedule_from P s ≡ refused why
  unfolding schedule_from
  ScheduleProblem-refused s (no_policy n) = rw n refl
  ScheduleProblem-refused s (no_template p n) = rw (p, n) refl
  ScheduleProblem-refused s (bad_template {j = j} p e b) = rw (p, e, JobProblem-refused j b) refl
  ScheduleProblem-refused s (bad_range p e f r) =
      rw (p, e, f, RangeProblem-refused (range_of s) r) refl

  ScheduleProblem-or_fine :
      (s : ProtoSchedule P)
      → ((why : Status) × ScheduleProblem s why)
        ⊎ ((d : ScheduleDefinition) × (schedule_from P s ≡ fine d))
  unfolding schedule_from
  ScheduleProblem-or_fine s =
      elim (Option-cases (unwrap_or s.scheduling (default_scheduling_policy P)).policy) [
        | inl n ↦ inl (_, no_policy n)
        | inr (p, e) ↦ elim (Option-cases s.job_template) [
          | inl n ↦ inl (_, no_template e n)
          | inr (j, f) ↦ elim (JobProblem-or_fine j) [
            | inl (why, b) ↦ inl (why, bad_template e f b)
            | inr (d, g) ↦ elim (RangeProblem-or_fine (range_of s)) [
              | inl (why, b) ↦ inl (why, bad_range e f g b)
              | inr (r, h) ↦ inr (rw (e, f, g, h) (_, refl))
            ]
          ]
        ]
      ]

  -- The message of a schedule is refused exactly when its policy or its job template is missing,
  -- its template is refused, or a bound of its time range cannot be represented, with the status of
  -- the first of these.
  pub schedule_from-ScheduleProblem :
      (s : ProtoSchedule P) (why : Status)
      → (schedule_from P s ≡ refused why) ↔ ScheduleProblem s why
  schedule_from-ScheduleProblem s why = (
    λ e. elim (ScheduleProblem-or_fine s) [
      | inl (t, p) ↦
          subst (ScheduleProblem s) (refused_same t why (sym (ScheduleProblem-refused s p) ∙ e)) p
      | inr (d, f) ↦ cc
    ],
    ScheduleProblem-refused s,
  )
