-- ===== src/Admin/Planned.antt =====
-- What reaches the backend through `add_schedules`.
use ora.Base.{
  ℕ, String, Bool, true, false, ◌≡◌, suc, refl, sym, ap, ◌∙◌, ◌⊎◌, inl, inr, Option, List, [], ◌∷◌,
  All, All-append, length, arith, if_both, is_none_or,
}
use ora.Backend.{Label, ScheduleDefinition}
use ora.Util.{validate_time}
use ora.Labels.Defs.{inherit_labels, unseen, contains_key}
use ora.Schedule.Defs.{Result, ok, err, validate_schedule, next_execution_time}
use ora.Convert.Status.{Answer, fine, refused, ◌>>=◌, collect, Status, unavailable}
use ora.Convert.Messages.{Protobuf}
use ora.Convert.Policies.{unwrap_or}
use ora.Convert.Jobs.{schedule_from}
use ora.Convert.Filters.{Uuids}
use ora.Convert.Schedules.{ScheduleFilters}
use ora.Admin.Checks.{validate_labels}
use ora.Admin.Schedules.{
  ScheduleBackend, AddSchedulesRequest, AddSchedulesResponse, with_labels, inherit_from_schedule,
  check_labelled, check_schedule, read_schedules, scheduled_or, add_read_schedules, add_schedules,
  inheriting, unless_exists_from,
}
use ora.Admin.Admitted.{collect-All, All-Unit, IsPlain, validate_labels-IsPlain}

unseen-IsPlain :
    (seen : List String) (ls : List Label) → All IsPlain ls → All IsPlain (unseen seen ls)
unfolding unseen
unseen-IsPlain seen [] a = tt
unseen-IsPlain seen (l ∷ ls) a =
    if_both (All IsPlain) (contains_key l.key seen) (unseen seen ls) (l ∷ unseen (l.key ∷ seen) ls)
      (unseen-IsPlain seen ls a.1) (a.0, unseen-IsPlain (l.key ∷ seen) ls a.1)

last_fine :
    {F K L : Type 0} (filters : F) (b : Answer K) (g : K → L) (r : L × F)
    → (do y ← b; fine (g y, filters)) ≡ fine r
    → (y : K) × (b ≡ fine y) × (r.0 ≡ g y)
last_fine {F = F} {L = L} filters (fine y) g r e =
    let same : r ≡ (g y, filters) = cc in (y, refl, ap (λ (p : L × F). p.0) same)
last_fine filters (refused s) g r e = cc

parts_fine :
    {F C K L : Type 0} (a : Answer F) (c : Answer C) (f : C → Answer K) (g : K → L) (r : L × F)
    → (do filters ← a; x ← c; y ← f x; fine (g y, filters)) ≡ fine r
    → (x : C) × (y : K) × (c ≡ fine x) × (f x ≡ fine y) × (r.0 ≡ g y)
parts_fine (fine filters) (fine x) f g r e =
    let (y, read, same) = last_fine filters (f x) g r e in (x, y, refl, read, same)
parts_fine (fine filters) (refused s) f g r e = cc
parts_fine (refused s) c f g r e = cc

module _ (epoch limit : ℕ) (in_range : ℕ → Bool) {Crontab : Type 0}
    (parse : String → Option Crontab) (find_next : Crontab → ℕ → Option ℕ)
    (is_json : String → Bool) where
  -- A schedule that is fit for the backend: no label of it or of its jobs has a NUL, the bounds of
  -- its range are times of the years 1 to 9999, the payload of its jobs is JSON, and it passes
  -- `validate_schedule`.
  pub record IsPlanned (now : ℕ) (s : ScheduleDefinition) : Type 0 where
    pub plain_labels : All IsPlain s.labels
    pub plain_job_labels : All IsPlain s.job_template.labels
    pub valid_start : is_none_or s.time_range.start (validate_time epoch) ≡ true
    pub valid_end : is_none_or s.time_range.end (validate_time epoch) ≡ true
    pub valid_payload : is_json s.job_template.input_payload_json ≡ true
    pub validated : validate_schedule limit in_range parse find_next now s ≡ ok tt

  scheduled_or-fine :
      (s t : ScheduleDefinition) (r : Result (Unit {0}))
      → scheduled_or epoch limit in_range parse find_next is_json s r ≡ fine t
      → (s ≡ t) × (r ≡ ok tt)
  scheduled_or-fine s t (ok u) e = (cc, refl)
  scheduled_or-fine s t (err x) e = cc

  check_labelled-IsPlanned :
      (now : ℕ) (s t : ScheduleDefinition)
      → check_labelled epoch limit in_range parse find_next is_json now s ≡ fine t
      → IsPlanned now t
  unfolding check_labelled
  check_labelled-IsPlanned now s t e =
      let plain : validate_labels s.labels ≡ true = ground (arith, e) in
      let job_plain : validate_labels s.job_template.labels ≡ true = ground (arith, e) in
      let start : is_none_or s.time_range.start (validate_time epoch) ≡ true = ground (arith, e) in
      let end : is_none_or s.time_range.end (validate_time epoch) ≡ true = ground (arith, e) in
      let json : is_json s.job_template.input_payload_json ≡ true = ground (arith, e) in
      let last : scheduled_or epoch limit in_range parse find_next is_json s
            (validate_schedule limit in_range parse find_next now s)
          ≡ fine t =
        ground (arith, e) in
      let (same, valid) = scheduled_or-fine s t _ last in
      rw (sym same) (record {
        plain_labels = validate_labels-IsPlain s.labels plain;
        plain_job_labels = validate_labels-IsPlain s.job_template.labels job_plain;
        valid_start = start;
        valid_end = end;
        valid_payload = json;
        validated = valid;
      })

  -- Inherited labels are the schedule's, and the validation does not look at labels.
  inherit_from_schedule-IsPlanned :
      (now : ℕ) (s : ScheduleDefinition) → IsPlanned now s → IsPlanned now (inherit_from_schedule s)
  unfolding inherit_from_schedule inherit_labels validate_schedule next_execution_time
  inherit_from_schedule-IsPlanned now s v = record {
    plain_labels = v.plain_labels;
    plain_job_labels =
        All-append IsPlain s.job_template.labels _ v.plain_job_labels
          (unseen-IsPlain _ s.labels v.plain_labels);
    valid_start = v.valid_start;
    valid_end = v.valid_end;
    valid_payload = v.valid_payload;
    validated = v.validated;
  }

  inheriting-IsPlanned :
      (P : Protobuf) (U : Uuids) (B : ScheduleBackend) (inherits : Bool) (now : ℕ)
      (ss : List ScheduleDefinition)
      → All (IsPlanned now) ss
      → All
          (IsPlanned now)
          (inheriting epoch limit in_range parse find_next is_json P U B inherits ss)
        × (length (inheriting epoch limit in_range parse find_next is_json P U B inherits ss)
            ≡ length ss)
  inheriting-IsPlanned P U B false now ss a = (a, refl)
  inheriting-IsPlanned P U B true now [] a = (tt, refl)
  inheriting-IsPlanned P U B true now (s ∷ ss) a =
      let (rest, same) = inheriting-IsPlanned P U B true now ss a.1 in
      ((inherit_from_schedule-IsPlanned now s a.0, rest), ap suc same)

  module _ (P : Protobuf) (U : Uuids) (B : ScheduleBackend) (now : ℕ)
      (request : AddSchedulesRequest epoch limit in_range parse find_next is_json P U B) where
    read_schedules-IsPlanned :
        (r : List ScheduleDefinition × Option ScheduleFilters)
        → read_schedules epoch limit in_range parse find_next is_json P U B now request ≡ fine r
        → All (IsPlanned now) r.0 × (length r.0 ≡ length request.schedules)
    unfolding read_schedules check_schedule
    read_schedules-IsPlanned r e =
        let (converted, checked, converts, checks, result) =
          parts_fine
            (unless_exists_from epoch limit in_range parse find_next is_json P U B
              request.if_not_exists)
            (collect (schedule_from P) request.schedules)
            (collect (check_schedule epoch limit in_range parse find_next is_json now))
            (inheriting epoch limit in_range parse find_next is_json P U B
              (unwrap_or request.inherit_labels true))
            r e in
        let (any_read, as_many) =
          collect-All (λ j. Unit {0}) (λ s. Unit {0}) (schedule_from P) (λ j s q h. tt)
            request.schedules converted (All-Unit request.schedules) converts in
        let (planned, as_many_checked) =
          collect-All (λ s. Unit {0}) (IsPlanned now)
            (check_schedule epoch limit in_range parse find_next is_json now)
            (λ s t q h. check_labelled-IsPlanned now (with_labels s) t h) converted checked any_read
            checks in
        let (inherited, as_many_inherited) =
          inheriting-IsPlanned P U B (unwrap_or request.inherit_labels true) now checked planned in
        rw result (inherited, as_many_inherited ∙ as_many_checked ∙ as_many)

    abbrev pub PlannedOutcome : B.Store → Answer AddSchedulesResponse × B.Store → Type 0
    PlannedOutcome store (answer, after) =
        ((why : Status) × (answer ≡ refused why) × (after ≡ store))
        ⊎ ((schedules : List ScheduleDefinition) × (filters : Option ScheduleFilters) × All
              (IsPlanned now) schedules
            × (length schedules ≡ length request.schedules)
            × (after ≡ (B.add_schedules schedules filters store).1))

    planned_read :
        (store : B.Store) (read : Answer (List ScheduleDefinition × Option ScheduleFilters))
        → read_schedules epoch limit in_range parse find_next is_json P U B now request ≡ read
        → PlannedOutcome store
            (add_read_schedules epoch limit in_range parse find_next is_json P U B read store)
    planned_read store (refused why) e = inl (why, refl, refl)
    planned_read store (fine (schedules, filters)) e =
        let (planned, as_many) = read_schedules-IsPlanned (schedules, filters) e in
        inr (schedules, filters, planned, as_many, refl)

    -- Either a request to add schedules is refused and the backend's store is as before, or the
    -- backend was called once, with one schedule for each of the request, and all of these are fit
    -- for it, after labels are inherited too.
    pub add_schedules-PlannedOutcome :
        (is_waiting : Bool) (store : B.Store)
        → PlannedOutcome store (
            add_schedules epoch limit in_range parse find_next is_json P U B is_waiting now request
              store)
    unfolding add_schedules
    add_schedules-PlannedOutcome true store = inl (unavailable, refl, refl)
    add_schedules-PlannedOutcome false store = planned_read store _ refl
