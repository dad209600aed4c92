-- ===== src/Convert/Arrivals.antt =====
-- What the server reads of the filters that a client sends.
use mathlib.Core.Option
use ora.Base.{
  ℕ, String, Bool, true, false, ◌≡◌, ◌≢◌, ◌⊎◌, inl, inr, refl, ap, ◌∙◌, Option, none, some, List,
  [], ◌∷◌, map, any, filter_map, All,
}
use ora.Backend.{TimeRange}
use ora.JobTypes.Ids.{codes, validate, new_job_type_id}
use ora.Convert.Status.{Answer, fine, collect}
use ora.Convert.Messages.{Protobuf}
use ora.Convert.Policies.{time_range_to}
use ora.Convert.RoundTrip.{time_range_from-to}
use ora.Convert.Filters.{
  LabelFilter, Uuids, JobFilters, ExecutionStatus, pending, in_progress, succeeded, failed,
  cancelled, ExecutionPendingReason, scheduled, ready, status_of, status_number, reason_of,
  reason_number, status_to, status_from, reason_to, reason_from, is_pending, label_filter_to, first,
  flatten, given,
}
use ora.Convert.Queries.{
  job_filters_to, job_filters_from, ids_from, job_type_ids_from, range_from, statuses_from,
  reasons_from,
}

-- An empty list of values is no filter.
unfoldable pub unless_empty : {A : Type 0} → Option (List A) → Option (List A)
unless_empty none = none
unless_empty (some []) = none
unless_empty (some (x ∷ xs)) = some (x ∷ xs)

-- A filter for a set of values arrives with the set as it was, and with its first value, if it has
-- one, as the value; a filter without a set arrives as it was.
abbrev pub arriving_value : Option String → Option (List String) → Option String
arriving_value value none = value
arriving_value value (some []) = none
arriving_value value (some (v ∷ vs)) = some v

abbrev pub arriving_label : LabelFilter → LabelFilter
arriving_label f = record {
  key = f.key;
  value = arriving_value f.value f.value_in;
  value_in = f.value_in;
}

label_arrives : (f : LabelFilter) → label_filter_to f ≡ arriving_label f
unfolding label_filter_to
label_arrives f =
    ap (λ value. record { key = f.key; value = value; value_in = f.value_in })
      (by_values f.value_in)
  where
    by_values :
        (o : Option (List String))
        → elim o [ none ↦ f.value | some values ↦ first values ] ≡ arriving_value f.value o
    by_values none = refl
    by_values (some []) = refl
    by_values (some (v ∷ vs)) = refl

labels_arrive : (fs : List LabelFilter) → map label_filter_to fs ≡ map arriving_label fs
labels_arrive [] = refl
labels_arrive (f ∷ fs) = rw (label_arrives f) (ap (◌∷◌ (arriving_label f)) (labels_arrive fs))

-- The filters that arrive.
abbrev pub arriving : JobFilters → JobFilters
arriving f = record {
  job_ids = unless_empty f.job_ids;
  job_type_ids = unless_empty f.job_type_ids;
  executor_ids = unless_empty f.executor_ids;
  execution_ids = unless_empty f.execution_ids;
  execution_statuses = unless_empty f.execution_statuses;
  target_execution_time = f.target_execution_time;
  created_at = f.created_at;
  labels = unless_empty (Option.map (map arriving_label) f.labels);
  schedule_ids = unless_empty f.schedule_ids;
  min_priority = f.min_priority;
  max_priority = f.max_priority;
  pending_reasons = unless_empty f.pending_reasons;
}

unfoldable pub is_pending_status : ExecutionStatus → Bool
is_pending_status pending = true
is_pending_status _ = false

-- Job types are valid, and pending reasons come with no statuses or with the pending one.
pub record IsWellFormed (f : JobFilters) : Type 0 where
  pub valid_types : All (λ (t : String). validate (codes t) ≡ true) (flatten f.job_type_ids)
  pub pending_if_reasons :
      (flatten f.pending_reasons ≡ [])
      ⊎ ((flatten f.execution_statuses ≡ [])
          ⊎ (any is_pending_status (flatten f.execution_statuses) ≡ true))

-- What is sent as a list comes back as the list, if it is read back element by element.
given-map :
    {A B : Type 0} (send : A → B) (o : Option (List A)) (read : Answer (List A))
    → (flatten o ≢ [] → read ≡ fine (flatten o))
    → given (map send (flatten o)) read ≡ fine (unless_empty o)
unfolding unless_empty
given-map send none read h = refl
given-map send (some []) read h = refl
given-map send (some (x ∷ xs)) read h = rw (h (λ e. cc)) refl

given_same :
    {A : Type 0} (o : Option (List A)) (read : Answer (List A))
    → read ≡ fine (flatten o)
    → given (flatten o) read ≡ fine (unless_empty o)
unfolding unless_empty
given_same none read h = refl
given_same (some []) read h = refl
given_same (some (x ∷ xs)) read h = rw h refl

given_labels :
    (o : Option (List LabelFilter))
    → given (map label_filter_to (flatten o)) (fine (map label_filter_to (flatten o)))
      ≡ fine (unless_empty (Option.map (map arriving_label) o))
unfolding unless_empty
given_labels none = refl
given_labels (some []) = refl
given_labels (some (x ∷ xs)) = ap (λ fs. fine (some fs)) (labels_arrive (x ∷ xs))

statuses_return :
    (ss : List ExecutionStatus) → statuses_from (map (λ s. status_number (status_to s)) ss) ≡ ss
unfolding statuses_from status_from status_of status_number status_to filter_map
statuses_return [] = refl
statuses_return (pending ∷ ss) = ap (◌∷◌ pending) (statuses_return ss)
statuses_return (in_progress ∷ ss) = ap (◌∷◌ in_progress) (statuses_return ss)
statuses_return (succeeded ∷ ss) = ap (◌∷◌ succeeded) (statuses_return ss)
statuses_return (failed ∷ ss) = ap (◌∷◌ failed) (statuses_return ss)
statuses_return (cancelled ∷ ss) = ap (◌∷◌ cancelled) (statuses_return ss)

reasons_return :
    (rs : List ExecutionPendingReason)
    → collect (λ n. reason_from n (reason_of n)) (map (λ r. reason_number (reason_to r)) rs)
      ≡ fine rs
unfolding collect reason_from reason_of reason_number reason_to
reasons_return [] = refl
reasons_return (scheduled ∷ rs) = rw (reasons_return rs) refl
reasons_return (ready ∷ rs) = rw (reasons_return rs) refl

pending_returns :
    (ss : List ExecutionStatus)
    → any (λ n. is_pending (status_of n)) (map (λ s. status_number (status_to s)) ss)
      ≡ any is_pending_status ss
unfolding is_pending status_of status_number status_to is_pending_status any
pending_returns [] = refl
pending_returns (pending ∷ ss) = refl
pending_returns (in_progress ∷ ss) = pending_returns ss
pending_returns (succeeded ∷ ss) = pending_returns ss
pending_returns (failed ∷ ss) = pending_returns ss
pending_returns (cancelled ∷ ss) = pending_returns ss

types_return :
    (ts : List String)
    → All (λ (t : String). validate (codes t) ≡ true) ts
    → job_type_ids_from ts ≡ fine ts
unfolding job_type_ids_from collect new_job_type_id
types_return [] a = refl
types_return (t ∷ ts) a = rw (a.0, types_return ts a.1) refl

-- If there are reasons, the pending status is among the statuses that are sent.
reasons_arrive :
    (ss : List ExecutionStatus) (rs : List ExecutionPendingReason)
    → (ss ≡ []) ⊎ (any is_pending_status ss ≡ true)
    → reasons_from
        (map (λ s. status_number (status_to s)) ss)
        (map (λ r. reason_number (reason_to r)) rs)
      ≡ fine rs
unfolding reasons_from
reasons_arrive [] rs h = reasons_return rs
reasons_arrive (s ∷ ss) rs (inl e) = cc
reasons_arrive (s ∷ ss) rs (inr e) = rw (pending_returns (s ∷ ss) ∙ e) (reasons_return rs)

module _ (P : Protobuf) (U : Uuids) where
  ids_return : (ids : List ℕ) → ids_from U (map U.print ids) ≡ fine ids
  unfolding ids_from collect
  ids_return [] = refl
  ids_return (k ∷ ids) = rw (U.parse_print k, ids_return ids) refl

  range_returns : (r : Option TimeRange) → range_from P (Option.map (time_range_to P) r) ≡ fine r
  unfolding range_from
  range_returns none = refl
  range_returns (some r) = rw (time_range_from-to P r) refl

  allowed :
      (f : JobFilters)
      → IsWellFormed f
      → flatten f.pending_reasons ≢ []
      → (flatten f.execution_statuses ≡ [])
        ⊎ (any is_pending_status (flatten f.execution_statuses) ≡ true)
  allowed f w h = elim w.pending_if_reasons [ inl e ↦ absurd (h e) | inr e ↦ e ]

  -- The filters that a client sends arrive at the server as they are, except that an empty list of
  -- values arrives as no filter, and that a label with a set of values arrives with the set, but
  -- with the set's first value, if any, as its single value. Job type IDs must be valid, and pending reasons come with no statuses or with the
  -- pending one.
  pub job_filters_from-job_filters_to :
      (f : JobFilters)
      → IsWellFormed f
      → job_filters_from P U (job_filters_to P U f) ≡ fine (arriving f)
  unfolding job_filters_from job_filters_to
  job_filters_from-job_filters_to f w =
      rw
        (
          given-map (λ s. status_number (status_to s)) f.execution_statuses _
              (λ h. ap fine (statuses_return (flatten f.execution_statuses))),
          given-map U.print f.job_ids _ (λ h. ids_return (flatten f.job_ids)),
          given_same f.job_type_ids _ (types_return (flatten f.job_type_ids) w.valid_types),
          given-map U.print f.executor_ids _ (λ h. ids_return (flatten f.executor_ids)),
          range_returns f.target_execution_time,
          range_returns f.created_at,
          given_labels f.labels,
          given-map U.print f.execution_ids _ (λ h. ids_return (flatten f.execution_ids)),
          given-map U.print f.schedule_ids _ (λ h. ids_return (flatten f.schedule_ids)),
          given-map (λ r. reason_number (reason_to r)) f.pending_reasons _
              (λ h.
                reasons_arrive (flatten f.execution_statuses) (flatten f.pending_reasons)
                  (allowed f w h)),
        )
        refl
