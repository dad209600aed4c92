-- ===== src/Admin/Cancelled.antt =====
-- From a client's call of `cancel_jobs` to the executors.
use ora.Base.{
  ℕ, ◌≤◌, ◌≡◌, refl, sym, ap, ◌∙◌, subst, Bool, true, false, Option, some, List, map, String,
}
use ora.Backend.{CancelledJob}
use ora.Pool.Offer.{contains}
use ora.Pool.Measure.{holds}
use ora.Pool.Cancel.{cancel_executions}
use ora.Pool.Cancelling.{cancel_execution_ids-holds}
use ora.Convert.Status.{Answer, fine}
use ora.Convert.Messages.{Protobuf}
use ora.Convert.Filters.{Uuids, JobFilters}
use ora.Convert.Queries.{job_filters_to}
use ora.Convert.Arrivals.{arriving, IsWellFormed, job_filters_from-job_filters_to}
use ora.Admin.Jobs.{JobBackend, Server, cancel_read, cancelled_by, cancel_jobs}

module _ (P : Protobuf) (U : Uuids) (B : JobBackend) (epoch : ℕ) (is_json : String → Bool) where
  abbrev pub IsCancelled :
      List CancelledJob
      → B.Store
      → ℕ
      → Server P U B epoch is_json
      → Answer (List String) × Server P U B epoch is_json
      → Type 0
  IsCancelled jobs after k s (answer, t) =
      (answer ≡ fine (map (λ j. U.print j.job_id) jobs))
      × (t.store ≡ after)
      × (contains k (map (λ j. j.last_execution_id) jobs) ≡ true → holds k t.pool ≡ 0)
      × (contains k (map (λ j. j.last_execution_id) jobs) ≡ false → holds k t.pool ≡ holds k s.pool)

  cancelled_by-IsCancelled :
      (jobs : List CancelledJob) (after : B.Store) (k : ℕ) (s : Server P U B epoch is_json)
      → holds k s.pool ≤ 1
      → IsCancelled jobs after k s (cancelled_by P U B epoch is_json (some jobs) after s)
  unfolding cancel_executions
  cancelled_by-IsCancelled jobs after k s once =
      let h = cancel_execution_ids-holds k (map (λ j. j.last_execution_id) jobs) s.pool once in
      (refl, refl, λ c. (h.0 c).0, λ c. (h.1 c).0)

  -- When a client cancels jobs by well-formed filters and the backend cancels some jobs for the
  -- filters that arrive (`arriving`: an empty list arrives as no filter, and a label with a set of
  -- values with the first of these as its single value), the answer names these jobs, no executor holds the last execution of any
  -- of them, and every other execution stands as before, if an execution stands in one place at
  -- most.
  pub cancel_jobs-IsCancelled :
      (f : JobFilters) (jobs : List CancelledJob) (after : B.Store) (k : ℕ)
      (s : Server P U B epoch is_json)
      → IsWellFormed f
      → B.cancel_jobs (arriving f) s.store ≡ (some jobs, after)
      → holds k s.pool ≤ 1
      → IsCancelled jobs after k s
          (cancel_jobs P U B epoch is_json false (some (job_filters_to P U f)) s)
  unfolding cancel_jobs
  cancel_jobs-IsCancelled f jobs after k s w called once =
      let read = job_filters_from-job_filters_to P U f w in
      let result =
        ap (λ a. cancel_read P U B epoch is_json a s) read
        ∙ ap
            (λ (r : Option (List CancelledJob) × B.Store).
              cancelled_by P U B epoch is_json r.0 r.1 s)
            called in
      subst (IsCancelled jobs after k s) (sym result) (cancelled_by-IsCancelled jobs after k s once)
