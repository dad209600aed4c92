-- ===== src/Server/Failures.antt =====
-- `retry_executions` has a call of the backend for every failure exactly once.
use ora.Base.{ℕ, ◌≡◌, refl, ◌&&◌, not, ltb, List, [], ◌∷◌, arith, sum_by, sum_by-append, one, ◌==◌}
use ora.Backend.{FailedExecution, RetriedExecution}
use ora.Server.Retry.{
  MaybeRetryExecution, retried, sort_failures, BackendCall, executions_failed, executions_retried,
  failed_call, retried_call, retry_executions,
}

-- In how many entries of a list an execution is told to have failed, for good or to be retried.
abbrev pub fails : ℕ → FailedExecution → ℕ
fails id f = one (f.execution_id == id)

abbrev pub fails_for_good : ℕ → BackendCall → ℕ
fails_for_good id (executions_failed fs) = sum_by (fails id) fs
fails_for_good id (executions_retried rs) = 0

abbrev pub is_retried : ℕ → BackendCall → ℕ
is_retried id (executions_failed fs) = 0
is_retried id (executions_retried rs) = sum_by (λ r. fails id r.failed_execution) rs

-- The failures of an execution whose attempt number is not beyond the retries of its policy, and
-- those whose number is: the first attempt has the number one.
abbrev pub retryable : ℕ → MaybeRetryExecution → ℕ
retryable id e =
    one (e.execution.execution_id == id && not (ltb e.retry_policy.retries e.attempt_number))

abbrev pub exhausted : ℕ → MaybeRetryExecution → ℕ
exhausted id e = one (e.execution.execution_id == id && ltb e.retry_policy.retries e.attempt_number)

module _ (now id : ℕ) where
  sort_failures-counts :
      (es : List MaybeRetryExecution)
      → let s = sort_failures now es in
        (sum_by (fails id) s.failed_executions ≡ sum_by (exhausted id) es)
        × (sum_by (λ r. fails id r.failed_execution) s.retried_executions
            ≡ sum_by (retryable id) es)
  unfolding sort_failures retried sum_by
  sort_failures-counts [] = (refl, refl)
  sort_failures-counts (e ∷ es) = ground (arith, sort_failures-counts es)

  failed_call-counts :
      (fs : List FailedExecution)
      → (sum_by (fails_for_good id) (failed_call fs) ≡ sum_by (fails id) fs)
        × (sum_by (is_retried id) (failed_call fs) ≡ 0)
  unfolding failed_call sum_by
  failed_call-counts [] = (refl, refl)
  failed_call-counts (f ∷ fs) = (omega arith, omega arith)

  retried_call-counts :
      (rs : List RetriedExecution)
      → (sum_by (is_retried id) (retried_call rs) ≡ sum_by (λ r. fails id r.failed_execution) rs)
        × (sum_by (fails_for_good id) (retried_call rs) ≡ 0)
  unfolding retried_call sum_by
  retried_call-counts [] = (refl, refl)
  retried_call-counts (r ∷ rs) = (omega arith, omega arith)

-- Each failure that is given in stands in one of the calls of the backend, once: as a retry if its
-- attempt number is not beyond the retries of its policy, and as a failure for good otherwise. A call
-- is made by `retry_backend`, which may give up when the server shuts down.
pub retry_executions-counts :
    (now id : ℕ) (es : List MaybeRetryExecution)
    → let calls = retry_executions now es in
      (sum_by (is_retried id) calls ≡ sum_by (retryable id) es)
      × (sum_by (fails_for_good id) calls ≡ sum_by (exhausted id) es)
unfolding retry_executions
retry_executions-counts now id es =
    let s = sort_failures now es in
    let fs = failed_call s.failed_executions in
    let rs = retried_call s.retried_executions in
    let sorted = sort_failures-counts now id es in
    let failed = failed_call-counts now id s.failed_executions in
    let retried' = retried_call-counts now id s.retried_executions in
    (
      omega (arith, sorted, failed, retried', sum_by-append (is_retried id) fs rs),
      omega (arith, sorted, failed, retried', sum_by-append (fails_for_good id) fs rs),
    )
