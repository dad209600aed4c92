-- ===== src/Server/Retry.antt =====
-- `retry_backoff` and `retry_executions` of crates/ora-server/src/server/executions.rs.
use ora.Base.{
  ℕ, String, ◌+◌, ◌-◌, ◌*◌, ◌^◌, min, Bool, Option, none, some, List, [], ◌∷◌, ◌++◌, leb,
  if◌then◌else◌,
}
use ora.Time.{from_secs, saturating_mul, u32_max}
use ora.Backend.{
  BackoffStrategy, fixed, exponential, RetryPolicy, FailedExecution, RetriedExecution,
}

pub data FailureKind : Type 0 where
  error invalid_output timed_out executor_disconnected : FailureKind

pub record MaybeRetryExecution : Type 0 where
  pub execution : FailedExecution
  pub job_type_id : String
  pub started_at : ℕ
  pub failure_kind : FailureKind
  pub retry_policy : RetryPolicy
  pub attempt_number : ℕ

-- A year of 365 days.
abbrev pub max_retry_backoff : ℕ
max_retry_backoff = from_secs (365 * 24 * 3600)

-- `2u32.checked_pow(exp)`.
unfoldable pub checked_pow2 : ℕ → Option ℕ
checked_pow2 exp = if leb (2 ^ exp) u32_max then some (2 ^ exp) else none

-- `u32::try_from(exp).ok().and_then(…).unwrap_or(u32::MAX)`; `saturating_sub` is `-`.
unfoldable pub backoff_multiplier : ℕ → ℕ
unfolding checked_pow2
backoff_multiplier attempt =
    let exp = attempt - 1 in
    let pow = checked_pow2 exp in
    if leb exp u32_max then elim pow [ none ↦ u32_max | some m ↦ m ] else u32_max

unfoldable pub strategy_backoff : BackoffStrategy → ℕ → ℕ → ℕ
unfolding backoff_multiplier saturating_mul
strategy_backoff fixed d attempt = d
strategy_backoff exponential d attempt = saturating_mul d (backoff_multiplier attempt)

abbrev pub capped : Option ℕ → ℕ → ℕ
capped none d = d
capped (some cap) d = min d cap

unfoldable pub retry_backoff : RetryPolicy → ℕ → ℕ
unfolding strategy_backoff
retry_backoff policy attempt =
    min
      (capped policy.max_backoff_duration
        (strategy_backoff policy.backoff_strategy policy.backoff_duration attempt))
      max_retry_backoff

abbrev pub has_retries_left : MaybeRetryExecution → Bool
has_retries_left e = leb e.attempt_number e.retry_policy.retries

unfoldable pub retried : ℕ → MaybeRetryExecution → RetriedExecution
retried now e = record {
  failed_execution = e.execution;
  retry_execution_time = now + retry_backoff e.retry_policy e.attempt_number;
}

-- What the loop of `retry_executions` collects.
pub record Sorted : Type 0 where
  pub failed_executions : List FailedExecution
  pub retried_executions : List RetriedExecution

unfoldable pub sort_failures : ℕ → List MaybeRetryExecution → Sorted
unfolding retried
sort_failures now [] = record { failed_executions = []; retried_executions = [] }
sort_failures now (e ∷ es) =
    let rest = sort_failures now es in
    if has_retries_left e
    then record rest { retried_executions = retried now e ∷ rest.retried_executions }
    else record rest { failed_executions = e.execution ∷ rest.failed_executions }

-- The backend calls that follow, each made by `retry_backend` (`Attempts`): it is repeated until it
-- succeeds or, when the wait group waits, until three attempts have failed, and then it is given up
-- with an error that is only logged.
pub data BackendCall : Type 0 where
  executions_failed : List FailedExecution → BackendCall
  executions_retried : List RetriedExecution → BackendCall

unfoldable pub failed_call : List FailedExecution → List BackendCall
failed_call [] = []
failed_call (f ∷ fs) = executions_failed (f ∷ fs) ∷ []

unfoldable pub retried_call : List RetriedExecution → List BackendCall
retried_call [] = []
retried_call (r ∷ rs) = executions_retried (r ∷ rs) ∷ []

unfoldable pub retry_executions : ℕ → List MaybeRetryExecution → List BackendCall
unfolding sort_failures failed_call retried_call
retry_executions now es =
    let sorted = sort_failures now es in
    failed_call sorted.failed_executions ++ retried_call sorted.retried_executions
