-- ===== src/Server/Fates.antt =====
-- What a check for timeouts does with the executions in progress.
use ora.Base.{
  ℕ, ◌+◌, ◌≤◌, ◌<◌, ◌≡◌, refl, ◌↔◌, Bool, true, false, List, [], ◌∷◌, arith, sum_by, sum_by-append,
  one, ◌==◌, ◌&&◌, ◌||◌, not, any, ltb, leb,
}
use ora.Backend.{InProgressExecution, TimeoutBaseTime, from_target_execution_time, from_start_time}
use ora.Time.{checked_add}
use ora.Pool.State.{ExecutorPool}
use ora.Pool.Accepted.{executor_exists}
use ora.Server.Retry.{MaybeRetryExecution, retry_executions}
use ora.Server.Failures.{fails_for_good, is_retried, retryable, exhausted, retry_executions-counts}
use ora.Server.Timeouts.{
  orphaned, overdue, base_time_of, is_overdue, fate, failed_at, timed_out_executions,
  orphaned_executions, check_timeouts,
}

-- The deadline runs from the start or from the target time, as the policy says.
abbrev pub deadline_from : TimeoutBaseTime → InProgressExecution → ℕ
deadline_from from_target_execution_time e = e.target_execution_time + e.timeout_policy.timeout
deadline_from from_start_time e = e.started_at + e.timeout_policy.timeout

deadline_from_eq :
    (b : TimeoutBaseTime) (e : InProgressExecution)
    → deadline_from b e ≡ base_time_of b e + e.timeout_policy.timeout
deadline_from_eq from_target_execution_time e = refl
deadline_from_eq from_start_time e = refl

-- An execution has timed out exactly when its executor is connected, it has a timeout, and its
-- deadline is a time that can be represented and lies in the past. It is orphaned exactly when its
-- executor is not connected.
pub fate_lem :
    (limit now : ℕ) (p : ExecutorPool) (e : InProgressExecution)
    → let deadline = base_time_of e.timeout_policy.base_time e + e.timeout_policy.timeout in
      ((fate limit now p e ≡ overdue) ↔ (
        (executor_exists e.executor_id p ≡ true)
        × (0 < e.timeout_policy.timeout)
        × (deadline ≤ limit)
        × (deadline < now)))
      × ((fate limit now p e ≡ orphaned) ↔ (executor_exists e.executor_id p ≡ false))
unfolding fate is_overdue checked_add
fate_lem limit now p e = (ground arith, ground arith)

-- An execution that is to be failed: its executor is not connected, or it has a timeout and its
-- deadline is a time that can be represented and lies in the past.
abbrev pub is_ended : (limit now : ℕ) → ExecutorPool → InProgressExecution → Bool
is_ended limit now p e =
    let deadline = deadline_from e.timeout_policy.base_time e in
    not (any (λ x. x.id == e.executor_id) p.executors)
    || (ltb 0 e.timeout_policy.timeout && leb deadline limit && ltb deadline now)

abbrev pub failures_of : ℕ → List MaybeRetryExecution → ℕ
failures_of id es = sum_by (retryable id) es + sum_by (exhausted id) es

module _ (limit now : ℕ) (p : ExecutorPool) (id : ℕ) where
  -- How often an execution is listed with an end.
  abbrev pub ended : List InProgressExecution → ℕ
  ended es = sum_by (λ e. one (e.execution_id == id && is_ended limit now p e)) es

  failures-ended :
      (es : List InProgressExecution)
      → failures_of id (timed_out_executions limit now p es)
          + failures_of id (orphaned_executions limit now p es)
        ≡ ended es
  unfolding timed_out_executions orphaned_executions sum_by failed_at fate is_overdue checked_add
      executor_exists
  failures-ended [] = refl
  failures-ended (e ∷ es) =
      ground (arith, failures-ended es, deadline_from_eq e.timeout_policy.base_time e)

  -- The calls of a check fail or retry an execution exactly as often as it is listed with an executor
  -- that is not connected, or with a timeout and a deadline, from its start or its target time as
  -- the policy says, that can be represented and lies in the past; other executions are left alone.
  pub check_timeouts-ends :
      (c : ℕ) (es : List InProgressExecution)
      → let calls = (check_timeouts limit now c es p).calls in
        sum_by (is_retried id) calls + sum_by (fails_for_good id) calls ≡ ended es
  unfolding check_timeouts
  check_timeouts-ends c es =
      let late = timed_out_executions limit now p es in
      let lost = orphaned_executions limit now p es in
      omega (
        arith,
        failures-ended es,
        retry_executions-counts c id late,
        retry_executions-counts c id lost,
        sum_by-append (is_retried id) (retry_executions c late) (retry_executions c lost),
        sum_by-append (fails_for_good id) (retry_executions c late) (retry_executions c lost),
      )
