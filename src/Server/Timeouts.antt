-- ===== src/Server/Timeouts.antt =====
-- `execution_timeouts_loop` of crates/ora-server/src/server/executions.rs: what it does with one
-- batch of in-progress executions.
use ora.Base.{
  ℕ, String, Bool, false, none, some, List, [], ◌∷◌, ◌++◌, map, ltb, ◌==◌, if◌then◌else◌,
}
use ora.Time.{checked_add}
use ora.Backend.{InProgressExecution, TimeoutBaseTime, from_target_execution_time, from_start_time}
use ora.Pool.State.{ExecutorPool, Output}
use ora.Pool.Accepted.{executor_exists}
use ora.Pool.Cancel.{cancel_execution_ids}
use ora.Server.Retry.{
  FailureKind, timed_out, executor_disconnected, MaybeRetryExecution, BackendCall, retry_executions,
}

abbrev pub base_time_of : TimeoutBaseTime → InProgressExecution → ℕ
base_time_of from_target_execution_time e = e.target_execution_time
base_time_of from_start_time e = e.started_at

-- What becomes of an execution.
pub data Fate : Type 0 where
  orphaned overdue running : Fate

-- `limit` is the last time that is representable; a deadline beyond it is never reached.
unfoldable pub is_overdue : (limit now : ℕ) → InProgressExecution → Bool
unfolding checked_add
is_overdue limit now e =
    elim (checked_add limit (base_time_of e.timeout_policy.base_time e) e.timeout_policy.timeout) [
      | none ↦ false
      | some deadline ↦ ltb deadline now
    ]

unfoldable pub fate : (limit now : ℕ) → ExecutorPool → InProgressExecution → Fate
unfolding is_overdue
fate limit now p e =
    if executor_exists e.executor_id p
    then if e.timeout_policy.timeout == 0
      then running
      else if is_overdue limit now e
      then overdue
      else running
    else orphaned

unfoldable pub failed_at : ℕ → String → FailureKind → InProgressExecution → MaybeRetryExecution
failed_at now reason kind e = record {
  execution = record {
    execution_id = e.execution_id;
    job_id = e.job_id;
    failed_at = now;
    failure_reason = reason;
  };
  job_type_id = e.job_type_id;
  started_at = e.started_at;
  failure_kind = kind;
  retry_policy = e.retry_policy;
  attempt_number = e.attempt_number;
}

abbrev pub when_overdue :
    Fate → MaybeRetryExecution → List MaybeRetryExecution → List MaybeRetryExecution
when_overdue overdue x xs = x ∷ xs
when_overdue orphaned x xs = xs
when_overdue running x xs = xs

abbrev pub when_orphaned :
    Fate → MaybeRetryExecution → List MaybeRetryExecution → List MaybeRetryExecution
when_orphaned orphaned x xs = x ∷ xs
when_orphaned overdue x xs = xs
when_orphaned running x xs = xs

unfoldable pub timed_out_executions :
    (limit now : ℕ) → ExecutorPool → List InProgressExecution → List MaybeRetryExecution
timed_out_executions limit now p [] = []
timed_out_executions limit now p (e ∷ es) =
    when_overdue (fate limit now p e) (failed_at now "execution timed out" timed_out e)
      (timed_out_executions limit now p es)

unfoldable pub orphaned_executions :
    (limit now : ℕ) → ExecutorPool → List InProgressExecution → List MaybeRetryExecution
orphaned_executions limit now p [] = []
orphaned_executions limit now p (e ∷ es) =
    when_orphaned (fate limit now p e)
      (failed_at now "executor disconnected" executor_disconnected e)
      (orphaned_executions limit now p es)

-- The backend calls, the pool without the executions that timed out, and their cancellations.
pub record Checked : Type 0 where
  pub calls : List BackendCall
  pub pool : ExecutorPool
  pub outputs : List Output

abbrev pub ids_of : List MaybeRetryExecution → List ℕ
ids_of = map λ e. e.execution.execution_id

-- `c` is the time at which retries are planned.
unfoldable pub check_timeouts :
    (limit now c : ℕ) → List InProgressExecution → ExecutorPool → Checked
unfolding timed_out_executions orphaned_executions
check_timeouts limit now c es p =
    let late = timed_out_executions limit now p es in
    let (p', out) = cancel_execution_ids (ids_of late) p in
    record {
      calls = retry_executions c late ++ retry_executions c (orphaned_executions limit now p es);
      pool = p';
      outputs = out;
    }
