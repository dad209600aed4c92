-- ===== src/Server/Events.antt =====
-- `executor_events_loop` of crates/ora-server/src/server/executions.rs: how a batch of events
-- becomes results for the backend. Whether a text is JSON is the argument `is_json`.
use ora.Base.{ℕ, String, Bool, List, [], ◌∷◌, ◌++◌, map, if◌then◌else◌}
use ora.Backend.{JobType, SucceededExecution}
use ora.Pool.State.{
  ExecutorExecution, ExecutorEvent, job_types_added, execution_succeeded, execution_failed,
  executor_disconnected,
}
use ora.Pool.Queue.{assigned_executions}
use ora.Server.Retry.{FailureKind, error, invalid_output, MaybeRetryExecution}
use ora.Server.Retry

unfoldable pub failure : ℕ → ℕ → String → FailureKind → ExecutorExecution → MaybeRetryExecution
failure now failed_at reason kind e = record {
  execution = record {
    execution_id = e.execution_id;
    job_id = e.job_id;
    failed_at = failed_at;
    failure_reason = reason;
  };
  job_type_id = e.job_type_id;
  started_at = now;
  failure_kind = kind;
  retry_policy = e.retry_policy;
  attempt_number = e.attempt_number;
}

unfoldable pub disconnect_failure : ℕ → ExecutorExecution → MaybeRetryExecution
unfolding failure
disconnect_failure now = failure now now "executor disconnected" Retry.executor_disconnected

-- What a batch comes to: results, failures, and the job types to add.
pub record Results : Type 0 where
  pub succeeded_executions : List SucceededExecution
  pub maybe_retry_executions : List MaybeRetryExecution
  pub added_job_types : List (List JobType)

-- `invalid` words the reason of a failure by an output that is no JSON.
module _ (is_json : String → Bool) (invalid : String → String) (now : ℕ) where
  unfoldable pub on_event : ExecutorEvent → Results → Results
  unfolding failure disconnect_failure
  on_event (execution_succeeded e timestamp output) r =
      if is_json output
      then record r {
        succeeded_executions =
            r.succeeded_executions
            ++ (record {
              execution_id = e.execution_id;
              succeeded_at = timestamp;
              output_json = output;
            }
                ∷ []);
      }
      else record r {
        maybe_retry_executions =
            r.maybe_retry_executions
            ++ (failure now timestamp (invalid output) invalid_output e ∷ []);
      }
  on_event (execution_failed e timestamp reason) r = record r {
    maybe_retry_executions =
        r.maybe_retry_executions ++ (failure now timestamp reason error e ∷ []);
  }
  on_event (executor_disconnected x) r = record r {
    maybe_retry_executions =
        r.maybe_retry_executions ++ map (disconnect_failure now) (assigned_executions x);
  }
  on_event (job_types_added ts) r = record r { added_job_types = r.added_job_types ++ (ts ∷ []) }

  unfoldable pub on_events : List ExecutorEvent → Results → Results
  on_events [] r = r
  on_events (e ∷ es) r = on_events es (on_event e r)

abbrev pub no_results : Results
no_results = record { succeeded_executions = []; maybe_retry_executions = []; added_job_types = [] }

-- The executions whose start is awaited before the results are passed on.
unfoldable pub result_execution_ids : Results → List ℕ
result_execution_ids r =
    map (λ s. s.execution_id) r.succeeded_executions
    ++ map (λ f. f.execution.execution_id) r.maybe_retry_executions
