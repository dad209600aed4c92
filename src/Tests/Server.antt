-- ===== src/Tests/Server.antt =====
-- The theorems about the server's loops at concrete inputs.
use ora.Base.{
  ℕ, String, ◌+◌, ◌*◌, ◌≡◌, true, false, some, List, [], ◌∷◌, sum_by, ltb, if◌then◌else◌,
}
use ora.Backend.{InProgressExecution, from_start_time}
use ora.Pool.State.{ExecutorEvent, execution_failed, execution_succeeded}
use ora.Pool.Ledger.{event_reports}
use ora.Pool.Offering.{count_id}
use ora.Server.Retry.{MaybeRetryExecution, timed_out, retry_executions}
use ora.Server.Attempts.{Outcome, ok, err, Run, retry_backend, first_delay}
use ora.Server.Failures.{is_retried, fails_for_good, retryable, exhausted, retry_executions-counts}
use ora.Server.Repeats.{Stops, retry_backend-Stops}
use ora.Server.Results.{on_events-reports}
use ora.Server.Events.{on_events, no_results, result_execution_ids}
use ora.Server.Timeouts.{check_timeouts}
use ora.Server.Fates.{ended, check_timeouts-ends}
use ora.Tests.Data.{policy, execution, busy_pool}

-- An operation that fails twice.
abbrev third_time : ℕ → Outcome ℕ String
third_time n = if ltb n 3 then err "no connection" else ok n

retry_backend-Stops_example :
    (r : Run ℕ String) × (retry_backend third_time (λ n. false) 9 ≡ some r)
    × Stops third_time (λ n. false) 9 1 100_000_000 r
retry_backend-Stops_example = retry_backend-Stops third_time (λ n. false) 9

abbrev never : ℕ → Outcome ℕ String
never n = err "no connection"

abbrev three_failures : Run ℕ String
three_failures = record {
  result = err "no connection";
  sleeps = first_delay ∷ first_delay * 2 ∷ [];
}

abbrev failures : List MaybeRetryExecution
failures =
    record {
      execution = record { execution_id = 7; job_id = 70; failed_at = 9; failure_reason = "late" };
      job_type_id = "send_mail";
      started_at = 5;
      failure_kind = timed_out;
      retry_policy = policy;
      attempt_number = 2;
    }
    ∷ []

retry_executions-counts_example :
    (sum_by (is_retried 7) (retry_executions 9 failures) ≡ sum_by (retryable 7) failures)
    × (sum_by (fails_for_good 7) (retry_executions 9 failures) ≡ sum_by (exhausted 7) failures)
retry_executions-counts_example = retry_executions-counts 9 7 failures

abbrev events : List ExecutorEvent
events =
    execution_succeeded (execution 7 1) 8 "{}" ∷ execution_failed (execution 8 1) 8 "no route" ∷ []

on_events-reports_example :
    count_id 8 (result_execution_ids (on_events (λ s. true) (λ s. s) 9 events no_results))
    ≡ sum_by (event_reports 8) events
on_events-reports_example = on_events-reports (λ s. true) (λ s. s) 9 8 events

-- An execution with a timeout of two, of an executor.
abbrev in_progress : ℕ → InProgressExecution
in_progress executor = record {
  execution_id = 7;
  job_id = 70;
  job_type_id = "send_mail";
  executor_id = executor;
  target_execution_time = 0;
  started_at = 5;
  timeout_policy = record { timeout = 2; base_time = from_start_time };
  retry_policy = policy;
  attempt_number = 1;
}

check_timeouts-ends_example :
    let es = in_progress 1 ∷ in_progress 2 ∷ [] in
    let calls = (check_timeouts 100 9 9 es busy_pool).calls in
    sum_by (is_retried 7) calls + sum_by (fails_for_good 7) calls ≡ ended 100 9 busy_pool 7 es
check_timeouts-ends_example =
    check_timeouts-ends 100 9 busy_pool 7 9 (in_progress 1 ∷ in_progress 2 ∷ [])
