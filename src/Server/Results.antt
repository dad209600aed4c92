-- ===== src/Server/Results.antt =====
-- What `executor_events_loop` makes of a batch of events.
use ora.Base.{
  ℕ, String, ◌+◌, ◌≡◌, refl, Bool, List, [], ◌∷◌, ◌++◌, map, retain, arith, sum_by, sum_by-append,
  sum_by-flat_map, ◌∙◌, Bool-cases, inl, inr, one, ◌==◌,
}
use ora.Backend.{SucceededExecution}
use ora.Pool.State.{
  ExecutorExecution, Executor, ExecutorJobQueue, ExecutorEvent, job_types_added,
  execution_succeeded, execution_failed, executor_disconnected,
}
use ora.Pool.Queue.{assigned_executions, executions_of, is_accepted, has_id}
use ora.Pool.Ledger.{is_assigned, queue_assigned, executor_assigned, event_reports}
use ora.Pool.Offering.{count_id, sum_by-map}
use ora.Server.Retry.{MaybeRetryExecution, error, invalid_output}
use ora.Server.Events.{
  failure, disconnect_failure, Results, on_event, on_events, no_results, result_execution_ids,
}

-- How many results of an execution a batch has come to.
abbrev pub resulted : ℕ → Results → ℕ
resulted id r =
    sum_by (λ s. one (s.execution_id == id)) r.succeeded_executions
    + sum_by (λ f. one (f.execution.execution_id == id)) r.maybe_retry_executions

retain_accepted-assigned :
    (id : ℕ) (es : List ExecutorExecution)
    → sum_by (λ e. one (has_id id e)) (retain is_accepted es) ≡ sum_by (is_assigned id) es
unfolding sum_by retain
retain_accepted-assigned id [] = refl
retain_accepted-assigned id (e ∷ es) = ground (arith, retain_accepted-assigned id es)

assigned_executions-assigned :
    (id : ℕ) (x : Executor)
    → sum_by (λ e. one (has_id id e)) (assigned_executions x) ≡ executor_assigned id x
unfolding assigned_executions executor_assigned queue_assigned
assigned_executions-assigned id x =
    retain_accepted-assigned id (executions_of x)
    ∙ sum_by-flat_map (is_assigned id) (λ (q : ExecutorJobQueue). q.executions) x.job_queues

module _ (is_json : String → Bool) (invalid : String → String) (now : ℕ) where
  add_succeeded :
      (id : ℕ) (r : Results) (s : SucceededExecution)
      → resulted id (record r { succeeded_executions = r.succeeded_executions ++ (s ∷ []) })
        ≡ resulted id r + one (s.execution_id == id)
  unfolding sum_by
  add_succeeded id r s =
      omega (arith, sum_by-append (λ s. one (s.execution_id == id)) r.succeeded_executions (s ∷ []))

  add_failures :
      (id : ℕ) (r : Results) (fs : List MaybeRetryExecution)
      → resulted id (record r { maybe_retry_executions = r.maybe_retry_executions ++ fs })
        ≡ resulted id r + sum_by (λ f. one (f.execution.execution_id == id)) fs
  add_failures id r fs =
      omega (
        arith,
        sum_by-append (λ f. one (f.execution.execution_id == id)) r.maybe_retry_executions fs,
      )

  on_event-resulted :
      (id : ℕ) (e : ExecutorEvent) (r : Results)
      → resulted id (on_event is_json invalid now e r) ≡ resulted id r + event_reports id e
  unfolding on_event failure disconnect_failure sum_by
  on_event-resulted id (execution_succeeded e t output) r =
      let json =
        add_succeeded id r
          (record { execution_id = e.execution_id; succeeded_at = t; output_json = output }) in
      let no_json = add_failures id r (failure now t (invalid output) invalid_output e ∷ []) in
      elim (Bool-cases (is_json output)) [
        | inl y ↦ rw y (omega (arith, json))
        | inr n ↦ rw n (omega (arith, no_json))
      ]
  on_event-resulted id (execution_failed e t reason) r =
      omega (arith, add_failures id r (failure now t reason error e ∷ []))
  on_event-resulted id (executor_disconnected x) r = omega (
    arith,
    add_failures id r (map (disconnect_failure now) (assigned_executions x)),
    sum_by-map (λ (f : MaybeRetryExecution). one (f.execution.execution_id == id))
        (disconnect_failure now) (assigned_executions x),
    assigned_executions-assigned id x,
  )
  on_event-resulted id (job_types_added ts) r = omega arith

  pub on_events-resulted :
      (id : ℕ) (es : List ExecutorEvent) (r : Results)
      → resulted id (on_events is_json invalid now es r)
        ≡ resulted id r + sum_by (event_reports id) es
  unfolding on_events sum_by
  on_events-resulted id [] r = omega arith
  on_events-resulted id (e ∷ es) r =
      omega (
        arith,
        on_event-resulted id e r,
        on_events-resulted id es (on_event is_json invalid now e r),
      )

  -- Every execution that the events report is among the results of the batch, exactly as often as
  -- they report it: as succeeded, as failed, or by the disconnection of an executor that had
  -- accepted it.
  pub on_events-reports :
      (id : ℕ) (es : List ExecutorEvent)
      → count_id id (result_execution_ids (on_events is_json invalid now es no_results))
        ≡ sum_by (event_reports id) es
  unfolding result_execution_ids sum_by
  on_events-reports id es =
      let r = on_events is_json invalid now es no_results in
      omega (
        arith,
        on_events-resulted id es no_results,
        sum_by-append (λ (k : ℕ). one (k == id)) (map (λ s. s.execution_id) r.succeeded_executions)
            (map (λ f. f.execution.execution_id) r.maybe_retry_executions),
        sum_by-map (λ (k : ℕ). one (k == id)) (λ (s : SucceededExecution). s.execution_id)
            r.succeeded_executions,
        sum_by-map (λ (k : ℕ). one (k == id))
            (λ (f : MaybeRetryExecution). f.execution.execution_id) r.maybe_retry_executions,
      )
