-- ===== src/Server/Settled.antt =====
-- What `executor_events_loop` of crates/ora-server/src/server/executions.rs calls the backend for
-- after a batch.
use ora.Base.{ℕ, ◌+◌, ◌≡◌, refl, List, [], ◌∷◌, ◌++◌, map, arith, sum_by, sum_by-append, one, ◌==◌}
use ora.Backend.{SucceededExecution}
use ora.Server.Retry.{MaybeRetryExecution, BackendCall, retry_executions}
use ora.Server.Failures.{is_retried, fails_for_good, retryable, exhausted, retry_executions-counts}
use ora.Server.Events.{Results}
use ora.Server.Results.{resulted}

-- The calls that follow a batch, each made by `retry_backend` (`Attempts`), which gives up after three
-- attempts when the wait group waits; the error is only logged, and the next call is made.
pub data ResultCall : Type 0 where
  executions_succeeded : List SucceededExecution → ResultCall
  failures : BackendCall → ResultCall

unfoldable pub succeeded_call : List SucceededExecution → List ResultCall
succeeded_call [] = []
succeeded_call (s ∷ es) = executions_succeeded (s ∷ es) ∷ []

unfoldable pub failure_calls : ℕ → List MaybeRetryExecution → List ResultCall
unfolding retry_executions
failure_calls now [] = []
failure_calls now (e ∷ es) = map failures (retry_executions now (e ∷ es))

unfoldable pub settle_results : ℕ → Results → List ResultCall
unfolding succeeded_call failure_calls
settle_results now r =
    succeeded_call r.succeeded_executions ++ failure_calls now r.maybe_retry_executions

-- How often a call is to tell the backend what became of an execution.
abbrev pub tells : ℕ → ResultCall → ℕ
tells id (executions_succeeded es) = sum_by (λ s. one (s.execution_id == id)) es
tells id (failures call) = is_retried id call + fails_for_good id call

module _ (now id : ℕ) where
  failures-split :
      (es : List MaybeRetryExecution)
      → sum_by (retryable id) es + sum_by (exhausted id) es
        ≡ sum_by (λ f. one (f.execution.execution_id == id)) es
  unfolding sum_by
  failures-split [] = refl
  failures-split (e ∷ es) = ground (arith, failures-split es)

  calls-split :
      (calls : List BackendCall)
      → sum_by (tells id) (map failures calls)
        ≡ sum_by (is_retried id) calls + sum_by (fails_for_good id) calls
  unfolding sum_by
  calls-split [] = refl
  calls-split (c ∷ cs) = omega (arith, calls-split cs)

  failure_calls-tells :
      (es : List MaybeRetryExecution)
      → sum_by (tells id) (failure_calls now es)
        ≡ sum_by (λ f. one (f.execution.execution_id == id)) es
  unfolding failure_calls
  failure_calls-tells [] = unfold sum_by in refl
  failure_calls-tells (e ∷ es) = omega (
    arith,
    calls-split (retry_executions now (e ∷ es)),
    retry_executions-counts now id (e ∷ es),
    failures-split (e ∷ es),
  )

  succeeded_call-tells :
      (es : List SucceededExecution)
      → sum_by (tells id) (succeeded_call es) ≡ sum_by (λ s. one (s.execution_id == id)) es
  unfolding succeeded_call sum_by
  succeeded_call-tells [] = refl
  succeeded_call-tells (s ∷ es) = omega arith

  pub settle_results-tells :
      (r : Results) → sum_by (tells id) (settle_results now r) ≡ resulted id r
  unfolding settle_results
  settle_results-tells r = omega (
    arith,
    sum_by-append (tells id) (succeeded_call r.succeeded_executions)
        (failure_calls now r.maybe_retry_executions),
    succeeded_call-tells r.succeeded_executions,
    failure_calls-tells r.maybe_retry_executions,
  )
