-- ===== src/Server/Delivered.antt =====
-- What the backend is called for, of all events that are sent to `executor_events_loop` of
-- crates/ora-server/src/server/executions.rs.
use ora.Base.{
  ℕ, suc, String, ◌≡◌, refl, Bool, some, List, [], ◌∷◌, ◌++◌, ◌≢◌, inl, inr, arith, sum_by,
  sum_by-append,
}
use ora.Pool.State.{ExecutorEvent}
use ora.Pool.Ledger.{event_reports}
use ora.Server.Events.{on_events, no_results}
use ora.Server.Results.{resulted, on_events-resulted}
use ora.Server.Receiving.{
  Receiver, Moment, Branch, StopReason, deadline, stops, receive_round, max_executor_event_batch,
}
use ora.Server.Drained.{Ran, concat, stops_drained}
use ora.Server.Settled.{ResultCall, settle_results, tells, settle_results-tells}

module _ (is_json : String → Bool) (invalid : String → String) (clock : ℕ → ℕ) where
  -- The calls of the batches from the `i`th on, each handled at its own time.
  unfoldable pub batch_calls : ℕ → List (List ExecutorEvent) → List ResultCall
  unfolding settle_results on_events
  batch_calls i [] = []
  batch_calls i (b ∷ bs) =
      settle_results (clock i) (on_events is_json invalid (clock i) b no_results)
      ++ batch_calls (suc i) bs

  batch_calls-tells :
      (id i : ℕ) (bs : List (List ExecutorEvent))
      → sum_by (tells id) (batch_calls i bs) ≡ sum_by (event_reports id) (concat bs)
  unfolding batch_calls
  batch_calls-tells id i [] = unfold sum_by in refl
  batch_calls-tells id i (b ∷ bs) =
      let r = on_events is_json invalid (clock i) b no_results in
      omega (
        arith,
        sum_by-append (tells id) (settle_results (clock i) r) (batch_calls (suc i) bs),
        settle_results-tells (clock i) id r,
        on_events-resulted is_json invalid (clock i) id b no_results,
        nothing id,
        batch_calls-tells id (suc i) bs,
        sum_by-append (event_reports id) b (concat bs),
      )
    where
      nothing : (id : ℕ) → resulted id no_results ≡ 0
      nothing id = unfold sum_by in refl

  -- When the events loop stops for any reason but the deadline of a shutdown, the calls of the backend
  -- that it has made for its batches list every execution exactly as often as the events report it,
  -- of all events that were sent at any time: as succeeded, as failed, or as retried. Each call is
  -- made by `retry_backend`, which may give it up in a shutdown.
  pub events_delivered :
      (limit grace id : ℕ) {r : Receiver ExecutorEvent} {sent : List ExecutorEvent}
      {batches : List (List ExecutorEvent)} (m : Moment) (b : Branch) (why : StopReason)
      → Ran limit grace max_executor_event_batch r sent batches
      → receive_round limit grace max_executor_event_batch m b r ≡ some (stops why)
      → why ≢ deadline
      → sum_by (tells id) (batch_calls 0 batches) ≡ sum_by (event_reports id) sent
  events_delivered limit grace id {sent = sent} {batches = batches} m b why ran round other =
      let s = stops_drained limit grace max_executor_event_batch (omega arith) m b why ran round in
      elim s.1 [
        | inl late ↦ absurd (other late)
        | inr all ↦ rw all (batch_calls-tells id 0 batches)
      ]
