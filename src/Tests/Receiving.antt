-- ===== src/Tests/Receiving.antt =====
-- The theorems about the receiving loops at concrete inputs.
use ora.Base.{
  ◌≡◌, refl, ◌⊎◌, true, none, some, [], ◌∷◌, ◌≤◌, take, drop, All, length, sum_by, arith,
}
use ora.Pool.State.{ExecutorEvent, execution_succeeded, execution_failed}
use ora.Pool.Ledger.{event_reports}
use ora.Server.Receiving.{
  Receiver, Moment, waiting, received, check_executors, executors_gone, deadline, receive_round,
  shutdown_events_deadline, max_executor_event_batch, stops,
}
use ora.Server.Drained.{Ran, started, sends, turns, works, Stopped, concat, stops_drained}
use ora.Server.Settled.{tells}
use ora.Server.Delivered.{batch_calls, events_delivered}
use ora.Tests.Data.{execution}

abbrev success : ExecutorEvent
success = execution_succeeded (execution 7 1) 8 "{}"

abbrev failed : ExecutorEvent
failed = execution_failed (execution 8 1) 8 "no route"

-- The wait group waits, and the pool is empty.
abbrev ending : Moment
ending = record { now = 100; pool_is_empty = true; has_senders = true; is_waiting = true }

abbrev all_handled : Receiver ExecutorEvent
all_handled = record { shutdown_deadline = none; channel = [] }

abbrev shutting_down : Receiver ExecutorEvent
shutting_down = record {
  shutdown_deadline = some (shutdown_events_deadline 9_000 50 100);
  channel = [];
}

ran_two :
    Ran 9_000 50 max_executor_event_batch all_handled
      (success ∷ failed ∷ [])
      ((success ∷ failed ∷ []) ∷ [])
unfolding receive_round drop take
ran_two = works ending received (sends failed (sends success started)) refl

ran_to_shutdown :
    Ran 9_000 50 max_executor_event_batch shutting_down
      (success ∷ failed ∷ [])
      ((success ∷ failed ∷ []) ∷ [])
unfolding receive_round
ran_to_shutdown = turns ending waiting ran_two refl

ends :
    receive_round 9_000 50 max_executor_event_batch ending check_executors shutting_down
    ≡ some (stops executors_gone)
unfolding receive_round
ends = refl

stops_drained_example :
    Stopped 9_000 50 max_executor_event_batch executors_gone ending shutting_down
    × ((executors_gone ≡ deadline)
        ⊎ (success ∷ failed ∷ [] ≡ concat ((success ∷ failed ∷ []) ∷ [])))
    × All
        (λ b. (1 ≤ length b) × (length b ≤ max_executor_event_batch))
        ((success ∷ failed ∷ []) ∷ [])
stops_drained_example =
    stops_drained 9_000 50 max_executor_event_batch (omega arith) ending check_executors
      executors_gone ran_to_shutdown ends

events_delivered_example :
    sum_by (tells 8) (batch_calls (λ s. true) (λ s. s) (λ i. i) 0 ((success ∷ failed ∷ []) ∷ []))
    ≡ sum_by (event_reports 8) (success ∷ failed ∷ [])
events_delivered_example =
    events_delivered (λ s. true) (λ s. s) (λ i. i) 9_000 50 8 ending check_executors executors_gone
      ran_to_shutdown ends (λ e. cc)
