-- ===== src/Executor/Loop.antt =====
-- `executor_loop` of crates/ora/src/executor/implementation/executions.rs, with
-- `send_capabilities` and the interval of `heartbeat_loop`, and the steps of an executor.
use ora.Base.{
  ℕ, String, Bool, true, false, Option, none, some, List, [], ◌∷◌, if◌then◌else◌, ◌+◌, ◌/◌, ◌==◌,
}
use ora.Convert.Messages.{Protobuf}
use ora.Convert.Policies.{unwrap_or, duration_from}
use ora.Executor.Types.{
  HandlerRun, execution_rejected, capabilities, ExecutionReady, MessageFromServer, properties,
  execution_ready, execution_cancelled, queue_capabilities,
}
use ora.Executor.State.{
  spawned, heartbeats, add_active, cancel_active, is_idle, cancel_all_active, set_at, ExecutorState,
}
use ora.Executor.Runs.{
  Guards, send, begin_run, admit_run, notice_cancel, finish_run, drop_cancelled, leave_run,
}

-- What the loop waits for: its guard is waited for, or a message, or the channel's end.
pub data Incoming (P : Protobuf) : Type 0 where
  shutting_down : Incoming P
  closed : Incoming P
  received : (message : MessageFromServer P) → Incoming P

module _ (P : Protobuf) (parse : String → Option ℕ) where
  -- An interval of zero becomes a second; heartbeats come at half of it.
  unfoldable pub heartbeat_interval : Option P.Duration → ℕ
  unfolding duration_from
  heartbeat_interval interval =
      let read = duration_from P (unwrap_or interval P.default_duration) in
      (if read == 0 then 1_000_000_000 else read) / 2

  -- The state, and whether the loop goes on.
  unfoldable pub on_properties :
      Bool → ℕ → Option P.Duration → ExecutorState P → Bool × ExecutorState P
  unfolding queue_capabilities heartbeat_interval
  on_properties is_open c interval s = elim (queue_capabilities s.queues) [
    | none ↦ (false, s)
    | some queues ↦ (
      true,
      let t =
            send P is_open c
              (capabilities
                (record { name = s.name; job_queues = queues; execution_handshake = true }))
              s in
          record t { log = heartbeats c (heartbeat_interval interval) ∷ t.log },
    )
  ]

  -- The offer is tracked under its ID, and a task is spawned for it.
  unfoldable pub on_ready : Bool → ℕ → ℕ → ExecutionReady P → ExecutorState P → ExecutorState P
  unfolding add_active
  on_ready is_open now c ready s = elim (parse ready.execution_id) [
    | none ↦
        send P is_open c (execution_rejected ready.execution_id now (some "invalid execution ID")) s
    | some id ↦ elim (add_active id s.next_token (s.executions c)) [
      | none ↦
          send P is_open c
            (execution_rejected ready.execution_id now (some "execution is already running")) s
      | some executions ↦ record s {
        executions = set_at c executions s.executions;
        next_token = s.next_token + 1;
        runs =
            record {
              connection = c;
              execution_id = id;
              token = s.next_token;
              ready = ready;
              phase = spawned;
            }
            ∷ s.runs;
      }
    ]
  ]

  unfoldable pub on_cancelled : ℕ → String → ExecutorState P → ExecutorState P
  unfolding cancel_active
  on_cancelled c execution_id s = elim (parse execution_id) [
    | none ↦ s
    | some id ↦ record s { cancelled = cancel_active id (s.executions c) s.cancelled }
  ]

  unfoldable pub executor_turn :
      Bool → ℕ → ℕ → Incoming P → ExecutorState P → Bool × ExecutorState P
  unfolding on_properties on_ready on_cancelled is_idle cancel_all_active
  executor_turn is_open now c shutting_down s =
      if is_idle (s.executions c)
      then (false, s)
      else (false, record s { cancelled = cancel_all_active (s.executions c) s.cancelled })
  executor_turn is_open now c closed s =
      (false, record s { cancelled = cancel_all_active (s.executions c) s.cancelled })
  executor_turn is_open now c (received (properties executor_id interval)) s =
      on_properties is_open c interval s
  executor_turn is_open now c (received (execution_ready ready)) s =
      (true, on_ready is_open now c ready s)
  executor_turn is_open now c (received (execution_cancelled execution_id)) s =
      (true, on_cancelled c execution_id s)

  -- A turn of a connection's loop, or a piece of a task; `is_open` is whether the channel to the
  -- server is.
  pub data Action : Type 0 where
    turn : (is_open : Bool) (now connection : ℕ) (incoming : Incoming P) → Action
    begin : (is_open : Bool) (now run : ℕ) → Action
    admit : (is_open : Bool) (now run : ℕ) (guards : Guards) → Action
    notice : (run : ℕ) → Action
    finish : (debug : String → String) (is_open : Bool) (now run : ℕ) (result : HandlerRun) → Action
    end_grace : (run : ℕ) → Action
    leave : (run : ℕ) → Action

  unfoldable pub act : Action → ExecutorState P → ExecutorState P
  unfolding executor_turn begin_run admit_run notice_cancel finish_run drop_cancelled leave_run
  act (turn is_open now c incoming) s = (executor_turn is_open now c incoming s).1
  act (begin is_open now i) s = begin_run P parse is_open now i s
  act (admit is_open now i guards) s = admit_run P is_open now i guards s
  act (notice i) s = notice_cancel P i s
  act (finish debug is_open now i result) s = finish_run P debug is_open now i result s
  act (end_grace i) s = drop_cancelled P i s
  act (leave i) s = leave_run P i s

  unfoldable pub act_all : List Action → ExecutorState P → ExecutorState P
  unfolding act
  act_all [] s = s
  act_all (a ∷ later) s = act_all later (act a s)
