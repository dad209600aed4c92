-- ===== src/Pool/Turn.antt =====
-- What one round of `executor_loop` in crates/ora-server/src/executor_pool.rs works with: the
-- messages of executors, the events that wake the loop, and `drop_executor`.
use ora.Base.{
  ℕ, String, Bool, Option, none, some, List, [], ◌∷◌, position, modify, swap_remove, get_elem?,
  ◌==◌, if◌then◌else◌, is_some, ◌&&◌,
}
use ora.Backend.{JobType}
use ora.Pool.State.{Executor, ExecutorPool, executor_disconnected, Output, emit, Clock}
use ora.Pool.Queue.{assigned_execution_count}

-- A timestamp of a message: left out, not readable as a system time, or given.
pub data Timestamp : Type 0 where
  absent unreadable : Timestamp
  at : ℕ → Timestamp

-- `none` stands for an execution ID that is no UUID, and for a job type that is missing or invalid.
pub data ExecutorMessage : Type 0 where
  capabilities :
      (name : String) (execution_handshake : Bool) (job_queues : List (Option JobType × ℕ))
      → ExecutorMessage
  heartbeat : ExecutorMessage
  execution_accepted : (execution_id : Option ℕ) → ExecutorMessage
  execution_rejected : (execution_id : Option ℕ) → ExecutorMessage
  execution_succeeded :
      (execution_id : Option ℕ) (timestamp : Timestamp) (output_payload_json : String)
      → ExecutorMessage
  execution_failed :
      (execution_id : Option ℕ) (timestamp : Timestamp) (failure_reason : String) → ExecutorMessage

-- The branches of the loop's `select!`.
pub data Wake : Type 0 where
  grace_elapsed shutdown_signal heartbeat_tick offer_tick messages_closed : Wake
  message : ExecutorMessage → Wake

-- The clocks, the last representable instant, the grace period, whether the executor's outbound
-- channel is disconnected, and whether the channels of events and of accepted executions are open.
pub record Env : Type 0 where
  pub clock : Clock
  pub open clock use *
  pub instant_limit : ℕ
  pub shutdown_grace_period : ℕ
  pub disconnected : Bool
  pub events_open : Bool
  pub accepted_open : Bool

-- The next round with its shutdown deadline, or the end of the loop.
pub data Next : Type 0 where
  again : (shutdown_deadline : Option ℕ) → Next
  leave : Next

pub record Turn : Type 0 where
  pub pool : ExecutorPool
  pub outputs : List Output
  pub next : Next

abbrev pub continue_with : Option ℕ → ExecutorPool → List Output → Turn
continue_with d p out = record { pool = p; outputs = out; next = again d }

abbrev pub break_with : ExecutorPool → List Output → Turn
break_with p out = record { pool = p; outputs = out; next = leave }

abbrev pub is_executor : ℕ → Executor → Bool
is_executor id x = x.id == id

-- Writes back the executor at a position.
abbrev pub put : ℕ → Executor → ExecutorPool → ExecutorPool
put k x p = record p { executors = modify p.executors k (λ _. x) }

unfoldable pub disconnect : ExecutorPool → ℕ → Option Executor → ExecutorPool × List Output
disconnect p k none = (p, [])
disconnect p k (some x) =
    (record p { executors = swap_remove p.executors k }, emit (executor_disconnected x) ∷ [])

unfoldable pub drop_executor : ℕ → ExecutorPool → ExecutorPool × List Output
unfolding disconnect
drop_executor id p = elim (position (is_executor id) p.executors) [
  | none ↦ (p, [])
  | some k ↦ disconnect p k (get_elem? p.executors k)
]

-- `drop_executor(…); break`.
unfoldable pub drop_and_break : ℕ → ExecutorPool → Turn
drop_and_break id p = let (p', out) = drop_executor id p in break_with p' out

-- The end of a round: nothing is left to wait for during shutdown.
unfoldable pub settle : Option ℕ → ℕ → Executor → ExecutorPool → List Output → Turn
settle d k x p out =
    if is_some d && (assigned_execution_count x == 0)
    then break_with (put k x p) out
    else continue_with d (put k x p) out
