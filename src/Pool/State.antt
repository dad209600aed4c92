-- ===== src/Pool/State.antt =====
-- The data of crates/ora-server/src/executor_pool.rs: executors, their job queues, the executions
-- offered to or accepted by them, and what the pool sends out.
-- The channels are not part of the state: what is sent is listed as `Output`, and whether a send
-- succeeds is an argument of the operations. A UUID in its text form is the number it stands for.
use ora.Base.{ℕ, String, Bool, Option, List, Dict}
use ora.Backend.{JobType, RetryPolicy, ReadyExecution, StartedExecution}

pub data ExecutionState : Type 0 where
  offered : (deadline offered_at : ℕ) → ExecutionState
  accepted : ExecutionState

pub record ExecutorExecution : Type 0 where
  pub job_id : ℕ
  pub execution_id : ℕ
  pub job_type_id : String
  pub retry_policy : RetryPolicy
  pub attempt_number : ℕ
  pub state : ExecutionState
  pub started_at : ℕ

pub record ExecutorJobQueue : Type 0 where
  pub job_type : JobType
  pub executions : List ExecutorExecution
  pub max_executions : ℕ
  pub backoff_until : Option ℕ
  pub consecutive_rejections : ℕ

pub record Executor : Type 0 where
  pub id : ℕ
  pub name : Option String
  pub job_queues : List ExecutorJobQueue
  pub last_heartbeat : ℕ
  pub last_heartbeat_at : ℕ
  pub initialized : Bool
  pub execution_handshake : Bool

-- The executors, and the accepted executions with the time when they were started in the backend.
pub record ExecutorPool : Type 0 where
  pub executors : List Executor
  pub accepted_executions : Dict (Option ℕ)

pub data ExecutorEvent : Type 0 where
  job_types_added : List JobType → ExecutorEvent
  execution_succeeded :
      (execution : ExecutorExecution) (timestamp : ℕ) (output_payload_json : String) → ExecutorEvent
  execution_failed :
      (execution : ExecutorExecution) (timestamp : ℕ) (failure_reason : String) → ExecutorEvent
  executor_disconnected : Executor → ExecutorEvent

pub data ServerMessage : Type 0 where
  properties : (executor_id max_heartbeat_interval : ℕ) → ServerMessage
  execution_ready : ReadyExecution → ServerMessage
  execution_cancelled : (execution_id : ℕ) → ServerMessage

-- A message for an executor, an event for the server, an execution to start in the backend, and
-- the notifications `executor_available` and `starts_recorded`.
pub data Output : Type 0 where
  send_to : (executor_id : ℕ) → ServerMessage → Output
  emit : ExecutorEvent → Output
  start : StartedExecution → Output
  notify_available : Output
  notify_starts : Output

-- The clocks at a call: the monotonic one and the system's.
pub record Clock : Type 0 where
  pub now : ℕ
  pub system_now : ℕ
