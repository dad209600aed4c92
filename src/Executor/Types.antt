-- ===== src/Executor/Types.antt =====
-- The messages between an executor and the server, its queues, and what its users' functions give,
-- of crates/ora/src/executor/implementation.rs and executions.rs.
use Prim.Native.String.{◌++◌ as ◌<>◌}
use ora.Base.{
  ℕ, String, Bool, true, false, Option, none, some, List, [], ◌∷◌, str_eq, if◌then◌else◌, ◌+◌, max,
}
use ora.Convert.Messages.{Protobuf}

-- A queue of a handler. The schemas are what `serde_json` makes of them, if it can.
pub record HandlerQueue : Type 0 where
  pub max_concurrent_jobs : ℕ
  pub job_type_id : String
  pub input_schema_json : Option String
  pub output_schema_json : Option String
  pub description : Option String

pub data Admission : Type 0 where
  accept : Admission
  reject : (reason : Option String) → Admission

abbrev pub reject_with : String → Admission
reject_with reason = reject (some reason)

unfoldable pub is_accept : Admission → Bool
is_accept accept = true
is_accept (reject reason) = false

-- What a guard that was run did, and what became of the handler.
pub data GuardRun : Type 0 where
  answered : (admission : Admission) → GuardRun
  guard_panicked : GuardRun

pub data Panic : Type 0 where
  text : (message : String) → Panic
  other : Panic

pub data HandlerRun : Type 0 where
  returned : (output_payload_json : String) → HandlerRun
  errored : (error : String) → HandlerRun
  handler_panicked : (panic : Panic) → HandlerRun

pub record QueueCapability : Type 0 where
  pub id : String
  pub description : Option String
  pub input_schema_json : String
  pub output_schema_json : String
  pub max_concurrent_executions : ℕ

pub record Capabilities : Type 0 where
  pub name : String
  pub job_queues : List QueueCapability
  pub execution_handshake : Bool

pub data MessageToServer : Type 0 where
  capabilities : (sent : Capabilities) → MessageToServer
  execution_rejected :
      (execution_id : String) (timestamp : ℕ) (reason : Option String) → MessageToServer
  execution_accepted : (execution_id : String) (timestamp : ℕ) → MessageToServer
  execution_succeeded :
      (execution_id : String) (timestamp : ℕ) (output_payload_json : String) → MessageToServer
  execution_failed :
      (execution_id : String) (timestamp : ℕ) (failure_reason : String) → MessageToServer

module _ (P : Protobuf) where
  pub record ExecutionReady : Type 0 where
    pub job_id : String
    pub execution_id : String
    pub job_type_id : String
    pub attempt_number : ℕ
    pub input_payload_json : String
    pub target_execution_time : Option P.Timestamp

  pub data MessageFromServer : Type 0 where
    properties :
        (executor_id : String) (max_heartbeat_interval : Option P.Duration) → MessageFromServer
    execution_ready : (ready : ExecutionReady) → MessageFromServer
    execution_cancelled : (execution_id : String) → MessageFromServer

-- The guards in their order: the first that does not accept decides. The second one's result is
-- not looked at then.
unfoldable pub admission_of : List GuardRun → Admission
unfolding is_accept
admission_of [] = accept
admission_of (guard_panicked ∷ later) = reject_with "execution guard panicked"
admission_of (answered admission ∷ later) =
    let rest = admission_of later in if is_accept admission then rest else admission

-- The failure reason is the `Debug` text of an error; `debug` is that text for an error made of
-- a message.
unfoldable pub handler_result : (String → String) → HandlerRun → String × Bool
handler_result debug (returned output) = (output, true)
handler_result debug (errored error) = (error, false)
handler_result debug (handler_panicked (text message)) =
    (debug ("handler panicked: " <> message), false)
handler_result debug (handler_panicked other) =
    (debug "handler panicked: unknown panic payload", false)

-- The first queue of a job type, and its position.
unfoldable pub find_queue : String → List HandlerQueue → Option (ℕ × HandlerQueue)
find_queue id [] = none
find_queue id (queue ∷ queues) =
    let rest = find_queue id queues in
    if str_eq queue.job_type_id id
    then some (0, queue)
    else elim rest [ none ↦ none | some (i, found) ↦ some (i + 1, found) ]

abbrev pub with_schemas : HandlerQueue → Option String → Option String → Option QueueCapability
with_schemas queue (some input) (some output) = some (record {
  id = queue.job_type_id;
  description = queue.description;
  input_schema_json = input;
  output_schema_json = output;
  max_concurrent_executions = max queue.max_concurrent_jobs 1;
})
with_schemas queue _ _ = none

abbrev pub prepend :
    Option QueueCapability → Option (List QueueCapability) → Option (List QueueCapability)
prepend (some first) (some later) = some (first ∷ later)
prepend _ _ = none

-- `collect` of the capabilities: one schema that cannot be written fails all.
unfoldable pub queue_capabilities : List HandlerQueue → Option (List QueueCapability)
queue_capabilities [] = some []
queue_capabilities (queue ∷ queues) =
    prepend (with_schemas queue queue.input_schema_json queue.output_schema_json)
      (queue_capabilities queues)
