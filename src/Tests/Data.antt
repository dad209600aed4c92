-- ===== src/Tests/Data.antt =====
-- The inputs: a job type, executions of it, and a pool with one executor that was offered one.
use ora.Base.{ℕ, ◌^◌, Bool, true, false, none, some, List, [], ◌∷◌}
use ora.Base.Int.{pos}
use ora.Time.{from_secs}
use ora.Backend.{JobType, RetryPolicy, exponential, ReadyExecution}
use ora.Pool.State.{ExecutorExecution, accepted, offered, ExecutorPool, Clock}
use ora.Pool.Offer.{try_offer}
use ora.Pool.Turn.{Env, Wake, message, capabilities, execution_accepted}
use ora.Pool.Loop.{add_executor, executor_round}
use ora.Pool.History.{new_pool}

abbrev pub job_type : JobType
job_type = record {
  id = "send_mail";
  description = none;
  input_schema_json = none;
  output_schema_json = none;
}

-- Three retries, the first after a second.
abbrev pub policy : RetryPolicy
policy = record {
  retries = 3;
  backoff_duration = from_secs 1;
  max_backoff_duration = some (from_secs 60);
  backoff_strategy = exponential;
}

abbrev pub ready : ℕ → ReadyExecution
ready id = record {
  execution_id = id;
  job_id = 70;
  job_type_id = "send_mail";
  input_payload_json = "{}";
  attempt_number = 1;
  retry_policy = policy;
  target_execution_time = 0;
  priority = pos 0;
}

abbrev pub execution : ℕ → ℕ → ExecutorExecution
execution id attempt = record {
  job_id = 70;
  execution_id = id;
  job_type_id = "send_mail";
  retry_policy = policy;
  attempt_number = attempt;
  state = accepted;
  started_at = 5;
}

abbrev pub clock : Clock
clock = record { now = 10; system_now = 1_000 }

abbrev pub env : Env
env = record {
  clock = clock;
  instant_limit = 2 ^ 64;
  shutdown_grace_period = 0;
  disconnected = false;
  events_open = true;
  accepted_open = true;
}

abbrev pub every : ℕ → ℕ → Bool
every x id = true

abbrev pub hello : Wake
hello = message (capabilities "worker" true ((some job_type, 2) ∷ []))

-- Executor 1 connects, sends its capabilities, and is offered execution 7.
abbrev pub connected : ExecutorPool
connected = (add_executor clock 1 true new_pool).0

abbrev pub initialized : ExecutorPool
initialized = (executor_round env 1 none hello connected).pool

abbrev pub batch : List (ReadyExecution × List ℕ)
batch = (ready 7, 0 ∷ []) ∷ []

abbrev pub offered_pool : ExecutorPool
offered_pool = (try_offer every clock 0 batch initialized).pool

abbrev pub acceptance : Wake
acceptance = message (execution_accepted (some 7))

-- An executor that was offered execution 7 and has room for one more.
abbrev pub busy_pool : ExecutorPool
busy_pool = record {
  executors =
      record {
        id = 1;
        name = some "worker";
        job_queues =
            record {
              job_type = job_type;
              executions = record (execution 7 1) { state = offered 30 1_000 } ∷ [];
              max_executions = 2;
              backoff_until = none;
              consecutive_rejections = 0;
            }
            ∷ [];
        last_heartbeat = 0;
        last_heartbeat_at = 0;
        initialized = true;
        execution_handshake = true;
      }
      ∷ [];
  accepted_executions = [];
}
