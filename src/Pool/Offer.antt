-- ===== src/Pool/Offer.antt =====
-- `try_offer` of crates/ora-server/src/executor_pool.rs. The shuffled order in which the executors
-- are asked for an execution comes with the execution, as a list of positions; whether a message
-- can be queued for an executor is the argument `link`, by the executor and the execution.
use ora.Base.{
  ℕ, ◌+◌, Bool, ◌&&◌, Option, none, some, List, [], ◌∷◌, ◌++◌, map, flat_map, position, modify,
  retain, any, get_elem?, leb, ◌==◌, str_eq, is_none_or, if◌then◌else◌, Dict, insert,
}
use ora.Time.{from_secs}
use ora.Backend.{ReadyExecution}
use ora.Pool.State.{
  ExecutionState, offered, accepted, ExecutorExecution, ExecutorJobQueue, Executor, ExecutorPool,
  Output, send_to, start, execution_ready, Clock,
}
use ora.Pool.Queue.{has_capacity, add_execution, executions_of}

abbrev pub offer_timeout : ℕ
offer_timeout = from_secs 30

-- Accepted executions started before the fetch are not returned by the backend anymore.
abbrev pub is_fresh : ℕ → ℕ × Option ℕ → Bool
is_fresh fetched_at (id, started_at) = is_none_or started_at (λ t. leb fetched_at t)

unfoldable pub forget_started : ℕ → ExecutorPool → ExecutorPool
forget_started fetched_at p = record p {
  accepted_executions = retain (is_fresh fetched_at) p.accepted_executions;
}

unfoldable pub held_execution_ids : ExecutorPool → List ℕ
held_execution_ids p =
    map (λ e. e.execution_id) (flat_map executions_of p.executors)
    ++ map (λ entry. entry.0) p.accepted_executions

unfoldable pub contains : ℕ → List ℕ → Bool
contains id ids = any (λ k. k == id) ids

abbrev pub is_suitable : ℕ → ReadyExecution → ExecutorJobQueue → Bool
is_suitable now e q = has_capacity now q && str_eq q.job_type.id e.job_type_id

-- The first suitable queue, if the message can be queued.
unfoldable pub suitable_queue : (ℕ → ℕ → Bool) → ℕ → ReadyExecution → Executor → Option ℕ
suitable_queue link now e x = elim (position (is_suitable now e) x.job_queues) [
  | none ↦ none
  | some j ↦ if link x.id e.execution_id then some j else none
]

-- The first executor of the order that can take the execution: its position, and the queue's.
unfoldable pub choose :
    (ℕ → ℕ → Bool) → ℕ → ReadyExecution → List Executor → List ℕ → Option (ℕ × ℕ)
choose link now e xs [] = none
choose link now e xs (i ∷ order) =
    let rest = choose link now e xs order in
    elim (get_elem? xs i) [
      | none ↦ rest
      | some x ↦ elim (suitable_queue link now e x) [ none ↦ rest | some j ↦ some (i, j) ]
    ]

-- Executors without the execution handshake accept every execution sent to them.
unfoldable pub initial_state : Clock → Executor → ExecutionState
initial_state c x =
    if x.execution_handshake then offered (c.now + offer_timeout) c.system_now else accepted

unfoldable pub executor_execution : Clock → ReadyExecution → ExecutionState → ExecutorExecution
executor_execution c e state = record {
  job_id = e.job_id;
  execution_id = e.execution_id;
  job_type_id = e.job_type_id;
  retry_policy = e.retry_policy;
  attempt_number = e.attempt_number;
  state = state;
  started_at = c.system_now;
}

abbrev pub enqueue : Clock → ReadyExecution → ℕ → Executor → Executor
enqueue c e j x = record x {
  job_queues = modify x.job_queues j (add_execution (executor_execution c e (initial_state c x)));
}

unfoldable pub offer_outputs : Clock → ReadyExecution → Executor → List Output
offer_outputs c e x =
    send_to x.id (execution_ready e)
    ∷ (if x.execution_handshake
        then []
        else start (record {
          execution_id = e.execution_id;
          executor_id = x.id;
          started_at = c.system_now;
        })
          ∷ [])

unfoldable pub accept_outright : ReadyExecution → Executor → Dict (Option ℕ) → Dict (Option ℕ)
accept_outright e x m = if x.execution_handshake then m else insert e.execution_id none m

-- The pool in the course of `try_offer`, with `OfferedExecutions`.
pub record Offering : Type 0 where
  pub pool : ExecutorPool
  pub outputs : List Output
  pub offered_count : ℕ
  pub not_offered : List ℕ

abbrev pub refuse : ReadyExecution → Offering → Offering
refuse e o = record o { not_offered = o.not_offered ++ (e.execution_id ∷ []) }

-- Puts the execution into queue `j` of executor `i`.
unfoldable pub place : Clock → ReadyExecution → ℕ → ℕ → Executor → Offering → Offering
place c e i j x o = record o {
  pool = record {
    executors = modify o.pool.executors i (enqueue c e j);
    accepted_executions = accept_outright e x o.pool.accepted_executions;
  };
  outputs = o.outputs ++ offer_outputs c e x;
  offered_count = o.offered_count + 1;
}

unfoldable pub place_at : Clock → ReadyExecution → Option (ℕ × ℕ) → Offering → Offering
unfolding place
place_at c e none o = refuse e o
place_at c e (some (i, j)) o = elim (get_elem? o.pool.executors i) [
  | none ↦ refuse e o
  | some x ↦ place c e i j x o
]

-- One round of the loop.
unfoldable pub offer_one :
    (ℕ → ℕ → Bool) → Clock → List ℕ → ReadyExecution × List ℕ → Offering → Offering
offer_one link c held (e, order) o =
    if contains e.execution_id held
    then refuse e o
    else place_at c e (choose link c.now e o.pool.executors order) o

unfoldable pub offer_all :
    (ℕ → ℕ → Bool) → Clock → List ℕ → List (ReadyExecution × List ℕ) → Offering → Offering
offer_all link c held [] o = o
offer_all link c held (e ∷ es) o = offer_all link c held es (offer_one link c held e o)

abbrev pub no_offers : ExecutorPool → Offering
no_offers p = record { pool = p; outputs = []; offered_count = 0; not_offered = [] }

unfoldable pub try_offer :
    (ℕ → ℕ → Bool) → Clock → ℕ → List (ReadyExecution × List ℕ) → ExecutorPool → Offering
try_offer link c fetched_at [] p = no_offers p
try_offer link c fetched_at (e ∷ es) p =
    let p' = forget_started fetched_at p in
    offer_all link c (held_execution_ids p') (e ∷ es) (no_offers p')
