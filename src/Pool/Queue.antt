-- ===== src/Pool/Queue.antt =====
-- The methods of `ExecutorJobQueue`, `ExecutorExecution` and `Executor` in
-- crates/ora-server/src/executor_pool.rs.
use ora.Base.{
  ℕ, suc, ◌+◌, min, Bool, true, false, ◌&&◌, not, Option, none, some, List, [], ◌∷◌, ◌++◌, length,
  flat_map, retain, position, modify, swap_remove, get_elem?, ltb, leb, ◌==◌, is_none_or, is_some,
  is_some_and, if◌then◌else◌,
}
use ora.Time.{from_secs, saturating_mul, saturating_pow2, saturating_add_u32}
use ora.Backend.{JobType}
use ora.Pool.State.{
  ExecutionState, offered, accepted, ExecutorExecution, ExecutorJobQueue, Executor, Output, send_to,
  execution_cancelled,
}

abbrev pub min_rejection_backoff : ℕ
min_rejection_backoff = from_secs 1

abbrev pub max_rejection_backoff : ℕ
max_rejection_backoff = from_secs 30

-- `new` of a job queue.
unfoldable pub new_queue : JobType → ℕ → ExecutorJobQueue
new_queue job_type max_executions = record {
  job_type = job_type;
  executions = [];
  max_executions = max_executions;
  backoff_until = none;
  consecutive_rejections = 0;
}

unfoldable pub has_capacity : ℕ → ExecutorJobQueue → Bool
has_capacity now q =
    ltb (length q.executions) q.max_executions
    && is_none_or q.backoff_until (λ until. leb until now)

unfoldable pub add_execution : ExecutorExecution → ExecutorJobQueue → ExecutorJobQueue
add_execution e q = record q { executions = q.executions ++ (e ∷ []) }

-- `accepted`: the executor took an execution of this queue.
unfoldable pub note_accepted : ExecutorJobQueue → ExecutorJobQueue
note_accepted q = record q { consecutive_rejections = 0; backoff_until = none }

unfoldable pub rejection_backoff : ℕ → ℕ
unfolding saturating_mul saturating_pow2
rejection_backoff k =
    min (saturating_mul min_rejection_backoff (saturating_pow2 k)) max_rejection_backoff

-- `rejected`.
unfoldable pub note_rejected : ℕ → ExecutorJobQueue → ExecutorJobQueue
unfolding saturating_add_u32
note_rejected now q = record q {
  consecutive_rejections = saturating_add_u32 q.consecutive_rejections 1;
  backoff_until = some (now + rejection_backoff q.consecutive_rejections);
}

abbrev pub is_accepted_state : ExecutionState → Bool
is_accepted_state (offered d o) = false
is_accepted_state accepted = true

abbrev pub is_accepted : ExecutorExecution → Bool
is_accepted e = is_accepted_state e.state

-- All executions of an executor, in the order of its queues.
abbrev pub executions_of : Executor → List ExecutorExecution
executions_of x = flat_map (λ q. q.executions) x.job_queues

unfoldable pub assigned_executions : Executor → List ExecutorExecution
assigned_executions x = retain is_accepted (executions_of x)

unfoldable pub assigned_execution_count : Executor → ℕ
assigned_execution_count x = length (retain is_accepted (executions_of x))

abbrev pub has_id : ℕ → ExecutorExecution → Bool
has_id id e = e.execution_id == id

-- The position of an execution: its queue, and its index there.
unfoldable pub find_execution : ℕ → List ExecutorJobQueue → Option (ℕ × ℕ)
find_execution id [] = none
find_execution id (q ∷ qs) =
    let rest = find_execution id qs in
    elim (position (has_id id) q.executions) [
      | none ↦ elim rest [ none ↦ none | some (j, i) ↦ some (suc j, i) ]
      | some i ↦ some (0, i)
    ]

-- `find_execution_mut`.
abbrev pub find_execution_mut : ℕ → Executor → Option (ℕ × ℕ)
find_execution_mut id x = find_execution id x.job_queues

abbrev pub take_out : ℕ → ExecutorJobQueue → ExecutorJobQueue
take_out i q = record q { executions = swap_remove q.executions i }

-- `job_queues[j].executions.swap_remove(i)`.
unfoldable pub remove_at : ℕ → ℕ → Executor → Executor
remove_at j i x = record x { job_queues = modify x.job_queues j (take_out i) }

unfoldable pub execution_at : ℕ → ℕ → Executor → Option ExecutorExecution
execution_at j i x = elim (get_elem? x.job_queues j) [
  | none ↦ none
  | some q ↦ get_elem? q.executions i
]

-- `remove_execution`: the removed execution, and the executor without it.
unfoldable pub remove_execution : ℕ → Executor → Option (ExecutorExecution × Executor)
remove_execution id x = elim (find_execution_mut id x) [
  | none ↦ none
  | some (j, i) ↦ elim (execution_at j i x) [ none ↦ none | some e ↦ some (e, remove_at j i x) ]
]

-- Whether an offer is withdrawn: every offer, or only those that expired by the given time.
unfoldable pub is_withdrawn : Option ℕ → ExecutorExecution → Bool
is_withdrawn expired_at e = elim e.state [
  | accepted ↦ false
  | offered deadline offered_at ↦ not (is_some_and expired_at (λ at. ltb at deadline))
]

abbrev pub is_kept : Option ℕ → ExecutorExecution → Bool
is_kept expired_at e = not (is_withdrawn expired_at e)

unfoldable pub withdraw_queue : ℕ → Option ℕ → ExecutorJobQueue → ExecutorJobQueue
withdraw_queue now expired_at q =
    let kept = record q { executions = retain (is_kept expired_at) q.executions } in
    if ltb 0 (length (retain (is_withdrawn expired_at) q.executions)) && is_some expired_at
    then note_rejected now kept
    else kept

unfoldable pub withdraw_queues : ℕ → Option ℕ → List ExecutorJobQueue → List ExecutorJobQueue
withdraw_queues now expired_at [] = []
withdraw_queues now expired_at (q ∷ qs) =
    withdraw_queue now expired_at q ∷ withdraw_queues now expired_at qs

-- The offers that `withdraw_offers` removes, in order.
unfoldable pub withdrawn : Option ℕ → Executor → List ExecutorExecution
withdrawn expired_at x = retain (is_withdrawn expired_at) (executions_of x)

unfoldable pub cancellations : ℕ → List ExecutorExecution → List Output
cancellations id [] = []
cancellations id (e ∷ es) = send_to id (execution_cancelled e.execution_id) ∷ cancellations id es

-- `withdraw_offers`: the executor, its cancellations, and the number of withdrawn offers.
unfoldable pub withdraw_offers : ℕ → Option ℕ → Executor → Executor × List Output × ℕ
unfolding withdraw_queues withdrawn cancellations
withdraw_offers now expired_at x = (
  record x { job_queues = withdraw_queues now expired_at x.job_queues },
  cancellations x.id (withdrawn expired_at x),
  length (withdrawn expired_at x),
)
