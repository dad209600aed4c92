-- ===== src/Pool/Accepted.antt =====
-- The calls of crates/ora-server/src/executor_pool.rs that read the pool, or that keep its record
-- of accepted executions.
use ora.Base.{
  ℕ, Bool, true, false, ◌||◌, not, Option, none, some, List, [], ◌∷◌, ◌++◌, map, length, flat_map,
  filter_map, retain, any, ltb, ◌==◌, is_some, if◌then◌else◌, Dict, lookup, insert, remove, min,
}
use ora.Backend.{JobType}
use ora.Pool.State.{ExecutorJobQueue, ExecutorPool, Output, notify_starts}
use ora.Pool.Queue.{has_capacity, executions_of, is_accepted}

-- `executors.iter().flat_map(|executor| &executor.job_queues)`.
abbrev pub all_queues : ExecutorPool → List ExecutorJobQueue
all_queues p = flat_map (λ x. x.job_queues) p.executors

unfoldable pub pool_has_capacity : ℕ → ExecutorPool → Bool
pool_has_capacity now p = any (has_capacity now) (all_queues p)

-- The end of a backoff that is not over.
unfoldable pub pending_backoff : ℕ → ExecutorJobQueue → Option ℕ
pending_backoff now q = elim q.backoff_until [
  | none ↦ none
  | some until ↦ if ltb now until then some until else none
]

-- `Iterator::min`.
unfoldable pub minimum : List ℕ → Option ℕ
minimum [] = none
minimum (x ∷ xs) = elim (minimum xs) [ none ↦ some x | some y ↦ some (min x y) ]

unfoldable pub earliest_backoff_end : ℕ → ExecutorPool → Option ℕ
earliest_backoff_end now p = minimum (filter_map (pending_backoff now) (all_queues p))

abbrev pub is_not_started : ℕ × Option ℕ → Bool
is_not_started (id, started_at) = not (is_some started_at)

unfoldable pub in_flight_execution_ids : ExecutorPool → List ℕ
in_flight_execution_ids p =
    map (λ e. e.execution_id)
      (retain (λ e. not (is_accepted e)) (flat_map executions_of p.executors))
    ++ map (λ entry. entry.0) (retain is_not_started p.accepted_executions)

-- `if let Some(started_at) = executions.get_mut(id) { *started_at = Some(now) }`.
unfoldable pub mark_started : ℕ → ℕ → Dict (Option ℕ) → Dict (Option ℕ)
mark_started now id m = elim (lookup id m) [ none ↦ m | some s ↦ insert id (some now) m ]

unfoldable pub mark_all_started : ℕ → List ℕ → Dict (Option ℕ) → Dict (Option ℕ)
mark_all_started now [] m = m
mark_all_started now (id ∷ ids) m = mark_all_started now ids (mark_started now id m)

unfoldable pub accepted_executions_started : ℕ → List ℕ → ExecutorPool → ExecutorPool × List Output
accepted_executions_started now ids p = (
  record p { accepted_executions = mark_all_started now ids p.accepted_executions },
  notify_starts ∷ [],
)

unfoldable pub remove_all : List ℕ → Dict (Option ℕ) → Dict (Option ℕ)
remove_all [] m = m
remove_all (id ∷ ids) m = remove_all ids (remove id m)

unfoldable pub accepted_executions_not_started : List ℕ → ExecutorPool → ExecutorPool × List Output
accepted_executions_not_started ids p =
    (record p { accepted_executions = remove_all ids p.accepted_executions }, notify_starts ∷ [])

-- `matches!(executions.get(id), Some(None))`.
unfoldable pub is_start_pending : Dict (Option ℕ) → ℕ → Bool
is_start_pending m id = elim (lookup id m) [ none ↦ false | some s ↦ not (is_some s) ]

-- The test that `wait_for_starts` makes in each round.
unfoldable pub start_pending : List ℕ → ExecutorPool → Bool
unfolding is_start_pending
start_pending ids p = any (is_start_pending p.accepted_executions) ids

-- What one queue adds to the in-flight count of `stats`.
unfoldable pub in_flight_count : Dict (Option ℕ) → ExecutorJobQueue → ℕ
in_flight_count m q =
    length (retain (λ e. not (is_accepted e) || is_start_pending m e.execution_id) q.executions)

unfoldable pub executor_exists : ℕ → ExecutorPool → Bool
executor_exists id p = any (λ x. x.id == id) p.executors

unfoldable pub list_job_types : ExecutorPool → List JobType
list_job_types p = flat_map (λ x. map (λ q. q.job_type) x.job_queues) p.executors

unfoldable pub is_empty : ExecutorPool → Bool
is_empty p = elim p.executors [ [] ↦ true | x ∷ xs ↦ false ]
