-- ===== src/Pool/Cancel.antt =====
-- `cancel_executions` and `cancel_execution_ids` of crates/ora-server/src/executor_pool.rs.
use ora.Base.{ℕ, suc, Option, none, some, List, [], ◌∷◌, ◌++◌, map, modify, get_elem?}
use ora.Backend.{CancelledJob}
use ora.Pool.State.{Executor, ExecutorPool, Output, send_to, execution_cancelled, notify_available}
use ora.Pool.Queue.{find_execution_mut, remove_at}

-- The first place that holds the execution: executor, queue and index.
unfoldable pub locate : ℕ → List Executor → Option (ℕ × ℕ × ℕ)
locate id [] = none
locate id (x ∷ xs) =
    let rest = locate id xs in
    elim (find_execution_mut id x) [
      | none ↦ elim rest [ none ↦ none | some (k, j, i) ↦ some (suc k, j, i) ]
      | some (j, i) ↦ some (0, j, i)
    ]

abbrev pub executor_id_at : ℕ → List Executor → ℕ
executor_id_at k xs = elim (get_elem? xs k) [ none ↦ 0 | some x ↦ x.id ]

-- The executors without the execution, and the cancellation for the executor that held it.
unfoldable pub cancel_one : ℕ → List Executor → List Executor × List Output
cancel_one id xs = elim (locate id xs) [
  | none ↦ (xs, [])
  | some (k, j, i) ↦
      (modify xs k (remove_at j i), send_to (executor_id_at k xs) (execution_cancelled id) ∷ [])
]

unfoldable pub cancel_all : List ℕ → List Executor → List Executor × List Output
cancel_all [] xs = (xs, [])
cancel_all (id ∷ ids) xs =
    let (xs', out) = cancel_one id xs in
    let (xs'', outs) = cancel_all ids xs' in (xs'', out ++ outs)

-- `if cancelled_any`: some message was sent.
unfoldable pub announce : List Output → List Output
announce [] = []
announce (o ∷ os) = (o ∷ os) ++ (notify_available ∷ [])

unfoldable pub cancel_execution_ids : List ℕ → ExecutorPool → ExecutorPool × List Output
unfolding announce
cancel_execution_ids ids p =
    let (xs, out) = cancel_all ids p.executors in (record p { executors = xs }, announce out)

unfoldable pub cancel_executions : List CancelledJob → ExecutorPool → ExecutorPool × List Output
unfolding cancel_execution_ids
cancel_executions jobs = cancel_execution_ids (map (λ j. j.last_execution_id) jobs)
