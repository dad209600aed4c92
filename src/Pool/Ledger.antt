-- ===== src/Pool/Ledger.antt =====
-- The account of accepted executions: which ones the pool keeps for an executor, which ones a
-- round starts, and which ones it reports to the server.
use ora.Base.{
  ℕ, ◌+◌, ◌≡◌, false, ◌&&◌, List, Option, some, arith, sum_by, sum_by-modify, sum_by-swap_remove,
  one, ◌==◌, Dict, get_elem?, modify, position, Option-cases, inl, inr, if_both,
}
use ora.Pool.State.{
  accepted, ExecutorExecution, ExecutorJobQueue, Executor, ExecutorPool, ExecutorEvent,
  job_types_added, execution_succeeded, execution_failed, executor_disconnected, Output, send_to,
  emit, start, notify_available, notify_starts,
}
use ora.Pool.Queue.{has_id, is_accepted, take_out, remove_at, note_accepted}
use ora.Pool.Turn.{Turn, put, is_executor, settle, disconnect, drop_executor}
use ora.Pool.Handlers.{mark_accepted, in_queue}

abbrev pub is_assigned : ℕ → ExecutorExecution → ℕ
is_assigned id e = one (has_id id e && is_accepted e)

unfoldable pub queue_assigned : ℕ → ExecutorJobQueue → ℕ
queue_assigned id q = sum_by (is_assigned id) q.executions

unfoldable pub executor_assigned : ℕ → Executor → ℕ
executor_assigned id x = sum_by (queue_assigned id) x.job_queues

-- In how many places of the pool an execution stands as accepted.
unfoldable pub assigned : ℕ → ExecutorPool → ℕ
assigned id p = sum_by (executor_assigned id) p.executors

abbrev pub event_reports : ℕ → ExecutorEvent → ℕ
event_reports id (job_types_added ts) = 0
event_reports id (execution_succeeded e t output) = one (has_id id e)
event_reports id (execution_failed e t reason) = one (has_id id e)
event_reports id (executor_disconnected x) = executor_assigned id x

abbrev pub output_reports : ℕ → Output → ℕ
output_reports id (send_to x m) = 0
output_reports id (emit e) = event_reports id e
output_reports id (start s) = 0
output_reports id notify_available = 0
output_reports id notify_starts = 0

abbrev pub output_starts : ℕ → Output → ℕ
output_starts id (send_to x m) = 0
output_starts id (emit e) = 0
output_starts id (start s) = one (s.execution_id == id)
output_starts id notify_available = 0
output_starts id notify_starts = 0

-- How often the events report an execution: as succeeded, as failed, or among those that an
-- executor had accepted when it was disconnected.
unfoldable pub reported : ℕ → List Output → ℕ
reported id out = sum_by (output_reports id) out

-- How often an execution is handed over to be started in the backend.
unfoldable pub started : ℕ → List Output → ℕ
started id out = sum_by (output_starts id) out

-- Nothing is lost and nothing is reported twice.
abbrev pub Balanced : ℕ → ExecutorPool → Turn → Type 0
Balanced id p t = assigned id p + started id t.outputs ≡ assigned id t.pool + reported id t.outputs

module _ (id : ℕ) where
  pub put-assigned :
      (k : ℕ) (x y : Executor) (p : ExecutorPool)
      → get_elem? p.executors k ≡ some x
      → assigned id (put k y p) + executor_assigned id x ≡ assigned id p + executor_assigned id y
  unfolding assigned
  put-assigned k x y p at = sum_by-modify (executor_assigned id) (λ _. y) p.executors k at

  -- A round ends in balance if its executor does.
  pub settle-Balanced :
      (d : Option ℕ) (k : ℕ) (x y : Executor) (p : ExecutorPool) (m : Dict (Option ℕ))
      (out : List Output)
      → get_elem? p.executors k ≡ some x
      → executor_assigned id x + started id out ≡ executor_assigned id y + reported id out
      → Balanced id p (settle d k y (record p { accepted_executions = m }) out)
  unfolding settle assigned
  settle-Balanced d k x y p m out at h = if_both (Balanced id p) _ _ _ balanced balanced
    where
      balanced :
          sum_by (executor_assigned id) p.executors + started id out
          ≡ sum_by (executor_assigned id) (modify p.executors k (λ _. y)) + reported id out
      balanced = omega (arith, h, sum_by-modify (executor_assigned id) (λ _. y) p.executors k at)

  pub put-Balanced :
      (k : ℕ) (x y : Executor) (p : ExecutorPool) (m : Dict (Option ℕ)) (out : List Output)
      → get_elem? p.executors k ≡ some x
      → executor_assigned id x + started id out ≡ executor_assigned id y + reported id out
      → assigned id p + started id out
        ≡ assigned id (put k y (record p { accepted_executions = m })) + reported id out
  unfolding assigned
  put-Balanced k x y p m out at h =
      omega (arith, h, sum_by-modify (executor_assigned id) (λ _. y) p.executors k at)

  -- A dropped executor reports all that it had accepted.
  pub drop_executor-Balanced :
      (i : ℕ) (p : ExecutorPool)
      → let (q, out) = drop_executor i p in
        (assigned id p ≡ assigned id q + reported id out) × (started id out ≡ 0)
  unfolding drop_executor assigned reported started sum_by
  drop_executor-Balanced i p = elim (Option-cases (position (is_executor i) p.executors)) [
    | inl e ↦ rw (e, drop_executor) (omega arith)
    | inr (k, e) ↦
        rw (e, drop_executor)
          (elim (Option-cases (get_elem? p.executors k)) [
            | inl e' ↦ rw (e', disconnect) (omega arith)
            | inr (x, e') ↦
                rw (e', disconnect)
                  (omega (arith, sum_by-swap_remove (executor_assigned id) p.executors k e'))
          ])
  ]

  -- Taking out an execution that was accepted takes one from the account.
  pub remove_at-assigned :
      (j i : ℕ) (x : Executor) (q : ExecutorJobQueue) (e : ExecutorExecution)
      → get_elem? x.job_queues j ≡ some q
      → get_elem? q.executions i ≡ some e
      → executor_assigned id (remove_at j i x) + is_assigned id e ≡ executor_assigned id x
  unfolding executor_assigned remove_at queue_assigned
  remove_at-assigned j i x q e at at' = omega (
    arith,
    sum_by-modify (queue_assigned id) (take_out i) x.job_queues j at,
    sum_by-swap_remove (is_assigned id) q.executions i at',
  )

  -- Accepting an offer adds one.
  pub mark_accepted-assigned :
      (j i : ℕ) (x : Executor) (q : ExecutorJobQueue) (e : ExecutorExecution)
      → get_elem? x.job_queues j ≡ some q
      → get_elem? q.executions i ≡ some e
      → is_accepted e ≡ false
      → executor_assigned id (in_queue j (mark_accepted i) x)
        ≡ executor_assigned id x + one (has_id id e)
  unfolding executor_assigned queue_assigned note_accepted
  mark_accepted-assigned j i x q e at at' n = ground (
    arith,
    n,
    sum_by-modify (queue_assigned id) (mark_accepted i) x.job_queues j at,
    sum_by-modify (is_assigned id) (λ f. record f { state = accepted }) q.executions i at',
  )
