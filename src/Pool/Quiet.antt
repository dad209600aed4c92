-- ===== src/Pool/Quiet.antt =====
-- What leaves the account of accepted executions as it is.
use ora.Base.{
  ℕ, ◌+◌, ◌≡◌, refl, false, List, [], ◌∷◌, ◌++◌, Option, none, some, arith, sum_by, sum_by-append,
  get_elem?, Option-cases, inl, inr, ◌≢◌, sum_by-modify_same, sum_by-retain_only,
}
use ora.Backend.{JobType}
use ora.Pool.State.{ExecutorExecution, ExecutorJobQueue, Executor, ExecutorPool, Output}
use ora.Pool.Queue.{
  execution_at, remove_execution, note_rejected, new_queue, cancellations, withdraw_offers,
  withdraw_queue, withdraw_queues, withdrawn, is_kept, is_withdrawn,
}
use ora.Pool.Turn.{
  Timestamp, absent, unreadable, at, execution_succeeded, execution_failed, Wake, message, Env,
  drop_and_break,
}
use ora.Pool.Handlers.{collect_queues, announce_job_types, in_queue, result_time}
use ora.Pool.Places.{find_execution_inv, remove_execution_inv}
use ora.Pool.Ledger.{
  is_assigned, queue_assigned, executor_assigned, assigned, reported, started, Balanced,
  drop_executor-Balanced, remove_at-assigned, output_starts, output_reports,
}

-- A result whose timestamp cannot be read ends the task without an event.
abbrev pub IsReadable : Timestamp → Type 0
IsReadable absent = Unit {0}
IsReadable unreadable = ⊥
IsReadable (at t) = Unit {0}

abbrev pub HasReadableTime : Wake → Type 0
HasReadableTime (message (execution_succeeded id ts output)) = IsReadable ts
HasReadableTime (message (execution_failed id ts reason)) = IsReadable ts
HasReadableTime w = Unit {0}

pub result_time_readable : (env : Env) (ts : Timestamp) → IsReadable ts → result_time env ts ≢ none
unfolding result_time
result_time_readable env absent ok = λ e. cc
result_time_readable env unreadable ok = absurd ok
result_time_readable env (at t) ok = λ e. cc

module _ (id : ℕ) where
  pub drop_and_break-Balanced : (i : ℕ) (p : ExecutorPool) → Balanced id p (drop_and_break i p)
  unfolding drop_and_break
  drop_and_break-Balanced i p = omega (arith, drop_executor-Balanced id i p)

  pub unchanged :
      (p : ExecutorPool) → assigned id p + started id [] ≡ assigned id p + reported id []
  unfolding started reported sum_by
  unchanged p = refl

  -- What was found and can be removed from its queue.
  pub remove_execution-assigned :
      (i : ℕ) (x y : Executor) (e : ExecutorExecution)
      → remove_execution i x ≡ some (e, y)
      → (executor_assigned id y + is_assigned id e ≡ executor_assigned id x)
  unfolding execution_at
  remove_execution-assigned i x y e h =
      let (j, l, found, here, same) = remove_execution_inv i x y e h in
      let (q, f, q_at, f_at, _) = find_execution_inv i x.job_queues j l found in
      let e_at : get_elem? q.executions l ≡ some e = ground arith in
      rw same (remove_at-assigned id j l x q e q_at e_at)

  pub new_queues-assigned :
      (qs : List (Option JobType × ℕ)) (l : List ExecutorJobQueue)
      → collect_queues qs ≡ some l
      → sum_by (queue_assigned id) l ≡ 0
  unfolding collect_queues new_queue queue_assigned sum_by
  new_queues-assigned [] l h = ground arith
  new_queues-assigned ((none, m) ∷ qs) l h = cc
  new_queues-assigned ((some t, m) ∷ qs) l h = elim (Option-cases (collect_queues qs)) [
    | inl e ↦ ground arith
    | inr (l', e) ↦
        let same : l ≡ new_queue t m ∷ l' = ground arith in
        let rest = new_queues-assigned qs l' e in rw same (omega (arith, rest))
  ]

  pub note_rejected-assigned :
      (j now : ℕ) (x : Executor)
      → executor_assigned id (in_queue j (note_rejected now) x) ≡ executor_assigned id x
  unfolding executor_assigned note_rejected queue_assigned
  note_rejected-assigned j now x =
      sum_by-modify_same (queue_assigned id) (note_rejected now) x.job_queues j (λ q. refl)

  pub announce-nothing :
      (ts : List JobType)
      → (started id (announce_job_types ts) ≡ 0) × (reported id (announce_job_types ts) ≡ 0)
  unfolding announce_job_types started reported sum_by
  announce-nothing [] = (refl, refl)
  announce-nothing (t ∷ ts) = (omega arith, omega arith)

  withdraw_queue-assigned :
      (now : ℕ) (d : Option ℕ) (q : ExecutorJobQueue)
      → queue_assigned id (withdraw_queue now d q) ≡ queue_assigned id q
  unfolding withdraw_queue note_rejected queue_assigned
  withdraw_queue-assigned now d q =
      ground (arith, sum_by-retain_only (is_assigned id) (is_kept d) q.executions (kept d))
    where
      kept : (d : Option ℕ) (e : ExecutorExecution) → is_kept d e ≡ false → is_assigned id e ≡ 0
      kept d e = unfold is_withdrawn in λ h. ground arith

  withdraw_queues-assigned :
      (now : ℕ) (d : Option ℕ) (qs : List ExecutorJobQueue)
      → sum_by (queue_assigned id) (withdraw_queues now d qs) ≡ sum_by (queue_assigned id) qs
  unfolding withdraw_queues sum_by
  withdraw_queues-assigned now d [] = refl
  withdraw_queues-assigned now d (q ∷ qs) =
      omega (arith, withdraw_queue-assigned now d q, withdraw_queues-assigned now d qs)

  pub cancellations-nothing :
      (i : ℕ) (es : List ExecutorExecution)
      → (started id (cancellations i es) ≡ 0) × (reported id (cancellations i es) ≡ 0)
  unfolding cancellations started reported sum_by
  cancellations-nothing i [] = (refl, refl)
  cancellations-nothing i (e ∷ es) =
      let rest = cancellations-nothing i es in (omega (arith, rest), omega (arith, rest))

  pub withdraw_offers-silent :
      (now : ℕ) (d : Option ℕ) (x : Executor)
      → let r = withdraw_offers now d x in
        (executor_assigned id r.0 ≡ executor_assigned id x)
        × (started id r.1 ≡ 0)
        × (reported id r.1 ≡ 0)
  unfolding withdraw_offers executor_assigned
  withdraw_offers-silent now d x =
      let (s, n) = cancellations-nothing x.id (withdrawn d x) in
      (withdraw_queues-assigned now d x.job_queues, s, n)

  -- Withdrawn offers are not in the account, and their cancellations report nothing.
  pub withdraw_offers-nothing :
      (now : ℕ) (d : Option ℕ) (x : Executor) (out : List Output)
      → started id out ≡ 0
      → reported id out ≡ 0
      → let r = withdraw_offers now d x in
        executor_assigned id x + started id (r.1 ++ out)
        ≡ executor_assigned id r.0 + reported id (r.1 ++ out)
  unfolding started reported
  withdraw_offers-nothing now d x out s n =
      let cancelled = (withdraw_offers now d x).1 in
      omega (
        arith,
        s,
        n,
        withdraw_offers-silent now d x,
        sum_by-append (output_starts id) cancelled out,
        sum_by-append (output_reports id) cancelled out,
      )
