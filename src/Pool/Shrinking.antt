-- ===== src/Pool/Shrinking.antt =====
-- The steps of a round that add no place for an execution and overfill no queue.
use ora.Base.{
  ℕ, true, ◌≤◌, ◌≡◌, refl, true, List, [], ◌∷◌, Option, some, none, arith, get_elem?, sum_by, All,
  one, Option-cases, inl, inr, position, sum_by-modify_le, length-modify,
}
use ora.Backend.{JobType}
use ora.Pool.State.{ExecutorExecution, ExecutorJobQueue, Executor, ExecutorPool, accepted}
use ora.Pool.Queue.{
  remove_at, remove_execution, take_out, note_accepted, note_rejected, new_queue, withdraw_offers,
  withdraw_queue, withdraw_queues, is_kept, has_id,
}
use ora.Pool.Places.{remove_execution_inv}
use ora.Pool.Turn.{Turn, is_executor, disconnect, drop_executor, drop_and_break}
use ora.Pool.Handlers.{collect_queues, mark_accepted}
use ora.Pool.Measure.{
  queue_holds, executor_holds, InLimit, QueueShrinks, Shrinks, Narrows, Narrows-refl,
  Shrinks-modify, take_out-QueueShrinks, retain-QueueShrinks, Narrows-swap_remove,
}

abbrev pub TurnNarrows : ExecutorPool → Turn → Type 0
TurnNarrows p t = Narrows p t.pool

pub drop_executor-Narrows : (id : ℕ) (p : ExecutorPool) → Narrows p (drop_executor id p).0
unfolding drop_executor
drop_executor-Narrows id p = elim (Option-cases (position (is_executor id) p.executors)) [
  | inl e ↦ rw (e, drop_executor) (Narrows-refl p)
  | inr (k, e) ↦
      rw (e, drop_executor)
        (elim (Option-cases (get_elem? p.executors k)) [
          | inl e' ↦ rw (e', disconnect) (Narrows-refl p)
          | inr (x, e') ↦ rw (e', disconnect) (Narrows-swap_remove k p)
        ])
]

pub drop_and_break-Narrows : (id : ℕ) (p : ExecutorPool) → Narrows p (drop_and_break id p).pool
unfolding drop_and_break
drop_and_break-Narrows id p = drop_executor-Narrows id p

pub remove_at-Shrinks : (j i : ℕ) (x : Executor) → Shrinks x (remove_at j i x)
unfolding remove_at
remove_at-Shrinks j i x = Shrinks-modify j (take_out i) x (take_out-QueueShrinks i)

pub remove_execution-Shrinks :
    (id : ℕ) (x y : Executor) (e : ExecutorExecution)
    → remove_execution id x ≡ some (e, y)
    → Shrinks x y
remove_execution-Shrinks id x y e h =
    let (j, i, found, at, same) = remove_execution_inv id x y e h in
    rw same (remove_at-Shrinks j i x)

no_executions :
    (qs : List (Option JobType × ℕ)) (l : List ExecutorJobQueue) (id : ℕ)
    → collect_queues qs ≡ some l
    → (sum_by (queue_holds id) l ≡ 0) × All InLimit l
unfolding collect_queues new_queue queue_holds sum_by
no_executions [] [] id h = (refl, tt)
no_executions [] (q ∷ l) id h = cc
no_executions ((none, m) ∷ qs) l id h = cc
no_executions ((some t, m) ∷ qs) l id h = elim (Option-cases (collect_queues qs)) [
  | inl e ↦ ground arith
  | inr (l', e) ↦
      let same : l ≡ new_queue t m ∷ l' = ground arith in
      let rest = no_executions qs l' id e in rw same (omega (arith, rest.0), (omega arith, rest.1))
]

pub new_queues-Shrinks :
    (qs : List (Option JobType × ℕ)) (l : List ExecutorJobQueue) (x y : Executor)
    → collect_queues qs ≡ some l
    → y.job_queues ≡ l
    → y.id ≡ x.id
    → y.initialized ≡ true
    → Shrinks x y
unfolding executor_holds
new_queues-Shrinks qs l x y h e i ready = record {
  same_id = i;
  fewer = λ id. rw e (omega (arith, (no_executions qs l id h).0));
  within = λ w. rw e (no_executions qs l 0 h).1;
  fresh = λ f n. cc;
}

pub mark_accepted-QueueShrinks : (i : ℕ) (q : ExecutorJobQueue) → QueueShrinks q (mark_accepted i q)
unfolding queue_holds note_accepted
mark_accepted-QueueShrinks i q = record {
  fewer = λ id.
      sum_by-modify_le (λ e. one (has_id id e)) (λ e. record e { state = accepted }) q.executions i
        (λ e. omega arith);
  shorter = omega (arith, length-modify (λ e. record e { state = accepted }) q.executions i);
  same_limit = refl;
}

pub note_rejected-QueueShrinks :
    (now : ℕ) (q : ExecutorJobQueue) → QueueShrinks q (note_rejected now q)
unfolding queue_holds note_rejected
note_rejected-QueueShrinks now q = record {
  fewer = λ id. omega arith;
  shorter = omega arith;
  same_limit = refl;
}

withdraw_queue-QueueShrinks :
    (now : ℕ) (d : Option ℕ) (q : ExecutorJobQueue) → QueueShrinks q (withdraw_queue now d q)
unfolding withdraw_queue note_rejected queue_holds
withdraw_queue-QueueShrinks now d q = ground (arith, retain-QueueShrinks (is_kept d) q)

withdraw_queues-fewer :
    (now : ℕ) (d : Option ℕ) (id : ℕ) (qs : List ExecutorJobQueue)
    → sum_by (queue_holds id) (withdraw_queues now d qs) ≤ sum_by (queue_holds id) qs
unfolding withdraw_queues sum_by
withdraw_queues-fewer now d id [] = omega arith
withdraw_queues-fewer now d id (q ∷ qs) =
    omega (arith, (withdraw_queue-QueueShrinks now d q).fewer id, withdraw_queues-fewer now d id qs)

withdraw_queues-InLimit :
    (now : ℕ) (d : Option ℕ) (qs : List ExecutorJobQueue)
    → All InLimit qs
    → All InLimit (withdraw_queues now d qs)
unfolding withdraw_queues
withdraw_queues-InLimit now d [] a = tt
withdraw_queues-InLimit now d (q ∷ qs) a =
    let s = withdraw_queue-QueueShrinks now d q in
    (omega (arith, s.shorter, s.same_limit), withdraw_queues-InLimit now d qs a.1)

pub withdraw_offers-Shrinks :
    (now : ℕ) (d : Option ℕ) (x : Executor) → Shrinks x (withdraw_offers now d x).0
unfolding withdraw_offers withdraw_queues executor_holds
withdraw_offers-Shrinks now d x = record {
  same_id = refl;
  fewer = λ id. withdraw_queues-fewer now d id x.job_queues;
  within = withdraw_queues-InLimit now d x.job_queues;
  fresh = λ f n. rw (f n) refl;
}
