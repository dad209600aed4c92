-- ===== src/Pool/Measure.antt =====
-- What the invariants of the pool count: the places that hold an execution, and the executors with
-- an ID. `Shrinks` and `Narrows` say that a change of an executor, or of the pool, adds no such
-- place and keeps the queues within their limits.
use ora.Base.{
  ℕ, false, [], ◌≤◌, ◌≡◌, refl, Bool, Dict, Option, some, arith, length, modify, get_elem?, sum_by,
  swap_remove, All, one, sum_by-modify_le, sum_by-modify-le, All-modify, All-swap_remove,
  sum_by-swap_remove-le, All-get, length-swap_remove, sum_by-retain-le, length-retain-le, retain,
}
use ora.Pool.State.{ExecutorExecution, ExecutorJobQueue, Executor, ExecutorPool}
use ora.Pool.Queue.{has_id, take_out}
use ora.Pool.Turn.{put, is_executor}

unfoldable pub queue_holds : ℕ → ExecutorJobQueue → ℕ
queue_holds id q = sum_by (λ e. one (has_id id e)) q.executions

unfoldable pub executor_holds : ℕ → Executor → ℕ
executor_holds id x = sum_by (queue_holds id) x.job_queues

-- In how many places of the pool an execution stands.
unfoldable pub holds : ℕ → ExecutorPool → ℕ
holds id p = sum_by (executor_holds id) p.executors

-- How many executors have an ID.
unfoldable pub executors_with : ℕ → ExecutorPool → ℕ
executors_with id p = sum_by (λ x. one (is_executor id x)) p.executors

abbrev pub InLimit : ExecutorJobQueue → Type 0
InLimit q = length q.executions ≤ q.max_executions

abbrev pub QueuesInLimit : Executor → Type 0
QueuesInLimit x = All InLimit x.job_queues

-- An executor has no queues before it sent its capabilities.
abbrev pub IsFresh : Executor → Type 0
IsFresh x = x.initialized ≡ false → x.job_queues ≡ []

pub record QueueShrinks (q r : ExecutorJobQueue) : Type 0 where
  pub fewer : (id : ℕ) → queue_holds id r ≤ queue_holds id q
  pub shorter : length r.executions ≤ length q.executions
  pub same_limit : r.max_executions ≡ q.max_executions

pub record Shrinks (x y : Executor) : Type 0 where
  pub same_id : y.id ≡ x.id
  pub fewer : (id : ℕ) → executor_holds id y ≤ executor_holds id x
  pub within : QueuesInLimit x → QueuesInLimit y
  pub fresh : IsFresh x → IsFresh y

pub record Narrows (p q : ExecutorPool) : Type 0 where
  pub fewer : (id : ℕ) → holds id q ≤ holds id p
  pub same_executors : (id : ℕ) → executors_with id q ≤ executors_with id p
  pub within : All QueuesInLimit p.executors → All QueuesInLimit q.executors
  pub fresh : All IsFresh p.executors → All IsFresh q.executors

QueueShrinks-refl : (q : ExecutorJobQueue) → QueueShrinks q q
QueueShrinks-refl q = record { fewer = λ id. omega arith; shorter = omega arith; same_limit = refl }

Shrinks-refl : (x : Executor) → Shrinks x x
Shrinks-refl x = record {
  same_id = refl;
  fewer = λ id. omega arith;
  within = λ w. w;
  fresh = λ f. f;
}

pub Shrinks-trans : (x y : Executor) {z : Executor} → Shrinks x y → Shrinks y z → Shrinks x z
Shrinks-trans x y s t = record {
  same_id = omega (arith, s.same_id, t.same_id);
  fewer = λ id. omega (arith, s.fewer id, t.fewer id);
  within = λ w. t.within (s.within w);
  fresh = λ f. t.fresh (s.fresh f);
}

pub Narrows-refl : (p : ExecutorPool) → Narrows p p
Narrows-refl p = record {
  fewer = λ id. omega arith;
  same_executors = λ id. omega arith;
  within = λ w. w;
  fresh = λ f. f;
}

pub Narrows-trans :
    (p q : ExecutorPool) {r : ExecutorPool} → Narrows p q → Narrows q r → Narrows p r
Narrows-trans p q s t = record {
  fewer = λ id. omega (arith, s.fewer id, t.fewer id);
  same_executors = λ id. omega (arith, s.same_executors id, t.same_executors id);
  within = λ w. t.within (s.within w);
  fresh = λ f. t.fresh (s.fresh f);
}

-- A change of one queue.
pub Shrinks-modify :
    (j : ℕ) (g : ExecutorJobQueue → ExecutorJobQueue) (x : Executor)
    → ((q : ExecutorJobQueue) → QueueShrinks q (g q))
    → Shrinks x (record x { job_queues = modify x.job_queues j g })
unfolding executor_holds modify
Shrinks-modify j g x h = record {
  same_id = refl;
  fewer = λ id. sum_by-modify_le (queue_holds id) g x.job_queues j (λ q. (h q).fewer id);
  within = λ w.
      All-modify InLimit g x.job_queues j w
        (λ q at l. omega (arith, (h q).shorter, (h q).same_limit));
  fresh = λ f n. rw (f n) refl;
}

pub take_out-QueueShrinks : (i : ℕ) (q : ExecutorJobQueue) → QueueShrinks q (take_out i q)
unfolding queue_holds
take_out-QueueShrinks i q = record {
  fewer = λ id. sum_by-swap_remove-le (λ e. one (has_id id e)) q.executions i;
  shorter = length-swap_remove q.executions i;
  same_limit = refl;
}

pub retain-QueueShrinks :
    (keep : ExecutorExecution → Bool) (q : ExecutorJobQueue)
    → QueueShrinks q (record q { executions = retain keep q.executions })
unfolding queue_holds
retain-QueueShrinks keep q = record {
  fewer = λ id. sum_by-retain-le (λ e. one (has_id id e)) keep q.executions;
  shorter = length-retain-le keep q.executions;
  same_limit = refl;
}

-- Writing back an executor that shrank.
pub Narrows-put :
    (k : ℕ) (x y : Executor) (p : ExecutorPool)
    → get_elem? p.executors k ≡ some x
    → Shrinks x y
    → Narrows p (put k y p)
unfolding holds executors_with
Narrows-put k x y p e s = record {
  fewer = λ id. sum_by-modify-le (executor_holds id) (λ _. y) p.executors k e (s.fewer id);
  same_executors = λ id.
      sum_by-modify-le (λ z. one (is_executor id z)) (λ _. y) p.executors k e
        (ground (arith, s.same_id));
  within = λ w.
      All-modify QueuesInLimit (λ _. y) p.executors k w
        (λ z at l. s.within (All-get QueuesInLimit p.executors k w e));
  fresh = λ f.
      All-modify IsFresh (λ _. y) p.executors k f
        (λ z at l. s.fresh (All-get IsFresh p.executors k f e));
}

-- Changing an executor in place.
pub Narrows-modify :
    (k : ℕ) (g : Executor → Executor) (p : ExecutorPool)
    → ((x : Executor) → Shrinks x (g x))
    → Narrows p (record p { executors = modify p.executors k g })
unfolding holds executors_with
Narrows-modify k g p s = record {
  fewer = λ id. sum_by-modify_le (executor_holds id) g p.executors k (λ x. (s x).fewer id);
  same_executors = λ id.
      sum_by-modify_le (λ z. one (is_executor id z)) g p.executors k
        (λ x. ground (arith, (s x).same_id));
  within = λ w. All-modify QueuesInLimit g p.executors k w (λ x at l. (s x).within l);
  fresh = λ f. All-modify IsFresh g p.executors k f (λ x at l. (s x).fresh l);
}

-- Removing an executor.
pub Narrows-swap_remove :
    (k : ℕ) (p : ExecutorPool) → Narrows p (record p { executors = swap_remove p.executors k })
unfolding holds executors_with
Narrows-swap_remove k p = record {
  fewer = λ id. sum_by-swap_remove-le (executor_holds id) p.executors k;
  same_executors = λ id. sum_by-swap_remove-le (λ z. one (is_executor id z)) p.executors k;
  within = All-swap_remove QueuesInLimit p.executors k;
  fresh = All-swap_remove IsFresh p.executors k;
}

-- The record of accepted executions holds no places.
pub Narrows-accepted :
    (p q : ExecutorPool) (m : Dict (Option ℕ))
    → Narrows p q
    → Narrows p (record q { accepted_executions = m })
unfolding holds executors_with
Narrows-accepted p q m n = record {
  fewer = n.fewer;
  same_executors = n.same_executors;
  within = n.within;
  fresh = n.fresh;
}
