-- ===== src/Pool/History.antt =====
-- The pool under any order of calls: offers, rounds of the executors' tasks, cancellations, new
-- executors, and what the server reports back about accepted executions.
use ora.Base.{ℕ, ◌≤◌, ◌≡◌, Bool, List, [], Option, arith, sum_by}
use ora.Backend.{ReadyExecution}
use ora.Pool.State.{ExecutorPool, Clock}
use ora.Pool.Offer.{try_offer}
use ora.Pool.Accepted.{accepted_executions_started, accepted_executions_not_started}
use ora.Pool.Cancel.{cancel_execution_ids}
use ora.Pool.Turn.{Wake, Env, drop_executor}
use ora.Pool.Loop
use ora.Pool.Rounds.{round-Narrows}
use ora.Pool.Shrinking.{drop_executor-Narrows}
use ora.Pool.Loop.{executor_round, add_executor}
use ora.Pool.Measure.{holds, executors_with}
use ora.Pool.Invariant.{
  Inv, batch_count, try_offer-Inv, executor_round-Inv, cancel_execution_ids-Inv,
  accepted_executions_started-Inv, accepted_executions_not_started-Inv, add_executor-Inv,
  Narrows-Inv,
}

-- One call. A batch names an execution once, and a new executor has an ID of its own. The shutdown
-- deadline of a round is any. A task gives the lock back between its last round and the removal of
-- its executor, so these are also steps of their own.
pub data Step : ExecutorPool → ExecutorPool → Type 0 where
  offer :
      (link : ℕ → ℕ → Bool) (c : Clock) (fetched_at : ℕ) (es : List (ReadyExecution × List ℕ))
      (p : ExecutorPool)
      → ((id : ℕ) → batch_count id es ≤ 1)
      → Step p (try_offer link c fetched_at es p).pool
  round :
      (env : Env) (id : ℕ) (d : Option ℕ) (w : Wake) (p : ExecutorPool)
      → Step p (executor_round env id d w p).pool
  unfinished_round :
      (env : Env) (id : ℕ) (d : Option ℕ) (w : Wake) (p : ExecutorPool)
      → Step p (Loop.round env id d w p).pool
  leave : (id : ℕ) (p : ExecutorPool) → Step p (drop_executor id p).0
  cancel : (ids : List ℕ) (p : ExecutorPool) → Step p (cancel_execution_ids ids p).0
  connect :
      (c : Clock) (id : ℕ) (connected : Bool) (p : ExecutorPool)
      → executors_with id p ≡ 0
      → Step p (add_executor c id connected p).0
  started :
      (now : ℕ) (ids : List ℕ) (p : ExecutorPool) → Step p (accepted_executions_started now ids p).0
  not_started : (ids : List ℕ) (p : ExecutorPool) → Step p (accepted_executions_not_started ids p).0

pub Step-Inv : {p q : ExecutorPool} → Step p q → Inv p → Inv q
Step-Inv (offer link c t es p d) = try_offer-Inv link c t es p d
Step-Inv (round env id d w p) = executor_round-Inv env id d w p
Step-Inv (unfinished_round env id d w p) = Narrows-Inv p _ (round-Narrows env id d w p)
Step-Inv (leave id p) = Narrows-Inv p _ (drop_executor-Narrows id p)
Step-Inv (cancel ids p) = cancel_execution_ids-Inv ids p
Step-Inv (connect c id connected p free) = add_executor-Inv c id connected p free
Step-Inv (started now ids p) = accepted_executions_started-Inv now ids p
Step-Inv (not_started ids p) = accepted_executions_not_started-Inv ids p

-- `ExecutorPool::new`.
unfoldable pub new_pool : ExecutorPool
new_pool = record { executors = []; accepted_executions = [] }

-- The pools that come about from a new one.
pub data Reachable : ExecutorPool → Type 0 where
  start : Reachable new_pool
  next : {p q : ExecutorPool} → Reachable p → Step p q → Reachable q

new_pool-Inv : Inv new_pool
unfolding new_pool holds executors_with sum_by
new_pool-Inv = record {
  distinct = λ id. omega arith;
  unique = λ id. omega arith;
  within = tt;
  fresh = tt;
}

-- In every pool that any order of calls leads to, where a batch names an execution once and a new
-- executor has an ID of its own, an execution stands in one place at most, no two executors share
-- an ID, no job queue holds more executions than its limit, and an executor has no job queues
-- before it is initialized.
pub Reachable-Inv : {p : ExecutorPool} → Reachable p → Inv p
Reachable-Inv start = new_pool-Inv
Reachable-Inv (next r s) = Step-Inv s (Reachable-Inv r)
