-- ===== src/Executor/Answers.antt =====
-- What an executor promises the server in every order of its actions.
use ora.Base.{
  ℕ, String, ◌+◌, ◌≤◌, ◌≡◌, Bool, true, false, Option, some, List, arith, is_some, get_elem?, max,
  lookup,
}
use ora.Convert.Messages.{Protobuf}
use ora.Executor.Types.{HandlerQueue}
use ora.Executor.State.{ExecutorState, fresh_executor}
use ora.Executor.Loop.{Action, act_all}
use ora.Executor.Invariant.{results, acceptances, owed, slots_of, runs_of}
use ora.Executor.Kept.{fresh_executor-Inv}

module _ (P : Protobuf) (parse : String → Option ℕ) (name : String) (queues : List HandlerQueue)
    (has_callback : Bool) (actions : List (Action P parse)) where
  abbrev pub reached : ExecutorState P
  reached = act_all P parse actions (fresh_executor P name queues has_callback)

  -- After any sequence of turns of the executor's loops and pieces of its tasks, the counter of
  -- each queue is the number of tasks that hold a slot of it, of all connections together, and it
  -- is not above the queue's limit, which is 1 at least.
  pub slots_within_limit :
      (q : ℕ) (queue : HandlerQueue)
      → get_elem? reached.queues q ≡ some queue
      → (reached.active_jobs q ≡ slots_of P parse q reached.runs)
        × (slots_of P parse q reached.runs ≤ max queue.max_concurrent_jobs 1)
  slots_within_limit q queue g =
      let v = fresh_executor-Inv P parse name queues has_callback actions in
      (v.slots q, omega (arith, v.slots q, v.limits q queue g))

  -- After any sequence of actions, an execution that is tracked on a connection is run by one task
  -- of that connection, and one that is not is run by none.
  pub tracked_once :
      (c id : ℕ)
      → (is_some (lookup id (reached.executions c)) ≡ true → runs_of P parse c id reached.runs ≡ 1)
        × (is_some (lookup id (reached.executions c)) ≡ false
            → runs_of P parse c id reached.runs ≡ 0)
  tracked_once c id =
      let v = fresh_executor-Inv P parse name queues has_callback actions in
      (λ h. ground (arith, v.tracked c id), λ h. ground (arith, v.tracked c id))

  -- After any sequence of actions, the results that were sent on a connection for an execution and
  -- those that its tasks still owe are no more than the acceptances sent for it there.
  pub answered_once :
      (c id : ℕ)
      → results P parse c id reached.log + owed P parse c id reached.runs
        ≤ acceptances P parse c id reached.log
  answered_once c id = (fresh_executor-Inv P parse name queues has_callback actions).announced c id
