-- ===== src/Pool/Rounds.antt =====
-- No round of `executor_loop` adds a place for an execution or overfills a queue.
use ora.Base.{
  ℕ, true, Dict, String, ◌≡◌, refl, Bool, true, List, [], Option, some, none, arith, get_elem?,
  is_some, if_both, option_both,
}
use ora.Backend.{JobType}
use ora.Pool.State.{ExecutorExecution, Executor, ExecutorPool, ExecutorEvent, Output}
use ora.Pool.Queue.{
  find_execution_mut, execution_at, remove_at, remove_execution, note_rejected, is_accepted,
}
use ora.Pool.Places.{find_executor_inv, state_cases}
use ora.Pool.Turn.{
  Timestamp, ExecutorMessage, capabilities, heartbeat, execution_accepted, execution_rejected,
  execution_succeeded, execution_failed, Wake, grace_elapsed, shutdown_signal, heartbeat_tick,
  offer_tick, messages_closed, message, Env, Next, again, leave, Turn, put, settle,
}
use ora.Pool.Handlers.{
  collect_queues, on_capabilities, mark_accepted, in_queue, on_accepted, on_rejected, result_time,
  on_result, on_message,
}
use ora.Pool.Loop.{on_wake, find_executor, round, finish_round, executor_round, is_immediate}
use ora.Pool.Measure.{
  executor_holds, Shrinks, Narrows, Shrinks-trans, Narrows-refl, Narrows-trans, Narrows-accepted,
  Shrinks-modify, Narrows-put,
}
use ora.Pool.Shrinking.{
  TurnNarrows, drop_executor-Narrows, drop_and_break-Narrows, remove_at-Shrinks,
  remove_execution-Shrinks, new_queues-Shrinks, mark_accepted-QueueShrinks,
  note_rejected-QueueShrinks, withdraw_offers-Shrinks,
}

-- The handlers, for the executor `x` at position `k`.
module _ (k : ℕ) (x : Executor) (p : ExecutorPool) (at : get_elem? p.executors k ≡ some x) where
  settle-Narrows :
      (d : Option ℕ) (y : Executor) (m : Dict (Option ℕ)) (out : List Output)
      → Shrinks x y
      → Narrows p (settle d k y (record p { accepted_executions = m }) out).pool
  unfolding settle
  settle-Narrows d y m out s =
      ground (arith, Narrows-accepted p (put k y p) m (Narrows-put k x y p at s))

  put-Narrows : (y : Executor) → Shrinks x y → Narrows p (put k y p)
  put-Narrows y s = Narrows-put k x y p at s

  on_capabilities-Narrows :
      (env : Env) (d : Option ℕ) (name : String) (handshake : Bool) (qs : List (Option JobType × ℕ))
      → Narrows p (on_capabilities env d k x name handshake qs p).pool
  unfolding on_capabilities executor_holds
  on_capabilities-Narrows env d name handshake qs =
      let named = record x { name = some name; execution_handshake = handshake } in
      let renamed =
        put-Narrows named
          (record { same_id = refl; fewer = λ id. omega arith; within = λ w. w; fresh = λ f. f }) in
      if_both (TurnNarrows p) x.initialized _ _ (drop_and_break-Narrows x.id p) (
        option_both (TurnNarrows p) (collect_queues qs) _ _
          (Narrows-trans p (put k named p) renamed (drop_and_break-Narrows x.id (put k named p)))
          (λ l e. if_both (TurnNarrows p) _ _ _ renamed (
            settle-Narrows d (record named { job_queues = l; initialized = true })
              p.accepted_executions _ (new_queues-Shrinks qs l x _ e refl refl refl))))

  on_accepted-Narrows :
      (env : Env) (d : Option ℕ) (id : Option ℕ) → Narrows p (on_accepted env d k x id p).pool
  unfolding on_accepted
  on_accepted-Narrows env d none = drop_and_break-Narrows x.id p
  on_accepted-Narrows env d (some id) =
      option_both (TurnNarrows p) (find_execution_mut id x) _ _ (Narrows-refl p) (λ ji f.
        option_both (TurnNarrows p) (execution_at ji.0 ji.1 x) _ _ (Narrows-refl p) (λ e at'.
          state_cases (TurnNarrows p) e.state _ _ (λ _. Narrows-refl p)
            (λ deadline offered_at _.
              if_both (TurnNarrows p) (is_some d) _ _
                (put-Narrows _ (remove_at-Shrinks ji.0 ji.1 x))
                (if_both (TurnNarrows p) env.accepted_open _ _
                  (settle-Narrows d _ _ _ (taken ji.0 ji.1))
                  (Narrows-accepted p _ _ (put-Narrows _ (taken ji.0 ji.1)))))))
    where
      taken : (j i : ℕ) → Shrinks x (in_queue j (mark_accepted i) x)
      taken j i = Shrinks-modify j (mark_accepted i) x (mark_accepted-QueueShrinks i)

  on_rejected-Narrows :
      (env : Env) (d : Option ℕ) (id : Option ℕ) → Narrows p (on_rejected env d k x id p).pool
  unfolding on_rejected
  on_rejected-Narrows env d none = drop_and_break-Narrows x.id p
  on_rejected-Narrows env d (some id) =
      option_both (TurnNarrows p) (find_execution_mut id x) _ _ (Narrows-refl p) (λ ji f.
        option_both (TurnNarrows p) (execution_at ji.0 ji.1 x) _ _ (Narrows-refl p) (λ e at'.
          if_both (TurnNarrows p) (is_accepted e) _ _ (Narrows-refl p)
            (settle-Narrows d _ p.accepted_executions _ (rejected ji.0 ji.1))))
    where
      rejected : (j i : ℕ) → Shrinks x (in_queue j (note_rejected env.now) (remove_at j i x))
      rejected j i = Shrinks-trans x (remove_at j i x) (remove_at-Shrinks j i x) (
          Shrinks-modify j (note_rejected env.now) (remove_at j i x)
            (note_rejected-QueueShrinks env.now))

  on_result-Narrows :
      (env : Env) (d : Option ℕ) (id : ℕ) (ts : Timestamp)
      (event : ExecutorExecution → ℕ → ExecutorEvent)
      → Narrows p (on_result env d k x id ts event p).pool
  unfolding on_result
  on_result-Narrows env d id ts event =
      option_both (TurnNarrows p) (remove_execution id x) _ _ (Narrows-refl p) (λ ey r.
        let s = remove_execution-Shrinks id x ey.1 ey.0 r in
        if_both (TurnNarrows p) (is_accepted ey.0) _ _
          (option_both (TurnNarrows p) (result_time env ts) _ _ (put-Narrows ey.1 s) (λ at' h.
            if_both (TurnNarrows p) env.events_open _ _
              (settle-Narrows d ey.1 p.accepted_executions _ s) (put-Narrows ey.1 s)))
          (put-Narrows ey.1 s))

  on_message-Narrows :
      (env : Env) (d : Option ℕ) (m : ExecutorMessage) → Narrows p (on_message env d k x m p).pool
  unfolding on_message
  on_message-Narrows env d (capabilities name handshake qs) =
      on_capabilities-Narrows env d name handshake qs
  on_message-Narrows env d heartbeat = settle-Narrows d _ p.accepted_executions [] (
      unfold executor_holds in
      record { same_id = refl; fewer = λ id. omega arith; within = λ w. w; fresh = λ f. f })
  on_message-Narrows env d (execution_accepted id) = on_accepted-Narrows env d id
  on_message-Narrows env d (execution_rejected id) = on_rejected-Narrows env d id
  on_message-Narrows env d (execution_succeeded none ts output) = Narrows-refl p
  on_message-Narrows env d (execution_succeeded (some id) ts output) =
      on_result-Narrows env d id ts _
  on_message-Narrows env d (execution_failed none ts reason) = drop_and_break-Narrows x.id p
  on_message-Narrows env d (execution_failed (some id) ts reason) = on_result-Narrows env d id ts _

  on_wake-Narrows : (env : Env) (d : Option ℕ) (w : Wake) → Narrows p (on_wake env d w k x p).pool
  unfolding on_wake
  on_wake-Narrows env d messages_closed = Narrows-refl p
  on_wake-Narrows env d (message m) =
      if_both (TurnNarrows p) env.disconnected _ _ (drop_and_break-Narrows x.id p)
        (on_message-Narrows env d m)
  on_wake-Narrows env (some d) grace_elapsed = Narrows-refl p
  on_wake-Narrows env none shutdown_signal =
      let s = put-Narrows _ (withdraw_offers-Shrinks env.now none x) in
      if_both (TurnNarrows p) _ _ _ s s
  on_wake-Narrows env none heartbeat_tick =
      if_both (TurnNarrows p) _ _ _ (drop_and_break-Narrows x.id p) (
        if_both (TurnNarrows p) env.disconnected _ _ (drop_and_break-Narrows x.id p)
          (Narrows-refl p))
  on_wake-Narrows env none offer_tick =
      put-Narrows _ (withdraw_offers-Shrinks env.now (some env.now) x)
  on_wake-Narrows env none grace_elapsed = Narrows-refl p
  on_wake-Narrows env (some d) shutdown_signal = Narrows-refl p
  on_wake-Narrows env (some d) heartbeat_tick = Narrows-refl p
  on_wake-Narrows env (some d) offer_tick = Narrows-refl p

pub round-Narrows :
    (env : Env) (id : ℕ) (d : Option ℕ) (w : Wake) (p : ExecutorPool)
    → Narrows p (round env id d w p).pool
unfolding round
round-Narrows env id d w p = if_both (TurnNarrows p) (is_immediate env d w) _ _ (Narrows-refl p) (
    option_both (TurnNarrows p) (find_executor id p.executors) _ _ (Narrows-refl p) (λ kx f.
      on_wake-Narrows kx.0 kx.1 p (find_executor_inv id kx.0 p.executors kx.1 f).0 env d w))

finish_round-Narrows :
    (id : ℕ) (p : ExecutorPool) (t : Turn) (n : Next)
    → Narrows p t.pool
    → Narrows p (finish_round id t n).pool
unfolding finish_round
finish_round-Narrows id p t (again d) h = h
finish_round-Narrows id p t leave h = Narrows-trans p t.pool h (drop_executor-Narrows id t.pool)

pub executor_round-Narrows :
    (env : Env) (id : ℕ) (d : Option ℕ) (w : Wake) (p : ExecutorPool)
    → Narrows p (executor_round env id d w p).pool
unfolding executor_round
executor_round-Narrows env id d w p =
    let t = round env id d w p in finish_round-Narrows id p t t.next (round-Narrows env id d w p)
