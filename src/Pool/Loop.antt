-- ===== src/Pool/Loop.antt =====
-- The rounds of `executor_loop`, and `add_executor`, in crates/ora-server/src/executor_pool.rs.
use ora.Base.{
  ℕ, ◌-◌, Bool, false, Option, none, some, List, [], ◌∷◌, ◌++◌, position, get_elem?, ltb, ◌==◌,
  if◌then◌else◌,
}
use ora.Time.{from_secs}
use ora.Util.{deadline_after}
use ora.Pool.State.{Executor, ExecutorPool, Output, send_to, properties, notify_available, Clock}
use ora.Pool.Queue.{assigned_executions, assigned_execution_count, cancellations, withdraw_offers}
use ora.Pool.Turn.{
  ExecutorMessage, Wake, grace_elapsed, shutdown_signal, heartbeat_tick, offer_tick,
  messages_closed, message, Env, Next, again, leave, Turn, continue_with, break_with, is_executor,
  put, drop_executor, drop_and_break,
}
use ora.Pool.Handlers.{on_message}

-- One minute.
abbrev pub max_heartbeat_interval : ℕ
max_heartbeat_interval = from_secs 60

unfoldable pub on_grace_elapsed : Executor → ExecutorPool → Turn
on_grace_elapsed x p = break_with p (cancellations x.id (assigned_executions x))

unfoldable pub on_shutdown : Env → ℕ → Executor → ExecutorPool → Turn
on_shutdown env k x p =
    let (x', out, withdrawn_count) = withdraw_offers env.now none x in
    if ltb 0 (assigned_execution_count x')
    then continue_with (some (deadline_after env.instant_limit env.now env.shutdown_grace_period))
        (put k x' p) out
    else break_with (put k x' p) out

unfoldable pub on_heartbeat_tick : Env → Executor → ExecutorPool → Turn
on_heartbeat_tick env x p =
    if ltb max_heartbeat_interval (env.now - x.last_heartbeat_at)
    then drop_and_break x.id p
    else if env.disconnected
    then drop_and_break x.id p
    else continue_with none p []

unfoldable pub on_offer_tick : Env → ℕ → Executor → ExecutorPool → Turn
on_offer_tick env k x p =
    let (x', out, expired_count) = withdraw_offers env.now (some env.now) x in
    continue_with none (put k x' p)
      (out ++ (if ltb 0 expired_count then notify_available ∷ [] else []))

unfoldable pub on_incoming : Env → Option ℕ → ℕ → Executor → ExecutorMessage → ExecutorPool → Turn
on_incoming env d k x m p =
    if env.disconnected then drop_and_break x.id p else on_message env d k x m p

-- What a round does with the executor that it finds. The grace period runs only under a shutdown
-- deadline, and the shutdown signal and the ticks are awaited only without one: the other
-- combinations do not occur, and change nothing here.
unfoldable pub on_wake : Env → Option ℕ → Wake → ℕ → Executor → ExecutorPool → Turn
unfolding on_grace_elapsed on_shutdown on_heartbeat_tick on_offer_tick on_incoming
on_wake env d messages_closed k x p = break_with p []
on_wake env d (message m) k x p = on_incoming env d k x m p
on_wake env (some d) grace_elapsed k x p = on_grace_elapsed x p
on_wake env none shutdown_signal k x p = on_shutdown env k x p
on_wake env none heartbeat_tick k x p = on_heartbeat_tick env x p
on_wake env none offer_tick k x p = on_offer_tick env k x p
on_wake env d w k x p = continue_with d p []

-- `executors.iter_mut().find(|e| e.id == executor_id)` with its position.
unfoldable pub find_executor : ℕ → List Executor → Option (ℕ × Executor)
find_executor id xs = elim (position (is_executor id) xs) [
  | none ↦ none
  | some k ↦ elim (get_elem? xs k) [ none ↦ none | some x ↦ some (k, x) ]
]

-- An immediate shutdown ends the loop before the pool is looked at.
abbrev pub is_immediate : Env → Option ℕ → Wake → Bool
is_immediate env none shutdown_signal = env.shutdown_grace_period == 0
is_immediate env d w = false

unfoldable pub round : Env → ℕ → Option ℕ → Wake → ExecutorPool → Turn
unfolding find_executor
round env id d w p =
    if is_immediate env d w then break_with p [] else elim (find_executor id p.executors) [
      | none ↦ break_with p []
      | some (k, x) ↦ on_wake env d w k x p
    ]

-- After the loop the executor is removed from the pool.
unfoldable pub finish_round : ℕ → Turn → Next → Turn
finish_round id t (again d) = t
finish_round id t leave = let (p, out) = drop_executor id t.pool in break_with p (t.outputs ++ out)

-- A round, and the end of the task if it was the last.
unfoldable pub executor_round : Env → ℕ → Option ℕ → Wake → ExecutorPool → Turn
unfolding round finish_round
executor_round env id d w p = let t = round env id d w p in finish_round id t t.next

unfoldable pub new_executor : Clock → ℕ → Executor
new_executor c id = record {
  id = id;
  name = none;
  job_queues = [];
  last_heartbeat = c.system_now;
  last_heartbeat_at = c.now;
  initialized = false;
  execution_handshake = false;
}

-- `add_executor`, with the new UUID and whether its first message can be sent.
unfoldable pub add_executor : Clock → ℕ → Bool → ExecutorPool → ExecutorPool × List Output
unfolding new_executor
add_executor c id connected p =
    if connected
    then (
      record p { executors = p.executors ++ (new_executor c id ∷ []) },
      send_to id (properties id max_heartbeat_interval) ∷ [],
    )
    else (p, [])
