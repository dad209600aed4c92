-- ===== src/Executor/Kept.antt =====
-- Every sequence of actions of an executor keeps its invariant.
use ora.Base.{
  ℕ, String, ◌+◌, ◌≡◌, refl, Bool, true, false, Option, some, List, [], ◌∷◌, arith, sum_by,
  get_elem?, lookup, Dict, lookup-insert, if_both, option_both, option_cases,
}
use ora.Convert.Messages.{Protobuf}
use ora.Executor.Types.{
  HandlerQueue, MessageToServer, capabilities, ExecutionReady, properties, execution_ready,
  execution_cancelled, queue_capabilities,
}
use ora.Executor.State.{
  spawned, sent, heartbeats, RunExecution, ExecutorState, is_cancelled, fresh_executor, add_active,
  is_idle, set_at,
}
use ora.Executor.Runs.{
  begin_run, admit_run, notice_cancel, finish_run, drop_cancelled, leave_run, on_run, send,
}
use ora.Executor.Loop.{
  Incoming, shutting_down, closed, received, on_properties, on_ready, on_cancelled, executor_turn,
  Action, turn, begin, admit, notice, finish, end_grace, leave, act, act_all,
}
use ora.Executor.Invariant.{is_in, owes, is_acceptance, is_result}
use ora.Executor.Preserved.{leave_Inv, notice_Inv, drop_cancelled_Inv}
use ora.Executor.Steps.{Holds, quiet_Inv, begin_Inv, admit_Inv, finish_Inv}

module _ (P : Protobuf) (parse : String → Option ℕ) where
  -- What is done to a task that is there.
  on_run_Inv :
      (s : ExecutorState P) (i : ℕ) (f : RunExecution P → ExecutorState P)
      → Holds P parse s
      → ((r : RunExecution P) → get_elem? s.runs i ≡ some r → Holds P parse (f r))
      → Holds P parse (on_run P i s f)
  on_run_Inv s i f v h = option_cases (Holds P parse) (get_elem? s.runs i) s f (λ e. v) h

  sent_quiet_Inv :
      (s : ExecutorState P) (is_open : Bool) (c : ℕ) (message : MessageToServer)
      → Holds P parse s
      → ((k id : ℕ) → is_acceptance P parse k id (sent c message) ≡ false)
      → ((k id : ℕ) → is_result P parse k id (sent c message) ≡ false)
      → Holds P parse (send P is_open c message s)
  sent_quiet_Inv s true c message v a r = quiet_Inv P parse s (sent c message) v a r
  sent_quiet_Inv s false c message v a r = v

  on_properties_Inv :
      (s : ExecutorState P) (is_open : Bool) (c : ℕ) (interval : Option P.Duration)
      → Holds P parse s
      → Holds P parse (on_properties P parse is_open c interval s).1
  unfolding on_properties is_acceptance is_result
  on_properties_Inv s is_open c interval v =
      option_both (λ (r : Bool × ExecutorState P). Holds P parse r.1) (queue_capabilities s.queues)
        _ _ v
        (λ queues e.
          quiet_Inv P parse _ (heartbeats c _)
            (sent_quiet_Inv s is_open c (capabilities _) v (λ k id. refl) (λ k id. refl))
            (λ k id. refl) (λ k id. refl))

  -- An offer that is not tracked yet.
  added_Inv :
      (s : ExecutorState P) (c id : ℕ) (ready : ExecutionReady P) (executions : Dict ℕ)
      → Holds P parse s
      → parse ready.execution_id ≡ some id
      → add_active id s.next_token (s.executions c) ≡ some executions
      → Holds P parse (record s {
        executions = set_at c executions s.executions;
        next_token = s.next_token + 1;
        runs =
            record {
              connection = c;
              execution_id = id;
              token = s.next_token;
              ready = ready;
              phase = spawned;
            }
            ∷ s.runs;
      })
  unfolding add_active sum_by is_in owes
  added_Inv s c id ready executions v e h = record {
    slots = λ q. omega (arith, v.slots q);
    limits = v.limits;
    tracked =
        λ k j. ground (arith, h, v.tracked k j, lookup-insert id j s.next_token (s.executions c));
    parsed = (e, v.parsed);
    announced = λ k j. ground (arith, v.announced k j);
  }

  on_ready_Inv :
      (s : ExecutorState P) (is_open : Bool) (now c : ℕ) (ready : ExecutionReady P)
      → Holds P parse s
      → Holds P parse (on_ready P parse is_open now c ready s)
  unfolding on_ready is_acceptance is_result
  on_ready_Inv s is_open now c ready v =
      option_both (Holds P parse) (parse ready.execution_id) _ _
        (sent_quiet_Inv s is_open c _ v (λ k id. refl) (λ k id. refl))
        (λ id e.
          option_both (Holds P parse) (add_active id s.next_token (s.executions c)) _ _
            (sent_quiet_Inv s is_open c _ v (λ k id. refl) (λ k id. refl))
            (λ executions h. added_Inv s c id ready executions v e h))

  -- Cancelling changes tokens only.
  cancelled_Inv :
      (s : ExecutorState P) (tokens : List ℕ)
      → Holds P parse s
      → Holds P parse (record s { cancelled = tokens })
  cancelled_Inv s tokens v = record {
    slots = v.slots;
    limits = v.limits;
    tracked = v.tracked;
    parsed = v.parsed;
    announced = v.announced;
  }

  turn_Inv :
      (s : ExecutorState P) (is_open : Bool) (now c : ℕ) (incoming : Incoming P)
      → Holds P parse s
      → Holds P parse (executor_turn P parse is_open now c incoming s).1
  unfolding executor_turn on_cancelled
  turn_Inv s is_open now c shutting_down v =
      if_both (λ (r : Bool × ExecutorState P). Holds P parse r.1) (is_idle (s.executions c)) _ _ v
        (cancelled_Inv s _ v)
  turn_Inv s is_open now c closed v = cancelled_Inv s _ v
  turn_Inv s is_open now c (received (properties id interval)) v =
      on_properties_Inv s is_open c interval v
  turn_Inv s is_open now c (received (execution_ready ready)) v =
      on_ready_Inv s is_open now c ready v
  turn_Inv s is_open now c (received (execution_cancelled text)) v =
      option_both (Holds P parse) (parse text) _ _ v (λ id e. cancelled_Inv s _ v)

  act_Inv :
      (a : Action P parse) (s : ExecutorState P) → Holds P parse s → Holds P parse (act P parse a s)
  unfolding act begin_run admit_run notice_cancel finish_run drop_cancelled leave_run
  act_Inv (turn is_open now c incoming) s v = turn_Inv s is_open now c incoming v
  act_Inv (begin is_open now i) s v =
      on_run_Inv s i _ v (λ r at. begin_Inv P parse s i is_open now r.phase v at refl)
  act_Inv (admit is_open now i guards) s v =
      on_run_Inv s i _ v (λ r at. admit_Inv P parse s i is_open now guards r.phase v at refl)
  act_Inv (notice i) s v = on_run_Inv s i _ v (λ r at.
      if_both (Holds P parse) (is_cancelled P r s) _ _ (notice_Inv P parse s i r.phase v at refl) v)
  act_Inv (finish debug is_open now i result) s v =
      on_run_Inv s i _ v (λ r at. finish_Inv P parse s i debug is_open now result r.phase v at refl)
  act_Inv (end_grace i) s v =
      on_run_Inv s i _ v (λ r at. drop_cancelled_Inv P parse s i r.phase v at refl)
  act_Inv (leave i) s v = on_run_Inv s i _ v (λ r at. leave_Inv P parse s i r.phase v at refl)

  act_all_Inv :
      (actions : List (Action P parse)) (s : ExecutorState P)
      → Holds P parse s
      → Holds P parse (act_all P parse actions s)
  unfolding act_all
  act_all_Inv [] s v = v
  act_all_Inv (a ∷ later) s v = act_all_Inv later (act P parse a s) (act_Inv a s v)

  pub fresh_executor-Inv :
      (name : String) (queues : List HandlerQueue) (has_callback : Bool)
      (actions : List (Action P parse))
      → Holds P parse (act_all P parse actions (fresh_executor P name queues has_callback))
  unfolding fresh_executor sum_by lookup
  fresh_executor-Inv name queues has_callback actions = act_all_Inv actions _ (record {
    slots = λ q. refl;
    limits = λ q queue g. omega arith;
    tracked = λ c id. refl;
    parsed = tt;
    announced = λ c id. omega arith;
  })
