-- ===== src/Executor/State.antt =====
-- The state of an executor, of crates/ora/src/executor/implementation/executions.rs: the counters
-- that queues share between connections, the active executions of each connection, and the tasks
-- that run executions.
use ora.Base.{
  ℕ, String, Bool, true, false, Option, none, some, List, [], ◌∷◌, ◌++◌, ◌+◌, ◌-◌, ◌^◌, map, max,
  ltb, any, ◌==◌, if◌then◌else◌, is_some, Dict, lookup, insert, remove,
}
use ora.Convert.Messages.{Protobuf}
use ora.Executor.Types.{HandlerQueue, MessageToServer, ExecutionReady}

-- Where `run_execution` stands; a phase names the position of the queue whose slot is held.
pub data Phase : Type 0 where
  spawned : Phase
  admitting : (queue : ℕ) → Phase
  handling : (queue : ℕ) → Phase
  in_grace : (queue : ℕ) → Phase
  leaving : (queue : ℕ) → Phase
  released : Phase

pub data Effect : Type 0 where
  sent : (connection : ℕ) (message : MessageToServer) → Effect
  called_back : (connection : ℕ) (execution_id : ℕ) (failure_reason : String) → Effect
  heartbeats : (connection : ℕ) (interval : ℕ) → Effect

-- `fetch_update` of `QueueSlot::reserve`, and `fetch_sub` of its drop, on 64 bits.
unfoldable pub reserve : ℕ → ℕ → Option ℕ
reserve active_jobs max_concurrent_jobs =
    if ltb active_jobs (max max_concurrent_jobs 1) then some (active_jobs + 1) else none

unfoldable pub drop_slot : ℕ → ℕ
drop_slot active_jobs = if active_jobs == 0 then 2 ^ 64 - 1 else active_jobs - 1

-- The methods of `ActiveExecutions`: each execution has its token.
unfoldable pub add_active : ℕ → ℕ → Dict ℕ → Option (Dict ℕ)
add_active execution_id token executions =
    if is_some (lookup execution_id executions)
    then none
    else some (insert execution_id token executions)

unfoldable pub cancel_active : ℕ → Dict ℕ → List ℕ → List ℕ
cancel_active execution_id executions cancelled = elim (lookup execution_id executions) [
  | none ↦ cancelled
  | some token ↦ token ∷ cancelled
]

unfoldable pub is_idle : Dict ℕ → Bool
is_idle [] = true
is_idle (_ ∷ _) = false

unfoldable pub cancel_all_active : Dict ℕ → List ℕ → List ℕ
cancel_all_active executions cancelled = map (λ entry. entry.1) executions ++ cancelled

-- The drop of an `ActiveExecutionGuard`.
unfoldable pub drop_active : ℕ → Dict ℕ → Dict ℕ
drop_active execution_id executions = remove execution_id executions

-- One entry of a store is replaced.
abbrev pub set_at : {A : Type 0} → ℕ → A → (ℕ → A) → ℕ → A
set_at key value store k = if key == k then value else store k

module _ (P : Protobuf) where
  -- A task of `run_execution`.
  pub record RunExecution : Type 0 where
    pub connection : ℕ
    pub execution_id : ℕ
    pub token : ℕ
    pub ready : ExecutionReady P
    pub phase : Phase

  -- The counters are those of the queues by position, and the tables those of the connections. The
  -- newest output is first.
  pub record ExecutorState : Type 0 where
    pub name : String
    pub queues : List HandlerQueue
    pub has_callback : Bool
    pub active_jobs : ℕ → ℕ
    pub executions : ℕ → Dict ℕ
    pub next_token : ℕ
    pub cancelled : List ℕ
    pub runs : List RunExecution
    pub log : List Effect

  unfoldable pub fresh_executor : String → List HandlerQueue → Bool → ExecutorState
  fresh_executor name queues has_callback = record {
    name = name;
    queues = queues;
    has_callback = has_callback;
    active_jobs = λ k. 0;
    executions = λ k. [];
    next_token = 0;
    cancelled = [];
    runs = [];
    log = [];
  }

  abbrev pub is_cancelled : RunExecution → ExecutorState → Bool
  is_cancelled r s = any (λ token. token == r.token) s.cancelled
