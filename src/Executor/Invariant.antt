-- ===== src/Executor/Invariant.antt =====
-- What holds of an executor: its counters and tables agree with its tasks, and its answers have
-- been announced.
use ora.Base.{
  ℕ, String, ◌+◌, ◌≤◌, ◌≡◌, refl, sym, ◌∙◌, Bool, true, false, ◌&&◌, Option, some, List, max, arith,
  one, is_some, is_some_and, sum_by, sum_by-modify, sum_by-modify_same, All, All-modify, get_elem?,
  modify, lookup, ◌==◌,
}
use ora.Convert.Messages.{Protobuf}
use ora.Executor.Types.{HandlerQueue, execution_accepted, execution_succeeded, execution_failed}
use ora.Executor.State.{
  Phase, spawned, admitting, handling, in_grace, leaving, released, Effect, sent, RunExecution,
  ExecutorState,
}
use ora.Executor.Runs.{to_phase}

-- Whether a task holds a slot of a queue, and whether it accepted its execution and owes a result.
unfoldable pub is_in : ℕ → Phase → Bool
is_in q spawned = false
is_in q (admitting k) = k == q
is_in q (handling k) = k == q
is_in q (in_grace k) = k == q
is_in q (leaving k) = k == q
is_in q released = false

unfoldable pub owes : Phase → Bool
owes (handling k) = true
owes (in_grace k) = true
owes _ = false

-- Every queue's counter is within the queue's limit.
abbrev pub AreWithin : List HandlerQueue → (ℕ → ℕ) → Type 0
AreWithin queues active =
    (q : ℕ) (queue : HandlerQueue)
    → get_elem? queues q ≡ some queue
    → active q ≤ max queue.max_concurrent_jobs 1

module _ (P : Protobuf) (parse : String → Option ℕ) where
  abbrev pub is_of : ℕ → ℕ → RunExecution P → Bool
  is_of c id r = (r.connection == c) && (r.execution_id == id)

  abbrev pub names : ℕ → String → Bool
  names id text = is_some_and (parse text) (λ k. k == id)

  -- Acceptances and results that were sent on a connection for an execution.
  unfoldable pub is_acceptance : ℕ → ℕ → Effect → Bool
  is_acceptance c id (sent k (execution_accepted text time)) = (k == c) && names id text
  is_acceptance c id _ = false

  unfoldable pub is_result : ℕ → ℕ → Effect → Bool
  is_result c id (sent k (execution_succeeded text time output)) = (k == c) && names id text
  is_result c id (sent k (execution_failed text time reason)) = (k == c) && names id text
  is_result c id _ = false

  abbrev pub acceptances : ℕ → ℕ → List Effect → ℕ
  acceptances c id log = sum_by (λ o. one (is_acceptance c id o)) log

  abbrev pub results : ℕ → ℕ → List Effect → ℕ
  results c id log = sum_by (λ o. one (is_result c id o)) log

  abbrev pub slots_of : ℕ → List (RunExecution P) → ℕ
  slots_of q runs = sum_by (λ r. one (is_in q r.phase)) runs

  abbrev pub runs_of : ℕ → ℕ → List (RunExecution P) → ℕ
  runs_of c id runs = sum_by (λ r. one (is_of c id r)) runs

  abbrev pub owed : ℕ → ℕ → List (RunExecution P) → ℕ
  owed c id runs = sum_by (λ r. one (is_of c id r && owes r.phase)) runs

  pub record Inv (s : ExecutorState P) : Type 0 where
    pub slots : (q : ℕ) → s.active_jobs q ≡ slots_of q s.runs
    pub limits : AreWithin s.queues s.active_jobs
    pub tracked : (c id : ℕ) → one (is_some (lookup id (s.executions c))) ≡ runs_of c id s.runs
    pub parsed : All (λ r. parse r.ready.execution_id ≡ some r.execution_id) s.runs
    pub announced : (c id : ℕ) → results c id s.log + owed c id s.runs ≤ acceptances c id s.log

  -- A task goes to another phase, and its slot and its messages go with it.
  pub move_Inv :
      (s : ExecutorState P) (i : ℕ) {r : RunExecution P} (phase : Phase) (active : ℕ → ℕ)
      (log : List Effect)
      → Inv s
      → get_elem? s.runs i ≡ some r
      → ((q : ℕ) → active q + one (is_in q r.phase) ≡ s.active_jobs q + one (is_in q phase))
      → AreWithin s.queues active
      → ((c id : ℕ)
          → results c id log + one (is_of c id r && owes phase) + acceptances c id s.log
            ≤ results c id s.log + one (is_of c id r && owes r.phase) + acceptances c id log)
      → Inv
          (record s { active_jobs = active; runs = modify s.runs i (to_phase P phase); log = log })
  move_Inv s i {r} phase active log v at slots limits announced = record {
    slots = λ q. omega (
      arith,
      v.slots q,
      slots q,
      sum_by-modify (λ r. one (is_in q r.phase)) (to_phase P phase) s.runs i at,
    );
    limits = limits;
    tracked = λ c id.
        v.tracked c id
        ∙ sym
            (sum_by-modify_same (λ r. one (is_of c id r)) (to_phase P phase) s.runs i (λ r. refl));
    parsed = All-modify _ (to_phase P phase) s.runs i v.parsed (λ r at p. p);
    announced = λ c id. omega (
      arith,
      v.announced c id,
      announced c id,
      sum_by-modify (λ r. one (is_of c id r && owes r.phase)) (to_phase P phase) s.runs i at,
    );
  }
