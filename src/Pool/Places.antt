-- ===== src/Pool/Places.antt =====
-- Where the operations of the pool find an execution or an executor.
use ora.Base.{
  ℕ, suc, ◌≡◌, ◌+◌, refl, List, [], ◌∷◌, true, none, some, arith, Option-cases, inl, inr, get_elem?,
  position, position-some, position-none, sum_by, one, sum_by-modify, sum_by-swap_remove,
}
use ora.Pool.State.{
  ExecutionState, offered, accepted, ExecutorExecution, ExecutorJobQueue, Executor,
}
use ora.Pool.Queue.{
  has_id, find_execution, find_execution_mut, execution_at, take_out, remove_at, remove_execution,
}
use ora.Pool.Turn.{is_executor}
use ora.Pool.Loop.{find_executor}
use ora.Pool.Cancel.{locate}
use ora.Pool.Measure.{queue_holds, executor_holds}

-- A removed execution stood where `find_execution_mut` points.
pub remove_execution_inv :
    (id : ℕ) (x y : Executor) (e : ExecutorExecution)
    → remove_execution id x ≡ some (e, y)
    → (j : ℕ) × (i : ℕ) × (find_execution_mut id x ≡ some (j, i))
      × (execution_at j i x ≡ some e)
      × (y ≡ remove_at j i x)
unfolding remove_execution
remove_execution_inv id x y e h = elim (Option-cases (find_execution_mut id x)) [
  | inl n ↦ ground arith
  | inr ((j, i), f) ↦ elim (Option-cases (execution_at j i x)) [
    | inl n ↦ ground arith
    | inr (e', g) ↦ (j, i, f, ground arith, ground arith)
  ]
]

-- An executor that was found stands in the pool and has the ID.
pub find_executor_inv :
    (id k : ℕ) (xs : List Executor) (x : Executor)
    → find_executor id xs ≡ some (k, x)
    → (get_elem? xs k ≡ some x) × (x.id ≡ id)
unfolding find_executor
find_executor_inv id k xs x h = elim (Option-cases (position (is_executor id) xs)) [
  | inl n ↦ ground arith
  | inr (k', f) ↦ let found = position-some (is_executor id) xs k' f in ground (arith, found)
]

-- The place of an execution: its executor, and its place there.
pub locate_inv :
    (id : ℕ) (xs : List Executor) (k j i : ℕ)
    → locate id xs ≡ some (k, j, i)
    → (x : Executor) × (get_elem? xs k ≡ some x) × (find_execution_mut id x ≡ some (j, i))
unfolding locate
locate_inv id [] k j i h = cc
locate_inv id (x ∷ xs) k j i h = elim (Option-cases (find_execution_mut id x)) [
  | inl n ↦ elim (Option-cases (locate id xs)) [
    | inl n' ↦ ground arith
    | inr ((k', j', i'), f) ↦
        let (y, at, found) = locate_inv id xs k' j' i' f in
        let ek : k ≡ suc k' = ground arith in
        let ej : j ≡ j' = ground arith in
        let ei : i ≡ i' = ground arith in rw (ek, ej, ei) (y, at, found)
  ]
  | inr ((j', i'), f) ↦
      let ek : k ≡ 0 = ground arith in
      let ej : j ≡ j' = ground arith in
      let ei : i ≡ i' = ground arith in rw (ek, ej, ei) (x, refl, f)
]

-- A search fails only where the execution is nowhere.
pub find_execution-none :
    (id : ℕ) (qs : List ExecutorJobQueue)
    → find_execution id qs ≡ none
    → sum_by (queue_holds id) qs ≡ 0
unfolding find_execution queue_holds sum_by
find_execution-none id [] h = refl
find_execution-none id (q ∷ qs) h = elim (Option-cases (position (has_id id) q.executions)) [
  | inl n ↦ ground (arith, position-none (has_id id) q.executions n, find_execution-none id qs)
  | inr (i, f) ↦ ground arith
]

-- What a search finds is the execution.
pub find_execution_inv :
    (id : ℕ) (qs : List ExecutorJobQueue) (j i : ℕ)
    → find_execution id qs ≡ some (j, i)
    → (q : ExecutorJobQueue) × (e : ExecutorExecution) × (get_elem? qs j ≡ some q)
      × (get_elem? q.executions i ≡ some e)
      × (has_id id e ≡ true)
unfolding find_execution
find_execution_inv id [] j i h = cc
find_execution_inv id (q ∷ qs) j i h = elim (Option-cases (position (has_id id) q.executions)) [
  | inl n ↦ elim (Option-cases (find_execution id qs)) [
    | inl n' ↦ ground arith
    | inr ((j', i'), f) ↦
        let (r, e, at, at', same) = find_execution_inv id qs j' i' f in
        let ej : j ≡ suc j' = ground arith in
        let ei : i ≡ i' = ground arith in rw (ej, ei) (r, e, at, at', same)
  ]
  | inr (i', f) ↦
      let ej : j ≡ 0 = ground arith in
      let ei : i ≡ i' = ground arith in
      let (e, at, same) = position-some (has_id id) q.executions i' f in
      rw (ej, ei) (q, e, refl, at, same)
]

-- Removing an execution frees one place, and only for its ID.
pub remove_at-holds :
    (id j i : ℕ) (x : Executor) (q : ExecutorJobQueue) (e : ExecutorExecution)
    → get_elem? x.job_queues j ≡ some q
    → get_elem? q.executions i ≡ some e
    → executor_holds id (remove_at j i x) + one (has_id id e) ≡ executor_holds id x
unfolding executor_holds remove_at queue_holds
remove_at-holds id j i x q e at at' = omega (
  arith,
  sum_by-modify (queue_holds id) (take_out i) x.job_queues j at,
  sum_by-swap_remove (λ f. one (has_id id f)) q.executions i at',
)

-- A choice by the state of an execution, with what the state is.
pub state_cases {ℓ κ} :
    {A : Type ℓ} (P : A → Type κ) (s : ExecutionState) (a : A) (o : ℕ → ℕ → A)
    → (s ≡ accepted → P a)
    → ((deadline offered_at : ℕ) → s ≡ offered deadline offered_at → P (o deadline offered_at))
    → P (elim s [ accepted ↦ a | offered deadline offered_at ↦ o deadline offered_at ])
state_cases P accepted a o p q = p refl
state_cases P (offered d at) a o p q = q d at refl
