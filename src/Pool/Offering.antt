-- ===== src/Pool/Offering.antt =====
-- What one round of `try_offer` does, and what it keeps.
use ora.Base.{
  ℕ, modify, ◌+◌, ◌≤◌, ◌<◌, ◌≡◌, refl, ap, fun_ext, subst, inl, inr, Bool, true, false, List, [],
  ◌∷◌, map, some, arith, length, length-append, get_elem?, sum_by, All, one, ◌==◌, Option-cases,
  Bool-cases, position, position-some, flat_map, sum_by-append, sum_by-flat_map, sum_by-modify,
  sum_by-modify-le, All-modify, any,
}
use ora.Backend.{ReadyExecution}
use ora.Pool.State.{ExecutorExecution, ExecutorJobQueue, Executor, ExecutorPool, Clock}
use ora.Pool.Queue.{has_id, has_capacity, add_execution, executions_of}
use ora.Pool.Offer.{
  held_execution_ids, contains, is_suitable, suitable_queue, choose, initial_state,
  executor_execution, enqueue, Offering, refuse, place, place_at, offer_one,
}
use ora.Pool.Measure.{
  IsFresh, queue_holds, executor_holds, holds, executors_with, InLimit, QueuesInLimit,
}
use ora.Pool.Turn.{is_executor}

-- How often an ID stands in a list.
abbrev pub count_id : ℕ → List ℕ → ℕ
count_id id ids = sum_by (λ k. one (k == id)) ids

pub count_id-zero : (id : ℕ) (ids : List ℕ) → contains id ids ≡ false → count_id id ids ≡ 0
unfolding contains any sum_by
count_id-zero id [] h = refl
count_id-zero id (k ∷ ids) h = ground (arith, count_id-zero id ids)

pub sum_by-map {ℓ κ} :
    {A : Type ℓ} {B : Type κ} (f : B → ℕ) (g : A → B) (xs : List A)
    → sum_by f (map g xs) ≡ sum_by (λ x. f (g x)) xs
unfolding sum_by
sum_by-map f g [] = refl
sum_by-map f g (x ∷ xs) = omega (arith, sum_by-map f g xs)

executor_holds-executions_of :
    (id : ℕ) (x : Executor)
    → sum_by (λ e. one (has_id id e)) (executions_of x) ≡ executor_holds id x
unfolding executor_holds queue_holds
executor_holds-executions_of id x = sum_by-flat_map _ (λ q. q.executions) x.job_queues

-- The held IDs count every place of the pool.
pub holds-le-held : (id : ℕ) (p : ExecutorPool) → holds id p ≤ count_id id (held_execution_ids p)
unfolding holds held_execution_ids
holds-le-held id p = omega (
  arith,
  sum_by-append (λ k. one (k == id)) (map (λ e. e.execution_id) executions)
      (map (λ entry. entry.0) p.accepted_executions),
  sum_by-map (λ k. one (k == id)) (λ e. e.execution_id) executions,
  sum_by-flat_map (λ e. one (has_id id e)) executions_of p.executors,
  ap (λ (f : Executor → ℕ). sum_by f p.executors) (fun_ext (executor_holds-executions_of id)),
)
  where
    executions : List ExecutorExecution
    executions = flat_map executions_of p.executors

-- A queue that is chosen for an execution has room for it and its job type.
pub record Chosen (link : ℕ → ℕ → Bool) (now : ℕ) (e : ReadyExecution) (xs : List Executor)
    (i j : ℕ) : Type 0 where
  pub executor : Executor
  pub queue : ExecutorJobQueue
  pub executor_at : get_elem? xs i ≡ some executor
  pub queue_at : get_elem? executor.job_queues j ≡ some queue
  pub suitable : is_suitable now e queue ≡ true
  pub linked : link executor.id e.execution_id ≡ true

module _ (link : ℕ → ℕ → Bool) (now : ℕ) (e : ReadyExecution) where
  suitable_queue_inv :
      (x : Executor) (j : ℕ)
      → suitable_queue link now e x ≡ some j
      → (position (is_suitable now e) x.job_queues ≡ some j) × (link x.id e.execution_id ≡ true)
  unfolding suitable_queue
  suitable_queue_inv x j h = ground arith

  choose-Chosen :
      (xs : List Executor) (order : List ℕ) (i j : ℕ)
      → choose link now e xs order ≡ some (i, j)
      → Chosen link now e xs i j
  unfolding choose
  choose-Chosen xs [] i j h = cc
  choose-Chosen xs (k ∷ order) i j h = elim (Option-cases (get_elem? xs k)) [
    | inl n ↦ choose-Chosen xs order i j (ground arith)
    | inr (x, at) ↦ elim (Option-cases (suitable_queue link now e x)) [
      | inl n ↦ choose-Chosen xs order i j (ground arith)
      | inr (l, s) ↦
          let (found, linked) = suitable_queue_inv x l s in
          let (q, at', fits) = position-some (is_suitable now e) x.job_queues l found in
          let here : i ≡ k = ground arith in
          let there : j ≡ l = ground arith in
          rw (here, there)
            (record {
              executor = x;
              queue = q;
              executor_at = at;
              queue_at = at';
              suitable = fits;
              linked = linked;
            })
    ]
  ]

-- A round refuses the execution, or puts it into a chosen queue.
module _ (link : ℕ → ℕ → Bool) (c : Clock) (held : List ℕ) (e : ReadyExecution)
    (order : List ℕ) where
  pub offer_one_cases {κ} :
      (P : Offering → Type κ) (o : Offering)
      → P (refuse e o)
      → ((i j : ℕ) (h : Chosen link c.now e o.pool.executors i j)
          → contains e.execution_id held ≡ false
          → P (place c e i j h.executor o))
      → P (offer_one link c held (e, order) o)
  unfolding offer_one place_at
  offer_one_cases P o r h = elim (Bool-cases (contains e.execution_id held)) [
    | inl yes' ↦ rw (yes', offer_one) r
    | inr no' ↦
        rw (no', offer_one)
          (elim (Option-cases (choose link c.now e o.pool.executors order)) [
            | inl n ↦ rw (n, place_at) r
            | inr ((i, j), s) ↦
                let f = choose-Chosen link c.now e o.pool.executors order i j s in
                rw (s, place_at) (rw (f.executor_at, place_at) (h i j f no'))
          ])
  ]

add_execution-holds :
    (id : ℕ) (f : ExecutorExecution) (q : ExecutorJobQueue)
    → queue_holds id (add_execution f q) ≡ queue_holds id q + one (has_id id f)
unfolding queue_holds add_execution sum_by
add_execution-holds id f q =
    omega (arith, sum_by-append (λ e. one (has_id id e)) q.executions (f ∷ []))

module _ (c : Clock) (e : ReadyExecution) (id : ℕ) where
  enqueue-holds :
      (j : ℕ) (x : Executor) (q : ExecutorJobQueue)
      → get_elem? x.job_queues j ≡ some q
      → executor_holds id (enqueue c e j x) ≡ executor_holds id x + one (e.execution_id == id)
  unfolding executor_holds executor_execution
  enqueue-holds j x q at =
      let f = executor_execution c e (initial_state c x) in
      omega (
        arith,
        sum_by-modify (queue_holds id) (add_execution f) x.job_queues j at,
        add_execution-holds id f q,
      )

  -- Placing an execution adds one place for it.
  pub place-holds :
      (i j : ℕ) (x : Executor) (q : ExecutorJobQueue) (o : Offering)
      → get_elem? o.pool.executors i ≡ some x
      → get_elem? x.job_queues j ≡ some q
      → holds id (place c e i j x o).pool ≡ holds id o.pool + one (e.execution_id == id)
  unfolding holds place
  place-holds i j x q o at at' = omega (
    arith,
    sum_by-modify (executor_holds id) (enqueue c e j) o.pool.executors i at,
    enqueue-holds j x q at',
  )

  pub place-executors_with :
      (i j : ℕ) (x : Executor) (o : Offering)
      → get_elem? o.pool.executors i ≡ some x
      → executors_with id (place c e i j x o).pool ≤ executors_with id o.pool
  unfolding executors_with place
  place-executors_with i j x o at =
      sum_by-modify-le (λ y. one (is_executor id y)) (enqueue c e j) o.pool.executors i at
        (omega arith)

suitable-lt :
    (now : ℕ) (e : ReadyExecution) (q : ExecutorJobQueue)
    → is_suitable now e q ≡ true
    → length q.executions < q.max_executions
unfolding has_capacity
suitable-lt now e q h = ground arith

-- A queue with capacity stays within its limit.
pub place-InLimit :
    (c : Clock) (e : ReadyExecution) (i j : ℕ) (x : Executor) (q : ExecutorJobQueue) (o : Offering)
    → get_elem? o.pool.executors i ≡ some x
    → get_elem? x.job_queues j ≡ some q
    → is_suitable c.now e q ≡ true
    → All QueuesInLimit o.pool.executors
    → All QueuesInLimit (place c e i j x o).pool.executors
unfolding place has_capacity add_execution
place-InLimit c e i j x q o at at' fits w =
    All-modify QueuesInLimit (enqueue c e j) o.pool.executors i w (λ y here l.
      All-modify InLimit (add_execution (executor_execution c e (initial_state c y))) y.job_queues j
        l
        (λ r there m.
          let same : r ≡ q = same_queue x q y r (ground arith) at' there in
          let room : length r.executions < r.max_executions =
            rw same (suitable-lt c.now e q fits) in
          omega (
            arith,
            room,
            length-append r.executions (executor_execution c e (initial_state c y) ∷ []),
          )))
  where
    same_queue :
        (x : Executor) (q : ExecutorJobQueue) (y : Executor) (r : ExecutorJobQueue)
        → y ≡ x
        → get_elem? x.job_queues j ≡ some q
        → get_elem? y.job_queues j ≡ some r
        → r ≡ q
    same_queue x q y r s a b =
        let e' : get_elem? x.job_queues j ≡ some r =
          subst (λ z. get_elem? z.job_queues j ≡ some r) s b in
        cc

-- An executor that has no queues gets nothing.
pub place-IsFresh :
    (c : Clock) (e : ReadyExecution) (i j : ℕ) (x : Executor) (o : Offering)
    → All IsFresh o.pool.executors
    → All IsFresh (place c e i j x o).pool.executors
unfolding place modify
place-IsFresh c e i j x o f =
    All-modify IsFresh (enqueue c e j) o.pool.executors i f (λ y at l n. rw (l n) refl)
