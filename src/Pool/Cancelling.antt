-- ===== src/Pool/Cancelling.antt =====
-- What a cancellation does.
use ora.Base.{
  ℕ, ◌+◌, ◌≤◌, ◌≡◌, refl, List, [], ◌∷◌, true, none, arith, Option-cases, inl, inr, sum_by,
  sum_by-modify, sum_by-append, one, ◌==◌, Bool, false, any, subst, Bool-cases,
}
use ora.Pool.State.{
  Executor, ExecutorPool, ServerMessage, properties, execution_ready, execution_cancelled, Output,
  send_to, emit, start, notify_available, notify_starts,
}
use ora.Pool.Offer.{contains}
use ora.Pool.Queue.{find_execution_mut, remove_at}
use ora.Pool.Cancel.{locate, cancel_one, cancel_all, announce, cancel_execution_ids}
use ora.Pool.Places.{find_execution-none, find_execution_inv, locate_inv, remove_at-holds}
use ora.Pool.Measure.{holds, executor_holds}

-- A search of all executors fails only where the execution is nowhere.
locate-none :
    (id : ℕ) (xs : List Executor) → locate id xs ≡ none → sum_by (executor_holds id) xs ≡ 0
unfolding locate executor_holds sum_by
locate-none id [] h = refl
locate-none id (x ∷ xs) h = elim (Option-cases (find_execution_mut id x)) [
  | inl n ↦ ground (arith, locate-none id xs, find_execution-none id x.job_queues)
  | inr (p, f) ↦ ground arith
]

abbrev pub is_cancellation : ℕ → ServerMessage → Bool
is_cancellation id (execution_cancelled k) = k == id
is_cancellation id (properties i t) = false
is_cancellation id (execution_ready e) = false

abbrev pub output_cancels : ℕ → Output → ℕ
output_cancels id (send_to x m) = one (is_cancellation id m)
output_cancels id (emit e) = 0
output_cancels id (start s) = 0
output_cancels id notify_available = 0
output_cancels id notify_starts = 0

-- How many executors are told that an execution is cancelled.
unfoldable pub cancels : ℕ → List Output → ℕ
cancels id out = sum_by (output_cancels id) out

-- Each place that is freed is paired with a message.
cancel_one-holds :
    (id k : ℕ) (xs : List Executor)
    → sum_by (executor_holds k) (cancel_one id xs).0 + cancels k (cancel_one id xs).1
      ≡ sum_by (executor_holds k) xs
unfolding cancel_one cancels sum_by
cancel_one-holds id k xs = elim (Option-cases (locate id xs)) [
  | inl n ↦ rw (n, cancel_one) (omega arith)
  | inr ((i, j, m), f) ↦
      let (x, at, found) = locate_inv id xs i j m f in
      let (q, e, at', at'', same) = find_execution_inv id x.job_queues j m found in
      rw (f, cancel_one)
        (grind (
          arith,
          same,
          remove_at-holds k j m x q e at' at'',
          sum_by-modify (executor_holds k) (remove_at j m) xs i at,
        ))
]

-- Where the execution stands, one place is freed.
cancel_one-found :
    (id : ℕ) (xs : List Executor)
    → sum_by (executor_holds id) xs ≤ 1
    → sum_by (executor_holds id) (cancel_one id xs).0 ≡ 0
unfolding cancel_one
cancel_one-found id xs d = elim (Option-cases (locate id xs)) [
  | inl n ↦ rw (n, cancel_one) (locate-none id xs n)
  | inr ((i, j, m), f) ↦
      let (x, at, found) = locate_inv id xs i j m f in
      let (q, e, at', at'', same) = find_execution_inv id x.job_queues j m found in
      rw (f, cancel_one)
        (grind (
          arith,
          same,
          remove_at-holds id j m x q e at' at'',
          sum_by-modify (executor_holds id) (remove_at j m) xs i at,
        ))
]

-- Other executions are not told of.
cancel_one-others :
    (id k : ℕ) (xs : List Executor) → (id == k) ≡ false → cancels k (cancel_one id xs).1 ≡ 0
unfolding cancel_one cancels sum_by
cancel_one-others id k xs h = elim (Option-cases (locate id xs)) [
  | inl n ↦ rw (n, cancel_one) refl
  | inr ((i, j, m), f) ↦ rw (f, cancel_one) (ground arith)
]

cancel_all-holds :
    (k : ℕ) (ids : List ℕ) (xs : List Executor)
    → (sum_by (executor_holds k) (cancel_all ids xs).0 + cancels k (cancel_all ids xs).1
        ≡ sum_by (executor_holds k) xs)
      × (contains k ids ≡ false → cancels k (cancel_all ids xs).1 ≡ 0)
unfolding cancel_all cancels contains any sum_by
cancel_all-holds k [] xs = (omega arith, λ h. refl)
cancel_all-holds k (id ∷ ids) xs =
    let first = cancel_one id xs in
    let rest = cancel_all-holds k ids first.0 in
    let both = sum_by-append (output_cancels k) first.1 (cancel_all ids first.0).1 in
    let one' = cancel_one-holds id k xs in
    (omega (arith, rest, both, one'), λ h. ground (arith, rest, both, cancel_one-others id k xs))

cancel_all-found :
    (k : ℕ) (ids : List ℕ) (xs : List Executor)
    → sum_by (executor_holds k) xs ≤ 1
    → contains k ids ≡ true
    → sum_by (executor_holds k) (cancel_all ids xs).0 ≡ 0
unfolding cancel_all contains any
cancel_all-found k [] xs d h = cc
cancel_all-found k (id ∷ ids) xs d h =
    let first = (cancel_one id xs).0 in
    let fewer = cancel_one-holds id k xs in
    elim (Bool-cases (id == k)) [
      | inl same ↦
          let e : id ≡ k = ground arith in
          let gone : sum_by (executor_holds k) first ≡ 0 =
            subst (λ n. sum_by (executor_holds n) xs ≤ 1 → sum_by (executor_holds n) first ≡ 0) e
              (cancel_one-found id xs) d in
          omega (arith, cancel_all-holds k ids first)
      | inr other ↦ cancel_all-found k ids first (omega arith) (ground arith)
    ]

announce-cancels : (k : ℕ) (out : List Output) → cancels k (announce out) ≡ cancels k out
unfolding announce cancels sum_by
announce-cancels k [] = refl
announce-cancels k (o ∷ os) =
    omega (arith, sum_by-append (output_cancels k) os (notify_available ∷ []))

-- After a cancellation in a pool where an execution stands in one place at most, no executor holds
-- an execution that was to be cancelled, and all others stand as before. As many executors are told
-- of a cancelled execution as held it, and none is told of another one.
pub cancel_execution_ids-holds :
    (k : ℕ) (ids : List ℕ) (p : ExecutorPool)
    → holds k p ≤ 1
    → let (p', out) = cancel_execution_ids ids p in
      (contains k ids ≡ true → (holds k p' ≡ 0) × (cancels k out ≡ holds k p))
      × (contains k ids ≡ false → (holds k p' ≡ holds k p) × (cancels k out ≡ 0))
unfolding cancel_execution_ids holds
cancel_execution_ids-holds k ids p d =
    let moved = cancel_all-holds k ids p.executors in
    let told = announce-cancels k (cancel_all ids p.executors).1 in
    (
      λ h. let gone = cancel_all-found k ids p.executors d h in (gone, omega arith),
      λ h. let none' = moved.1 h in (omega arith, omega arith),
    )
