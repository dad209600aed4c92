-- ===== src/Server/Ignored.antt =====
-- After a pass that nobody disturbs, all that it fetched is ignored: the loop does not wake at once
-- for executions that it could not offer, or has just offered.
use ora.Base.{
  ℕ, ◌+◌, ◌≤◌, ◌≡◌, refl, ap, fun_ext, Bool, true, false, not, ◌&&◌, Option, none, some, List, [],
  ◌∷◌, map, arith, sum_by, sum_by-append, sum_by-modify, sum_by-flat_map, sum_by-retain_only, one,
  ◌==◌, flat_map, if_both, option_both, get_elem?, retain, insert, Dict, All,
}
use ora.Backend.{ReadyExecution}
use ora.Pool.State.{ExecutorExecution, ExecutorJobQueue, Executor, ExecutorPool, Clock, Output}
use ora.Pool.Queue.{has_id, is_accepted, executions_of, add_execution}
use ora.Pool.Offer.{
  forget_started, is_fresh, held_execution_ids, Offering, no_offers, offer_one, offer_all,
  try_offer, place, contains, enqueue, executor_execution, initial_state, accept_outright,
}
use ora.Pool.Accepted.{in_flight_execution_ids, is_not_started, pool_has_capacity}
use ora.Pool.Offering.{count_id, offer_one_cases, sum_by-map}
use ora.Pool.Batches.{offers_of, is_offer_of, place-offers, contains_of_pos}
use ora.Server.Ready.{
  Fetched, PassEnd, passed, Pass, new_pass, offer_batch, ready_pass, ignored_after,
}
use ora.Server.Passes.{fetched_ids, ready_pass-fetched}

module _ (id : ℕ) where
  offered_in_queue : ExecutorJobQueue → ℕ
  offered_in_queue q = sum_by (λ e. one (has_id id e && not (is_accepted e))) q.executions

  offered_in : Executor → ℕ
  offered_in x = sum_by offered_in_queue x.job_queues

  not_started_in : Dict (Option ℕ) → ℕ
  not_started_in m = sum_by (λ entry. one ((entry.0 == id) && is_not_started entry)) m

  in_flight : ExecutorPool → ℕ
  in_flight p = sum_by offered_in p.executors + not_started_in p.accepted_executions

  sum_by-retain_and :
      {A : Type 0} (f p : A → Bool) (xs : List A)
      → sum_by (λ x. one (f x)) (retain p xs) ≡ sum_by (λ x. one (f x && p x)) xs
  unfolding sum_by retain
  sum_by-retain_and f p [] = refl
  sum_by-retain_and f p (x ∷ xs) = ground (arith, sum_by-retain_and f p xs)

  offered_in-executions_of :
      (x : Executor)
      → sum_by (λ e. one (has_id id e && not (is_accepted e))) (executions_of x) ≡ offered_in x
  unfolding offered_in offered_in_queue
  offered_in-executions_of x = sum_by-flat_map _ (λ q. q.executions) x.job_queues

  in_flight_lem : (p : ExecutorPool) → count_id id (in_flight_execution_ids p) ≡ in_flight p
  unfolding in_flight in_flight_execution_ids not_started_in
  in_flight_lem p =
      let executions = flat_map executions_of p.executors in
      let pending = retain (λ e. not (is_accepted e)) executions in
      let waiting = retain is_not_started p.accepted_executions in
      omega (
        arith,
        sum_by-append (λ k. one (k == id)) (map (λ e. e.execution_id) pending)
            (map (λ entry. entry.0) waiting),
        sum_by-map (λ k. one (k == id)) (λ (e : ExecutorExecution). e.execution_id) pending,
        sum_by-map (λ k. one (k == id)) (λ (entry : ℕ × Option ℕ). entry.0) waiting,
        sum_by-retain_and (has_id id) (λ e. not (is_accepted e)) executions,
        sum_by-retain_and (λ (entry : ℕ × Option ℕ). entry.0 == id) is_not_started
            p.accepted_executions,
        sum_by-flat_map (λ e. one (has_id id e && not (is_accepted e))) executions_of p.executors,
        ap (λ (f : Executor → ℕ). sum_by f p.executors) (fun_ext offered_in-executions_of),
      )

  insert-more : (k : ℕ) (m : Dict (Option ℕ)) → not_started_in m ≤ not_started_in (insert k none m)
  unfolding not_started_in insert sum_by
  insert-more k [] = omega arith
  insert-more k (entry ∷ m) = ground (arith, insert-more k m)

  insert-itself : (k : ℕ) (m : Dict (Option ℕ)) → one (k == id) ≤ not_started_in (insert k none m)
  unfolding not_started_in insert sum_by
  insert-itself k [] = ground arith
  insert-itself k (entry ∷ m) = ground (arith, insert-itself k m)

  enqueue-offered :
      (c : Clock) (e : ReadyExecution) (j : ℕ) (x : Executor) (q : ExecutorJobQueue)
      → get_elem? x.job_queues j ≡ some q
      → offered_in (enqueue c e j x)
        ≡ offered_in x + one ((e.execution_id == id) && x.execution_handshake)
  unfolding offered_in offered_in_queue add_execution executor_execution initial_state sum_by
  enqueue-offered c e j x q at =
      let f = executor_execution c e (initial_state c x) in
      ground (
        arith,
        sum_by-modify offered_in_queue (add_execution f) x.job_queues j at,
        sum_by-append (λ e. one (has_id id e && not (is_accepted e))) q.executions (f ∷ []),
      )

  -- A placed execution is in flight, and so are those that were.
  place-in_flight :
      (c : Clock) (e : ReadyExecution) (i j : ℕ) (x : Executor) (q : ExecutorJobQueue)
      (o : Offering)
      → get_elem? o.pool.executors i ≡ some x
      → get_elem? x.job_queues j ≡ some q
      → (in_flight o.pool ≤ in_flight (place c e i j x o).pool)
        × (one (e.execution_id == id) ≤ in_flight (place c e i j x o).pool)
  unfolding in_flight place accept_outright
  place-in_flight c e i j x q o at at' =
      let added = enqueue-offered c e j x q at' in
      let changed = sum_by-modify offered_in (enqueue c e j) o.pool.executors i at in
      let more = insert-more e.execution_id o.pool.accepted_executions in
      let itself = insert-itself e.execution_id o.pool.accepted_executions in
      (ground (arith, added, changed, more), ground (arith, added, changed, itself))

  -- What was sent is in flight.
  Sent : List Output → ExecutorPool → Type 0
  Sent outputs p = 1 ≤ offers_of id outputs → 1 ≤ in_flight p

  module _ (link : ℕ → ℕ → Bool) (c : Clock) (held : List ℕ) where
    offer_one-Sent :
        (e : ReadyExecution × List ℕ) (o : Offering)
        → let o' = offer_one link c held e o in
          (in_flight o.pool ≤ in_flight o'.pool) × (Sent o.outputs o.pool → Sent o'.outputs o'.pool)
    unfolding Sent
    offer_one-Sent (e, order) o =
        offer_one_cases link c held e order
          (λ o'.
            (in_flight o.pool ≤ in_flight o'.pool)
            × (Sent o.outputs o.pool → Sent o'.outputs o'.pool))
          o (omega arith, λ h. h)
          (λ i j h free.
            let (more, itself) =
              place-in_flight c e i j h.executor h.queue o h.executor_at h.queue_at in
            (
              more,
              λ s some_sent.
                  ground (arith, more, itself, s, some_sent, place-offers c e i j id h.executor o),
            ))

    offer_all-Sent :
        (es : List (ReadyExecution × List ℕ)) (o : Offering)
        → let o' = offer_all link c held es o in
          (in_flight o.pool ≤ in_flight o'.pool) × (Sent o.outputs o.pool → Sent o'.outputs o'.pool)
    unfolding offer_all
    offer_all-Sent [] o = (omega arith, λ h. h)
    offer_all-Sent (e ∷ es) o =
        let (more, sent) = offer_one-Sent e o in
        let (more_later, sent_later) = offer_all-Sent es (offer_one link c held e o) in
        (omega (arith, more, more_later), λ s. sent_later (sent s))

  forget_started-in_flight :
      (fetched_at : ℕ) (p : ExecutorPool) → in_flight (forget_started fetched_at p) ≡ in_flight p
  unfolding in_flight forget_started not_started_in
  forget_started-in_flight fetched_at p = omega (
    arith,
    sum_by-retain_only (λ (entry : ℕ × Option ℕ). one ((entry.0 == id) && is_not_started entry))
        (is_fresh fetched_at) p.accepted_executions (λ entry h. ground arith),
  )

  try_offer-Sent :
      (link : ℕ → ℕ → Bool) (c : Clock) (fetched_at : ℕ) (es : List (ReadyExecution × List ℕ))
      (p : ExecutorPool)
      → let o = try_offer link c fetched_at es p in
        (in_flight p ≤ in_flight o.pool) × Sent o.outputs o.pool
  unfolding try_offer Sent offers_of sum_by
  try_offer-Sent link c fetched_at [] p = (omega arith, λ h. absurd (omega (arith, h)))
  try_offer-Sent link c fetched_at (e ∷ es) p =
      let p' = forget_started fetched_at p in
      let (more, sent) = offer_all-Sent link c (held_execution_ids p') (e ∷ es) (no_offers p') in
      (
        omega (arith, more, forget_started-in_flight fetched_at p),
        sent (λ h. absurd (omega (arith, h))),
      )

  offer_batch-Sent :
      (f : Fetched) (fetched_at : ℕ) (es : List (ReadyExecution × List ℕ)) (s : Pass)
      → f.meanwhile s.pool ≡ s.pool
      → Sent s.outputs s.pool
      → let t = offer_batch f fetched_at es s in Sent t.outputs t.pool
  unfolding Sent offer_batch offers_of
  offer_batch-Sent f fetched_at es s same sent h =
      let o = try_offer f.link f.clock fetched_at es (f.meanwhile s.pool) in
      let (more, sent_now) = try_offer-Sent f.link f.clock fetched_at es (f.meanwhile s.pool) in
      grind (
        arith,
        more,
        sent_now,
        sent,
        h,
        ap in_flight same,
        sum_by-append (λ o. one (is_offer_of id o)) s.outputs o.outputs,
      )

  ready_pass-Sent :
      (fs : List Fetched) (fetched_at : ℕ) (s : Pass)
      → All (λ f. (p : ExecutorPool) → f.meanwhile p ≡ p) fs
      → Sent s.outputs s.pool
      → let t = (ready_pass fs fetched_at s).1 in Sent t.outputs t.pool
  unfolding ready_pass
  ready_pass-Sent [] fetched_at s quiet sent = sent
  ready_pass-Sent (f ∷ fs) fetched_at s quiet sent = if_both IsSent f.is_waiting _ _ sent (
      option_both IsSent f.answer _ _ sent (λ es a.
        let t = offer_batch f fetched_at es s in
        let now = offer_batch-Sent f fetched_at es s (quiet.0 s.pool) sent in
        if_both IsSent (pool_has_capacity f.capacity_at t.pool) _ _
          (ready_pass-Sent fs f.fetched_next t quiet.1 now) now))
    where
      IsSent : PassEnd × Pass → Type 0
      IsSent r = Sent r.1.outputs r.1.pool

-- If a pass ends with room left, without an error and without a shutdown, and nothing else changes
-- the pool meanwhile, every execution that it fetched is ignored when the loop then waits for ready
-- executions.
pub ready_pass-ignored :
    (fs : List Fetched) (fetched_at id : ℕ) (p : ExecutorPool)
    → All (λ f. (p : ExecutorPool) → f.meanwhile p ≡ p) fs
    → (ready_pass fs fetched_at (new_pass p)).0 ≡ passed false
    → 1 ≤ count_id id (fetched_ids fs)
    → let s = (ready_pass fs fetched_at (new_pass p)).1 in
      contains id (ignored_after s s.pool) ≡ true
unfolding new_pass offers_of sum_by Sent ignored_after
ready_pass-ignored fs fetched_at id p quiet h fetched =
    let s = (ready_pass fs fetched_at (new_pass p)).1 in
    let sent =
      ready_pass-Sent id fs fetched_at (new_pass p) quiet (λ z. absurd (omega (arith, z))) in
    contains_of_pos id (ignored_after s s.pool) (
      grind (
        arith,
        sent,
        fetched,
        ready_pass-fetched fs fetched_at id p h,
        in_flight_lem id s.pool,
        sum_by-append (λ k. one (k == id)) s.ignored_execution_ids (in_flight_execution_ids s.pool),
      ))
