-- ===== src/Tests/Ready.antt =====
-- The theorem about a pass over ready executions at a concrete input.
use ora.Base.{ℕ, ◌≡◌, ◌≤◌, refl, arith, true, false, some, List, [], ◌∷◌, map}
use ora.Pool.State.{ExecutorJobQueue, Executor, ExecutorPool}
use ora.Pool.Offer.{contains}
use ora.Server.Ready.{Fetched, new_pass, ready_pass, ignored_after}
use ora.Server.Ignored.{ready_pass-ignored}
use ora.Tests.Data.{ready, every, clock, busy_pool}

-- The executor has room for three executions, and was offered one of the two that are ready.
abbrev roomy_pool : ExecutorPool
roomy_pool = record busy_pool {
  executors =
      map
        (λ (x : Executor). record x {
          job_queues = map (λ (q : ExecutorJobQueue). record q { max_executions = 3 }) x.job_queues;
        })
        busy_pool.executors;
}

abbrev fetched : List Fetched
fetched =
    record {
      is_waiting = false;
      answer = some ((ready 7, 0 ∷ []) ∷ (ready 8, 0 ∷ []) ∷ []);
      meanwhile = λ p. p;
      link = every;
      clock = clock;
      capacity_at = 11;
      fetched_next = 12;
    }
    ∷ []

ready_pass-ignored_example :
    let s = (ready_pass fetched 0 (new_pass roomy_pool)).1 in
    contains 8 (ignored_after s s.pool) ≡ true
unfolding ready_pass ora.Pool.Accepted.pool_has_capacity ora.Base.any ora.Base.flat_map
    ora.Pool.Offer.try_offer ora.Pool.Offer.offer_all ora.Pool.Offer.offer_one contains
    ora.Pool.Offer.held_execution_ids ora.Pool.Offer.forget_started new_pass
    ora.Pool.Queue.has_capacity ora.Base.sum_by ora.Server.Passes.fetched_ids ora.Base.retain
    ora.Pool.Offer.place_at ora.Pool.Offer.choose ora.Pool.Offer.suitable_queue ora.Base.position
    ora.Base.modify ora.Pool.Queue.add_execution
ready_pass-ignored_example =
    ready_pass-ignored fetched 0 8 roomy_pool (λ p. refl, tt) refl (omega arith)
