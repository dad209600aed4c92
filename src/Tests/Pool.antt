-- ===== src/Tests/Pool.antt =====
-- The pool's theorems at concrete inputs.
use ora.Base.{◌+◌, ◌≡◌, refl, true, false, none, [], ◌∷◌, arith, sum_by, flat_map, retain, any}
use ora.Pool.Offer.{try_offer, contains}
use ora.Pool.Accepted.{in_flight_execution_ids}
use ora.Pool.Cancel.{cancel_execution_ids}
use ora.Pool.Loop.{executor_round}
use ora.Pool.Measure.{holds, executors_with}
use ora.Pool.Invariant.{Inv}
use ora.Pool.History.{Reachable, start, next, offer, round, connect, new_pool, Reachable-Inv}
use ora.Pool.Ledger.{assigned, started, reported}
use ora.Pool.Conservation.{executor_round-Balanced}
use ora.Pool.Batches.{offers_of, in_flight_not_offered, try_offer-offers_of}
use ora.Pool.Cancelling.{cancels, cancel_execution_ids-holds}
use ora.Tests.Data.{
  clock, env, every, hello, connected, initialized, batch, offered_pool, busy_pool, acceptance,
}

no_executors : executors_with 1 new_pool ≡ 0
unfolding executors_with new_pool sum_by
no_executors = refl

pub offered_pool-Reachable : Reachable offered_pool
offered_pool-Reachable =
    next
      (next (next start (connect clock 1 true new_pool no_executors))
        (round env 1 none hello connected))
      (offer every clock 0 batch initialized (λ id. unfold sum_by in ground arith))

Reachable-Inv_example : Inv offered_pool
Reachable-Inv_example = Reachable-Inv offered_pool-Reachable

executor_round-Balanced_example :
    let t = executor_round env 1 none acceptance offered_pool in
    assigned 7 offered_pool + started 7 t.outputs ≡ assigned 7 t.pool + reported 7 t.outputs
executor_round-Balanced_example =
    executor_round-Balanced 7 env 1 none acceptance offered_pool
      (Reachable-Inv offered_pool-Reachable).fresh tt (refl, refl)

is_in_flight : contains 7 (in_flight_execution_ids busy_pool) ≡ true
unfolding in_flight_execution_ids flat_map retain contains any
is_in_flight = refl

in_flight_not_offered_example :
    let o = try_offer every clock 0 batch busy_pool in
    (offers_of 7 o.outputs ≡ 0) × (holds 7 o.pool ≡ holds 7 busy_pool)
in_flight_not_offered_example = in_flight_not_offered every clock 0 batch busy_pool 7 is_in_flight

try_offer-offers_of_example :
    let o = try_offer every clock 0 batch initialized in
    holds 7 o.pool ≡ holds 7 initialized + offers_of 7 o.outputs
try_offer-offers_of_example = try_offer-offers_of every clock 0 batch initialized 7

cancel_execution_ids-holds_example :
    let (p', out) = cancel_execution_ids (7 ∷ []) offered_pool in
    (contains 7 (7 ∷ []) ≡ true → (holds 7 p' ≡ 0) × (cancels 7 out ≡ holds 7 offered_pool))
    × (contains 7 (7 ∷ []) ≡ false → (holds 7 p' ≡ holds 7 offered_pool) × (cancels 7 out ≡ 0))
cancel_execution_ids-holds_example =
    cancel_execution_ids-holds 7 (7 ∷ []) offered_pool
      ((Reachable-Inv offered_pool-Reachable).distinct 7)
