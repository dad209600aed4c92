-- ===== src/Pool/Invariant.antt =====
-- What holds of the pool between two calls, and that every call keeps it.
use ora.Base.{
  ℕ, refl, ◌+◌, ◌≤◌, ◌≡◌, inl, inr, Bool, true, false, List, [], ◌∷◌, Option, arith, sum_by,
  sum_by-append, one, ◌==◌, All, All-append, Option-cases,
}
use ora.Backend.{ReadyExecution}
use ora.Pool.State.{ExecutorPool, Clock}
use ora.Pool.Queue.{remove_at}
use ora.Pool.Offer.{
  forget_started, held_execution_ids, contains, Offering, no_offers, offer_one, offer_all,
  try_offer,
}
use ora.Pool.Accepted.{accepted_executions_started, accepted_executions_not_started}
use ora.Pool.Cancel.{locate, cancel_one, cancel_all, cancel_execution_ids}
use ora.Pool.Turn.{Wake, Env, is_executor}
use ora.Pool.Loop.{executor_round, new_executor, add_executor}
use ora.Pool.Measure.{
  executor_holds, holds, executors_with, QueuesInLimit, IsFresh, Narrows, Narrows-refl,
  Narrows-trans, Narrows-modify, Narrows-accepted,
}
use ora.Pool.Rounds.{executor_round-Narrows}
use ora.Pool.Shrinking.{remove_at-Shrinks}
use ora.Pool.Offering.{
  count_id-zero, holds-le-held, offer_one_cases, place-holds, place-executors_with, place-InLimit,
  place-IsFresh,
}

-- An execution stands in one place at most, executor IDs are not shared, no queue holds more
-- executions than its executor allows, and an executor has no queues before it is initialized.
pub record Inv (p : ExecutorPool) : Type 0 where
  pub distinct : (id : ℕ) → holds id p ≤ 1
  pub unique : (id : ℕ) → executors_with id p ≤ 1
  pub within : All QueuesInLimit p.executors
  pub fresh : All IsFresh p.executors

pub Narrows-Inv : (p q : ExecutorPool) → Narrows p q → Inv p → Inv q
Narrows-Inv p q n v = record {
  distinct = λ id. omega (arith, n.fewer id, v.distinct id);
  unique = λ id. omega (arith, n.same_executors id, v.unique id);
  within = n.within v.within;
  fresh = n.fresh v.fresh;
}

-- How often an execution stands in a batch.
abbrev pub batch_count : ℕ → List (ReadyExecution × List ℕ) → ℕ
batch_count id es = sum_by (λ e. one (e.0.execution_id == id)) es

-- In the course of `try_offer`: what is not held, and is still in the batch, is not in the pool.
record Offers (held : List ℕ) (es : List (ReadyExecution × List ℕ)) (p : ExecutorPool)
    : Type 0 where
  inv : Inv p
  new : (id : ℕ) → contains id held ≡ false → holds id p + batch_count id es ≤ 1

module _ (link : ℕ → ℕ → Bool) (c : Clock) (held : List ℕ) where
  offer_one-Offers :
      (e : ReadyExecution × List ℕ) (es : List (ReadyExecution × List ℕ)) (o : Offering)
      → Offers held (e ∷ es) o.pool
      → Offers held es (offer_one link c held e o).pool
  unfolding sum_by
  offer_one-Offers (e, order) es o v =
      offer_one_cases link c held e order (λ o'. Offers held es o'.pool) o
        (record { inv = v.inv; new = λ id h. omega (arith, v.new id h) })
        (λ i j h free. record {
          inv = record {
            distinct = λ id. ground (
              arith,
              v.inv.distinct id,
              v.new e.execution_id free,
              v.new id,
              place-holds c e id i j h.executor h.queue o h.executor_at h.queue_at,
            );
            unique = λ id. omega (
              arith,
              v.inv.unique id,
              place-executors_with c e id i j h.executor o h.executor_at,
            );
            within =
                place-InLimit c e i j h.executor h.queue o h.executor_at h.queue_at h.suitable
                  v.inv.within;
            fresh = place-IsFresh c e i j h.executor o v.inv.fresh;
          };
          new = λ id n. omega (
            arith,
            v.new id n,
            place-holds c e id i j h.executor h.queue o h.executor_at h.queue_at,
          );
        })

  offer_all-Inv :
      (es : List (ReadyExecution × List ℕ)) (o : Offering)
      → Offers held es o.pool
      → Inv (offer_all link c held es o).pool
  unfolding offer_all
  offer_all-Inv [] o v = v.inv
  offer_all-Inv (e ∷ es) o v =
      offer_all-Inv es (offer_one link c held e o) (offer_one-Offers e es o v)

forget_started-Inv : (t : ℕ) (p : ExecutorPool) → Inv p → Inv (forget_started t p)
unfolding forget_started
forget_started-Inv t p = Narrows-Inv p _ (Narrows-accepted p p _ (Narrows-refl p))

-- Offering a batch of distinct executions keeps the invariant.
pub try_offer-Inv :
    (link : ℕ → ℕ → Bool) (c : Clock) (fetched_at : ℕ) (es : List (ReadyExecution × List ℕ))
    (p : ExecutorPool)
    → ((id : ℕ) → batch_count id es ≤ 1)
    → Inv p
    → Inv (try_offer link c fetched_at es p).pool
unfolding try_offer
try_offer-Inv link c fetched_at [] p d v = v
try_offer-Inv link c fetched_at (e ∷ es) p d v =
    let p' = forget_started fetched_at p in
    offer_all-Inv link c (held_execution_ids p') (e ∷ es) (no_offers p') (record {
      inv = forget_started-Inv fetched_at p v;
      new = λ id h.
          omega (arith, d id, holds-le-held id p', count_id-zero id (held_execution_ids p') h);
    })

-- A round of an executor's task keeps it.
pub executor_round-Inv :
    (env : Env) (id : ℕ) (d : Option ℕ) (w : Wake) (p : ExecutorPool)
    → Inv p
    → Inv (executor_round env id d w p).pool
executor_round-Inv env id d w p = Narrows-Inv p _ (executor_round-Narrows env id d w p)

cancel_one-Narrows :
    (id : ℕ) (p : ExecutorPool) → Narrows p (record p { executors = (cancel_one id p.executors).0 })
unfolding cancel_one
cancel_one-Narrows id p = elim (Option-cases (locate id p.executors)) [
  | inl n ↦ rw (n, cancel_one) (Narrows-refl p)
  | inr ((k, j, i), f) ↦
      rw (f, cancel_one) (Narrows-modify k (remove_at j i) p (remove_at-Shrinks j i))
]

cancel_all-Narrows :
    (ids : List ℕ) (p : ExecutorPool)
    → Narrows p (record p { executors = (cancel_all ids p.executors).0 })
unfolding cancel_all
cancel_all-Narrows [] p = Narrows-refl p
cancel_all-Narrows (id ∷ ids) p =
    let q = record p { executors = (cancel_one id p.executors).0 } in
    Narrows-trans p q (cancel_one-Narrows id p) (cancel_all-Narrows ids q)

-- So does the cancellation of executions.
pub cancel_execution_ids-Inv :
    (ids : List ℕ) (p : ExecutorPool) → Inv p → Inv (cancel_execution_ids ids p).0
unfolding cancel_execution_ids
cancel_execution_ids-Inv ids p = Narrows-Inv p _ (cancel_all-Narrows ids p)

pub accepted_executions_started-Inv :
    (now : ℕ) (ids : List ℕ) (p : ExecutorPool)
    → Inv p
    → Inv (accepted_executions_started now ids p).0
unfolding accepted_executions_started
accepted_executions_started-Inv now ids p =
    Narrows-Inv p _ (Narrows-accepted p p _ (Narrows-refl p))

pub accepted_executions_not_started-Inv :
    (ids : List ℕ) (p : ExecutorPool) → Inv p → Inv (accepted_executions_not_started ids p).0
unfolding accepted_executions_not_started
accepted_executions_not_started-Inv ids p =
    Narrows-Inv p _ (Narrows-accepted p p _ (Narrows-refl p))

-- A new executor comes under an ID of its own, and with no queues.
pub add_executor-Inv :
    (c : Clock) (id : ℕ) (connected : Bool) (p : ExecutorPool)
    → executors_with id p ≡ 0
    → Inv p
    → Inv (add_executor c id connected p).0
unfolding add_executor new_executor executors_with holds executor_holds sum_by
add_executor-Inv c id false p free v = v
add_executor-Inv c id true p free v = record {
  distinct = λ i.
      omega (
        arith,
        v.distinct i,
        sum_by-append (executor_holds i) p.executors (new_executor c id ∷ []),
      );
  unique = λ i. ground (
    arith,
    v.unique i,
    free,
    sum_by-append (λ x. one (is_executor i x)) p.executors (new_executor c id ∷ []),
  );
  within = All-append QueuesInLimit p.executors (new_executor c id ∷ []) v.within (tt, tt);
  fresh = All-append IsFresh p.executors (new_executor c id ∷ []) v.fresh ((λ n. refl), tt);
}
