-- ===== src/Server/Ready.antt =====
-- `ready_executions_loop` of crates/ora-server/src/server/executions.rs: one pass over the batches
-- that the backend returns, and what the loop waits for after it.
use ora.Base.{
  ℕ, ◌+◌, Bool, true, false, not, Option, none, some, List, [], ◌∷◌, ◌++◌, min, if◌then◌else◌,
}
use ora.Time.{from_secs}
use ora.Backend.{ReadyExecution}
use ora.Pool.State.{ExecutorPool, Clock, Output}
use ora.Pool.Offer.{try_offer}
use ora.Pool.Accepted.{pool_has_capacity, earliest_backoff_end, in_flight_execution_ids}

-- What the stream gives, with the order in which executors are tried for each execution; `none` is
-- an error. `meanwhile` is what others do to the pool before the batch is offered. The clock is
-- read again for the capacity, and for the time of the next fetch.
pub record Fetched : Type 0 where
  pub is_waiting : Bool
  pub answer : Option (List (ReadyExecution × List ℕ))
  pub meanwhile : ExecutorPool → ExecutorPool
  pub link : ℕ → ℕ → Bool
  pub clock : Clock
  pub capacity_at : ℕ
  pub fetched_next : ℕ

pub data PassEnd : Type 0 where
  shut_down fetch_failed : PassEnd
  passed : (saturated : Bool) → PassEnd

pub record Pass : Type 0 where
  pub pool : ExecutorPool
  pub outputs : List Output
  pub ignored_execution_ids : List ℕ

-- One batch is offered.
unfoldable pub offer_batch : Fetched → ℕ → List (ReadyExecution × List ℕ) → Pass → Pass
offer_batch f fetched_at batch s =
    let offered = try_offer f.link f.clock fetched_at batch (f.meanwhile s.pool) in
    record {
      pool = offered.pool;
      outputs = s.outputs ++ offered.outputs;
      ignored_execution_ids = s.ignored_execution_ids ++ offered.not_offered;
    }

unfoldable pub ready_pass : List Fetched → ℕ → Pass → PassEnd × Pass
unfolding offer_batch
ready_pass [] fetched_at s = (passed false, s)
ready_pass (f ∷ fs) fetched_at s =
    let later = λ (t : Pass). ready_pass fs f.fetched_next t in
    if f.is_waiting then (shut_down, s) else elim f.answer [
      | none ↦ (fetch_failed, s)
      | some batch ↦
          let t = offer_batch f fetched_at batch s in
          if pool_has_capacity f.capacity_at t.pool then later t else (passed true, t)
    ]

unfoldable pub new_pass : ExecutorPool → Pass
new_pass pool = record { pool = pool; outputs = []; ignored_execution_ids = [] }

-- What is ignored after the pass, with the pool as it is then.
unfoldable pub ignored_after : Pass → ExecutorPool → List ℕ
ignored_after s pool = s.ignored_execution_ids ++ in_flight_execution_ids pool

-- The check comes after five seconds, or when the first backoff ends.
unfoldable pub check_deadline : ℕ → ℕ → ExecutorPool → ℕ
check_deadline now backoff_now pool = elim (earliest_backoff_end backoff_now pool) [
  | none ↦ now + from_secs 5
  | some backoff_end ↦ min (now + from_secs 5) backoff_end
]

pub data ReadyWake : Type 0 where
  periodic_check backend_ready executor_available shutting_down : ReadyWake

abbrev pub is_nonempty : List ℕ → Bool
is_nonempty [] = false
is_nonempty (_ ∷ _) = true

-- The branches of the two `select!`s that are enabled.
unfoldable pub is_awaited : Bool → List ℕ → ReadyWake → Bool
is_awaited saturated ignored periodic_check = true
is_awaited saturated ignored backend_ready = not saturated
is_awaited saturated ignored executor_available = if saturated then true else is_nonempty ignored
is_awaited saturated ignored shutting_down = true
