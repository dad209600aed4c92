-- ===== src/Server/Receiving.antt =====
-- How `execution_starts_loop` and `executor_events_loop` of
-- crates/ora-server/src/server/executions.rs wait for what they handle: a round takes one branch of
-- their `select!`, which must be ready.
use ora.Base.{
  ℕ, ◌+◌, ◌-◌, min, Bool, true, false, not, ◌&&◌, Option, none, some, List, [], ◌∷◌, take, drop,
  leb, if◌then◌else◌,
}
use ora.Time.{from_secs, duration_max}
use ora.Util.{deadline_after}

-- The channel that a loop receives from, in the order of sending.
pub record Receiver {ℓ} (E : Type ℓ) : Type ℓ where
  pub shutdown_deadline : Option ℕ
  pub channel : List E

-- What a round finds: the time, whether the pool has no executors, whether anyone can still send,
-- and whether the wait group waits.
pub record Moment : Type 0 where
  pub now : ℕ
  pub pool_is_empty : Bool
  pub has_senders : Bool
  pub is_waiting : Bool

-- A branch of `select!`.
pub data Branch : Type 0 where
  waiting deadline_elapsed check_executors received closed : Branch

pub data StopReason : Type 0 where
  executors_gone deadline channel_closed : StopReason

pub data Round {ℓ} (E : Type ℓ) : Type ℓ where
  stops : StopReason → Round E
  waits : Receiver E → Round E
  handles : List E → Receiver E → Round E

abbrev pub max_executor_event_batch : ℕ
max_executor_event_batch = 1000

abbrev pub max_start_batch : ℕ
max_start_batch = 1000

abbrev pub shutdown_events_margin : ℕ
shutdown_events_margin = from_secs 5

-- `limit` is the last representable instant.
unfoldable pub shutdown_events_deadline : ℕ → ℕ → ℕ → ℕ
unfolding deadline_after
shutdown_events_deadline limit grace_period now =
    deadline_after limit now (min (grace_period + shutdown_events_margin) duration_max)

abbrev pub no_more {ℓ} : {E : Type ℓ} → List E → Bool
no_more [] = true
no_more (e ∷ es) = false

module _ {ℓ} {E : Type ℓ} where
  -- The first event, and those that arrived meanwhile, up to `max_batch`.
  unfoldable pub receive : ℕ → Option ℕ → List E → Option (Round E)
  receive max_batch d [] = none
  receive max_batch d (e ∷ es) = some (
      handles (e ∷ take (max_batch - 1) es)
        (record { shutdown_deadline = d; channel = drop (max_batch - 1) es }))

  unfoldable pub receive_closed : Moment → Receiver E → Option (Round E)
  receive_closed m r =
      if no_more r.channel && not m.has_senders then some (stops channel_closed) else none

  -- `none`: the branch is not ready, or is none of this `select!`.
  unfoldable pub select_running : ℕ → ℕ → ℕ → Moment → Branch → Receiver E → Option (Round E)
  unfolding receive receive_closed shutdown_events_deadline
  select_running limit grace max_batch m waiting r =
      if m.is_waiting
      then some (
          waits
            (record r { shutdown_deadline = some (shutdown_events_deadline limit grace m.now) }))
      else none
  select_running limit grace max_batch m received r =
      receive max_batch r.shutdown_deadline r.channel
  select_running limit grace max_batch m closed r = receive_closed m r
  select_running limit grace max_batch m other r = none

  unfoldable pub select_shutdown : ℕ → ℕ → Moment → Branch → Receiver E → Option (Round E)
  unfolding receive receive_closed
  select_shutdown max_batch d m deadline_elapsed r =
      if leb d m.now then some (stops deadline) else none
  select_shutdown max_batch d m check_executors r = some (waits r)
  select_shutdown max_batch d m received r = receive max_batch r.shutdown_deadline r.channel
  select_shutdown max_batch d m closed r = receive_closed m r
  select_shutdown max_batch d m other r = none

  unfoldable pub receive_round : ℕ → ℕ → ℕ → Moment → Branch → Receiver E → Option (Round E)
  unfolding select_running select_shutdown
  receive_round limit grace max_batch m b r = elim r.shutdown_deadline [
    | none ↦ select_running limit grace max_batch m b r
    | some d ↦
        if m.pool_is_empty && no_more r.channel
        then some (stops executors_gone)
        else select_shutdown max_batch d m b r
  ]

abbrev pub new_receiver {ℓ} : {E : Type ℓ} → Receiver E
new_receiver = record { shutdown_deadline = none; channel = [] }
