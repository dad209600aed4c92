-- ===== src/Server/Attempts.antt =====
-- `retry_backend` of crates/ora-server/src/server/executions.rs: a backend operation is repeated
-- until it succeeds, or until the attempts are used up.
-- `outcome n` is what attempt `n` gives, and `is_waiting n` whether the wait group waits after it.
use ora.Base.{
  ℕ, zero, suc, ◌+◌, ◌*◌, ◌/◌, min, Bool, Option, none, some, List, [], ◌∷◌, leb, if◌then◌else◌,
}
use ora.Time.{from_secs, second}

pub data Outcome (T E : Type 0) : Type 0 where
  ok : T → Outcome T E
  err : E → Outcome T E

-- The result, and the pauses before it.
pub record Run (T E : Type 0) : Type 0 where
  pub result : Outcome T E
  pub sleeps : List ℕ

abbrev pub backend_error_delay : ℕ
backend_error_delay = from_secs 5

abbrev pub max_shutdown_attempts : ℕ
max_shutdown_attempts = 3

-- 100 milliseconds.
abbrev pub first_delay : ℕ
first_delay = second / 10

abbrev pub next_delay : ℕ → ℕ
next_delay delay = min (delay * 2) backend_error_delay

unfoldable pub attempt_limit : Bool → ℕ → ℕ
attempt_limit waiting max_attempts =
    if waiting then min max_attempts max_shutdown_attempts else max_attempts

module _ {T E : Type 0} where
  abbrev pub after_sleep : ℕ → Option (Run T E) → Option (Run T E)
  after_sleep delay none = none
  after_sleep delay (some r) = some (record r { sleeps = delay ∷ r.sleeps })

  module _ (outcome : ℕ → Outcome T E) (is_waiting : ℕ → Bool) (max_attempts : ℕ) where
    abbrev pub give_up : ℕ → Bool
    give_up attempt = leb (attempt_limit (is_waiting attempt) max_attempts) attempt

    -- The loop from an attempt on; `none` means that the fuel ran out.
    unfoldable pub retry_from : ℕ → ℕ → ℕ → Option (Run T E)
    retry_from zero attempt delay = none
    retry_from (suc fuel) attempt delay =
        let rest = retry_from fuel (attempt + 1) (next_delay delay) in
        elim (outcome attempt) [
          | ok v ↦ some (record { result = ok v; sleeps = [] })
          | err e ↦
              if give_up attempt
              then some (record { result = err e; sleeps = [] })
              else after_sleep delay rest
        ]

    -- There are `max_attempts` rounds at most.
    unfoldable pub retry_backend : Option (Run T E)
    retry_backend = retry_from (suc max_attempts) 1 first_delay
