-- ===== src/Convert/Status.antt =====
-- What the gRPC services answer: a value, or a status.
use ora.Base.{String, Option, none, some, List, [], ◌∷◌}
use ora.Base.Int.{ℤ}
use ora.Schedule.Defs.{ScheduleTimeError}

-- The reasons for `Status::invalid_argument`, in place of their wording.
pub data Invalid : Type 0 where
  job_type_id id : String → Invalid
  missing_target_execution_time invalid_target_execution_time : Invalid
  invalid_start_time invalid_end_time : Invalid
  missing_scheduling_policy missing_job_template : Invalid
  pending_reasons_without_pending : Invalid
  pending_reason : ℤ → Invalid
  labels time payload : Invalid
  schedule : ScheduleTimeError → Invalid

pub data Status : Type 0 where
  invalid_argument : Invalid → Status
  unavailable internal : Status

pub data Answer (A : Type 0) : Type 0 where
  fine : A → Answer A
  refused : Status → Answer A

infixl 5 ◌>>=◌
abbrev pub ◌>>=◌ : {A B : Type 0} → Answer A → (A → Answer B) → Answer B
fine a >>= f = f a
refused s >>= f = refused s

-- `ok_or_else(|| Status::invalid_argument(…))`.
abbrev pub or_invalid : {A : Type 0} → Option A → Invalid → Answer A
or_invalid none why = refused (invalid_argument why)
or_invalid (some a) why = fine a

-- `map(…).collect::<Result<Vec<_>, _>>()`: the first failure is the answer.
unfoldable pub collect : {A B : Type 0} → (A → Answer B) → List A → Answer (List B)
collect f [] = fine []
collect f (x ∷ xs) = let rest = collect f xs in do y ← f x; ys ← rest; fine (y ∷ ys)
