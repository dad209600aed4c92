-- ===== src/Convert/Filters.antt =====
-- Filters of jobs: the client's conversion of crates/ora/src/proto/convert.rs, and the server's of
-- crates/ora-server/src/grpc/conv.rs.
use ora.Base.{ℕ, zero, suc, String, Bool, true, false, Option, none, some, List, [], ◌∷◌, ◌≡◌}
use ora.Base.Int.{ℤ, pos}
use ora.Backend.{TimeRange}
use ora.Convert.Status.{Answer, fine, refused, ◌>>=◌, invalid_argument, pending_reason}

pub data ExecutionStatus : Type 0 where
  pending in_progress succeeded failed cancelled : ExecutionStatus

pub data ProtoExecutionStatus : Type 0 where
  status_unspecified status_pending status_in_progress : ProtoExecutionStatus
  status_succeeded status_failed status_cancelled : ProtoExecutionStatus

pub data ExecutionPendingReason : Type 0 where
  scheduled ready : ExecutionPendingReason

pub data ProtoPendingReason : Type 0 where
  reason_unspecified reason_scheduled reason_ready : ProtoPendingReason

pub record LabelFilter : Type 0 where
  pub key : String
  pub value : Option String
  pub value_in : Option (List String)

-- The library of UUIDs: their text, and the reading of it.
pub record Uuids : Type 0 where
  pub print : ℕ → String
  pub parse : String → Option ℕ
  pub parse_print : (id : ℕ) → parse (print id) ≡ some id

-- The filters of the client and of the server are alike.
pub record JobFilters : Type 0 where
  pub job_ids : Option (List ℕ)
  pub job_type_ids : Option (List String)
  pub executor_ids : Option (List ℕ)
  pub execution_ids : Option (List ℕ)
  pub execution_statuses : Option (List ExecutionStatus)
  pub target_execution_time : Option TimeRange
  pub created_at : Option TimeRange
  pub labels : Option (List LabelFilter)
  pub schedule_ids : Option (List ℕ)
  pub min_priority : Option ℤ
  pub max_priority : Option ℤ
  pub pending_reasons : Option (List ExecutionPendingReason)

-- `try_from` of the enumerations' numbers, and the numbers.
unfoldable pub status_of : ℤ → Option ProtoExecutionStatus
status_of (pos zero) = some status_unspecified
status_of (pos (suc zero)) = some status_pending
status_of (pos (suc (suc zero))) = some status_in_progress
status_of (pos (suc (suc (suc zero)))) = some status_succeeded
status_of (pos (suc (suc (suc (suc zero))))) = some status_failed
status_of (pos (suc (suc (suc (suc (suc zero)))))) = some status_cancelled
status_of _ = none

unfoldable pub status_number : ProtoExecutionStatus → ℤ
status_number status_unspecified = pos 0
status_number status_pending = pos 1
status_number status_in_progress = pos 2
status_number status_succeeded = pos 3
status_number status_failed = pos 4
status_number status_cancelled = pos 5

unfoldable pub reason_of : ℤ → Option ProtoPendingReason
reason_of (pos zero) = some reason_unspecified
reason_of (pos (suc zero)) = some reason_scheduled
reason_of (pos (suc (suc zero))) = some reason_ready
reason_of _ = none

unfoldable pub reason_number : ProtoPendingReason → ℤ
reason_number reason_unspecified = pos 0
reason_number reason_scheduled = pos 1
reason_number reason_ready = pos 2

unfoldable pub status_to : ExecutionStatus → ProtoExecutionStatus
status_to pending = status_pending
status_to in_progress = status_in_progress
status_to succeeded = status_succeeded
status_to failed = status_failed
status_to cancelled = status_cancelled

unfoldable pub status_from : ProtoExecutionStatus → ExecutionStatus
status_from status_unspecified = pending
status_from status_pending = pending
status_from status_in_progress = in_progress
status_from status_succeeded = succeeded
status_from status_failed = failed
status_from status_cancelled = cancelled

unfoldable pub reason_to : ExecutionPendingReason → ProtoPendingReason
reason_to scheduled = reason_scheduled
reason_to ready = reason_ready

unfoldable pub reason_from : ℤ → Option ProtoPendingReason → Answer ExecutionPendingReason
reason_from n (some reason_scheduled) = fine scheduled
reason_from n (some reason_ready) = fine ready
reason_from n _ = refused (invalid_argument (pending_reason n))

unfoldable pub is_pending : Option ProtoExecutionStatus → Bool
is_pending (some status_pending) = true
is_pending (some status_unspecified) = true
is_pending _ = false

abbrev pub first : List String → Option String
first [] = none
first (v ∷ vs) = some v

-- The client's: with a set of values, the single value is the set's first.
unfoldable pub label_filter_to : LabelFilter → LabelFilter
label_filter_to f = record {
  key = f.key;
  value = elim f.value_in [ none ↦ f.value | some values ↦ first values ];
  value_in = f.value_in;
}

-- `into_iter().flatten()`.
abbrev pub flatten : {A : Type 0} → Option (List A) → List A
flatten none = []
flatten (some xs) = xs

-- An empty list of a message is no filter.
abbrev pub given : {A B : Type 0} → List A → Answer (List B) → Answer (Option (List B))
given [] a = fine none
given (x ∷ xs) a = do ys ← a; fine (some ys)
