-- ===== src/Server/Refusals.antt =====
-- Which executions `start_executions` takes from the executors again.
use ora.Base.{
  ℕ, ◌≤◌, ◌≡◌, refl, ap, Bool, true, false, ◌&&◌, not, Option, none, some, List, [], ◌∷◌, map, any,
  retain, length, ◌==◌, arith, Bool-cases, inl, inr, if_cases,
}
use ora.Backend.{StartedExecution}
use ora.Pool.State.{ExecutorPool, Output}
use ora.Pool.Offer.{contains}
use ora.Pool.Accepted.{accepted_executions_started, accepted_executions_not_started}
use ora.Pool.Cancelling.{cancel_execution_ids-holds}
use ora.Pool.Measure.{holds}
use ora.Server.Starts.{not_started, start_executions}

-- The backend did not start an execution of the list: it failed, or it answered with fewer
-- executions and not with this one.
abbrev pub is_refused : Option (List ℕ) → List ℕ → ℕ → Bool
is_refused none ids k = contains k ids
is_refused (some started) ids k =
    not (length started == length ids) && (contains k ids && not (contains k started))

contains-not_started :
    (k : ℕ) (started ids : List ℕ)
    → contains k (not_started started ids) ≡ (contains k ids && not (contains k started))
unfolding not_started contains retain any
contains-not_started k started [] = ground arith
contains-not_started k started (id ∷ ids) =
    let rest = contains-not_started k started ids in
    elim (Bool-cases (id == k)) [
      | inl same ↦
          let c : contains id started ≡ contains k started =
            ap (λ j. contains j started) (ground arith) in
          ground (arith, same, c, rest)
      | inr other ↦ ground (arith, other, rest)
    ]

-- After the backend's answer, no executor holds an execution that was refused, and all others
-- stand as before, if an execution stands in one place at most.
pub start_executions-holds :
    (now k : ℕ) (answer : Option (List ℕ)) (es : List StartedExecution) (p : ExecutorPool)
    → holds k p ≤ 1
    → let p' = (start_executions now answer es p).0 in
      let refused = is_refused answer (map (λ e. e.execution_id) es) k in
      (refused ≡ true → holds k p' ≡ 0) × (refused ≡ false → holds k p' ≡ holds k p)
unfolding start_executions accepted_executions_started accepted_executions_not_started holds
start_executions-holds now k none es p d =
    let h = cancel_execution_ids-holds k (map (λ e. e.execution_id) es) p d in
    (λ r. (h.0 r).0, λ r. (h.1 r).0)
start_executions-holds now k (some started) es p d =
    let ids = map (λ e. e.execution_id) es in
    let h =
      cancel_execution_ids-holds k (not_started started ids)
        (accepted_executions_started now ids p).0 d in
    let c = contains-not_started k started ids in
    if_cases
      (λ (r : ExecutorPool × List Output).
        (is_refused (some started) ids k ≡ true → holds k r.0 ≡ 0)
        × (is_refused (some started) ids k ≡ false → holds k r.0 ≡ holds k p))
      (length started == length ids) _ _ (λ e. (λ r. ground (arith, e), λ r. refl))
      (λ e. (λ r. (h.0 (ground (arith, e, c))).0, λ r. (h.1 (ground (arith, e, c))).0))
