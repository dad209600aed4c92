-- ===== src/Server/Starts.antt =====
-- `start_executions` of crates/ora-server/src/server/executions.rs.
use ora.Base.{ℕ, not, Option, none, some, List, ◌++◌, map, retain, length, ◌==◌, if◌then◌else◌}
use ora.Backend.{StartedExecution}
use ora.Pool.State.{ExecutorPool, Output}
use ora.Pool.Offer.{contains}
use ora.Pool.Accepted.{accepted_executions_started, accepted_executions_not_started}
use ora.Pool.Cancel.{cancel_execution_ids}

-- The accepted executions that the backend did not start.
unfoldable pub not_started : List ℕ → List ℕ → List ℕ
not_started started ids = retain (λ id. not (contains id started)) ids

abbrev pub join : ExecutorPool × List Output → List Output → ExecutorPool × List Output
join (p, out) before = (p, before ++ out)

-- The backend answers with the executions that it started, or fails for good.
unfoldable pub start_executions :
    ℕ → Option (List ℕ) → List StartedExecution → ExecutorPool → ExecutorPool × List Output
unfolding not_started
start_executions now (some started) executions p =
    let ids = map (λ e. e.execution_id) executions in
    let (p', out) = accepted_executions_started now ids p in
    if length started == length ids
    then (p', out)
    else join (cancel_execution_ids (not_started started ids) p') out
start_executions now none executions p =
    let ids = map (λ e. e.execution_id) executions in
    let (p', out) = cancel_execution_ids ids p in join (accepted_executions_not_started ids p') out
