-- ===== src/Tests/Starts.antt =====
-- The theorem about the start of executions at a concrete input.
use ora.Base.{◌≡◌, true, false, some, List, [], ◌∷◌, map}
use ora.Backend.{StartedExecution}
use ora.Pool.Measure.{holds}
use ora.Pool.History.{Reachable-Inv}
use ora.Server.Starts.{start_executions}
use ora.Server.Refusals.{is_refused, start_executions-holds}
use ora.Tests.Data.{offered_pool}
use ora.Tests.Pool.{offered_pool-Reachable}

abbrev accepted_executions : List StartedExecution
accepted_executions = record { execution_id = 7; executor_id = 1; started_at = 5 } ∷ []

-- The backend starts none of them.
start_executions-holds_example :
    let p' = (start_executions 9 (some []) accepted_executions offered_pool).0 in
    let refused = is_refused (some []) (map (λ e. e.execution_id) accepted_executions) 7 in
    (refused ≡ true → holds 7 p' ≡ 0) × (refused ≡ false → holds 7 p' ≡ holds 7 offered_pool)
start_executions-holds_example =
    start_executions-holds 9 7 (some []) accepted_executions offered_pool
      ((Reachable-Inv offered_pool-Reachable).distinct 7)
