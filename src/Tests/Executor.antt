-- ===== src/Tests/Executor.antt =====
-- The theorems about an executor at concrete histories.
use ora.Base.{
  ℕ, String, ◌+◌, ◌≤◌, ◌≡◌, refl, true, false, Option, some, none, List, [], ◌∷◌, ◌++◌, str_eq,
  if◌then◌else◌, get_elem?, max, lookup, is_some,
}
use ora.Executor.Types.{
  HandlerQueue, ExecutionReady, execution_ready, execution_cancelled, returned,
}
use ora.Executor.State.{fresh_executor}
use ora.Executor.Runs.{finished, begin_run, admit_run, notice_cancel, finish_run, leave_run}
use ora.Executor.Loop.{
  Action, act_all, act, executor_turn, on_ready, on_cancelled, received, turn, begin, admit, notice,
  finish, leave,
}
use ora.Executor.Invariant.{slots_of, runs_of, results, owed, acceptances}
use ora.Executor.Answers.{reached, slots_within_limit, tracked_once, answered_once}
use ora.Executor.Endings.{all_tasks_end}
use ora.Tests.Convert.{plain}

abbrev mail_queue : HandlerQueue
mail_queue = record {
  max_concurrent_jobs = 0;
  job_type_id = "mail";
  input_schema_json = some "{}";
  output_schema_json = some "{}";
  description = none;
}

abbrev parse : String → Option ℕ
parse s = if str_eq s "first" then some 1 else if str_eq s "second" then some 2 else none

abbrev offer : String → ExecutionReady plain
offer id = record {
  job_id = "first";
  execution_id = id;
  job_type_id = "mail";
  attempt_number = 1;
  input_payload_json = "{}";
  target_execution_time = some 1000;
}

-- Two executions are offered to a queue with one slot; the first is accepted, offered again,
-- cancelled, and succeeds in its grace period.
abbrev history : List (Action plain parse)
history =
    turn true 0 0 (received (execution_ready (offer "first")))
    ∷ turn true 1 0 (received (execution_ready (offer "second")))
    ∷ begin true 2 1
    ∷ begin true 3 0
    ∷ admit true 4 1 (finished [])
    ∷ turn true 5 0 (received (execution_ready (offer "first")))
    ∷ turn true 6 0 (received (execution_cancelled "first"))
    ∷ notice 1
    ∷ finish (λ m. m) true 7 1 (returned "{}")
    ∷ leave 1
    ∷ []

slots_within_limit_example :
    let s = reached plain parse "worker" (mail_queue ∷ []) false history in
    (s.active_jobs 0 ≡ slots_of plain parse 0 s.runs)
    × (slots_of plain parse 0 s.runs ≤ max mail_queue.max_concurrent_jobs 1)
unfolding act_all fresh_executor act executor_turn on_ready on_cancelled begin_run admit_run
    notice_cancel finish_run leave_run lookup ora.Base.insert ora.JobTypes.Scan.client_job_type_id
    ora.JobTypes.Scan.client_validate ora.JobTypes.Scan.scan ora.JobTypes.Ids.is_letter
    ora.JobTypes.Ids.is_word ora.Executor.Types.find_queue ora.Base.modify ora.Base.any
slots_within_limit_example =
    slots_within_limit plain parse "worker" (mail_queue ∷ []) false history 0 mail_queue refl

tracked_once_example :
    let s = reached plain parse "worker" (mail_queue ∷ []) false history in
    (is_some (lookup 1 (s.executions 0)) ≡ true → runs_of plain parse 0 1 s.runs ≡ 1)
    × (is_some (lookup 1 (s.executions 0)) ≡ false → runs_of plain parse 0 1 s.runs ≡ 0)
tracked_once_example = tracked_once plain parse "worker" (mail_queue ∷ []) false history 0 1

answered_once_example :
    let s = reached plain parse "worker" (mail_queue ∷ []) false history in
    results plain parse 0 1 s.log + owed plain parse 0 1 s.runs ≤ acceptances plain parse 0 1 s.log
answered_once_example = answered_once plain parse "worker" (mail_queue ∷ []) false history 0 1

all_tasks_end_example :
    (more : List (Action plain parse)) × (let s =
        reached plain parse "worker" (mail_queue ∷ []) false (history ++ more) in
      (s.runs ≡ [])
      × ((q : ℕ) → s.active_jobs q ≡ 0)
      × ((c id : ℕ) → lookup id (s.executions c) ≡ none))
all_tasks_end_example = all_tasks_end plain parse "worker" (mail_queue ∷ []) false history
