-- ===== src/Pool/Handlers.antt =====
-- The messages of an executor in `executor_loop` of crates/ora-server/src/executor_pool.rs, one
-- function to a message. The executor `x` stands at position `k` of the pool, `d` is the shutdown
-- deadline, and `id` the execution that the message names.
use Prim.Native.String.{compare}
use text.Mathlib.Text.{is_le}
use ora.Base.{
  ℕ, String, Bool, true, false, ◌&&◌, not, Option, none, some, List, [], ◌∷◌, ◌++◌, map, modify,
  insert, min, str_eq, is_some, if◌then◌else◌,
}
use ora.Backend.{JobType}
use ora.Pool.State.{
  ExecutionState, offered, accepted, ExecutorExecution, ExecutorJobQueue, Executor, ExecutorPool,
  ExecutorEvent, job_types_added, Output, send_to, emit, start, notify_available,
  execution_cancelled,
}
use ora.Pool.State
use ora.Pool.Queue.{
  new_queue, find_execution_mut, execution_at, remove_at, remove_execution, note_accepted,
  note_rejected, is_accepted,
}
use ora.Pool.Turn.{
  Timestamp, absent, unreadable, at, ExecutorMessage, capabilities, heartbeat, execution_accepted,
  execution_rejected, execution_succeeded, execution_failed, Env, Turn, continue_with, break_with,
  put, drop_and_break, settle,
}

-- `collect::<Result<Vec<_>, _>>()` of the queues that the executor offers.
unfoldable pub collect_queues : List (Option JobType × ℕ) → Option (List ExecutorJobQueue)
collect_queues [] = some []
collect_queues ((job_type, max_executions) ∷ qs) =
    let rest = collect_queues qs in
    elim job_type [
      | none ↦ none
      | some t ↦ elim rest [ none ↦ none | some l ↦ some (new_queue t max_executions ∷ l) ]
    ]

-- `sort_by` on the IDs is stable.
unfoldable pub insert_sorted : JobType → List JobType → List JobType
insert_sorted t [] = t ∷ []
insert_sorted t (u ∷ us) =
    let rest = insert_sorted t us in if is_le (compare t.id u.id) then t ∷ u ∷ us else u ∷ rest

unfoldable pub sort_job_types : List JobType → List JobType
unfolding insert_sorted
sort_job_types [] = []
sort_job_types (t ∷ ts) = insert_sorted t (sort_job_types ts)

-- `dedup_by`: of neighbours with one ID the first stays.
unfoldable pub dedup_after : JobType → List JobType → List JobType
dedup_after t [] = []
dedup_after t (u ∷ us) =
    let same = dedup_after t us in
    let other = u ∷ dedup_after u us in if str_eq u.id t.id then same else other

unfoldable pub dedup_job_types : List JobType → List JobType
unfolding dedup_after
dedup_job_types [] = []
dedup_job_types (t ∷ ts) = t ∷ dedup_after t ts

unfoldable pub new_job_types : List ExecutorJobQueue → List JobType
unfolding sort_job_types dedup_job_types
new_job_types qs = dedup_job_types (sort_job_types (map (λ q. q.job_type) qs))

unfoldable pub announce_job_types : List JobType → List Output
announce_job_types [] = []
announce_job_types (t ∷ ts) = emit (job_types_added (t ∷ ts)) ∷ []

abbrev pub is_nil : List JobType → Bool
is_nil [] = true
is_nil (t ∷ ts) = false

unfoldable pub initialize :
    Env → Option ℕ → ℕ → Executor → List ExecutorJobQueue → ExecutorPool → Turn
unfolding new_job_types announce_job_types
initialize env d k x qs p =
    let types = new_job_types qs in
    if not (is_nil types) && not env.events_open
    then break_with (put k x p) (announce_job_types types)
    else settle d k (record x { job_queues = qs; initialized = true }) p
        (announce_job_types types ++ (notify_available ∷ []))

unfoldable pub on_capabilities :
    Env
    → Option ℕ
    → ℕ
    → Executor
    → (name : String) (handshake : Bool) (job_queues : List (Option JobType × ℕ)) → ExecutorPool
    → Turn
unfolding initialize
on_capabilities env d k x name handshake job_queues p =
    let named = record x { name = some name; execution_handshake = handshake } in
    if x.initialized then drop_and_break x.id p else elim (collect_queues job_queues) [
      | none ↦ drop_and_break x.id (put k named p)
      | some qs ↦ initialize env d k named qs p
    ]

unfoldable pub on_heartbeat : Env → Option ℕ → ℕ → Executor → ExecutorPool → Turn
on_heartbeat env d k x p =
    settle d k (record x { last_heartbeat = env.system_now; last_heartbeat_at = env.now }) p []

abbrev pub cancel_message : Executor → ℕ → List Output
cancel_message x id = send_to x.id (execution_cancelled id) ∷ []

abbrev pub mark_accepted : ℕ → ExecutorJobQueue → ExecutorJobQueue
mark_accepted i q =
    note_accepted
      (record q { executions = modify q.executions i (λ e. record e { state = accepted }) })

-- Changes one queue of an executor.
abbrev pub in_queue : ℕ → (ExecutorJobQueue → ExecutorJobQueue) → Executor → Executor
in_queue j f x = record x { job_queues = modify x.job_queues j f }

-- What is sent to a closed channel is lost.
unfoldable pub accept_offer :
    Env → Option ℕ → ℕ → Executor → ℕ → (j i : ℕ) → (offered_at : ℕ) → ExecutorPool → Turn
accept_offer env d k x id j i offered_at p =
    let x' = in_queue j (mark_accepted i) x in
    let p' = record p { accepted_executions = insert id none p.accepted_executions } in
    let out =
      start (record { execution_id = id; executor_id = x.id; started_at = offered_at }) ∷ [] in
    if is_some d
    then continue_with d (put k (remove_at j i x) p) (cancel_message x id)
    else if env.accepted_open
    then settle d k x' p' out
    else break_with (put k x' p') []

unfoldable pub on_accepted : Env → Option ℕ → ℕ → Executor → Option ℕ → ExecutorPool → Turn
unfolding accept_offer
on_accepted env d k x none p = drop_and_break x.id p
on_accepted env d k x (some id) p = elim (find_execution_mut id x) [
  | none ↦ continue_with d p (cancel_message x id)
  | some (j, i) ↦ elim (execution_at j i x) [
    | none ↦ continue_with d p []
    | some e ↦ elim e.state [
      | accepted ↦ continue_with d p []
      | offered deadline offered_at ↦ accept_offer env d k x id j i offered_at p
    ]
  ]
]

unfoldable pub on_rejected : Env → Option ℕ → ℕ → Executor → Option ℕ → ExecutorPool → Turn
on_rejected env d k x none p = drop_and_break x.id p
on_rejected env d k x (some id) p = elim (find_execution_mut id x) [
  | none ↦ continue_with d p []
  | some (j, i) ↦ elim (execution_at j i x) [
    | none ↦ continue_with d p []
    | some e ↦
        if is_accepted e
        then continue_with d p []
        else settle d k (in_queue j (note_rejected env.now) (remove_at j i x)) p
            (notify_available ∷ [])
  ]
]

-- `ts.min(SystemTime::now())`, or the current time.
unfoldable pub result_time : Env → Timestamp → Option ℕ
result_time env absent = some env.system_now
result_time env unreadable = none
result_time env (at ts) = some (min ts env.system_now)

-- A result whose time cannot be read, or that is sent to a closed channel, is lost.
unfoldable pub report_result :
    Env
    → Option ℕ
    → ℕ
    → Executor
    → ExecutorExecution
    → Timestamp
    → (ExecutorExecution → ℕ → ExecutorEvent)
    → ExecutorPool
    → Turn
report_result env d k x e ts event p =
    if is_accepted e
    then elim (result_time env ts) [
      | none ↦ break_with (put k x p) (notify_available ∷ [])
      | some t ↦
          if env.events_open
          then settle d k x p (notify_available ∷ emit (event e t) ∷ [])
          else break_with (put k x p) (notify_available ∷ [])
    ]
    else continue_with d (put k x p) (notify_available ∷ [])

unfoldable pub on_result :
    Env
    → Option ℕ
    → ℕ
    → Executor
    → ℕ
    → Timestamp
    → (ExecutorExecution → ℕ → ExecutorEvent)
    → ExecutorPool
    → Turn
unfolding report_result
on_result env d k x id ts event p = elim (remove_execution id x) [
  | none ↦ continue_with d p []
  | some (e, x') ↦ report_result env d k x' e ts event p
]

unfoldable pub on_succeeded :
    Env → Option ℕ → ℕ → Executor → Option ℕ → Timestamp → String → ExecutorPool → Turn
unfolding on_result
on_succeeded env d k x none ts output p = break_with p []
on_succeeded env d k x (some id) ts output p =
    on_result env d k x id ts (λ e t. State.execution_succeeded e t output) p

unfoldable pub on_failed :
    Env → Option ℕ → ℕ → Executor → Option ℕ → Timestamp → String → ExecutorPool → Turn
unfolding on_result
on_failed env d k x none ts reason p = drop_and_break x.id p
on_failed env d k x (some id) ts reason p =
    on_result env d k x id ts (λ e t. State.execution_failed e t reason) p

-- `match message`.
unfoldable pub on_message : Env → Option ℕ → ℕ → Executor → ExecutorMessage → ExecutorPool → Turn
unfolding on_capabilities on_heartbeat on_accepted on_rejected on_succeeded on_failed
on_message env d k x (capabilities name handshake queues) p =
    on_capabilities env d k x name handshake queues p
on_message env d k x heartbeat p = on_heartbeat env d k x p
on_message env d k x (execution_accepted id) p = on_accepted env d k x id p
on_message env d k x (execution_rejected id) p = on_rejected env d k x id p
on_message env d k x (execution_succeeded id ts output) p = on_succeeded env d k x id ts output p
on_message env d k x (execution_failed id ts reason) p = on_failed env d k x id ts reason p
