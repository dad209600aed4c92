-- ===== src/Pool/Conservation.antt =====
-- Every round of `executor_loop` keeps the account of accepted executions.
use ora.Base.{
  ℕ, String, ◌+◌, ◌≡◌, refl, Bool, true, false, List, [], ◌∷◌, ◌++◌, Option, none, some, arith,
  sum_by, sum_by-append, one, get_elem?, if_both, if_cases, option_cases, option_both, is_some, All,
  All-get, ltb, if◌then◌else◌,
}
use ora.Backend.{JobType}
use ora.Pool.State.{
  ExecutorExecution, Executor, ExecutorPool, ExecutorEvent, Output, execution_cancelled, send_to,
  emit, start, notify_available,
}
use ora.Pool.Queue.{
  has_id, is_accepted, find_execution_mut, execution_at, remove_at, remove_execution, note_rejected,
  assigned_executions, withdraw_offers,
}
use ora.Pool.Turn.{
  Timestamp, ExecutorMessage, capabilities, heartbeat, execution_accepted, execution_rejected,
  execution_succeeded, execution_failed, Wake, grace_elapsed, shutdown_signal, heartbeat_tick,
  offer_tick, messages_closed, message, Env, Next, again, leave, Turn, put, drop_executor,
}
use ora.Pool.Handlers.{
  collect_queues, on_capabilities, announce_job_types, new_job_types, mark_accepted, in_queue,
  on_accepted, on_rejected, result_time, on_result, on_message,
}
use ora.Pool.Loop.{on_wake, find_executor, round, finish_round, executor_round, is_immediate}
use ora.Pool.Measure.{IsFresh}
use ora.Pool.Places.{find_execution_inv, find_executor_inv, state_cases}
use ora.Pool.Ledger.{
  executor_assigned, assigned, reported, started, Balanced, put-assigned, settle-Balanced,
  put-Balanced, drop_executor-Balanced, remove_at-assigned, mark_accepted-assigned, output_starts,
  output_reports,
}
use ora.Pool.Quiet.{
  IsReadable, HasReadableTime, result_time_readable, drop_and_break-Balanced, unchanged,
  remove_execution-assigned, new_queues-assigned, note_rejected-assigned, announce-nothing,
  cancellations-nothing, withdraw_offers-silent, withdraw_offers-nothing,
}

-- The channels of the server's loops are open.
abbrev pub HasChannels : Env → Type 0
HasChannels env = (env.events_open ≡ true) × (env.accepted_open ≡ true)

module _ (id k : ℕ) (x : Executor) (p : ExecutorPool)
    (here : get_elem? p.executors k ≡ some x) where
  on_capabilities-Balanced :
      (env : Env) (d : Option ℕ) (name : String) (handshake : Bool) (qs : List (Option JobType × ℕ))
      → IsFresh x
      → Balanced id p (on_capabilities env d k x name handshake qs p)
  unfolding on_capabilities executor_assigned
  on_capabilities-Balanced env d name handshake qs fresh =
      let named = record x { name = some name; execution_handshake = handshake } in
      if_cases (Balanced id p) x.initialized _ _ (λ _. drop_and_break-Balanced id x.id p)
        (λ new.
          let empty : executor_assigned id x ≡ 0 = rw (fresh new) (unfold sum_by in refl) in
          option_both (Balanced id p) (collect_queues qs) _ _
            (let dropped = drop_and_break-Balanced id x.id (put k named p) in
              omega (arith, dropped, put-assigned id k x named p here))
            (λ l e.
              let none_assigned = new_queues-assigned id qs l e in
              let (no_starts, no_reports) = announce-nothing id (new_job_types l) in
              if_both (Balanced id p) _ _ _
                (put-Balanced id k x named p p.accepted_executions _ here
                  (omega (arith, no_starts, no_reports)))
                (settle-Balanced id d k x (record named { job_queues = l; initialized = true }) p
                  p.accepted_executions _ here
                  (omega (arith, empty, none_assigned, notified (new_job_types l))))))
    where
      notified :
          (ts : List JobType)
          → (started id (announce_job_types ts ++ (notify_available ∷ [])) ≡ 0)
            × (reported id (announce_job_types ts ++ (notify_available ∷ [])) ≡ 0)
      notified [] = unfold announce_job_types started reported sum_by in (omega arith, omega arith)
      notified (t ∷ ts) =
          unfold announce_job_types started reported sum_by in (omega arith, omega arith)

  on_accepted-Balanced :
      (env : Env) (d : Option ℕ) (i : Option ℕ)
      → HasChannels env
      → Balanced id p (on_accepted env d k x i p)
  unfolding on_accepted execution_at started reported sum_by
  on_accepted-Balanced env d none channels = drop_and_break-Balanced id x.id p
  on_accepted-Balanced env d (some i) channels =
      option_both (Balanced id p) (find_execution_mut i x) _ _ (omega arith) (λ jl f.
        let (q, e', q_at, e_at, same) = find_execution_inv i x.job_queues jl.0 jl.1 f in
        option_both (Balanced id p) (execution_at jl.0 jl.1 x) _ _ (omega arith) (λ e at'.
          let e_is : e' ≡ e = ground arith in
          state_cases (Balanced id p) e.state _ _ (λ _. omega arith)
            (λ deadline offered_at s.
              let not_yet : is_accepted e' ≡ false = rw e_is (rw s refl) in
              let out = remove_at-assigned id jl.0 jl.1 x q e' q_at e_at in
              let taken = mark_accepted-assigned id jl.0 jl.1 x q e' q_at e_at not_yet in
              let y = in_queue jl.0 (mark_accepted jl.1) x in
              let starts : List Output =
                start (record { execution_id = i; executor_id = x.id; started_at = offered_at })
                ∷ [] in
              let balance : executor_assigned id x + started id starts
                  ≡ executor_assigned id y + reported id starts =
                ground (arith, taken, same) in
              if_both (Balanced id p) (is_some d) _ _
                (put-Balanced id k x (remove_at jl.0 jl.1 x) p p.accepted_executions
                  (send_to x.id (execution_cancelled i) ∷ []) here (ground (arith, out, not_yet)))
                (rw (channels.1) (settle-Balanced id d k x y p _ starts here balance)))))

  on_rejected-Balanced :
      (env : Env) (d : Option ℕ) (i : Option ℕ) → Balanced id p (on_rejected env d k x i p)
  unfolding on_rejected execution_at started reported sum_by
  on_rejected-Balanced env d none = drop_and_break-Balanced id x.id p
  on_rejected-Balanced env d (some i) =
      option_both (Balanced id p) (find_execution_mut i x) _ _ (omega arith) (λ jl f.
        let (q, e', q_at, e_at, same) = find_execution_inv i x.job_queues jl.0 jl.1 f in
        option_both (Balanced id p) (execution_at jl.0 jl.1 x) _ _ (omega arith) (λ e at'.
          let e_is : e' ≡ e = ground arith in
          if_cases (Balanced id p) (is_accepted e) _ _ (λ _. omega arith)
            (λ n.
              let not_yet : is_accepted e' ≡ false = rw e_is n in
              let y = remove_at jl.0 jl.1 x in
              let balance : executor_assigned id x + 0
                  ≡ executor_assigned id (in_queue jl.0 (note_rejected env.now) y) + 0 =
                ground (
                  arith,
                  not_yet,
                  remove_at-assigned id jl.0 jl.1 x q e' q_at e_at,
                  note_rejected-assigned id jl.0 env.now y,
                ) in
              settle-Balanced id d k x (in_queue jl.0 (note_rejected env.now) y) p
                p.accepted_executions (notify_available ∷ []) here balance)))

  on_result-Balanced :
      (env : Env) (d : Option ℕ) (i : ℕ) (ts : Timestamp)
      (event : ExecutorExecution → ℕ → ExecutorEvent)
      → ((e : ExecutorExecution) (t : ℕ)
          → (started id (notify_available ∷ emit (event e t) ∷ []) ≡ 0)
            × (reported id (notify_available ∷ emit (event e t) ∷ []) ≡ one (has_id id e)))
      → IsReadable ts
      → HasChannels env
      → Balanced id p (on_result env d k x i ts event p)
  unfolding on_result
  on_result-Balanced env d i ts event reports ok channels =
      option_both (Balanced id p) (remove_execution i x) _ _ (unchanged id p) (λ ey r.
        let taken = remove_execution-assigned id i x ey.1 ey.0 r in
        if_cases (Balanced id p) (is_accepted ey.0) _ _
          (λ a.
            option_cases (Balanced id p) (result_time env ts) _ _
              (λ n. absurd (result_time_readable env ts ok n))
              (λ t _.
                let (s, n) = reports ey.0 t in
                let out = notify_available ∷ emit (event ey.0 t) ∷ [] in
                let balance : executor_assigned id x + started id out
                    ≡ executor_assigned id ey.1 + reported id out =
                  ground (arith, taken, a, s, n) in
                rw (channels.0)
                  (settle-Balanced id d k x ey.1 p p.accepted_executions _ here balance)))
          (λ n.
            put-Balanced id k x ey.1 p p.accepted_executions (notify_available ∷ []) here
              (unfold started reported sum_by in ground (arith, taken, n))))

  on_message-Balanced :
      (env : Env) (d : Option ℕ) (m : ExecutorMessage)
      → IsFresh x
      → HasReadableTime (message m)
      → HasChannels env
      → Balanced id p (on_message env d k x m p)
  unfolding on_message started reported sum_by
  on_message-Balanced env d (capabilities name handshake qs) fresh ok channels =
      on_capabilities-Balanced env d name handshake qs fresh
  on_message-Balanced env d heartbeat fresh ok channels =
      unfold executor_assigned in settle-Balanced id d k x _ p p.accepted_executions [] here refl
  on_message-Balanced env d (execution_accepted i) fresh ok channels =
      on_accepted-Balanced env d i channels
  on_message-Balanced env d (execution_rejected i) fresh ok channels = on_rejected-Balanced env d i
  on_message-Balanced env d (execution_succeeded none ts output) fresh ok channels = unchanged id p
  on_message-Balanced env d (execution_succeeded (some i) ts output) fresh ok channels =
      on_result-Balanced env d i ts _ (λ e t. (omega arith, omega arith)) ok channels
  on_message-Balanced env d (execution_failed none ts reason) fresh ok channels =
      drop_and_break-Balanced id x.id p
  on_message-Balanced env d (execution_failed (some i) ts reason) fresh ok channels =
      on_result-Balanced env d i ts _ (λ e t. (omega arith, omega arith)) ok channels

  on_wake-Balanced :
      (env : Env) (d : Option ℕ) (w : Wake)
      → IsFresh x
      → HasReadableTime w
      → HasChannels env
      → Balanced id p (on_wake env d w k x p)
  unfolding on_wake
  on_wake-Balanced env d messages_closed fresh ok channels = unchanged id p
  on_wake-Balanced env d (message m) fresh ok channels =
      if_both (Balanced id p) env.disconnected _ _ (drop_and_break-Balanced id x.id p)
        (on_message-Balanced env d m fresh ok channels)
  on_wake-Balanced env (some d) grace_elapsed fresh ok channels =
      omega (arith, cancellations-nothing id x.id (assigned_executions x))
  on_wake-Balanced env none shutdown_signal fresh ok channels =
      let b =
        put-Balanced id k x (withdraw_offers env.now none x).0 p p.accepted_executions
          (withdraw_offers env.now none x).1 here
          (omega (arith, withdraw_offers-silent id env.now none x)) in
      if_both (Balanced id p) _ _ _ b b
  on_wake-Balanced env none heartbeat_tick fresh ok channels =
      if_both (Balanced id p) _ _ _ (drop_and_break-Balanced id x.id p) (
        if_both (Balanced id p) env.disconnected _ _ (drop_and_break-Balanced id x.id p)
          (unchanged id p))
  on_wake-Balanced env none offer_tick fresh ok channels =
      let r = withdraw_offers env.now (some env.now) x in
      let notes : List Output = if ltb 0 r.2 then notify_available ∷ [] else [] in
      put-Balanced id k x r.0 p p.accepted_executions (r.1 ++ notes) here (
        withdraw_offers-nothing id env.now (some env.now) x notes
          (if_both (λ out. started id out ≡ 0) _ (notify_available ∷ []) []
            (unfold started sum_by in omega arith) (unfold started sum_by in refl))
          (if_both (λ out. reported id out ≡ 0) _ (notify_available ∷ []) []
            (unfold reported sum_by in omega arith) (unfold reported sum_by in refl)))
  on_wake-Balanced env none grace_elapsed fresh ok channels = unchanged id p
  on_wake-Balanced env (some d) shutdown_signal fresh ok channels = unchanged id p
  on_wake-Balanced env (some d) heartbeat_tick fresh ok channels = unchanged id p
  on_wake-Balanced env (some d) offer_tick fresh ok channels = unchanged id p

round-Balanced :
    (id : ℕ) (env : Env) (i : ℕ) (d : Option ℕ) (w : Wake) (p : ExecutorPool)
    → All IsFresh p.executors
    → HasReadableTime w
    → HasChannels env
    → Balanced id p (round env i d w p)
unfolding round
round-Balanced id env i d w p fresh ok channels =
    if_both (Balanced id p) (is_immediate env d w) _ _ (unchanged id p) (
      option_both (Balanced id p) (find_executor i p.executors) _ _ (unchanged id p) (λ kx f.
        let here = (find_executor_inv i kx.0 p.executors kx.1 f).0 in
        on_wake-Balanced id kx.0 kx.1 p here env d w (All-get IsFresh p.executors kx.0 fresh here)
          ok channels))

finish_round-Balanced :
    (id i : ℕ) (p : ExecutorPool) (t : Turn) (n : Next)
    → Balanced id p t
    → Balanced id p (finish_round i t n)
unfolding finish_round started reported
finish_round-Balanced id i p t (again d) h = h
finish_round-Balanced id i p t leave h =
    let (q, out) = drop_executor i t.pool in
    omega (
      arith,
      h,
      drop_executor-Balanced id i t.pool,
      sum_by-append (output_starts id) t.outputs out,
      sum_by-append (output_reports id) t.outputs out,
    )

-- A round of an executor's task, its end included, loses no accepted execution and reports none
-- twice: those that were accepted before, and those that the round accepts, are those that are
-- still accepted afterwards and those that its events report. The executors that are not
-- initialized have no job queues, the round is not that of a result with an unreadable timestamp,
-- and the channels for events and for accepted executions are open: without these two the code
-- loses what it would report.
pub executor_round-Balanced :
    (id : ℕ) (env : Env) (i : ℕ) (d : Option ℕ) (w : Wake) (p : ExecutorPool)
    → All IsFresh p.executors
    → HasReadableTime w
    → HasChannels env
    → let t = executor_round env i d w p in
      assigned id p + started id t.outputs ≡ assigned id t.pool + reported id t.outputs
unfolding executor_round
executor_round-Balanced id env i d w p fresh ok channels =
    let t = round env i d w p in
    finish_round-Balanced id i p t t.next (round-Balanced id env i d w p fresh ok channels)
