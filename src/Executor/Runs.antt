-- ===== src/Executor/Runs.antt =====
-- `run_execution` of crates/ora/src/executor/implementation/executions.rs, cut where other tasks
-- may come between. Each piece does nothing to a task that stands elsewhere. The channel to the
-- server has no bound; a message that is sent when it is closed is lost.
use ora.Base.{
  ℕ, String, Bool, true, false, not, ◌&&◌, Option, none, some, List, ◌∷◌, if◌then◌else◌, modify,
  get_elem?, swap_remove,
}
use ora.JobTypes.Scan.{client_job_type_id}
use ora.Convert.Messages.{Protobuf}
use ora.Executor.Types.{
  HandlerQueue, Admission, accept, reject, reject_with, GuardRun, HandlerRun, MessageToServer,
  execution_rejected, execution_accepted, execution_succeeded, execution_failed, ExecutionReady,
  admission_of, handler_result, find_queue,
}
use ora.Executor.State.{
  Phase, spawned, admitting, handling, in_grace, leaving, released, sent, called_back, reserve,
  drop_slot, drop_active, set_at, RunExecution, ExecutorState, is_cancelled,
}

-- What the checks of an offer come to: a reason to reject it, or a result.
pub data OfferCheck (A : Type 0) : Type 0 where
  turned_down : (reason : String) → OfferCheck A
  fit : (result : A) → OfferCheck A

infixl 20 ◌>>=◌
abbrev pub ◌>>=◌ : {A B : Type 0} → OfferCheck A → (A → OfferCheck B) → OfferCheck B
turned_down reason >>= f = turned_down reason
fit result >>= f = f result

abbrev pub or_reject : {A : Type 0} → Option A → String → OfferCheck A
or_reject none reason = turned_down reason
or_reject (some a) reason = fit a

-- What the guards gave, if there were any and they were in time.
pub data Guards : Type 0 where
  finished : (results : List GuardRun) → Guards
  timed_out : Guards

unfoldable pub guards_admission : Guards → Admission
unfolding admission_of
guards_admission (finished results) = admission_of results
guards_admission timed_out = reject_with "execution guard timed out"

module _ (P : Protobuf) where
  abbrev pub to_phase : Phase → RunExecution P → RunExecution P
  to_phase phase r = record r { phase = phase }

  abbrev pub move_run : ℕ → Phase → ExecutorState P → ExecutorState P
  move_run i phase s = record s { runs = modify s.runs i (to_phase phase) }

  abbrev pub send : Bool → ℕ → MessageToServer → ExecutorState P → ExecutorState P
  send true connection message s = record s { log = sent connection message ∷ s.log }
  send false connection message s = s

  abbrev pub on_run : ℕ → ExecutorState P → (RunExecution P → ExecutorState P) → ExecutorState P
  on_run i s f = elim (get_elem? s.runs i) [ none ↦ s | some r ↦ f r ]

  -- From the start to the reservation of a slot.
  unfoldable pub check_ready :
      (String → Option ℕ) → List HandlerQueue → ExecutionReady P → OfferCheck (ℕ × HandlerQueue)
  check_ready parse queues ready = do
    job_id ← or_reject (parse ready.job_id) "invalid job ID"
    job_type_id ← or_reject (client_job_type_id ready.job_type_id) "invalid job type ID"
    timestamp ← or_reject ready.target_execution_time "invalid target execution time"
    time ← or_reject (P.from_timestamp timestamp) "invalid target execution time"
    or_reject (find_queue job_type_id queues) "job type not supported"

  unfoldable pub reserve_slot : ExecutorState P → ℕ × HandlerQueue → OfferCheck (ℕ × ℕ)
  unfolding reserve
  reserve_slot s (position, queue) = do
    count ←
        or_reject (reserve (s.active_jobs position) queue.max_concurrent_jobs)
          "executor at capacity"
    fit (position, count)

  abbrev pub begun :
      Bool → ℕ → ℕ → RunExecution P → OfferCheck (ℕ × ℕ) → ExecutorState P → ExecutorState P
  begun is_open now i r (turned_down reason) s =
      move_run i released
        (send is_open r.connection (execution_rejected r.ready.execution_id now (some reason)) s)
  begun is_open now i r (fit (position, count)) s =
      move_run i (admitting position)
        (record s { active_jobs = set_at position count s.active_jobs })

  abbrev pub begin_from :
      (String → Option ℕ)
      → Bool
      → ℕ
      → ℕ
      → RunExecution P
      → Phase
      → ExecutorState P
      → ExecutorState P
  begin_from parse is_open now i r spawned s =
      begun is_open now i r (check_ready parse s.queues r.ready >>= reserve_slot s) s
  begin_from parse is_open now i r _ s = s

  unfoldable pub begin_run : (String → Option ℕ) → Bool → ℕ → ℕ → ExecutorState P → ExecutorState P
  unfolding check_ready reserve_slot
  begin_run parse is_open now i s = on_run i s (λ r. begin_from parse is_open now i r r.phase s)

  -- The guards are done, and the answer is sent.
  abbrev pub admitted :
      Bool → ℕ → ℕ → ℕ → RunExecution P → Admission → ExecutorState P → ExecutorState P
  admitted is_open now i queue r (reject reason) s =
      move_run i (leaving queue)
        (send is_open r.connection (execution_rejected r.ready.execution_id now reason) s)
  admitted is_open now i queue r accept s =
      move_run i (if is_open then handling queue else leaving queue)
        (send is_open r.connection (execution_accepted r.ready.execution_id now) s)

  abbrev pub admit_from :
      Bool → ℕ → ℕ → Guards → RunExecution P → Phase → ExecutorState P → ExecutorState P
  admit_from is_open now i guards r (admitting queue) s =
      admitted is_open now i queue r (guards_admission guards) s
  admit_from is_open now i guards r _ s = s

  unfoldable pub admit_run : Bool → ℕ → ℕ → Guards → ExecutorState P → ExecutorState P
  unfolding guards_admission
  admit_run is_open now i guards s = on_run i s (λ r. admit_from is_open now i guards r r.phase s)

  -- A cancelled task leaves before it accepted, and has the grace period after.
  abbrev pub notice_from : ℕ → Phase → ExecutorState P → ExecutorState P
  notice_from i (admitting queue) s = move_run i (leaving queue) s
  notice_from i (handling queue) s = move_run i (in_grace queue) s
  notice_from i _ s = s

  unfoldable pub notice_cancel : ℕ → ExecutorState P → ExecutorState P
  notice_cancel i s = on_run i s (λ r. if is_cancelled P r s then notice_from i r.phase s else s)

  -- The result is sent; the callback learns of a failure first.
  abbrev pub failed_callback : RunExecution P → String → ExecutorState P → ExecutorState P
  failed_callback r reason s =
      if s.has_callback && not (is_cancelled P r s)
      then record s { log = called_back r.connection r.execution_id reason ∷ s.log }
      else s

  abbrev pub finished_with :
      Bool → ℕ → ℕ → ℕ → RunExecution P → String × Bool → ExecutorState P → ExecutorState P
  finished_with is_open now i queue r (output, true) s =
      move_run i (leaving queue)
        (send is_open r.connection (execution_succeeded r.ready.execution_id now output) s)
  finished_with is_open now i queue r (reason, false) s = move_run i (leaving queue) (
      send is_open r.connection (execution_failed r.ready.execution_id now reason)
        (failed_callback r reason s))

  abbrev pub finish_from :
      (String → String)
      → Bool
      → ℕ
      → ℕ
      → HandlerRun
      → RunExecution P
      → Phase
      → ExecutorState P
      → ExecutorState P
  finish_from debug is_open now i result r (handling queue) s =
      finished_with is_open now i queue r (handler_result debug result) s
  finish_from debug is_open now i result r (in_grace queue) s =
      finished_with is_open now i queue r (handler_result debug result) s
  finish_from debug is_open now i result r _ s = s

  unfoldable pub finish_run :
      (String → String) → Bool → ℕ → ℕ → HandlerRun → ExecutorState P → ExecutorState P
  unfolding handler_result
  finish_run debug is_open now i result s =
      on_run i s (λ r. finish_from debug is_open now i result r r.phase s)

  -- The grace period ends.
  abbrev pub drop_cancelled_from : ℕ → Phase → ExecutorState P → ExecutorState P
  drop_cancelled_from i (in_grace queue) s = move_run i (leaving queue) s
  drop_cancelled_from i _ s = s

  unfoldable pub drop_cancelled : ℕ → ExecutorState P → ExecutorState P
  drop_cancelled i s = on_run i s (λ r. drop_cancelled_from i r.phase s)

  -- On the way out the slot is dropped first, then the guard of the active execution.
  abbrev pub leave_from : ℕ → RunExecution P → Phase → ExecutorState P → ExecutorState P
  leave_from i r (leaving queue) s =
      move_run i released
        (record s { active_jobs = set_at queue (drop_slot (s.active_jobs queue)) s.active_jobs })
  leave_from i r released s = record s {
    executions =
        set_at r.connection (drop_active r.execution_id (s.executions r.connection)) s.executions;
    runs = swap_remove s.runs i;
  }
  leave_from i r _ s = s

  unfoldable pub leave_run : ℕ → ExecutorState P → ExecutorState P
  unfolding drop_slot drop_active
  leave_run i s = on_run i s (λ r. leave_from i r r.phase s)
