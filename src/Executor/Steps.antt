-- ===== src/Executor/Steps.antt =====
-- Every piece of a task of an executor keeps the executor's invariant.
use ora.Base.{
  ℕ, String, ◌≡◌, refl, ap, Bool, true, false, not, ◌&&◌, Option, some, ◌∷◌, arith, one, sum_by,
  All-get, get_elem?, ◌==◌, if◌then◌else◌,
}
use ora.Convert.Messages.{Protobuf}
use ora.Executor.Types.{
  MessageToServer, execution_accepted, execution_failed, HandlerRun, Admission, accept, reject,
}
use ora.Executor.State.{
  Phase, spawned, admitting, handling, in_grace, leaving, released, Effect, sent, called_back,
  RunExecution, ExecutorState, is_cancelled,
}
use ora.Executor.Runs.{
  check_ready, reserve_slot, ◌>>=◌, begin_from, admitted, admit_from, move_run, finished_with,
  finish_from, Guards, guards_admission, send,
}
use ora.Executor.Invariant.{is_in, owes, is_of, is_acceptance, is_result, Inv, move_Inv}
use ora.Executor.Preserved.{rejected_Inv, silent_Inv, begun-Inv, check_ready-get, reserve_slot-fits}

module _ (P : Protobuf) (parse : String → Option ℕ) where
  abbrev pub Holds : ExecutorState P → Type 0
  Holds s = Inv P parse s

  -- An output that neither accepts nor tells a result.
  pub quiet_Inv :
      (s : ExecutorState P) (o : Effect)
      → Holds s
      → ((c id : ℕ) → is_acceptance P parse c id o ≡ false)
      → ((c id : ℕ) → is_result P parse c id o ≡ false)
      → Holds (record s { log = o ∷ s.log })
  unfolding sum_by
  quiet_Inv s o v a r = record {
    slots = v.slots;
    limits = v.limits;
    tracked = v.tracked;
    parsed = v.parsed;
    announced = λ c id. omega (arith, ap one (a c id), ap one (r c id), v.announced c id);
  }

  announced_as :
      (s : ExecutorState P) (i : ℕ) {r : RunExecution P}
      → Holds s
      → get_elem? s.runs i ≡ some r
      → parse r.ready.execution_id ≡ some r.execution_id
  announced_as s i v at = All-get _ s.runs i v.parsed at

  pub begin_Inv :
      (s : ExecutorState P) (i : ℕ) {r : RunExecution P} (is_open : Bool) (now : ℕ) (phase : Phase)
      → Holds s
      → get_elem? s.runs i ≡ some r
      → r.phase ≡ phase
      → Holds (begin_from P parse is_open now i r phase s)
  begin_Inv s i {r} is_open now spawned v at e =
      let checked = check_ready P parse s.queues r.ready in
      begun-Inv P parse s i is_open now (checked >>= reserve_slot P s) v at e (λ q n h.
        reserve_slot-fits P parse s checked q n
          (λ k queue g. check_ready-get P parse s.queues r.ready k queue g) h)
  begin_Inv s i is_open now (admitting q) v at e = v
  begin_Inv s i is_open now (handling q) v at e = v
  begin_Inv s i is_open now (in_grace q) v at e = v
  begin_Inv s i is_open now (leaving q) v at e = v
  begin_Inv s i is_open now released v at e = v

  admitted_Inv :
      (s : ExecutorState P) (i q : ℕ) {r : RunExecution P} (is_open : Bool) (now : ℕ)
      (admission : Admission)
      → Holds s
      → get_elem? s.runs i ≡ some r
      → r.phase ≡ admitting q
      → Holds (admitted P is_open now i q r admission s)
  unfolding is_in owes sum_by is_acceptance is_result
  admitted_Inv s i q is_open now (reject reason) v at e =
      rejected_Inv P parse s i is_open now reason (leaving q) v at (λ k. rw e refl) refl
  admitted_Inv s i q false now accept v at e =
      silent_Inv P parse s i (leaving q) v at (λ k. rw e refl) (λ h. cc)
  admitted_Inv s i q {r} true now accept v at e =
      move_Inv P parse s i (handling q) s.active_jobs
        (sent r.connection (execution_accepted r.ready.execution_id now) ∷ s.log) v at
        (λ k. rw e refl) v.limits (λ c id. rw (e, announced_as s i v at) ground arith)

  pub admit_Inv :
      (s : ExecutorState P) (i : ℕ) {r : RunExecution P} (is_open : Bool) (now : ℕ)
      (guards : Guards) (phase : Phase)
      → Holds s
      → get_elem? s.runs i ≡ some r
      → r.phase ≡ phase
      → Holds (admit_from P is_open now i guards r phase s)
  admit_Inv s i is_open now guards spawned v at e = v
  admit_Inv s i is_open now guards (admitting q) v at e =
      admitted_Inv s i q is_open now (guards_admission guards) v at e
  admit_Inv s i is_open now guards (handling q) v at e = v
  admit_Inv s i is_open now guards (in_grace q) v at e = v
  admit_Inv s i is_open now guards (leaving q) v at e = v
  admit_Inv s i is_open now guards released v at e = v

  -- A task that owes a result sends it.
  result_Inv :
      (s : ExecutorState P) (i q : ℕ) {r : RunExecution P} (is_open : Bool)
      (message : MessageToServer)
      → Holds s
      → get_elem? s.runs i ≡ some r
      → ((k : ℕ) → is_in k r.phase ≡ (q == k))
      → owes r.phase ≡ true
      → ((c id : ℕ)
          → (is_acceptance P parse c id (sent r.connection message) ≡ false)
            × (is_result P parse c id (sent r.connection message) ≡ is_of P parse c id r))
      → Holds (move_run P i (leaving q) (send P is_open r.connection message s))
  unfolding is_in owes sum_by
  result_Inv s i q false message v at slot o m =
      silent_Inv P parse s i (leaving q) v at slot (λ h. cc)
  result_Inv s i q {r} true message v at slot o m =
      move_Inv P parse s i (leaving q) s.active_jobs (sent r.connection message ∷ s.log) v at
        (λ k. rw (slot k) refl) v.limits (λ c id. ground (arith, o, (m c id).0, (m c id).1))

  failed_Inv :
      (s : ExecutorState P) (i q : ℕ) {r : RunExecution P} (is_open callback : Bool) (now : ℕ)
      (reason : String)
      → Holds s
      → get_elem? s.runs i ≡ some r
      → ((k : ℕ) → is_in k r.phase ≡ (q == k))
      → owes r.phase ≡ true
      → Holds (
          move_run P i (leaving q) (
            send P is_open r.connection (execution_failed r.ready.execution_id now reason) (
              if callback
              then record s { log = called_back r.connection r.execution_id reason ∷ s.log }
              else s)))
  unfolding is_acceptance is_result
  failed_Inv s i q {r} is_open true now reason v at slot o =
      let t = record s { log = called_back r.connection r.execution_id reason ∷ s.log } in
      result_Inv t i q is_open _ (quiet_Inv s _ v (λ c id. refl) (λ c id. refl)) at slot o
        (λ c id. (refl, rw (announced_as s i v at) refl))
  failed_Inv s i q is_open false now reason v at slot o =
      result_Inv s i q is_open _ v at slot o (λ c id. (refl, rw (announced_as s i v at) refl))

  finished_Inv :
      (s : ExecutorState P) (i q : ℕ) {r : RunExecution P} (is_open : Bool) (now : ℕ)
      (result : String × Bool)
      → Holds s
      → get_elem? s.runs i ≡ some r
      → ((k : ℕ) → is_in k r.phase ≡ (q == k))
      → owes r.phase ≡ true
      → Holds (finished_with P is_open now i q r result s)
  unfolding is_acceptance is_result
  finished_Inv s i q is_open now (output, true) v at slot o =
      result_Inv s i q is_open _ v at slot o (λ c id. (refl, rw (announced_as s i v at) refl))
  finished_Inv s i q {r} is_open now (reason, false) v at slot o =
      failed_Inv s i q is_open (s.has_callback && not (is_cancelled P r s)) now reason v at slot o

  pub finish_Inv :
      (s : ExecutorState P) (i : ℕ) {r : RunExecution P} (debug : String → String) (is_open : Bool)
      (now : ℕ) (result : HandlerRun) (phase : Phase)
      → Holds s
      → get_elem? s.runs i ≡ some r
      → r.phase ≡ phase
      → Holds (finish_from P debug is_open now i result r phase s)
  unfolding is_in owes
  finish_Inv s i debug is_open now result spawned v at e = v
  finish_Inv s i debug is_open now result (admitting q) v at e = v
  finish_Inv s i debug is_open now result (handling q) v at e =
      finished_Inv s i q is_open now _ v at (λ k. rw e refl) (rw e refl)
  finish_Inv s i debug is_open now result (in_grace q) v at e =
      finished_Inv s i q is_open now _ v at (λ k. rw e refl) (rw e refl)
  finish_Inv s i debug is_open now result (leaving q) v at e = v
  finish_Inv s i debug is_open now result released v at e = v
