-- ===== src/Executor/Preserved.antt =====
-- Every action of an executor keeps its invariant.
use ora.Base.{
  ℕ, String, suc, zero, ◌≤◌, ◌≡◌, refl, subst, Bool, true, false, ◌&&◌, Option, none, some, List,
  [], ◌∷◌, max, arith, one, sum_by, sum_by-swap_remove, All-swap_remove, get_elem?, ==_refl,
  lookup-remove,
}
use ora.Convert.Messages.{Protobuf}
use ora.Executor.Types.{HandlerQueue, execution_rejected, ExecutionReady, find_queue}
use ora.Executor.State.{
  Phase, spawned, admitting, handling, in_grace, leaving, released, RunExecution, ExecutorState,
  reserve, drop_slot, drop_active, set_at,
}
use ora.Executor.Runs.{
  OfferCheck, turned_down, fit, ◌>>=◌, or_reject, check_ready, reserve_slot, begun, notice_from,
  drop_cancelled_from, leave_from, move_run, send,
}
use ora.Executor.Invariant.{is_in, owes, is_of, is_acceptance, is_result, Inv, move_Inv}

find_queue-get :
    (id : String) (queues : List HandlerQueue) (i : ℕ) (queue : HandlerQueue)
    → find_queue id queues ≡ some (i, queue)
    → get_elem? queues i ≡ some queue
unfolding find_queue
find_queue-get id [] i queue h = cc
find_queue-get id (k ∷ queues) zero queue h = ground (arith, h)
find_queue-get id (k ∷ queues) (suc i) queue h = ground (arith, h, find_queue-get id queues i queue)

fits : (active limit n : ℕ) → reserve active limit ≡ some n → (n ≡ suc active) × (n ≤ max limit 1)
unfolding reserve
fits active limit n h = ground (arith)

bind-fit :
    {A B : Type 0} (c : OfferCheck A) (f : A → OfferCheck B) (b : B)
    → (c >>= f) ≡ fit b
    → (a : A) × (f a ≡ fit b)
bind-fit (turned_down reason) f b h = cc
bind-fit (fit a) f b h = (a, h)

or_reject-fit :
    {A : Type 0} (o : Option A) (reason : String) (a : A) → or_reject o reason ≡ fit a → o ≡ some a
or_reject-fit none reason a h = cc
or_reject-fit (some b) reason a h = cc

reserved_slot :
    (k : ℕ) (o : Option ℕ) (q n : ℕ)
    → ◌>>=◌ {A = ℕ} {B = ℕ × ℕ} (or_reject o "executor at capacity") (λ count. fit (k, count))
      ≡ fit (q, n)
    → (k ≡ q) × (o ≡ some n)
reserved_slot k none q n h = cc
reserved_slot k (some m) q n h = (cc, cc)

module _ (P : Protobuf) (parse : String → Option ℕ) where
  -- A rejection announces nothing and is no result.
  pub rejected_Inv :
      (s : ExecutorState P) (i : ℕ) {r : RunExecution P} (is_open : Bool) (now : ℕ)
      (reason : Option String) (phase : Phase)
      → Inv P parse s
      → get_elem? s.runs i ≡ some r
      → ((q : ℕ) → is_in q r.phase ≡ is_in q phase)
      → owes phase ≡ false
      → Inv P parse (
          move_run P i phase
            (send P is_open r.connection (execution_rejected r.ready.execution_id now reason) s))
  unfolding sum_by is_acceptance is_result
  rejected_Inv s i {r} true now reason phase v at same owes_none =
      move_Inv P parse s i phase s.active_jobs _ v at (λ q. rw (same q) refl) v.limits
        (λ c id. ground (arith))
  rejected_Inv s i {r} false now reason phase v at same owes_none =
      move_Inv P parse s i phase s.active_jobs _ v at (λ q. rw (same q) refl) v.limits
        (λ c id. ground (arith))

  -- A task leaves without a message.
  pub silent_Inv :
      (s : ExecutorState P) (i : ℕ) {r : RunExecution P} (phase : Phase)
      → Inv P parse s
      → get_elem? s.runs i ≡ some r
      → ((q : ℕ) → is_in q r.phase ≡ is_in q phase)
      → (owes phase ≡ true → owes r.phase ≡ true)
      → Inv P parse (move_run P i phase s)
  silent_Inv s i {r} phase v at same owes_more =
      move_Inv P parse s i phase s.active_jobs s.log v at (λ q. rw (same q) refl) v.limits
        (λ c id. ground (arith))

  pub begun-Inv :
      (s : ExecutorState P) (i : ℕ) {r : RunExecution P} (is_open : Bool) (now : ℕ)
      (checked : OfferCheck (ℕ × ℕ))
      → Inv P parse s
      → get_elem? s.runs i ≡ some r
      → r.phase ≡ spawned
      → ((q n : ℕ)
          → checked ≡ fit (q, n)
          → (n ≡ suc (s.active_jobs q))
            × ((queue : HandlerQueue)
                → get_elem? s.queues q ≡ some queue
                → n ≤ max queue.max_concurrent_jobs 1))
      → Inv P parse (begun P is_open now i r checked s)
  unfolding is_in owes
  begun-Inv s i is_open now (turned_down reason) v at e h =
      rejected_Inv s i is_open now (some reason) released v at (λ q. rw e refl) refl
  begun-Inv s i {r} is_open now (fit (q, n)) v at e h =
      move_Inv P parse s i (admitting q) (set_at q n s.active_jobs) s.log v at
        (λ k. rw e ground (arith, (h q n refl).0))
        (λ k queue g. ground (arith, v.limits k queue g, (h q n refl).1 queue))
        (λ c id. rw e omega (arith))

  pub check_ready-get :
      (queues : List HandlerQueue) (ready : ExecutionReady P) (q : ℕ) (queue : HandlerQueue)
      → check_ready P parse queues ready ≡ fit (q, queue)
      → get_elem? queues q ≡ some queue
  unfolding check_ready
  check_ready-get queues ready q queue h = grind (arith, find_queue-get)

  pub reserve_slot-fits :
      (s : ExecutorState P) (c : OfferCheck (ℕ × HandlerQueue)) (q n : ℕ)
      → ((k : ℕ) (queue : HandlerQueue) → c ≡ fit (k, queue) → get_elem? s.queues k ≡ some queue)
      → (c >>= reserve_slot P s) ≡ fit (q, n)
      → (n ≡ suc (s.active_jobs q))
        × ((queue : HandlerQueue)
            → get_elem? s.queues q ≡ some queue
            → n ≤ max queue.max_concurrent_jobs 1)
  unfolding reserve_slot
  reserve_slot-fits s (turned_down reason) q n g h = cc
  reserve_slot-fits s (fit (k, queue)) q n g h =
      let (same, e) = reserved_slot k _ q n h in
      let f = fits (s.active_jobs k) queue.max_concurrent_jobs n e in
      let at = g k queue refl in
      (
        subst (λ q. n ≡ suc (s.active_jobs q)) same f.0,
        λ other at_other.
            let eq : queue ≡ other = ground (arith, at, at_other, same) in
            subst (λ queue. n ≤ max queue.max_concurrent_jobs 1) eq f.1,
      )

  -- A slot that a task holds is counted.
  held_slot :
      (s : ExecutorState P) (i q : ℕ) {r : RunExecution P}
      → Inv P parse s
      → get_elem? s.runs i ≡ some r
      → is_in q r.phase ≡ true
      → 1 ≤ s.active_jobs q
  unfolding is_in
  held_slot s i q v at h =
      ground (arith, v.slots q, sum_by-swap_remove (λ r. one (is_in q r.phase)) s.runs i at)

  pub leave_Inv :
      (s : ExecutorState P) (i : ℕ) {r : RunExecution P} (phase : Phase)
      → Inv P parse s
      → get_elem? s.runs i ≡ some r
      → r.phase ≡ phase
      → Inv P parse (leave_from P i r phase s)
  unfolding is_in owes drop_slot drop_active
  leave_Inv s i {r} (leaving q) v at e =
      let at_place : is_in q r.phase ≡ true = rw e (==_refl q) in
      let held = held_slot s i q v at at_place in
      move_Inv P parse s i released (set_at q (drop_slot (s.active_jobs q)) s.active_jobs) s.log v
        at (λ k. rw e ground (arith, held)) (λ k queue g. ground (arith, held, v.limits k queue g))
        (λ c id. rw e omega (arith))
  leave_Inv s i {r} released v at e = record {
    slots = λ q.
        let none_held : one (is_in q r.phase) ≡ 0 = rw e refl in
        omega (
          arith,
          none_held,
          v.slots q,
          sum_by-swap_remove (λ r. one (is_in q r.phase)) s.runs i at,
        );
    limits = v.limits;
    tracked = λ c id. ground (
      arith,
      v.tracked c id,
      lookup-remove r.execution_id id (s.executions r.connection),
      sum_by-swap_remove (λ r. one (is_of P parse c id r)) s.runs i at,
    );
    parsed = All-swap_remove _ s.runs i v.parsed;
    announced = λ c id. omega (
      arith,
      v.announced c id,
      sum_by-swap_remove (λ r. one (is_of P parse c id r && owes r.phase)) s.runs i at,
    );
  }
  leave_Inv s i spawned v at e = v
  leave_Inv s i (admitting q) v at e = v
  leave_Inv s i (handling q) v at e = v
  leave_Inv s i (in_grace q) v at e = v

  pub notice_Inv :
      (s : ExecutorState P) (i : ℕ) {r : RunExecution P} (phase : Phase)
      → Inv P parse s
      → get_elem? s.runs i ≡ some r
      → r.phase ≡ phase
      → Inv P parse (notice_from P i phase s)
  unfolding is_in owes
  notice_Inv s i spawned v at e = v
  notice_Inv s i (admitting q) v at e = silent_Inv s i (leaving q) v at (λ k. rw e refl) (λ h. cc)
  notice_Inv s i (handling q) v at e =
      silent_Inv s i (in_grace q) v at (λ k. rw e refl) (λ h. rw e refl)
  notice_Inv s i (in_grace q) v at e = v
  notice_Inv s i (leaving q) v at e = v
  notice_Inv s i released v at e = v

  pub drop_cancelled_Inv :
      (s : ExecutorState P) (i : ℕ) {r : RunExecution P} (phase : Phase)
      → Inv P parse s
      → get_elem? s.runs i ≡ some r
      → r.phase ≡ phase
      → Inv P parse (drop_cancelled_from P i phase s)
  unfolding is_in owes
  drop_cancelled_Inv s i spawned v at e = v
  drop_cancelled_Inv s i (admitting q) v at e = v
  drop_cancelled_Inv s i (handling q) v at e = v
  drop_cancelled_Inv s i (in_grace q) v at e =
      silent_Inv s i (leaving q) v at (λ k. rw e refl) (λ h. cc)
  drop_cancelled_Inv s i (leaving q) v at e = v
  drop_cancelled_Inv s i released v at e = v
