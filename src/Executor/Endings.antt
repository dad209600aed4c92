-- ===== src/Executor/Endings.antt =====
-- No task of an executor is stuck: whatever was reached, some actions end all of its tasks.
use ora.Base.{
  ℕ, String, suc, zero, ◌+◌, ◌≤◌, ◌<◌, ◌≡◌, refl, ap, sym, ◌∙◌, subst, Bool, false, Option, some,
  none, List, [], ◌∷◌, ◌++◌, arith, is_some, get_elem?, modify, sum_by, sum_by-modify,
  sum_by-swap_remove, lookup, one,
}
use ora.Convert.Messages.{Protobuf}
use ora.Executor.Types.{HandlerQueue, handler_result, returned}
use ora.Executor.State.{
  Phase, spawned, admitting, handling, in_grace, leaving, released, RunExecution, ExecutorState,
  fresh_executor,
}
use ora.Executor.Runs.{
  OfferCheck, turned_down, fit, check_ready, reserve_slot, ◌>>=◌, on_run, begun, timed_out,
  guards_admission, begin_run, begin_from, admit_from, admit_run, finish_run, finish_from,
  drop_cancelled, drop_cancelled_from, leave_run, leave_from, to_phase,
}
use ora.Executor.Loop.{Action, begin, admit, finish, end_grace, leave, act, act_all}
use ora.Executor.Invariant.{Inv, slots_of, runs_of}
use ora.Executor.Kept.{fresh_executor-Inv}
use ora.Executor.Answers.{reached}

-- How far a task is from its end.
rank : Phase → ℕ
rank spawned = 5
rank (admitting q) = 4
rank (handling q) = 3
rank (in_grace q) = 3
rank (leaving q) = 2
rank released = 1

module _ (P : Protobuf) (parse : String → Option ℕ) where
  ranks : List (RunExecution P) → ℕ
  ranks runs = sum_by (λ r. rank r.phase) runs

  -- What brings the first task nearer to its end, with the channel closed.
  nearer : Phase → Action P parse
  nearer spawned = begin false 0 0
  nearer (admitting q) = admit false 0 0 timed_out
  nearer (handling q) = finish (λ m. m) false 0 0 (returned "")
  nearer (in_grace q) = end_grace 0
  nearer (leaving q) = leave 0
  nearer released = leave 0

  moved :
      (runs : List (RunExecution P)) (i : ℕ) {r : RunExecution P} (phase : Phase)
      → get_elem? runs i ≡ some r
      → rank phase < rank r.phase
      → ranks (modify runs i (to_phase P phase)) < ranks runs
  unfolding ranks
  moved runs i phase at h =
      omega (arith, h, sum_by-modify (λ r. rank r.phase) (to_phase P phase) runs i at)

  ranks-begun :
      (s : ExecutorState P) (r : RunExecution P) (checked : OfferCheck (ℕ × ℕ))
      → get_elem? s.runs 0 ≡ some r
      → r.phase ≡ spawned
      → ranks (begun P false 0 0 r checked s).runs < ranks s.runs
  unfolding rank
  ranks-begun s r (turned_down reason) at e = moved s.runs 0 released at (rw e omega arith)
  ranks-begun s r (fit (q, n)) at e = moved s.runs 0 (admitting q) at (rw e omega arith)

  on_run_at :
      (s : ExecutorState P) (f : Phase → RunExecution P → ExecutorState P) (r : RunExecution P)
      (phase : Phase)
      → get_elem? s.runs 0 ≡ some r
      → r.phase ≡ phase
      → ranks (f phase r).runs < ranks s.runs
      → ranks (on_run P 0 s (λ r. f r.phase r)).runs < ranks s.runs
  on_run_at s f r phase at e h =
      let here : on_run P 0 s (λ r. f r.phase r) ≡ f r.phase r =
        ap (λ (o : Option (RunExecution P)). elim o [ none ↦ s | some r ↦ f r.phase r ]) at in
      subst (λ (t : ExecutorState P). ranks t.runs < ranks s.runs) (sym (here ∙ ap (λ p. f p r) e))
        h

  ranks-nearer :
      (s : ExecutorState P) (r : RunExecution P) (phase : Phase)
      → get_elem? s.runs 0 ≡ some r
      → r.phase ≡ phase
      → ranks (act P parse (nearer phase) s).runs < ranks s.runs
  unfolding act nearer rank ranks begin_run admit_run finish_run drop_cancelled leave_run
      handler_result guards_admission
  ranks-nearer s r spawned at e =
      on_run_at s (λ p r. begin_from P parse false 0 0 r p s) r spawned at e
        (ranks-begun s r (check_ready P parse s.queues r.ready >>= reserve_slot P s) at e)
  ranks-nearer s r (admitting q) at e =
      on_run_at s (λ p r. admit_from P false 0 0 timed_out r p s) r (admitting q) at e
        (moved s.runs 0 (leaving q) at (rw e omega arith))
  ranks-nearer s r (handling q) at e =
      on_run_at s (λ p r. finish_from P (λ m. m) false 0 0 (returned "") r p s) r (handling q) at e
        (moved s.runs 0 (leaving q) at (rw e omega arith))
  ranks-nearer s r (in_grace q) at e =
      on_run_at s (λ p r. drop_cancelled_from P 0 p s) r (in_grace q) at e
        (moved s.runs 0 (leaving q) at (rw e omega arith))
  ranks-nearer s r (leaving q) at e =
      on_run_at s (λ p r. leave_from P 0 r p s) r (leaving q) at e
        (moved s.runs 0 released at (rw e omega arith))
  ranks-nearer s r released at e =
      let one_left : rank r.phase ≡ 1 = rw e refl in
      on_run_at s (λ p r. leave_from P 0 r p s) r released at e
        (omega (arith, one_left, sum_by-swap_remove (λ r. rank r.phase) s.runs 0 at))

  rank_positive : (phase : Phase) → 1 ≤ rank phase
  unfolding rank
  rank_positive spawned = omega arith
  rank_positive (admitting q) = omega arith
  rank_positive (handling q) = omega arith
  rank_positive (in_grace q) = omega arith
  rank_positive (leaving q) = omega arith
  rank_positive released = omega arith

  none_left :
      (s : ExecutorState P) (r : RunExecution P) (runs : List (RunExecution P))
      → s.runs ≡ r ∷ runs
      → ranks s.runs ≤ 0
      → ⊥
  unfolding ranks sum_by
  none_left s r runs e h =
      let counted : ranks s.runs ≡ rank r.phase + ranks runs = ap ranks e in
      omega (arith, counted, rank_positive r.phase)

  -- The ranks of all tasks bound the actions that are needed.
  drain :
      (n : ℕ) (s : ExecutorState P) (runs : List (RunExecution P))
      → s.runs ≡ runs
      → ranks s.runs ≤ n
      → (actions : List (Action P parse)) × ((act_all P parse actions s).runs ≡ [])
  unfolding act_all
  drain n s [] e h = ([], e)
  drain zero s (r ∷ runs) e h = absurd (none_left s r runs e h)
  drain (suc n) s (r ∷ runs) e h =
      let at : get_elem? s.runs 0 ≡ some r = rw e refl in
      let t = act P parse (nearer r.phase) s in
      let (actions, ended) =
        drain n t t.runs refl (omega (arith, ranks-nearer s r r.phase at refl)) in
      (nearer r.phase ∷ actions, ended)

  act_all-append :
      (first later : List (Action P parse)) (s : ExecutorState P)
      → act_all P parse (first ++ later) s ≡ act_all P parse later (act_all P parse first s)
  unfolding act_all
  act_all-append [] later s = refl
  act_all-append (a ∷ first) later s = act_all-append first later (act P parse a s)

  untracked : (o : Option ℕ) → one (is_some o) ≡ 0 → o ≡ none
  untracked none h = refl
  untracked (some k) h = cc

  ended_lem :
      (s : ExecutorState P)
      → Inv P parse s
      → s.runs ≡ []
      → ((q : ℕ) → s.active_jobs q ≡ 0) × ((c id : ℕ) → lookup id (s.executions c) ≡ none)
  unfolding sum_by
  ended_lem s v e = (
    λ q. v.slots q ∙ ap (slots_of P parse q) e,
    λ c id. untracked (lookup id (s.executions c)) (v.tracked c id ∙ ap (runs_of P parse c id) e),
  )

  -- Whatever actions an executor took, more actions can follow after which it has no task, every
  -- counter of a slot is 0, and no execution is tracked on any connection.
  pub all_tasks_end :
      (name : String) (queues : List HandlerQueue) (has_callback : Bool)
      (actions : List (Action P parse))
      → (more : List (Action P parse)) × (let s =
            reached P parse name queues has_callback (actions ++ more) in
          (s.runs ≡ [])
          × ((q : ℕ) → s.active_jobs q ≡ 0)
          × ((c id : ℕ) → lookup id (s.executions c) ≡ none))
  all_tasks_end name queues has_callback actions =
      let s = reached P parse name queues has_callback actions in
      let (more, ended) = drain (ranks s.runs) s s.runs refl (omega arith) in
      let same = act_all-append actions more (fresh_executor P name queues has_callback) in
      let none_left = ap (λ (t : ExecutorState P). t.runs) same ∙ ended in
      let v = fresh_executor-Inv P parse name queues has_callback (actions ++ more) in
      let (no_slots, no_tracked) = ended_lem _ v none_left in
      (more, (none_left, no_slots, no_tracked))
