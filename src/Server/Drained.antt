-- ===== src/Server/Drained.antt =====
-- What the loops of `Receiving` do with all that is sent to them, crates/ora-server/src/server/executions.rs.
use ora.Base.{
  option_cases, ℕ, ◌-◌, ◌≤◌, ◌≡◌, refl, sym, ◌∙◌, ap, subst, true, false, not, ◌&&◌, ◌≢◌, ◌⊎◌, inl,
  inr, Option, none, some, List, [], ◌∷◌, ◌++◌, length, take-drop, length-take, leb, leb→le, All,
  All-append, if_cases, arith,
}
use mathlib.Core.List.{append_assoc, append-nil}
use ora.Server.Receiving.{
  Receiver, Moment, Branch, waiting, deadline_elapsed, check_executors, received, closed,
  StopReason, executors_gone, deadline, channel_closed, Round, stops, waits, handles, receive,
  receive_closed, select_running, select_shutdown, receive_round, no_more, new_receiver,
}

abbrev pub concat : {E : Type 0} → List (List E) → List E
concat [] = []
concat (b ∷ bs) = b ++ concat bs

concat-append :
    {E : Type 0} (bs : List (List E)) (b : List E) → concat (bs ++ b ∷ []) ≡ concat bs ++ b
concat-append [] b = append-nil b
concat-append (c ∷ bs) b = ap (c ++◌) (concat-append bs b) ∙ sym (append_assoc c (concat bs) b)

module _ {E : Type 0} (limit grace max_batch : ℕ) where
  -- A loop after some rounds, with all events that were sent and the batches that it has handled.
  -- Events are sent at any time.
  pub data Ran : Receiver E → List E → List (List E) → Type 0 where
    started : Ran new_receiver [] []
    sends :
        {r : Receiver E} {sent : List E} {batches : List (List E)} (e : E)
        → Ran r sent batches
        → Ran (record r { channel = r.channel ++ e ∷ [] }) (sent ++ e ∷ []) batches
    turns :
        {r r' : Receiver E} {sent : List E} {batches : List (List E)} (m : Moment) (b : Branch)
        → Ran r sent batches
        → receive_round limit grace max_batch m b r ≡ some (waits r')
        → Ran r' sent batches
    works :
        {r r' : Receiver E} {sent batch : List E} {batches : List (List E)} (m : Moment)
        (b : Branch)
        → Ran r sent batches
        → receive_round limit grace max_batch m b r ≡ some (handles batch r')
        → Ran r' sent (batches ++ batch ∷ [])

  -- When a loop ends, and with what left in its channel.
  abbrev pub Stopped : StopReason → Moment → Receiver E → Type 0
  Stopped executors_gone m r =
      (m.pool_is_empty ≡ true) × (r.channel ≡ []) × (r.shutdown_deadline ≢ none)
  Stopped deadline m r = (d : ℕ) × (r.shutdown_deadline ≡ some d) × (d ≤ m.now)
  Stopped channel_closed m r = (m.has_senders ≡ false) × (r.channel ≡ [])

  abbrev RoundEffect : Moment → Receiver E → Option (Round E) → Type 0
  RoundEffect m r none = Unit
  RoundEffect m r (some (stops why)) = Stopped why m r
  RoundEffect m r (some (waits r')) = r'.channel ≡ r.channel
  RoundEffect m r (some (handles batch r')) =
      (batch ++ r'.channel ≡ r.channel) × (1 ≤ length batch) × (length batch ≤ max_batch)

  no_more-eq : (es : List E) → no_more es ≡ true → es ≡ []
  no_more-eq [] h = refl
  no_more-eq (e ∷ es) h = cc

  module _ (some_batch : 1 ≤ max_batch) (m : Moment) (r : Receiver E) where
    receive-RoundEffect :
        (es : List E) → r.channel ≡ es → RoundEffect m r (receive max_batch r.shutdown_deadline es)
    unfolding receive
    receive-RoundEffect [] h = tt
    receive-RoundEffect (e ∷ es) h = (
      ap (e ∷◌) (take-drop (max_batch - 1) es) ∙ sym h,
      omega arith,
      omega (arith, length-take (max_batch - 1) es),
    )

    receive_closed-RoundEffect : RoundEffect m r (receive_closed m r)
    unfolding receive_closed
    receive_closed-RoundEffect =
        if_cases (RoundEffect m r) (no_more r.channel && not m.has_senders) _ _
          (λ e. (ground arith, no_more-eq r.channel (ground arith))) (λ e. tt)

    select_running-RoundEffect :
        (b : Branch) → RoundEffect m r (select_running limit grace max_batch m b r)
    unfolding select_running
    select_running-RoundEffect waiting =
        if_cases (RoundEffect m r) m.is_waiting _ _ (λ e. refl) (λ e. tt)
    select_running-RoundEffect received = receive-RoundEffect r.channel refl
    select_running-RoundEffect closed = receive_closed-RoundEffect
    select_running-RoundEffect other = tt

    select_shutdown-RoundEffect :
        (d : ℕ) (b : Branch)
        → r.shutdown_deadline ≡ some d
        → RoundEffect m r (select_shutdown max_batch d m b r)
    unfolding select_shutdown
    select_shutdown-RoundEffect d deadline_elapsed h =
        if_cases (RoundEffect m r) (leb d m.now) _ _ (λ e. (d, h, leb→le d m.now e)) (λ e. tt)
    select_shutdown-RoundEffect d check_executors h = refl
    select_shutdown-RoundEffect d received h = receive-RoundEffect r.channel refl
    select_shutdown-RoundEffect d closed h = receive_closed-RoundEffect
    select_shutdown-RoundEffect d other h = tt

    receive_round-RoundEffect :
        (b : Branch) → RoundEffect m r (receive_round limit grace max_batch m b r)
    unfolding receive_round
    receive_round-RoundEffect b =
        option_cases (RoundEffect m r) r.shutdown_deadline _ _ (λ e. select_running-RoundEffect b)
          (λ d e.
            if_cases (RoundEffect m r) (m.pool_is_empty && no_more r.channel) _ _
              (λ gone. (ground arith, no_more-eq r.channel (ground arith), λ n. cc (sym e ∙ n)))
              (λ _. select_shutdown-RoundEffect d b e))

  module _ (some_batch : 1 ≤ max_batch) where
    -- What was sent was handled in the order of sending, or is in the channel still.
    pub Ran-sent :
        {r : Receiver E} {sent : List E} {batches : List (List E)}
        → Ran r sent batches
        → (sent ≡ concat batches ++ r.channel)
          × All (λ b. (1 ≤ length b) × (length b ≤ max_batch)) batches
    Ran-sent started = (refl, tt)
    Ran-sent (sends {r = r} {batches = batches} e ran) =
        let (s, a) = Ran-sent ran in
        (ap (λ es. es ++ e ∷ []) s ∙ append_assoc (concat batches) r.channel (e ∷ []), a)
    Ran-sent (turns {r = r} {batches = batches} m b ran round) =
        let (s, a) = Ran-sent ran in
        let same = subst (RoundEffect m r) round (receive_round-RoundEffect some_batch m r b) in
        (s ∙ ap (concat batches ++◌) (sym same), a)
    Ran-sent (works {r = r} {r' = r'} {batch = batch} {batches = batches} m b ran round) =
        let (s, a) = Ran-sent ran in
        let (cut, few, many) =
          subst (RoundEffect m r) round (receive_round-RoundEffect some_batch m r b) in
        (
          s
              ∙ (ap (concat batches ++◌) (sym cut)
                  ∙ (sym (append_assoc (concat batches) batch r'.channel)
                      ∙ ap (λ es. es ++ r'.channel) (sym (concat-append batches batch)))),
          All-append (λ b. (1 ≤ length b) × (length b ≤ max_batch)) batches (batch ∷ []) a
              ((few, many), tt),
        )

    -- Whenever the loop stops, whatever was sent and in whatever order its branches came, either the
    -- deadline of a shutdown has passed, or all that was sent was handled, once and in the order of
    -- sending, and then no executors are left in a shutdown, or nobody can send any more. Batches
    -- are never empty nor longer than the limit.
    pub stops_drained :
        {r : Receiver E} {sent : List E} {batches : List (List E)} (m : Moment) (b : Branch)
        (why : StopReason)
        → Ran r sent batches
        → receive_round limit grace max_batch m b r ≡ some (stops why)
        → Stopped why m r
          × ((why ≡ deadline) ⊎ (sent ≡ concat batches))
          × All (λ b. (1 ≤ length b) × (length b ≤ max_batch)) batches
    stops_drained {r = r} {batches = batches} m b why ran round =
        let stop = subst (RoundEffect m r) round (receive_round-RoundEffect some_batch m r b) in
        let (s, a) = Ran-sent ran in (stop, all_or_late why stop s, a)
      where
        drained :
            {sent : List E}
            → sent ≡ concat batches ++ r.channel
            → r.channel ≡ []
            → sent ≡ concat batches
        drained s e = s ∙ (ap (concat batches ++◌) e ∙ append-nil (concat batches))

        all_or_late :
            {sent : List E} (why : StopReason)
            → Stopped why m r
            → sent ≡ concat batches ++ r.channel
            → (why ≡ deadline) ⊎ (sent ≡ concat batches)
        all_or_late executors_gone (gone, e, set) s = inr (drained s e)
        all_or_late deadline stop s = inl refl
        all_or_late channel_closed (gone, e) s = inr (drained s e)
