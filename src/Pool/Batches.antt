-- ===== src/Pool/Batches.antt =====
-- What `try_offer` reports: its counts, the messages it sends, and what it leaves alone.
use ora.Base.{
  ℕ, ◌+◌, ◌≤◌, ◌≡◌, refl, ◌∙◌, inl, inr, Bool, true, false, not, List, [], ◌∷◌, map, Option, arith,
  sum_by, sum_by-append, one, ◌==◌, Bool-cases, length, length-append, flat_map, retain, any,
  sum_by-retain-le,
}
use ora.Backend.{ReadyExecution}
use ora.Pool.State.{
  Executor, ExecutorExecution, ExecutorPool, Clock, Output, send_to, emit, start, notify_available,
  notify_starts, ServerMessage, properties, execution_ready, execution_cancelled,
}
use ora.Pool.Queue.{executions_of, is_accepted, has_id}
use ora.Pool.Offer.{
  forget_started, is_fresh, held_execution_ids, contains, Offering, no_offers, offer_one, offer_all,
  try_offer, place, offer_outputs,
}
use ora.Pool.Accepted.{in_flight_execution_ids, is_not_started}
use ora.Pool.Measure.{holds}
use ora.Pool.Offering.{count_id, count_id-zero, sum_by-map, offer_one_cases, place-holds}

abbrev pub names : ℕ → ServerMessage → Bool
names id (execution_ready e) = e.execution_id == id
names id (properties i t) = false
names id (execution_cancelled i) = false

abbrev pub is_offer_of : ℕ → Output → Bool
is_offer_of id (send_to x m) = names id m
is_offer_of id (emit e) = false
is_offer_of id (start s) = false
is_offer_of id notify_available = false
is_offer_of id notify_starts = false

-- How many times an execution is sent out.
unfoldable pub offers_of : ℕ → List Output → ℕ
offers_of id out = sum_by (λ o. one (is_offer_of id o)) out

pub place-offers :
    (c : Clock) (e : ReadyExecution) (i j id : ℕ) (x : Executor) (o : Offering)
    → offers_of id (place c e i j x o).outputs ≡ offers_of id o.outputs + one (e.execution_id == id)
unfolding place offer_outputs offers_of sum_by
place-offers c e i j id x o =
    ground (arith, sum_by-append (λ s. one (is_offer_of id s)) o.outputs (offer_outputs c e x))

module _ (link : ℕ → ℕ → Bool) (c : Clock) (held : List ℕ) where
  offer_one-counts :
      (e : ReadyExecution × List ℕ) (o : Offering)
      → let o' = offer_one link c held e o in
        o'.offered_count + length o'.not_offered ≡ o.offered_count + length o.not_offered + 1
  offer_one-counts (e, order) o =
      offer_one_cases link c held e order
        (λ o'.
          o'.offered_count + length o'.not_offered ≡ o.offered_count + length o.not_offered + 1)
        o (omega (arith, length-append o.not_offered (e.execution_id ∷ [])))
        (λ i j h free. unfold place in omega arith)

  offer_all-counts :
      (es : List (ReadyExecution × List ℕ)) (o : Offering)
      → let o' = offer_all link c held es o in
        o'.offered_count + length o'.not_offered
        ≡ o.offered_count + length o.not_offered + length es
  unfolding offer_all
  offer_all-counts [] o = omega arith
  offer_all-counts (e ∷ es) o =
      omega (arith, offer_one-counts e o, offer_all-counts es (offer_one link c held e o))

  -- Every new place is paired with one message.
  offer_one-offers :
      (id : ℕ) (e : ReadyExecution × List ℕ) (o : Offering)
      → let o' = offer_one link c held e o in
        holds id o'.pool + offers_of id o.outputs ≡ holds id o.pool + offers_of id o'.outputs
  offer_one-offers id (e, order) o =
      offer_one_cases link c held e order
        (λ o'.
          holds id o'.pool + offers_of id o.outputs ≡ holds id o.pool + offers_of id o'.outputs)
        o refl
        (λ i j h free. omega (
          arith,
          place-offers c e i j id h.executor o,
          place-holds c e id i j h.executor h.queue o h.executor_at h.queue_at,
        ))

  offer_all-offers :
      (id : ℕ) (es : List (ReadyExecution × List ℕ)) (o : Offering)
      → let o' = offer_all link c held es o in
        holds id o'.pool + offers_of id o.outputs ≡ holds id o.pool + offers_of id o'.outputs
  unfolding offer_all
  offer_all-offers id [] o = refl
  offer_all-offers id (e ∷ es) o =
      omega (arith, offer_one-offers id e o, offer_all-offers id es (offer_one link c held e o))

  module _ (id : ℕ) (h : contains id held ≡ true) where
    -- Nothing that is held is sent.
    offer_one-held :
        (e : ReadyExecution × List ℕ) (o : Offering)
        → offers_of id (offer_one link c held e o).outputs ≡ offers_of id o.outputs
    offer_one-held (e, order) o =
        offer_one_cases link c held e order (λ o'. offers_of id o'.outputs ≡ offers_of id o.outputs)
          o refl (λ i j f free. ground (arith, free, h, place-offers c e i j id f.executor o))

    offer_all-held :
        (es : List (ReadyExecution × List ℕ)) (o : Offering)
        → offers_of id (offer_all link c held es o).outputs ≡ offers_of id o.outputs
    unfolding offer_all
    offer_all-held [] o = refl
    offer_all-held (e ∷ es) o = offer_all-held es (offer_one link c held e o) ∙ offer_one-held e o

-- Every execution of a batch is either counted as offered or listed as not offered.
pub try_offer-counts :
    (link : ℕ → ℕ → Bool) (c : Clock) (fetched_at : ℕ) (es : List (ReadyExecution × List ℕ))
    (p : ExecutorPool)
    → let o = try_offer link c fetched_at es p in o.offered_count + length o.not_offered ≡ length es
unfolding try_offer
try_offer-counts link c fetched_at [] p = omega arith
try_offer-counts link c fetched_at (e ∷ es) p =
    let p' = forget_started fetched_at p in
    omega (arith, offer_all-counts link c (held_execution_ids p') (e ∷ es) (no_offers p'))

-- An execution is sent to an executor exactly as often as it gains a place in the pool.
pub try_offer-offers_of :
    (link : ℕ → ℕ → Bool) (c : Clock) (fetched_at : ℕ) (es : List (ReadyExecution × List ℕ))
    (p : ExecutorPool) (id : ℕ)
    → let o = try_offer link c fetched_at es p in
      holds id o.pool ≡ holds id p + offers_of id o.outputs
unfolding try_offer offers_of forget_started holds sum_by
try_offer-offers_of link c fetched_at [] p id = omega arith
try_offer-offers_of link c fetched_at (e ∷ es) p id =
    let p' = forget_started fetched_at p in
    omega (arith, offer_all-offers link c (held_execution_ids p') id (e ∷ es) (no_offers p'))

sum_by-retain_mono {ℓ} :
    {A : Type ℓ} (f : A → ℕ) (p q : A → Bool) (xs : List A)
    → ((x : A) → p x ≡ true → q x ≡ true)
    → sum_by f (retain p xs) ≤ sum_by f (retain q xs)
unfolding retain sum_by
sum_by-retain_mono f p q [] h = omega arith
sum_by-retain_mono f p q (x ∷ xs) h = ground (arith, h x, sum_by-retain_mono f p q xs h)

-- What is in flight is held, whatever the fetch.
in_flight-le-held :
    (fetched_at id : ℕ) (p : ExecutorPool)
    → count_id id (in_flight_execution_ids p)
      ≤ count_id id (held_execution_ids (forget_started fetched_at p))
unfolding in_flight_execution_ids held_execution_ids forget_started
in_flight-le-held fetched_at id p =
    let k = λ (k : ℕ). one (k == id) in
    let executions = flat_map executions_of p.executors in
    let entries = p.accepted_executions in
    omega (
      arith,
      sum_by-append k (map (λ e. e.execution_id) (retain (λ e. not (is_accepted e)) executions))
          (map (λ entry. entry.0) (retain is_not_started entries)),
      sum_by-append k (map (λ e. e.execution_id) executions)
          (map (λ entry. entry.0) (retain (is_fresh fetched_at) entries)),
      sum_by-map k (λ (e : ExecutorExecution). e.execution_id)
          (retain (λ e. not (is_accepted e)) executions),
      sum_by-map k (λ (e : ExecutorExecution). e.execution_id) executions,
      sum_by-map k (λ (entry : ℕ × Option ℕ). entry.0) (retain is_not_started entries),
      sum_by-map k (λ (entry : ℕ × Option ℕ). entry.0) (retain (is_fresh fetched_at) entries),
      sum_by-retain-le (λ e. one (has_id id e)) (λ e. not (is_accepted e)) executions,
      sum_by-retain_mono (λ (entry : ℕ × Option ℕ). one (entry.0 == id)) is_not_started
          (is_fresh fetched_at) entries (λ entry h. ground arith),
    )

count_id-pos : (id : ℕ) (ids : List ℕ) → contains id ids ≡ true → 1 ≤ count_id id ids
unfolding contains any sum_by
count_id-pos id [] h = cc
count_id-pos id (k ∷ ids) h = ground (arith, count_id-pos id ids)

pub contains_of_pos : (id : ℕ) (ids : List ℕ) → 1 ≤ count_id id ids → contains id ids ≡ true
contains_of_pos id ids h = elim (Bool-cases (contains id ids)) [
  | inl y ↦ y
  | inr n ↦ absurd (omega (arith, count_id-zero id ids n))
]

-- An execution that is offered to an executor, or was accepted but is not started in the backend,
-- is not sent out again, though the backend still returns it as ready.
pub in_flight_not_offered :
    (link : ℕ → ℕ → Bool) (c : Clock) (fetched_at : ℕ) (es : List (ReadyExecution × List ℕ))
    (p : ExecutorPool) (id : ℕ)
    → contains id (in_flight_execution_ids p) ≡ true
    → let o = try_offer link c fetched_at es p in
      (offers_of id o.outputs ≡ 0) × (holds id o.pool ≡ holds id p)
in_flight_not_offered link c fetched_at es p id h =
    let none_sent = sent_nothing es in
    (none_sent, omega (arith, none_sent, try_offer-offers_of link c fetched_at es p id))
  where
    held : contains id (held_execution_ids (forget_started fetched_at p)) ≡ true
    held = contains_of_pos id (held_execution_ids (forget_started fetched_at p)) (
        omega
          (arith, count_id-pos id (in_flight_execution_ids p) h, in_flight-le-held fetched_at id p))

    sent_nothing :
        (es : List (ReadyExecution × List ℕ))
        → offers_of id (try_offer link c fetched_at es p).outputs ≡ 0
    sent_nothing [] = unfold try_offer offers_of sum_by in omega arith
    sent_nothing (e ∷ es) =
        unfold try_offer in
        offer_all-held link c (held_execution_ids (forget_started fetched_at p)) id held (e ∷ es)
          (no_offers (forget_started fetched_at p))
        ∙ (unfold offers_of sum_by in refl)
