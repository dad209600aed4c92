-- ===== src/Server/Passes.antt =====
-- What becomes of the executions that a pass fetches.
use ora.Base.{
  ℕ, ◌+◌, ◌≡◌, refl, ap, Bool, false, Option, none, some, List, [], ◌∷◌, map, arith, sum_by,
  sum_by-append, one, ◌==◌, flat_map, if_cases, option_cases,
}
use ora.Backend.{ReadyExecution}
use ora.Pool.State.{ExecutorPool, Clock}
use ora.Pool.Offer.{
  forget_started, held_execution_ids, Offering, no_offers, offer_one, offer_all, try_offer, place,
}
use ora.Pool.Accepted.{pool_has_capacity}
use ora.Pool.Offering.{count_id, offer_one_cases}
use ora.Pool.Batches.{offers_of, is_offer_of, place-offers}
use ora.Server.Ready.{Fetched, PassEnd, passed, Pass, new_pass, offer_batch, ready_pass}

abbrev pub ids_of : List (ReadyExecution × List ℕ) → List ℕ
ids_of es = map (λ e. e.0.execution_id) es

module _ (link : ℕ → ℕ → Bool) (c : Clock) (held : List ℕ) (id : ℕ) where
  -- An execution is refused or sent.
  offer_one-count :
      (e : ReadyExecution × List ℕ) (o : Offering)
      → let o' = offer_one link c held e o in
        count_id id o'.not_offered + offers_of id o'.outputs
        ≡ count_id id o.not_offered + offers_of id o.outputs + one (e.0.execution_id == id)
  unfolding sum_by
  offer_one-count (e, order) o =
      offer_one_cases link c held e order
        (λ o'.
          count_id id o'.not_offered + offers_of id o'.outputs
          ≡ count_id id o.not_offered + offers_of id o.outputs + one (e.execution_id == id))
        o (omega (arith, sum_by-append (λ k. one (k == id)) o.not_offered (e.execution_id ∷ [])))
        (λ i j h free.
          let sent = place-offers c e i j id h.executor o in
          let kept : (place c e i j h.executor o).not_offered ≡ o.not_offered =
            unfold place in refl in
          omega (arith, sent, ap (count_id id) kept))

  offer_all-count :
      (es : List (ReadyExecution × List ℕ)) (o : Offering)
      → let o' = offer_all link c held es o in
        count_id id o'.not_offered + offers_of id o'.outputs
        ≡ count_id id o.not_offered + offers_of id o.outputs + count_id id (ids_of es)
  unfolding offer_all sum_by
  offer_all-count [] o = omega arith
  offer_all-count (e ∷ es) o =
      omega (arith, offer_one-count e o, offer_all-count es (offer_one link c held e o))

try_offer-count :
    (link : ℕ → ℕ → Bool) (c : Clock) (fetched_at id : ℕ) (es : List (ReadyExecution × List ℕ))
    (p : ExecutorPool)
    → let o = try_offer link c fetched_at es p in
      count_id id o.not_offered + offers_of id o.outputs ≡ count_id id (ids_of es)
unfolding try_offer sum_by offers_of
try_offer-count link c fetched_at id [] p = omega arith
try_offer-count link c fetched_at id (e ∷ es) p =
    let p' = forget_started fetched_at p in
    omega (arith, offer_all-count link c (held_execution_ids p') id (e ∷ es) (no_offers p'))

-- The executions of a pass that is not cut short.
abbrev pub batch_ids : Option (List (ReadyExecution × List ℕ)) → List ℕ
batch_ids none = []
batch_ids (some es) = ids_of es

unfoldable pub fetched_ids : List Fetched → List ℕ
fetched_ids fs = flat_map (λ f. batch_ids f.answer) fs

accounted : ℕ → Pass → ℕ
accounted id s = count_id id s.ignored_execution_ids + offers_of id s.outputs

offer_batch-accounted :
    (f : Fetched) (fetched_at id : ℕ) (es : List (ReadyExecution × List ℕ)) (s : Pass)
    → accounted id (offer_batch f fetched_at es s) ≡ accounted id s + count_id id (ids_of es)
unfolding accounted offer_batch offers_of
offer_batch-accounted f fetched_at id es s =
    let o = try_offer f.link f.clock fetched_at es (f.meanwhile s.pool) in
    omega (
      arith,
      try_offer-count f.link f.clock fetched_at id es (f.meanwhile s.pool),
      sum_by-append (λ k. one (k == id)) s.ignored_execution_ids o.not_offered,
      sum_by-append (λ o. one (is_offer_of id o)) s.outputs o.outputs,
    )

ready_pass-accounted :
    (id : ℕ) (fs : List Fetched) (fetched_at : ℕ) (s : Pass)
    → (ready_pass fs fetched_at s).0 ≡ passed false
    → accounted id (ready_pass fs fetched_at s).1 ≡ accounted id s + count_id id (fetched_ids fs)
unfolding ready_pass fetched_ids flat_map sum_by
ready_pass-accounted id [] fetched_at s h = omega arith
ready_pass-accounted id (f ∷ fs) fetched_at s h =
    if_cases Goal f.is_waiting _ _ (λ w e. cc)
      (λ w.
        option_cases Goal f.answer _ _ (λ n e. cc)
          (λ es a.
            let t = offer_batch f fetched_at es s in
            if_cases Goal (pool_has_capacity f.capacity_at t.pool) _ _
              (λ room e. omega (
                arith,
                ready_pass-accounted id fs f.fetched_next t e,
                offer_batch-accounted f fetched_at id es s,
                together es a,
              ))
              (λ full e. cc)))
      h
  where
    Goal : PassEnd × Pass → Type 0
    Goal r =
        r.0 ≡ passed false → accounted id r.1 ≡ accounted id s + count_id id (fetched_ids (f ∷ fs))

    together :
        (es : List (ReadyExecution × List ℕ))
        → f.answer ≡ some es
        → count_id id (fetched_ids (f ∷ fs))
          ≡ count_id id (ids_of es) + count_id id (fetched_ids fs)
    together es a =
        unfold fetched_ids flat_map in
        rw a
          (sum_by-append (λ k. one (k == id)) (ids_of es) (flat_map (λ f. batch_ids f.answer) fs))

-- If a pass over the batches of ready executions ends with room left, without an error and without
-- a shutdown, every execution of the batches is either noted to be ignored or was sent to an
-- executor, as often as the batches list it.
pub ready_pass-fetched :
    (fs : List Fetched) (fetched_at id : ℕ) (p : ExecutorPool)
    → (ready_pass fs fetched_at (new_pass p)).0 ≡ passed false
    → let s = (ready_pass fs fetched_at (new_pass p)).1 in
      count_id id (fetched_ids fs) ≡ count_id id s.ignored_execution_ids + offers_of id s.outputs
unfolding new_pass sum_by offers_of accounted
ready_pass-fetched fs fetched_at id p h =
    omega (arith, ready_pass-accounted id fs fetched_at (new_pass p) h)
