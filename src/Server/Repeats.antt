-- ===== src/Server/Repeats.antt =====
-- What `retry_backend` returns.
use ora.Base.{
  ℕ, zero, suc, ◌+◌, ◌≤◌, ◌<◌, min, ◌≡◌, refl, ◌⊎◌, inl, inr, Bool, true, false, Option, some, List,
  [], ◌∷◌, arith, length, leb, Bool-cases, if_cases, sym, subst, ◌∙◌,
}
use native.Mathlib.Nat.{add-zero}
use mathlib.Core.Bool.{true≢false}
use ora.Server.Attempts.{
  Outcome, ok, err, Run, first_delay, next_delay, attempt_limit, give_up, retry_from, retry_backend,
}

-- The pauses: the first is given, and each doubles the one before, up to five seconds.
abbrev pub Doubles : ℕ → List ℕ → Type 0
Doubles delay [] = Unit {0}
Doubles delay (d ∷ ds) = (d ≡ delay) × Doubles (min (delay + delay) 5_000_000_000) ds

module _ {T E : Type 0} (outcome : ℕ → Outcome T E) (is_waiting : ℕ → Bool) (max_attempts : ℕ) where
  -- An attempt that another one may follow: it is below the limit, and one of the first two if the
  -- wait group waits.
  abbrev pub HasMore : ℕ → Type 0
  HasMore n = (n < max_attempts) × (is_waiting n ≡ true → n < 3)

  -- The last attempt: the limit, or the third or a later one while the wait group waits.
  abbrev pub IsLast : ℕ → Type 0
  IsLast n = (max_attempts ≤ n) ⊎ ((is_waiting n ≡ true) × (3 ≤ n))

  give_up-HasMore : (n : ℕ) → give_up outcome is_waiting max_attempts n ≡ false → HasMore n
  unfolding attempt_limit
  give_up-HasMore n h = (ground arith, λ w. ground arith)

  give_up-IsLast : (n : ℕ) → give_up outcome is_waiting max_attempts n ≡ true → IsLast n
  unfolding attempt_limit
  give_up-IsLast n h = elim (Bool-cases (leb max_attempts n)) [
    | inl y ↦ inl (ground arith)
    | inr y ↦ inr (ground arith, ground arith)
  ]

  -- How a run that begins with an attempt ends: there is a pause after each attempt but the last,
  -- all attempts before the last failed with attempts left, and the last one gives the result: it
  -- succeeded, or no attempt was left.
  pub record Stops (attempt delay : ℕ) (r : Run T E) : Type 0 where
    pub result_at : outcome (attempt + length r.sleeps) ≡ r.result
    pub earlier :
        (k : ℕ)
        → k < length r.sleeps
        → ((e : E) × (outcome (attempt + k) ≡ err e)) × HasMore (attempt + k)
    pub reason : ((v : T) × (r.result ≡ ok v)) ⊎ IsLast (attempt + length r.sleeps)
    pub pauses : Doubles delay r.sleeps

  ends_here :
      (attempt delay : ℕ) (o : Outcome T E)
      → outcome attempt ≡ o
      → (((v : T) × (o ≡ ok v)) ⊎ IsLast attempt)
      → Stops attempt delay (record { result = o; sleeps = [] })
  ends_here attempt delay o h why = record {
    result_at = rw add-zero h;
    earlier = λ k lt. elim lt [ ];
    reason = rw add-zero why;
    pauses = tt;
  }

  goes_on :
      (attempt delay : ℕ) (e : E) (r : Run T E)
      → outcome attempt ≡ err e
      → HasMore attempt
      → Stops (attempt + 1) (next_delay delay) r
      → Stops attempt delay (record r { sleeps = delay ∷ r.sleeps })
  goes_on attempt delay e r h left s = record {
    result_at = rw (shift (length r.sleeps)) s.result_at;
    earlier = λ k lt. first k lt;
    reason = rw (shift (length r.sleeps)) s.reason;
    pauses = (refl, subst (λ d. Doubles d r.sleeps) doubled s.pauses);
  }
    where
      doubled : next_delay delay ≡ min (delay + delay) 5_000_000_000
      doubled = omega arith

      shift : (n : ℕ) → attempt + suc n ≡ attempt + 1 + n
      shift n = omega arith

      first :
          (k : ℕ)
          → k < suc (length r.sleeps)
          → ((f : E) × (outcome (attempt + k) ≡ err f)) × HasMore (attempt + k)
      first zero lt = rw add-zero ((e, h), left)
      first (suc k) lt = rw (shift k) (s.earlier k (omega arith))

  gives_up_at_last :
      (attempt : ℕ)
      → max_attempts ≤ attempt
      → give_up outcome is_waiting max_attempts attempt ≡ true
  unfolding attempt_limit
  gives_up_at_last attempt h = ground arith

  Outcome-cases : (o : Outcome T E) → ((v : T) × (o ≡ ok v)) ⊎ ((e : E) × (o ≡ err e))
  Outcome-cases (ok v) = inl (v, refl)
  Outcome-cases (err e) = inr (e, refl)

  -- What the loop returns from an attempt on.
  abbrev Returns : ℕ → ℕ → Option (Run T E) → Type 0
  Returns attempt delay o = (r : Run T E) × (o ≡ some r) × Stops attempt delay r

  -- One round, from what the rest of the loop returns if it is reached.
  round-Returns :
      (fuel attempt delay : ℕ)
      → (give_up outcome is_waiting max_attempts attempt ≡ false
          → Returns
              (attempt + 1)
              (next_delay delay)
              (retry_from outcome is_waiting max_attempts fuel (attempt + 1) (next_delay delay)))
      → Returns attempt delay (retry_from outcome is_waiting max_attempts (suc fuel) attempt delay)
  unfolding retry_from
  round-Returns fuel attempt delay rest = elim (Outcome-cases (outcome attempt)) [
    | inl (v, o) ↦
        rw (o, retry_from)
          (
            record { result = ok v; sleeps = [] },
            refl,
            ends_here attempt delay (ok v) o (inl (v, refl)),
          )
    | inr (e, o) ↦
        rw (o, retry_from)
          (if_cases (Returns attempt delay) (give_up outcome is_waiting max_attempts attempt) _ _
            (λ g. (
              record { result = err e; sleeps = [] },
              refl,
              ends_here attempt delay (err e) o (inr (give_up-IsLast attempt g)),
            ))
            (λ g.
              let (r, same, s) = rest g in
              rw same (
                record r { sleeps = delay ∷ r.sleeps },
                refl,
                goes_on attempt delay e r o (give_up-HasMore attempt g) s,
              )))
  ]

  retry_from-Returns :
      (fuel attempt delay : ℕ)
      → max_attempts ≤ attempt + fuel
      → Returns attempt delay (retry_from outcome is_waiting max_attempts (suc fuel) attempt delay)
  retry_from-Returns zero attempt delay h =
      round-Returns zero attempt delay
        (λ g. absurd (true≢false (sym (gives_up_at_last attempt (omega arith)) ∙ g)))
  retry_from-Returns (suc fuel) attempt delay h =
      round-Returns (suc fuel) attempt delay
        (λ g. retry_from-Returns fuel (attempt + 1) (next_delay delay) (omega arith))

  -- A backend operation is repeated until it succeeds or no attempt is left, and the loop ends: it
  -- returns what the last attempt gave, with a pause after each attempt before. The attempts before
  -- the last all failed with attempts left. No attempt is left at `max_attempts`, or at the third
  -- attempt or a later one at which the wait group waits. The pauses begin at 100 milliseconds, and
  -- each is twice the one before it, or five seconds if that is less.
  pub retry_backend-Stops :
      (r : Run T E) × (retry_backend outcome is_waiting max_attempts ≡ some r)
      × Stops 1 100_000_000 r
  unfolding retry_backend
  retry_backend-Stops = retry_from-Returns max_attempts 1 first_delay (omega arith)
