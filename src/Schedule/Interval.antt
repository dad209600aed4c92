-- ===== src/Schedule/Interval.antt =====
-- Schedules with a fixed interval.
use native.Mathlib.Nat.{div-add-mod, mod-lt}
use ora.Base.{
  ℕ, ◌+◌, ◌-◌, ◌*◌, ◌/◌, ◌%◌, ◌≤◌, ◌<◌, ◌≡◌, refl, ◌⊎◌, inl, inr, Bool, true, some, arith, ltb,
  if_cases,
}
use ora.Time.{checked_add}
use ora.Backend.{skip}
use ora.Schedule.Defs.{
  ok, duration_from_nanos, checked_mul, div_ceil, skipped_time, to_timestamp, add_time, late_time,
  skip_missed, next_interval,
}

-- Rounding up: the smallest multiple that is not below.
div_ceil_bounds : (a b : ℕ) → 0 < b → (a ≤ div_ceil a b * b) × (div_ceil a b * b < a + b)
unfolding div_ceil
div_ceil_bounds a b h =
    if_cases (λ q. (a ≤ q * b) × (q * b < a + b)) (ltb 0 (a % b)) (a / b + 1) (a / b)
      (λ up. (grind (arith, div-add-mod a b, mod-lt a h), grind (arith, div-add-mod a b, up)))
      (λ even. (grind (arith, div-add-mod a b, even), grind (arith, div-add-mod a b, even)))

skipped_time-eq : (n d s : ℕ) → skipped_time n d ≡ some s → s ≡ n * d
unfolding skipped_time checked_mul duration_from_nanos
skipped_time-eq n d s h = ground arith

module _ (limit : ℕ) (in_range : ℕ → Bool) where
  pub add_time-eq :
      (time d t : ℕ)
      → add_time limit in_range time d ≡ ok t
      → (t ≡ time + d) × (t ≤ limit) × (in_range t ≡ true)
  unfolding add_time checked_add to_timestamp
  add_time-eq time d t h = ground arith

  late_time-eq :
      (now next interval : ℕ) (t : ℕ)
      → next ≤ now
      → 0 < interval
      → late_time limit in_range now next interval ≡ ok (some t)
      → (t ≡ next + div_ceil (now - next) interval * interval) × (in_range t ≡ true)
  unfolding late_time
  late_time-eq now next interval t le pos h = ground (
    arith,
    skipped_time-eq (div_ceil (now - next) interval) interval,
    add_time-eq next (div_ceil (now - next) interval * interval) t,
  )

  pub next_interval-inv :
      (interval now last : ℕ) (immediate : Bool) (t : ℕ)
      → next_interval limit in_range interval immediate skip now (some last) ≡ ok (some t)
      → (0 < interval)
        × (in_range (last + interval) ≡ true)
        × (skip_missed limit in_range now (last + interval) interval ≡ ok (some t))
  unfolding next_interval add_time checked_add to_timestamp
  next_interval-inv interval now last immediate t h = ground arith

  skip_missed-eq :
      (now next interval t : ℕ)
      → 0 < interval
      → in_range next ≡ true
      → skip_missed limit in_range now next interval ≡ ok (some t)
      → (in_range t ≡ true)
        × (((now < next) × (t ≡ next))
            ⊎ ((next ≤ now) × (t ≡ next + div_ceil (now - next) interval * interval)))
  unfolding skip_missed
  skip_missed-eq now next interval t pos ok_next h =
      ground (arith, late_time-eq now next interval t)

  -- With missed times skipped, the next time, if one comes out, lies a whole number of intervals
  -- after the last one, at least one, and not before now. No earlier such time would do: it is the
  -- first after the last one, or it lies less than an interval after now.
  pub next_interval-skip :
      (interval now last : ℕ) (immediate : Bool) (t : ℕ)
      → next_interval limit in_range interval immediate skip now (some last) ≡ ok (some t)
      → (k : ℕ) × (t ≡ last + interval + k * interval)
        × (now ≤ t)
        × ((k ≡ 0) ⊎ (t < now + interval))
        × (in_range t ≡ true)
  unfolding next_interval skip_missed
  next_interval-skip interval now last immediate t h =
      let (pos, first, skipped) = next_interval-inv interval now last immediate t h in
      let next = last + interval in
      let (ranged, which) = skip_missed-eq now next interval t pos first skipped in
      elim which [
        | inl (early, same) ↦ (0, omega arith, omega arith, inl refl, ranged)
        | inr (late, same) ↦
            let bounds = div_ceil_bounds (now - next) interval pos in
            (div_ceil (now - next) interval, same, omega arith, inr (omega arith), ranged)
      ]
