-- ===== src/Form/Words.antt =====
-- `word_start` and `word_end` of crates/ora-cli/src/tui/ui/form.rs against the words of a text.
use ora.Base.{
  subst, ℕ, zero, suc, ◌+◌, ◌-◌, ◌≤◌, ◌<◌, min, ◌≡◌, refl, Bool, true, false, not, [], ◌∷◌, length,
  get_elem?, is_some_and, Bool-cases, arith, inl, inr,
}
use ora.Form.Text.{Text, drop, back_over, over, word_start, word_end}
use ora.Form.Edits.{length-drop, get_some}

-- Whether there is a character at a position that passes.
abbrev pub at_passes : (ℕ → Bool) → Text → ℕ → Bool
at_passes p t i = is_some_and (get_elem? t i) p

abbrev pub AllBetween : (ℕ → Bool) → Text → ℕ → ℕ → Type 0
AllBetween p t from to = (i : ℕ) → from ≤ i → i < to → at_passes p t i ≡ true

-- Positions of a text between two others, the first loop's and the second one's.
pub record Spans (alnum : ℕ → Bool) (t : Text) (from mid to : ℕ) : Type 0 where
  pub from_le : from ≤ mid
  pub mid_le : mid ≤ to
  pub first : AllBetween alnum t from mid
  pub rest : AllBetween (λ c. not (alnum c)) t mid to

module _ (p : ℕ → Bool) (t : Text) where
  pub back_over-le : (at : ℕ) → back_over p t at ≤ at
  unfolding back_over
  back_over-le zero = omega arith
  back_over-le (suc at) = ground (arith, back_over-le at)

  back_over-all : (at : ℕ) → AllBetween p t (back_over p t at) at
  unfolding back_over
  back_over-all zero i h k = absurd (omega arith)
  back_over-all (suc at) i h k = ground (arith, back_over-all at i)

  back_over-stops : (at : ℕ) → 0 < back_over p t at → at_passes p t (back_over p t at - 1) ≡ false
  unfolding back_over
  back_over-stops zero h = absurd (omega arith)
  back_over-stops (suc at) h = ground (arith, back_over-stops at)

module _ (p : ℕ → Bool) where
  over-ge : (rest : Text) (at : ℕ) → at ≤ over p rest at
  unfolding over
  over-ge [] at = omega arith
  over-ge (c ∷ rest) at = ground (arith, over-ge rest (at + 1))

  over-le : (rest : Text) (at : ℕ) → over p rest at ≤ at + length rest
  unfolding over
  over-le [] at = omega arith
  over-le (c ∷ rest) at = ground (arith, over-le rest (at + 1))

  over-all : (rest : Text) (at i : ℕ) → i < over p rest at - at → at_passes p rest i ≡ true
  unfolding over
  over-all [] at i h = absurd (omega arith)
  over-all (c ∷ rest) at zero h = ground arith
  over-all (c ∷ rest) at (suc i) h = ground (arith, over-all rest (at + 1) i)

  over-stops : (rest : Text) (at : ℕ) → at_passes p rest (over p rest at - at) ≡ false
  unfolding over
  over-stops [] at = refl
  over-stops (c ∷ rest) at = elim (Bool-cases (p c)) [
    | inl e ↦
        let g = over-ge rest (at + 1) in
        let n : over p rest (at + 1) - at ≡ suc (over p rest (at + 1) - (at + 1)) = omega arith in
        rw e (rw n (over-stops rest (at + 1)))
    | inr e ↦ rw e (let n : at - at ≡ 0 = omega arith in rw n e)
  ]

get_elem?-drop : (t : Text) (n i : ℕ) → get_elem? (drop n t) i ≡ get_elem? t (n + i)
unfolding drop
get_elem?-drop t zero i = let e : 0 + i ≡ i = omega arith in rw e refl
get_elem?-drop [] (suc n) i = refl
get_elem?-drop (c ∷ t) (suc n) i =
    let e : suc n + i ≡ suc (n + i) = omega arith in rw e (get_elem?-drop t n i)

-- A loop of `word_end`, at a position of the text.
module _ (p : ℕ → Bool) (t : Text) (at : ℕ) (h : at ≤ length t) where
  pub over_end : ℕ
  over_end = over p (drop at t) at

  pub over_end-bounds : (at ≤ over_end) × (over_end ≤ length t)
  unfolding over_end
  over_end-bounds =
      (over-ge p (drop at t) at, omega (arith, over-le p (drop at t) at, length-drop at t))

  pub over_end-all : AllBetween p t at over_end
  unfolding over_end
  over_end-all i k l =
      let e : at + (i - at) ≡ i = omega arith in
      let d = get_elem?-drop t at (i - at) in
      let a = over-all p (drop at t) at (i - at) (omega arith) in
      subst (λ j. at_passes p t j ≡ true) e (subst (λ o. is_some_and o p ≡ true) d a)

  pub over_end-stops : at_passes p t over_end ≡ false
  unfolding over_end
  over_end-stops =
      let e : at + (over p (drop at t) at - at) ≡ over p (drop at t) at =
        omega (arith, over-ge p (drop at t) at) in
      let d = get_elem?-drop t at (over p (drop at t) at - at) in
      subst (λ j. at_passes p t j ≡ false) e
        (subst (λ o. is_some_and o p ≡ false) d (over-stops p (drop at t) at))

-- A place that the first loop stops at has a letter or a digit before it, which the second one passes.
has_word :
    (alnum : ℕ → Bool) (t : Text) (mid : ℕ)
    → mid ≤ length t
    → (0 < mid → at_passes (λ c. not (alnum c)) t (mid - 1) ≡ false)
    → 0 < back_over alnum t mid
    → back_over alnum t mid < mid
unfolding back_over
has_word alnum t zero h stops p = absurd (omega arith)
has_word alnum t (suc m) h stops p =
    let (d, e) = get_some t m (omega arith) in
    let n : suc m - 1 ≡ m = omega arith in
    let stop : at_passes (λ c. not (alnum c)) t m ≡ false =
      subst (λ i. at_passes (λ c. not (alnum c)) t i ≡ false) n (stops (omega arith)) in
    ground (arith, e, stop, back_over-le alnum t m)

-- The word before a caret: from its start, letters and digits only, then others up to the caret,
-- and what stands before it is neither letter nor digit. There are letters or digits, unless the
-- start is that of the text.
pub word_start-Spans :
    (alnum : ℕ → Bool) (t : Text) (cursor : ℕ)
    → cursor ≤ length t
    → (mid : ℕ) × Spans alnum t (word_start alnum t cursor) mid cursor
      × (0 < word_start alnum t cursor → at_passes alnum t (word_start alnum t cursor - 1) ≡ false)
      × (0 < word_start alnum t cursor → word_start alnum t cursor < mid)
unfolding word_start
word_start-Spans alnum t cursor h =
    let e : min cursor (length t) ≡ cursor = omega arith in
    rw e (
      mid,
      record {
        from_le = back_over-le alnum t mid;
        mid_le = back_over-le other t cursor;
        first = back_over-all alnum t mid;
        rest = back_over-all other t cursor;
      },
      back_over-stops alnum t mid,
      has_word alnum t mid (omega (arith, back_over-le other t cursor))
          (back_over-stops other t cursor),
    )
  where
    other : ℕ → Bool
    other = λ c. not (alnum c)

    mid : ℕ
    mid = back_over other t cursor

pub word_start-le :
    (alnum : ℕ → Bool) (t : Text) (cursor : ℕ) → word_start alnum t cursor ≤ length t
unfolding word_start
word_start-le alnum t cursor =
    let at = min cursor (length t) in
    let mid = back_over (λ c. not (alnum c)) t at in
    omega (arith, back_over-le alnum t mid, back_over-le (λ c. not (alnum c)) t at)

pub word_end-le : (alnum : ℕ → Bool) (t : Text) (cursor : ℕ) → word_end alnum t cursor ≤ length t
unfolding word_end over_end
word_end-le alnum t cursor =
    let at = min cursor (length t) in
    let b = over_end-bounds (λ c. not (alnum c)) t at (omega arith) in
    (over_end-bounds alnum t (over_end (λ c. not (alnum c)) t at (omega arith)) b.1).1

back_twice-lt :
    (alnum : ℕ → Bool) (t : Text) (cursor : ℕ)
    → 0 < cursor
    → cursor ≤ length t
    → back_over alnum t (back_over (λ c. not (alnum c)) t cursor) < cursor
unfolding back_over
back_twice-lt alnum t zero p h = absurd (omega arith)
back_twice-lt alnum t (suc at) p h =
    let (d, e) = get_some t at (omega arith) in
    let mid = back_over (λ c. not (alnum c)) t at in
    elim (Bool-cases (alnum d)) [
      | inl a ↦ rw e (rw a (rw e (rw a (omega (arith, back_over-le alnum t at)))))
      | inr a ↦
          rw e
            (rw a (omega (arith, back_over-le alnum t mid, back_over-le (λ c. not (alnum c)) t at)))
    ]

-- The start of the word before the caret lies before the caret, unless that is at the text's start.
pub word_start-before :
    (alnum : ℕ → Bool) (t : Text) (cursor : ℕ)
    → cursor ≤ length t
    → (word_start alnum t cursor ≤ cursor) × (0 < cursor → word_start alnum t cursor < cursor)
unfolding word_start
word_start-before alnum t cursor h =
    let e : min cursor (length t) ≡ cursor = omega arith in
    let mid = back_over (λ c. not (alnum c)) t cursor in
    rw e (
      omega (arith, back_over-le alnum t mid, back_over-le (λ c. not (alnum c)) t cursor),
      λ p. back_twice-lt alnum t cursor p h,
    )
