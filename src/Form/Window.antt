-- ===== src/Form/Window.antt =====
-- What a row of the form shows of a text, crates/ora-cli/src/tui/ui/form.rs, and `truncate` of
-- crates/ora-cli/src/tui/ui.rs.
use ora.Base.{
  zero, suc, take-drop, sym, ◌∙◌, ap, ltb→lt, Bool-cases, ℕ, ◌+◌, ◌-◌, ◌≤◌, ◌<◌, min, max, ◌≡◌,
  refl, Bool, ◌&&◌, Option, none, some, List, [], ◌∷◌, ◌++◌, take, drop, length, get_elem?,
  length-take, length-drop, inl, inr, arith, ltb, leb, if◌then◌else◌,
}
use ora.Form.Text.{Text}

-- The texts before and after the caret, the character at it, how many are shown, and whether some
-- are scrolled off to the left.
pub record Window : Type 0 where
  pub before : Text
  pub at_caret : ℕ
  pub after : Text
  pub shown : ℕ
  pub truncated : Bool

-- A slice `chars[from..to]`, which panics unless `from ≤ to ≤ len`.
unfoldable pub slice : Text → ℕ → ℕ → Option Text
slice t from to =
    if leb from to && leb to (length t) then some (take (to - from) (drop from t)) else none

abbrev pub or_blank : Option ℕ → ℕ
or_blank none = b' '
or_blank (some c) = c

abbrev pub window_of : ℕ → ℕ → Option Text → Option Text → Option Window
window_of start c none after = none
window_of start c (some before) none = none
window_of start c (some before) (some after) = some (record {
  before = before;
  at_caret = c;
  after = after;
  shown = length before + 1 + length after;
  truncated = ltb 0 start;
})

unfoldable pub caret_window : Text → ℕ → ℕ → Option Window
unfolding slice
caret_window text cursor width =
    let start = cursor + 1 - width in
    let end = min (start + width) (length text) in
    window_of start (or_blank (get_elem? text cursor)) (slice text start (min cursor end))
      (if ltb cursor end then slice text (cursor + 1) end else some [])

-- Up to `max` characters, and an ellipsis if there are more.
unfoldable pub truncate : Text → ℕ → ℕ → Text
truncate text ellipsis max = elim (get_elem? text max) [
  | none ↦ text
  | some c ↦ take max text ++ ellipsis ∷ []
]

module _ {ℓ} {A : Type ℓ} where
  take-take-drop : (a n : ℕ) (t : List A) → take a t ++ take n (drop a t) ≡ take (a + n) t
  unfolding take drop
  take-take-drop zero n t = let e : 0 + n ≡ n = omega arith in rw e refl
  take-take-drop (suc a) zero [] = let e : suc a + 0 ≡ suc a = omega arith in rw e refl
  take-take-drop (suc a) (suc n) [] =
      let e : suc a + suc n ≡ suc (a + suc n) = omega arith in rw e refl
  take-take-drop (suc a) n (c ∷ t) =
      let e : suc a + n ≡ suc (a + n) = omega arith in rw e (ap (c ∷◌) (take-take-drop a n t))

  drop-drop : (a n : ℕ) (t : List A) → take n (drop a t) ++ drop (a + n) t ≡ drop a t
  unfolding take drop
  drop-drop zero n t = let e : 0 + n ≡ n = omega arith in rw e (take-drop n t)
  drop-drop (suc a) zero [] = let e : suc a + 0 ≡ suc a = omega arith in rw e refl
  drop-drop (suc a) (suc n) [] = let e : suc a + suc n ≡ suc (a + suc n) = omega arith in rw e refl
  drop-drop (suc a) n (c ∷ t) =
      let e : suc a + n ≡ suc (a + n) = omega arith in rw e (drop-drop a n t)

  drop-past : (n : ℕ) (t : List A) → length t ≤ n → drop n t ≡ []
  unfolding drop
  drop-past zero [] h = refl
  drop-past zero (c ∷ t) h = absurd (omega arith)
  drop-past (suc n) [] h = refl
  drop-past (suc n) (c ∷ t) h = drop-past n t (omega arith)

slice-in :
    (t : Text) (from to : ℕ)
    → from ≤ to
    → to ≤ length t
    → slice t from to ≡ some (take (to - from) (drop from t))
unfolding slice
slice-in t from to h k = ground arith

shown_at :
    (t : Text) (cursor : ℕ)
    → cursor ≤ length t
    → get_elem? (t ++ b' ' ∷ []) cursor ≡ some (or_blank (get_elem? t cursor))
shown_at [] zero h = refl
shown_at [] (suc n) h = absurd (omega arith)
shown_at (c ∷ t) zero h = refl
shown_at (c ∷ t) (suc n) h = shown_at t n (omega arith)

-- In a window of at least one character, with the caret in the text or at its end, nothing is sliced
-- out of range, no more is shown than the width, the caret is on screen, and the window shows a stretch
-- of the text without a gap: what it leaves out to the left, and what stands before the caret in it,
-- is the text up to the caret; the character at the caret is the text's, or a blank behind the text's
-- last character; what stands after the caret in it, and what it leaves out to the right, is
-- the text behind the caret's character. It is truncated exactly if the text's first character is
-- left out.
pub caret_window_lem :
    (text : Text) (cursor width : ℕ)
    → 0 < width
    → cursor ≤ length text
    → let start = cursor + 1 - width in
      let end = min (start + width) (length text) in
      (w : Window) × (caret_window text cursor width ≡ some w)
      × (w.shown ≤ width)
      × (length w.before < width)
      × (take start text ++ w.before ≡ take cursor text)
      × (get_elem? (text ++ b' ' ∷ []) cursor ≡ some w.at_caret)
      × (w.after ++ drop end text ≡ drop (cursor + 1) text)
      × (w.truncated ≡ ltb 0 start)
unfolding caret_window
caret_window_lem text cursor width p h =
    let start = cursor + 1 - width in
    let end = min (start + width) (length text) in
    let here : min cursor end ≡ cursor = omega arith in
    let left = slice-in text start cursor (omega arith) h in
    let before = take (cursor - start) (drop start text) in
    let joined : start + (cursor - start) ≡ cursor = omega arith in
    let before_length : length before ≡ cursor - start =
      omega (arith, length-take (cursor - start) (drop start text), length-drop start text) in
    let whole : take start text ++ before ≡ take cursor text =
      take-take-drop start (cursor - start) text ∙ ap (λ n. take n text) joined in
    elim (Bool-cases (ltb cursor end)) [
      | inl inside ↦
          let lt = ltb→lt cursor end inside in
          let n = end - (cursor + 1) in
          let after = take n (drop (cursor + 1) text) in
          let right = slice-in text (cursor + 1) end (omega arith) (omega arith) in
          let upto : cursor + 1 + n ≡ end = omega arith in
          (
            record {
              before = before;
              at_caret = or_blank (get_elem? text cursor);
              after = after;
              shown = length before + 1 + length after;
              truncated = ltb 0 start;
            },
            rw (here, caret_window) (rw left (rw inside (rw right refl))),
            omega (
              arith,
              before_length,
              length-take n (drop (cursor + 1) text),
              length-drop (cursor + 1) text,
            ),
            omega (arith, before_length),
            whole,
            shown_at text cursor h,
            ap (λ k. after ++ drop k text) (sym upto) ∙ drop-drop (cursor + 1) n text,
            refl,
          )
      | inr outside ↦ (
        record {
          before = before;
          at_caret = or_blank (get_elem? text cursor);
          after = [];
          shown = length before + 1 + 0;
          truncated = ltb 0 start;
        },
        rw (here, caret_window) (rw left (rw outside refl)),
        omega (arith, before_length),
        omega (arith, before_length),
        whole,
        shown_at text cursor h,
        drop-past end text (ground arith) ∙ sym (drop-past (cursor + 1) text (ground arith)),
        refl,
      )
    ]
