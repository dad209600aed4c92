-- ===== src/Form/WordErased.antt =====
-- `pop_word` of crates/ora-cli/src/tui/ui/form.rs in a field with a text.
use ora.Base.{
  ℕ, zero, suc, ◌+◌, ◌-◌, ◌≤◌, ◌<◌, ◌≡◌, refl, sym, ◌∙◌, subst, ap, Bool, true, false, some, List,
  [], ◌∷◌, ◌++◌, length-append, length, get_elem?, modify, ltb, ◌==◌, Bool-cases, arith, inl, inr,
}
use ora.Form.Text.{Text, take, drop, word_start}
use ora.Form.State.{FieldKind, bool, choice, list, pairs, Field, Caret, Form, text_of, chars_in}
use ora.Form.Erasing.{popped, pop_field, pop_char, pop_times, pop_target, pop_word}
use ora.Form.Edits.{take-drop, length-take, get_elem?-modify}
use ora.Form.Valid.{IsValid, IsValid-Fits}
use ora.Form.Words.{Spans, at_passes, word_start-before, word_start-Spans}
use ora.Form.RoundTrip.{popped_eq, modify-modify, modify_self, on_field_eq}

-- The kinds of fields that hold one text.
abbrev pub HasText : FieldKind → Type 0
HasText bool = ⊥
HasText (choice cs) = ⊥
HasText (list i) = ⊥
HasText pairs = ⊥
HasText other = Unit

module _ {ℓ} {A : Type ℓ} where
  take-take : (m n : ℕ) (t s : List A) → m ≤ n → n ≤ length t → take m (take n t ++ s) ≡ take m t
  unfolding take
  take-take zero n t s h k = refl
  take-take (suc m) zero t s h k = absurd (omega arith)
  take-take (suc m) (suc n) [] s h k = absurd (omega arith)
  take-take (suc m) (suc n) (c ∷ t) s h k =
      ap (c ∷◌) (take-take m n t s (omega arith) (omega arith))

  drop-take : (n : ℕ) (t s : List A) → n ≤ length t → drop n (take n t ++ s) ≡ s
  unfolding take drop
  drop-take zero t s h = refl
  drop-take (suc n) [] s h = absurd (omega arith)
  drop-take (suc n) (c ∷ t) s h = drop-take n t s (omega arith)

module _ (f : Form) (field : Field) (e : get_elem? f.fields f.selected ≡ some field) where
  -- The form with another text in the selected field, and another place of the caret.
  pub retyped : Text → ℕ → Form
  retyped t cursor = record f {
    fields = modify f.fields f.selected (λ _. record field { text = t });
    caret = record f.caret { cursor = cursor };
  }

  pop_field_text :
      (kind : FieldKind) (field : Field) (k : Caret)
      → HasText kind
      → 0 < k.cursor
      → pop_field kind field k
        ≡ (record field { text = popped k.cursor field.text }, record k { cursor = k.cursor - 1 })
  unfolding pop_field
  pop_field_text bool field k h p = absurd h
  pop_field_text (choice cs) field k h p = absurd h
  pop_field_text (list i) field k h p = absurd h
  pop_field_text pairs field k h p = absurd h
  pop_field_text other field k h p = let l : ltb 0 k.cursor ≡ true = ground arith in rw l refl

  pop_char-retyped :
      (t : Text) (cursor : ℕ)
      → HasText field.kind
      → cursor < length t
      → pop_char (retyped t (cursor + 1)) ≡ retyped (take cursor t ++ drop (suc cursor) t) cursor
  unfolding pop_char retyped
  pop_char-retyped t cursor h l =
      let g = retyped t (cursor + 1) in
      let field' = record field { text = t } in
      let n : cursor + 1 - 1 ≡ cursor = omega arith in
      on_field_eq (λ field k. pop_field field.kind field k) g field'
        (get_elem?-modify f.fields f.selected (λ _. field') e)
      ∙ (rw (pop_field_text field.kind field' g.caret h (omega arith)) (
          rw
            (modify-modify f.fields f.selected field'
              (record field { text = popped (cursor + 1) t }))
            (rw (popped_eq cursor t l) (rw n refl))))

  pop_times-retyped :
      (n s : ℕ) (t : Text)
      → HasText field.kind
      → s + n ≤ length t
      → pop_times n (retyped t (s + n)) ≡ retyped (take s t ++ drop (s + n) t) s
  unfolding pop_times
  pop_times-retyped zero s t h l = let z : s + 0 ≡ s = omega arith in rw z (rw (take-drop s t) refl)
  pop_times-retyped (suc n) s t h l =
      let m = s + n in
      let t' = take m t ++ drop (suc m) t in
      let z : s + suc n ≡ m + 1 = omega arith in
      let z' : s + suc n ≡ suc m = omega arith in
      let longer : m ≤ length t = omega arith in
      let within : s + n ≤ length t' =
        omega (arith, length-append (take m t) (drop (suc m) t), length-take m t) in
      ap (λ k. pop_times n (pop_char (retyped t k))) z
      ∙ (ap (pop_times n) (pop_char-retyped t m h (omega arith))
          ∙ (pop_times-retyped n s t' h within
              ∙ (ap (λ u. retyped (u ++ drop m t') s)
                    (take-take s m t (drop (suc m) t) (omega arith) longer)
                  ∙ (ap (λ u. retyped (take s t ++ u) s) (drop-take m t (drop (suc m) t) longer)
                      ∙ ap (λ k. retyped (take s t ++ drop k t) s) (sym z')))))

  retyped_self : retyped field.text f.caret.cursor ≡ f
  unfolding retyped
  retyped_self = rw (modify_self f.fields f.selected field e) refl

  pop_field_start :
      (kind : FieldKind) (field : Field) (k : Caret)
      → HasText kind
      → k.cursor ≡ 0
      → pop_field kind field k ≡ (field, k)
  unfolding pop_field
  pop_field_start bool field k h z = absurd h
  pop_field_start (choice cs) field k h z = absurd h
  pop_field_start (list i) field k h z = absurd h
  pop_field_start pairs field k h z = absurd h
  pop_field_start other field k h z = let l : ltb 0 k.cursor ≡ false = ground arith in rw l refl

  pop_char_start : HasText field.kind → f.caret.cursor ≡ 0 → pop_char f ≡ f
  unfolding pop_char
  pop_char_start h z =
      on_field_eq (λ field k. pop_field field.kind field k) f field e
      ∙ (rw (pop_field_start field.kind field f.caret h z)
          (rw (modify_self f.fields f.selected field e) refl))

  target :
      (kind : FieldKind) (field : Field)
      → HasText kind
      → text_of kind field f.caret ≡ some field.text
  unfolding text_of
  target bool field h = absurd h
  target (choice cs) field h = absurd h
  target (list i) field h = absurd h
  target pairs field h = absurd h
  target other field h = refl

-- Erasing a word takes what stands between the place that `word_start` finds and the caret.
pop_word-word_start :
    (alnum : ℕ → Bool) (f : Form) (field : Field) (e : get_elem? f.fields f.selected ≡ some field)
    → HasText field.kind
    → IsValid f
    → let start = word_start alnum field.text f.caret.cursor in
      pop_word alnum f
      ≡ retyped f field e (take start field.text ++ drop f.caret.cursor field.text) start
unfolding pop_word
pop_word-word_start alnum f field e h v =
    let here = target f field e field.kind field h in
    let start = word_start alnum field.text f.caret.cursor in
    let n = f.caret.cursor - start in
    let within : f.caret.cursor ≤ length field.text =
      subst (λ o. f.caret.cursor ≤ chars_in o) here (IsValid-Fits f field e v).cursor_le in
    let (behind, moves) = word_start-before alnum field.text f.caret.cursor within in
    let self = retyped_self f field e in
    let at : pop_target alnum f ≡ start = rw (e, pop_target) (rw here refl) in
    let text = field.text in
    let cursor = f.caret.cursor in
    rw (at, pop_word)
      (elim (Bool-cases (start == cursor)) [
        | inl same ↦
            let z : cursor ≡ 0 = ground (arith, moves) in
            let s : start ≡ cursor = ground arith in
            rw same (
              pop_char_start f field e h z
              ∙ (sym self
                  ∙ (ap (λ t. retyped f field e t cursor) (sym (take-drop cursor text))
                      ∙ ap (λ k. retyped f field e (take k text ++ drop cursor text) k) (sym s))))
        | inr apart ↦
            let m : start + n ≡ cursor = omega arith in
            rw apart (
              ap (pop_times n) (sym self)
              ∙ (ap (λ k. pop_times n (retyped f field e text k)) (sym m)
                  ∙ (pop_times-retyped f field e n start text h (omega arith)
                      ∙ ap (λ k. retyped f field e (take start text ++ drop k text) start) m)))
      ])

-- In a valid form at a field that holds one text, not several rows, erasing a word takes from the text
-- exactly what stands between the start of the word before the caret and the caret, puts the caret
-- there, and leaves all else as it is. From the start of the word there are letters and digits only,
-- then others only up to the caret; and what stands before the start, if anything, is neither letter
-- nor digit. There are letters or digits, unless the start is that of the text.
pub pop_word-retyped :
    (alnum : ℕ → Bool) (f : Form) (field : Field) (e : get_elem? f.fields f.selected ≡ some field)
    → HasText field.kind
    → IsValid f
    → (start mid : ℕ) × Spans alnum field.text start mid f.caret.cursor
      × (0 < start → at_passes alnum field.text (start - 1) ≡ false)
      × (0 < start → start < mid)
      × (pop_word alnum f
          ≡ retyped f field e (take start field.text ++ drop f.caret.cursor field.text) start)
pop_word-retyped alnum f field e h v =
    let here = target f field e field.kind field h in
    let within : f.caret.cursor ≤ length field.text =
      subst (λ o. f.caret.cursor ≤ chars_in o) here (IsValid-Fits f field e v).cursor_le in
    let (mid, spans, stops, full) = word_start-Spans alnum field.text f.caret.cursor within in
    (
      word_start alnum field.text f.caret.cursor,
      mid,
      spans,
      stops,
      full,
      pop_word-word_start alnum f field e h v,
    )
