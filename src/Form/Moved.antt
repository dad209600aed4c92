-- ===== src/Form/Moved.antt =====
-- The moves of a form's caret, crates/ora-cli/src/tui/ui/form.rs, keep it within the form.
use ora.Base.{
  ltb→lt, ℕ, ◌+◌, ◌-◌, ◌%◌, ◌<◌, min, ◌≡◌, refl, Bool, true, not, ◌&&◌, ◌∷◌, length, get_elem?,
  length-modify, ltb, leb, ◌==◌, if◌then◌else◌, if_cases, option_cases, arith,
}
use ora.Form.Text.{is_nil, word_start, word_end}
use ora.Form.State.{
  FieldKind, bool, choice, list, Field, Caret, Form, text_of, active_text, chars_in, reset_cursor,
  field_rows, rows_in, on_pairs, without_blanks, leave_field,
}
use ora.Form.Moves.{
  previous_of, go_next_field, select_next, go_previous_field, select_previous, select_next_cell,
  select_previous_cell, cycle_field, cycle, move_word,
}
use ora.Form.Fits.{Fits, Keeps}
use ora.Form.Words.{word_start-le, word_end-le}
use ora.Form.Valid.{
  IsValid, on_field-IsValid, reset_cursor-IsValid, text_of-cursor, active_text-cursor,
}

field_rows_pos : (kind : FieldKind) (field : Field) → 0 < field_rows kind field
unfolding field_rows
field_rows_pos (list i) field = omega arith
field_rows_pos other field = omega arith

rows_in_pos : (f : Form) (i : ℕ) → 0 < rows_in f i
unfolding rows_in
rows_in_pos f i =
    option_cases (λ n. 0 < n) (get_elem? f.fields i) _ _ (λ _. omega arith)
      (λ field _. field_rows_pos field.kind field)

mod_lt : (a n : ℕ) → 0 < n → a % n < n
mod_lt a n h = grind arith

-- To another cell of the same row.
cell-IsValid :
    (f : Form) (cell : ℕ)
    → IsValid f
    → IsValid (reset_cursor (record f { caret = record f.caret { cell = cell } }))
unfolding rows_in
cell-IsValid f cell v = reset_cursor-IsValid _ v.selected_lt v.item_lt

module _ (space : ℕ → Bool) where
  go_next_field-IsValid : (f : Form) → IsValid f → IsValid (go_next_field space f)
  unfolding go_next_field
  go_next_field-IsValid f v =
      let n = length-modify (without_blanks space) f.fields f.selected in
      reset_cursor-IsValid _
        (unfold leave_field in mod_lt (f.selected + 1) _ (omega (arith, n, v.selected_lt)))
        (rows_in_pos _ _)

  go_previous_field-IsValid : (f : Form) → IsValid f → IsValid (go_previous_field space f)
  unfolding go_previous_field rows_in
  go_previous_field-IsValid f v =
      let g = leave_field space f in
      let n : length g.fields ≡ length f.fields =
        unfold leave_field in length-modify (without_blanks space) f.fields f.selected in
      let s : g.selected ≡ f.selected = unfold leave_field in refl in
      let s' = previous_of g.selected (length g.fields) in
      reset_cursor-IsValid _ (ground (arith, v.selected_lt)) (omega (arith, rows_in_pos g s'))

  pub select_next-IsValid : (f : Form) → IsValid f → IsValid (select_next space f)
  unfolding select_next
  select_next-IsValid f v =
      if_cases IsValid (is_nil f.fields) _ _ (λ _. v)
        (λ _.
          if_cases IsValid (ltb (f.caret.item + 1) (rows_in f f.selected)) _ _
            (λ e. reset_cursor-IsValid _ v.selected_lt (unfold rows_in in ltb→lt _ _ e))
            (λ _. go_next_field-IsValid f v))

  pub select_previous-IsValid : (f : Form) → IsValid f → IsValid (select_previous space f)
  unfolding select_previous
  select_previous-IsValid f v =
      if_cases IsValid (is_nil f.fields) _ _ (λ _. v)
        (λ _.
          if_cases IsValid (ltb 0 f.caret.item) _ _
            (λ e. reset_cursor-IsValid _ v.selected_lt (above e))
            (λ _. go_previous_field-IsValid f v))
    where
      above : ltb 0 f.caret.item ≡ true → f.caret.item - 1 < rows_in f f.selected
      above e = omega (arith, v.item_lt)

  pub select_next_cell-IsValid : (f : Form) → IsValid f → IsValid (select_next_cell space f)
  unfolding select_next_cell
  select_next_cell-IsValid f v =
      if_cases IsValid (on_pairs f && (f.caret.cell == 0)) _ _ (λ _. cell-IsValid f 1 v)
        (λ _. select_next-IsValid f v)

  pub select_previous_cell-IsValid : (f : Form) → IsValid f → IsValid (select_previous_cell space f)
  unfolding select_previous_cell
  select_previous_cell-IsValid f v =
      let w = select_previous-IsValid f v in
      if_cases IsValid (on_pairs f && (f.caret.cell == 1)) _ _ (λ _. cell-IsValid f 0 v)
        (λ _.
          if_cases IsValid (on_pairs (select_previous space f)) _ _ (λ _. cell-IsValid _ 1 w)
            (λ _. w))

cycle_field-Keeps :
    (forward : Bool) (len : ℕ) (kind : FieldKind) (field : Field) (k : Caret)
    → len ≡ chars_in (text_of kind field k)
    → Fits kind field k
    → Keeps kind field (cycle_field forward len kind field k)
unfolding cycle_field
cycle_field-Keeps forward len bool field k e h =
    (unfold field_rows text_of in record { item_lt = h.item_lt; cursor_le = h.cursor_le }, refl)
cycle_field-Keeps forward len (choice (x ∷ xs)) field k e h =
    (unfold field_rows text_of in record { item_lt = h.item_lt; cursor_le = h.cursor_le }, refl)
cycle_field-Keeps forward len kind field k e h =
    let cursor = if forward then min (k.cursor + 1) len else k.cursor - 1 in
    (
      record {
        item_lt = unfold field_rows in h.item_lt;
        cursor_le = rw (text_of-cursor kind field k cursor) (ground (arith, h.cursor_le));
      },
      refl,
    )

pub cycle-IsValid : (forward : Bool) (f : Form) → IsValid f → IsValid (cycle forward f)
unfolding cycle
cycle-IsValid forward f v =
    let len = chars_in (active_text f) in
    if_cases IsValid (on_pairs f && forward && (f.caret.cell == 0) && leb len f.caret.cursor) _ _
      (λ _.
        unfold rows_in in
        record { selected_lt = v.selected_lt; item_lt = v.item_lt; cursor_le = omega arith })
      (λ _.
        if_cases IsValid (on_pairs f && not forward && (f.caret.cell == 1) && (f.caret.cursor == 0))
          _ _ (λ _. cell-IsValid f 0 v)
          (λ _.
            on_field-IsValid (λ field k. cycle_field forward len field.kind field k) f
              (λ field e h.
                cycle_field-Keeps forward len field.kind field f.caret
                  (rw (e, active_text, chars_in) refl) h)
              v))

pub move_word-IsValid :
    (alnum : ℕ → Bool) (forward : Bool) (f : Form) → IsValid f → IsValid (move_word alnum forward f)
unfolding move_word
move_word-IsValid alnum forward f v =
    option_cases IsValid (active_text f) _ _ (λ _. v)
      (λ t e.
        let cursor =
          if forward then word_end alnum t f.caret.cursor else word_start alnum t f.caret.cursor in
        record {
          selected_lt = v.selected_lt;
          item_lt = unfold rows_in in v.item_lt;
          cursor_le = rw (active_text-cursor f cursor) (
              rw e (
                ground (
                  arith,
                  word_end-le alnum t f.caret.cursor,
                  word_start-le alnum t f.caret.cursor,
                )));
        })
