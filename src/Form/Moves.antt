-- ===== src/Form/Moves.antt =====
-- The moves of a form's caret, crates/ora-cli/src/tui/ui/form.rs: from row to row and field to field,
-- and within a text.
use ora.Base.{
  ℕ, ◌+◌, ◌-◌, ◌%◌, min, Bool, not, ◌&&◌, none, some, ◌∷◌, length, ltb, leb, ◌==◌, if◌then◌else◌,
}
use ora.Form.Text.{is_nil, word_start, word_end}
use ora.Form.State.{
  FieldKind, bool, choice, Field, Caret, Form, active_text, chars_in, reset_cursor, rows_in,
  on_pairs, leave_field, on_field,
}

-- `checked_sub(1).unwrap_or(len - 1)`.
abbrev pub previous_of : ℕ → ℕ → ℕ
previous_of i len = if i == 0 then len - 1 else i - 1

module _ (is_whitespace : ℕ → Bool) where
  -- To the first row of a field.
  unfoldable pub go_next_field : Form → Form
  unfolding leave_field reset_cursor
  go_next_field f =
      let g = leave_field is_whitespace f in
      reset_cursor (record g {
        selected = (g.selected + 1) % length g.fields;
        caret = record g.caret { item = 0; cell = 0 };
      })

  unfoldable pub select_next : Form → Form
  unfolding rows_in reset_cursor go_next_field
  select_next f =
      if is_nil f.fields
      then f
      else if ltb (f.caret.item + 1) (rows_in f f.selected)
      then reset_cursor (record f { caret = record f.caret { item = f.caret.item + 1; cell = 0 } })
      else go_next_field f

  -- To the last row of a field.
  unfoldable pub go_previous_field : Form → Form
  unfolding leave_field reset_cursor rows_in
  go_previous_field f =
      let g = leave_field is_whitespace f in
      let s = previous_of g.selected (length g.fields) in
      reset_cursor
        (record g { selected = s; caret = record g.caret { item = rows_in g s - 1; cell = 0 } })

  unfoldable pub select_previous : Form → Form
  unfolding reset_cursor go_previous_field
  select_previous f =
      if is_nil f.fields
      then f
      else if ltb 0 f.caret.item
      then reset_cursor (record f { caret = record f.caret { item = f.caret.item - 1; cell = 0 } })
      else go_previous_field f

  unfoldable pub select_next_cell : Form → Form
  unfolding on_pairs reset_cursor select_next
  select_next_cell f =
      if on_pairs f && (f.caret.cell == 0)
      then reset_cursor (record f { caret = record f.caret { cell = 1 } })
      else select_next f

  unfoldable pub select_previous_cell : Form → Form
  unfolding on_pairs reset_cursor select_previous
  select_previous_cell f =
      let g = select_previous f in
      if on_pairs f && (f.caret.cell == 1)
      then reset_cursor (record f { caret = record f.caret { cell = 0 } })
      else if on_pairs g
      then reset_cursor (record g { caret = record g.caret { cell = 1 } })
      else g

-- The last `match` of `cycle`, of a text of `len` characters.
unfoldable pub cycle_field : Bool → ℕ → FieldKind → Field → Caret → Field × Caret
cycle_field forward len bool field c = (record field { toggled = not field.toggled }, c)
cycle_field forward len (choice (x ∷ xs)) field c = (
  record field {
    choice =
        if forward
        then (field.choice + 1) % length (x ∷ xs)
        else previous_of field.choice (length (x ∷ xs));
  },
  c,
)
cycle_field forward len k field c =
    (field, record c { cursor = if forward then min (c.cursor + 1) len else c.cursor - 1 })

unfoldable pub cycle : Bool → Form → Form
unfolding active_text on_pairs reset_cursor cycle_field on_field
cycle forward f =
    let len = chars_in (active_text f) in
    if on_pairs f && forward && (f.caret.cell == 0) && leb len f.caret.cursor
    then record f { caret = record f.caret { cell = 1; cursor = 0 } }
    else if on_pairs f && not forward && (f.caret.cell == 1) && (f.caret.cursor == 0)
    then reset_cursor (record f { caret = record f.caret { cell = 0 } })
    else on_field (λ field c. cycle_field forward len field.kind field c) f

unfoldable pub move_word : (ℕ → Bool) → Bool → Form → Form
unfolding active_text word_start word_end
move_word is_alphanumeric forward f = elim (active_text f) [
  | none ↦ f
  | some t ↦ record f {
    caret = record f.caret {
      cursor =
          if forward
          then word_end is_alphanumeric t f.caret.cursor
          else word_start is_alphanumeric t f.caret.cursor;
    };
  }
]
