-- ===== src/Form/Erasing.antt =====
-- `delete_char`, `pop_char` and `pop_word` of crates/ora-cli/src/tui/ui/form.rs, and the keys that
-- crates/ora-cli/src/tui.rs hands to a form.
use ora.Base.{
  ℕ, zero, suc, ◌+◌, ◌-◌, Bool, true, false, ◌&&◌, none, some, List, [], ◌∷◌, ◌++◌, length,
  get_elem?, modify, ltb, ◌==◌, if◌then◌else◌,
}
use ora.Form.Text.{Text, is_nil, take, drop, byte_at, remove_range, word_start}
use ora.Form.State.{
  FieldKind, bool, choice, list, pairs, Field, Caret, Form, chars_in, active_text, on_field,
}
use ora.Form.Moves.{
  select_next, select_previous, select_next_cell, select_previous_cell, cycle, move_word,
}
use ora.Form.Typing.{edit_cell, cell_chars, push_char}

-- `Vec::remove`.
unfoldable pub remove_row {ℓ} : {A : Type ℓ} → List A → ℕ → List A
unfolding take drop
remove_row rows i = take i rows ++ drop (i + 1) rows

-- The text without the character at the caret, and without the one before it.
unfoldable pub deleted : ℕ → Text → Text
unfolding byte_at remove_range
deleted cursor t =
    let from = byte_at t cursor in
    let to = byte_at t (cursor + 1) in if ltb from to then remove_range t from to else t

unfoldable pub popped : ℕ → Text → Text
unfolding byte_at remove_range
popped cursor t = remove_range t (byte_at t (cursor - 1)) (byte_at t cursor)

-- The rows of a list after an edit of one, which goes if it is left empty.
unfoldable pub put_item : Field → ℕ → Text → Field
unfolding remove_row modify
put_item field i t =
    if is_nil t
    then record field { items = remove_row field.items i }
    else record field { items = modify field.items i (λ _. t) }

unfoldable pub delete_item : Field → Caret → Text → Field × Caret
unfolding put_item deleted
delete_item field k t =
    let t' = deleted k.cursor t in
    (put_item field k.item t', if is_nil t' then record k { cursor = 0 } else k)

unfoldable pub pop_item : Field → Caret → Text → Field × Caret
unfolding put_item popped
pop_item field k t =
    if k.cursor == 0
    then (field, k)
    else (put_item field k.item (popped k.cursor t), record k { cursor = k.cursor - 1 })

-- The rows of pairs after an edit of one, which goes if both cells are left empty.
unfoldable pub put_pair : Field → Caret → Text × Text → Field × Caret
unfolding remove_row modify
put_pair field k p =
    if is_nil p.0 && is_nil p.1
    then (record field { pairs = remove_row field.pairs k.item }, record k { cell = 0; cursor = 0 })
    else (record field { pairs = modify field.pairs k.item (λ _. p) }, k)

unfoldable pub pop_pair : Field → Caret → Text × Text → Field × Caret
unfolding put_pair popped
pop_pair field k p =
    if k.cursor == 0
    then if k.cell == 1 then (field, record k { cell = 0; cursor = length p.0 }) else (field, k)
    else put_pair field (record k { cursor = k.cursor - 1 }) (edit_cell k.cell (popped k.cursor) p)

unfoldable pub delete_field : FieldKind → Field → Caret → Field × Caret
unfolding delete_item put_pair deleted
delete_field (list i) field k = elim (get_elem? field.items k.item) [
  | none ↦ (field, k)
  | some t ↦ delete_item field k t
]
delete_field pairs field k = elim (get_elem? field.pairs k.item) [
  | none ↦ (field, k)
  | some p ↦ put_pair field k (edit_cell k.cell (deleted k.cursor) p)
]
delete_field bool field k = (field, k)
delete_field (choice cs) field k = (field, k)
delete_field other field k = (record field { text = deleted k.cursor field.text }, k)

unfoldable pub delete_char : Form → Form
unfolding delete_field on_field
delete_char = on_field (λ field k. delete_field field.kind field k)

-- From the blank row after the last one to the end of the row above.
unfoldable pub item_above : Field → Caret → Field × Caret
item_above field k =
    if ltb 0 k.item
    then (
      field,
      record k { item = k.item - 1; cursor = chars_in (get_elem? field.items (k.item - 1)) },
    )
    else (field, k)

unfoldable pub pair_above : Field → Caret → Field × Caret
pair_above field k =
    if ltb 0 k.item
    then (
      field,
      record {
        item = k.item - 1;
        cell = 1;
        cursor = cell_chars 1 (get_elem? field.pairs (k.item - 1));
      },
    )
    else (field, k)

unfoldable pub pop_field : FieldKind → Field → Caret → Field × Caret
unfolding pop_item pop_pair item_above pair_above popped
pop_field (list i) field k = elim (get_elem? field.items k.item) [
  | none ↦ item_above field k
  | some t ↦ pop_item field k t
]
pop_field pairs field k = elim (get_elem? field.pairs k.item) [
  | none ↦ pair_above field k
  | some p ↦ pop_pair field k p
]
pop_field bool field k = (field, k)
pop_field (choice cs) field k = (field, k)
pop_field other field k =
    if ltb 0 k.cursor
    then (record field { text = popped k.cursor field.text }, record k { cursor = k.cursor - 1 })
    else (field, k)

unfoldable pub pop_char : Form → Form
unfolding pop_field on_field
pop_char = on_field (λ field k. pop_field field.kind field k)

-- The loop of `pop_word`.
unfoldable pub pop_times : ℕ → Form → Form
unfolding pop_char
pop_times zero f = f
pop_times (suc n) f = pop_times n (pop_char f)

-- Where `pop_word` deletes back to.
unfoldable pub pop_target : (ℕ → Bool) → Form → ℕ
unfolding active_text word_start
pop_target is_alphanumeric f = elim (active_text f) [
  | none ↦ f.caret.cursor
  | some t ↦ word_start is_alphanumeric t f.caret.cursor
]

unfoldable pub pop_word : (ℕ → Bool) → Form → Form
unfolding pop_target pop_times pop_char
pop_word is_alphanumeric f =
    let target = pop_target is_alphanumeric f in
    if target == f.caret.cursor then pop_char f else pop_times (f.caret.cursor - target) f

-- The keys that edit a form; `enter` and `esc` leave it.
pub data FormKey : Type 0 where
  up down tab back_tab left right backspace delete : FormKey
  char : ℕ → FormKey
  word_left word_right word_backspace : FormKey

unfoldable pub on_form_key : (ℕ → Bool) → (ℕ → Bool) → FormKey → Form → Form
unfolding select_next select_previous select_next_cell select_previous_cell cycle move_word
    push_char delete_char pop_char pop_word
on_form_key alnum space up = select_previous space
on_form_key alnum space down = select_next space
on_form_key alnum space tab = select_next_cell space
on_form_key alnum space back_tab = select_previous_cell space
on_form_key alnum space left = cycle false
on_form_key alnum space right = cycle true
on_form_key alnum space backspace = pop_char
on_form_key alnum space delete = delete_char
on_form_key alnum space (char c) = push_char c
on_form_key alnum space word_left = move_word alnum false
on_form_key alnum space word_right = move_word alnum true
on_form_key alnum space word_backspace = pop_word alnum

unfoldable pub on_form_keys : (ℕ → Bool) → (ℕ → Bool) → List FormKey → Form → Form
unfolding on_form_key
on_form_keys alnum space [] f = f
on_form_keys alnum space (key ∷ keys) f =
    on_form_keys alnum space keys (on_form_key alnum space key f)
