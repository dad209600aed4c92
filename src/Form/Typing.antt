-- ===== src/Form/Typing.antt =====
-- `push_char` of crates/ora-cli/src/tui/ui/form.rs: a character typed into a form.
use ora.Base.{
  ℕ, ◌+◌, Bool, not, ◌&&◌, ◌||◌, Option, none, some, List, [], ◌∷◌, ◌++◌, length, get_elem?, modify,
  ltb, leb, ◌==◌, if◌then◌else◌,
}
use ora.Form.Text.{Text, byte_at, insert_char}
use ora.Form.State.{
  FieldKind, bool, choice, list, pairs, Field, Caret, Form, chars_in, cell_text, on_field,
}

-- `insert` at the caret's character.
unfoldable pub typed : ℕ → ℕ → Text → Text
unfolding byte_at insert_char
typed c cursor t = insert_char t (byte_at t cursor) c

-- An edit of one cell of a pair.
abbrev pub edit_cell : ℕ → (Text → Text) → Text × Text → Text × Text
edit_cell cell g (key, value) = if cell == 0 then (g key, value) else (key, g value)

-- `[`, `]` and `"`.
abbrev pub is_json : ℕ → Bool
is_json c = (c == b'[') || (c == b']') || (c == b'"')

-- The rows of a list or of pairs with one more if the caret is on the row after the last.
unfoldable pub with_row {ℓ} : {A : Type ℓ} → A → ℕ → List A → List A
with_row new item rows = if leb (length rows) item then rows ++ new ∷ [] else rows

unfoldable pub type_in_items : ℕ → List Text → Field → Caret → Field × Caret
unfolding typed modify
type_in_items c rows field k = elim (get_elem? rows k.item) [
  | none ↦ (record field { items = rows }, k)
  | some t ↦ (
    record field { items = modify rows k.item (λ _. typed c k.cursor t) },
    record k { cursor = k.cursor + 1 },
  )
]

unfoldable pub type_item : ℕ → Field → Caret → Field × Caret
unfolding type_in_items with_row
type_item c field k = type_in_items c (with_row [] k.item field.items) field k

unfoldable pub next_item : Field → Caret → Field × Caret
next_item field k =
    if ltb k.item (length field.items)
    then (
      field,
      record k { item = k.item + 1; cursor = chars_in (get_elem? field.items (k.item + 1)) },
    )
    else (field, k)

unfoldable pub type_in_pairs : ℕ → List (Text × Text) → Field → Caret → Field × Caret
unfolding typed modify
type_in_pairs c rows field k = elim (get_elem? rows k.item) [
  | none ↦ (record field { pairs = rows }, k)
  | some p ↦ (
    record field { pairs = modify rows k.item (λ _. edit_cell k.cell (typed c k.cursor) p) },
    record k { cursor = k.cursor + 1 },
  )
]

unfoldable pub type_pair : ℕ → Field → Caret → Field × Caret
unfolding type_in_pairs with_row
type_pair c field k = type_in_pairs c (with_row ([], []) k.item field.pairs) field k

-- The characters of one cell of a row, 0 for a row that is not there.
abbrev pub cell_chars : ℕ → Option (Text × Text) → ℕ
cell_chars cell none = 0
cell_chars cell (some p) = length (cell_text cell p)

unfoldable pub next_pair : Field → Caret → Field × Caret
next_pair field k =
    if ltb k.item (length field.pairs)
    then (
      field,
      record {
        item = k.item + 1;
        cell = 0;
        cursor = cell_chars 0 (get_elem? field.pairs (k.item + 1));
      },
    )
    else (field, k)

unfoldable pub go_value : Field → Caret → Field × Caret
go_value field k =
    (field, record k { cell = 1; cursor = cell_chars 1 (get_elem? field.pairs k.item) })

unfoldable pub push_field : ℕ → FieldKind → Field → Caret → Field × Caret
unfolding type_item next_item type_pair next_pair go_value typed
push_field c (list i) field k =
    if is_json c then (field, k) else if c == b',' then next_item field k else type_item c field k
push_field c pairs field k =
    if (c == b'=') && (k.cell == 0)
    then go_value field k
    else if c == b','
    then next_pair field k
    else type_pair c field k
push_field c bool field k =
    if c == b' ' then (record field { toggled = not field.toggled }, k) else (field, k)
push_field c (choice cs) field k = (field, k)
push_field c other field k =
    (record field { text = typed c k.cursor field.text }, record k { cursor = k.cursor + 1 })

unfoldable pub push_char : ℕ → Form → Form
unfolding push_field on_field
push_char c = on_field (λ field k. push_field c field.kind field k)
