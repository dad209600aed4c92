-- ===== src/Form/State.antt =====
-- The fields of a form and its caret, crates/ora-cli/src/tui/ui/form.rs. What a crate decides of
-- characters is an argument.
use ora.Base.{
  ℕ, ◌+◌, Bool, true, false, not, ◌||◌, Option, none, some, List, length, get_elem?, modify, retain,
  ◌==◌, if◌then◌else◌,
}
use ora.Form.Text.{Text, is_blank}

pub data FormKind : Type 0 where
  job schedule : FormKind

-- Which part of the form a field belongs to.
pub data Section : Type 0 where
  input options : Section

pub data ListItemKind : Type 0 where
  text integer number bool : ListItemKind

pub data FieldKind : Type 0 where
  text integer number time cron : FieldKind
  bool : FieldKind
  choice : List Text → FieldKind
  list : ListItemKind → FieldKind
  pairs : FieldKind

pub record Field : Type 0 where
  pub path : List Text
  pub label : Text
  pub required : Bool
  pub section : Section
  pub kind : FieldKind
  pub text : Text
  pub items : List Text
  pub pairs : List (Text × Text)
  pub toggled : Bool
  pub choice : ℕ

-- The fields `item`, `cursor` and `cell` of the struct `Form`: the row within the selected field,
-- the character of its text, and the cell of a pair (0 for its key).
pub record Caret : Type 0 where
  pub item : ℕ
  pub cursor : ℕ
  pub cell : ℕ

pub record Form : Type 0 where
  pub fields : List Field
  pub selected : ℕ
  pub caret : Caret

abbrev pub cell_text : ℕ → Text × Text → Text
cell_text cell (key, value) = if cell == 0 then key else value

-- The text that the caret is in, of a field.
unfoldable pub text_of : FieldKind → Field → Caret → Option Text
text_of bool field c = none
text_of (choice cs) field c = none
text_of (list k) field c = get_elem? field.items c.item
text_of pairs field c = elim (get_elem? field.pairs c.item) [
  | none ↦ none
  | some p ↦ some (cell_text c.cell p)
]
text_of k field c = some field.text

unfoldable pub active_text : Form → Option Text
unfolding text_of
active_text f = elim (get_elem? f.fields f.selected) [
  | none ↦ none
  | some field ↦ text_of field.kind field f.caret
]

-- `map_or(0, |text| text.chars().count())`.
abbrev pub chars_in : Option Text → ℕ
chars_in none = 0
chars_in (some t) = length t

unfoldable pub reset_cursor : Form → Form
unfolding active_text
reset_cursor f = record f { caret = record f.caret { cursor = chars_in (active_text f) } }

unfoldable pub field_rows : FieldKind → Field → ℕ
field_rows (list k) field = length field.items + 1
field_rows pairs field = length field.pairs + 1
field_rows k field = 1

unfoldable pub rows_in : Form → ℕ → ℕ
unfolding field_rows
rows_in f index = elim (get_elem? f.fields index) [
  | none ↦ 1
  | some field ↦ field_rows field.kind field
]

abbrev pub is_pairs : FieldKind → Bool
is_pairs pairs = true
is_pairs k = false

unfoldable pub on_pairs : Form → Bool
on_pairs f = elim (get_elem? f.fields f.selected) [
  | none ↦ false
  | some field ↦ is_pairs field.kind
]

module _ (is_whitespace : ℕ → Bool) where
  unfoldable pub without_blanks : Field → Field
  unfolding is_blank retain
  without_blanks field = record field {
    items = retain (λ t. not (is_blank is_whitespace t)) field.items;
    pairs =
        retain (λ p. not (is_blank is_whitespace p.0) || not (is_blank is_whitespace p.1))
          field.pairs;
  }

  unfoldable pub leave_field : Form → Form
  unfolding without_blanks modify
  leave_field f = record f { fields = modify f.fields f.selected without_blanks }

-- What the editing methods do with `self.fields.get_mut(self.selected)`: nothing if there is no such
-- field.
unfoldable pub on_field : (Field → Caret → Field × Caret) → Form → Form
unfolding modify
on_field edit f = elim (get_elem? f.fields f.selected) [
  | none ↦ f
  | some field ↦
      let (field', caret') = edit field f.caret in
      record f { fields = modify f.fields f.selected (λ _. field'); caret = caret' }
]
