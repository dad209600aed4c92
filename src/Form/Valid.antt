-- ===== src/Form/Valid.antt =====
-- What a form's caret keeps to, crates/ora-cli/src/tui/ui/form.rs: the selected field, its rows and
-- their texts.
use ora.Base.{
  ℕ, ◌≤◌, ◌<◌, ◌≡◌, refl, sym, subst, ap, Option, none, some, length, get_elem?, Option-cases,
  arith, inl, inr,
}
use ora.Form.State.{
  FieldKind, list, pairs, Field, Caret, Form, text_of, active_text, chars_in, reset_cursor,
  field_rows, rows_in, on_field,
}
use ora.Form.Edits.{get_some, get_elem?-lt, get_elem?-modify}
use ora.Form.Fits.{Fits, Keeps}

-- A field is selected, and the caret is on one of its rows and within the row's text.
pub record IsValid (f : Form) : Type 0 where
  pub selected_lt : f.selected < length f.fields
  pub item_lt : f.caret.item < rows_in f f.selected
  pub cursor_le : f.caret.cursor ≤ chars_in (active_text f)

module _ (f : Form) (field : Field) (e : get_elem? f.fields f.selected ≡ some field) where
  pub IsValid-Fits : IsValid f → Fits field.kind field f.caret
  unfolding rows_in active_text
  IsValid-Fits v = record {
    item_lt =
        subst
          (λ (o : Option Field).
            f.caret.item < elim o [ none ↦ 1 | some field ↦ field_rows field.kind field ])
          e v.item_lt;
    cursor_le =
        subst
          (λ (o : Option Field).
            f.caret.cursor
            ≤ chars_in (elim o [ none ↦ none | some field ↦ text_of field.kind field f.caret ]))
          e v.cursor_le;
  }

  pub Fits-IsValid : Fits field.kind field f.caret → IsValid f
  unfolding rows_in active_text
  Fits-IsValid h = record {
    selected_lt = get_elem?-lt f.fields f.selected e;
    item_lt = rw (e, rows_in) h.item_lt;
    cursor_le = rw (e, active_text, chars_in) h.cursor_le;
  }

-- An edit of the selected field keeps a form valid if it keeps the caret within the field.
pub on_field-IsValid :
    (edit : Field → Caret → Field × Caret) (f : Form)
    → ((field : Field)
        → get_elem? f.fields f.selected ≡ some field
        → Fits field.kind field f.caret
        → Keeps field.kind field (edit field f.caret))
    → IsValid f
    → IsValid (on_field edit f)
unfolding on_field
on_field-IsValid edit f keeps v =
    let (field, e) = get_some f.fields f.selected v.selected_lt in
    let (h, same) = keeps field e (IsValid-Fits f field e v) in
    rw (e, on_field)
      (Fits-IsValid _ (edit field f.caret).0 (get_elem?-modify f.fields f.selected _ e)
        (subst (λ k. Fits k (edit field f.caret).0 (edit field f.caret).1) (sym same) h))

pub text_of-cursor :
    (kind : FieldKind) (field : Field) (k : Caret) (cursor : ℕ)
    → text_of kind field (record k { cursor = cursor }) ≡ text_of kind field k
unfolding text_of
text_of-cursor (list i) field k cursor = refl
text_of-cursor pairs field k cursor = refl
text_of-cursor other field k cursor = refl

pub active_text-cursor :
    (f : Form) (cursor : ℕ)
    → active_text (record f { caret = record f.caret { cursor = cursor } }) ≡ active_text f
unfolding active_text
active_text-cursor f cursor = elim (Option-cases (get_elem? f.fields f.selected)) [
  | inl e ↦ rw (e, active_text) refl
  | inr (field, e) ↦ rw (e, active_text) (text_of-cursor field.kind field f.caret cursor)
]

pub reset_cursor-IsValid :
    (f : Form)
    → f.selected < length f.fields
    → f.caret.item < rows_in f f.selected
    → IsValid (reset_cursor f)
unfolding reset_cursor rows_in
reset_cursor-IsValid f s i = record {
  selected_lt = s;
  item_lt = i;
  cursor_le = omega (arith, ap chars_in (active_text-cursor f (chars_in (active_text f))));
}
