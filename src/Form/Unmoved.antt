-- ===== src/Form/Unmoved.antt =====
-- That no key changes where the value of a field goes, crates/ora-cli/src/tui/ui/form.rs.
use ora.Base.{
  ◌≡◌, All, ◌∙◌, refl, sym, subst, ℕ, zero, suc, if_cases, ◌==◌, ◌-◌, Bool, true, false, Option,
  some, List, [], ◌∷◌, get_elem?, modify, Option-cases, inl, inr, arith,
}
use ora.Form.Text.{Text}
use ora.Form.State.{
  Field, Form, FormKind, FieldKind, Caret, text, integer, number, time, cron, bool, choice, list,
  pairs, on_field, reset_cursor, active_text, chars_in, leave_field, without_blanks,
}
use ora.Form.Moves.{
  go_next_field, select_next, go_previous_field, select_previous, select_next_cell,
  select_previous_cell, cycle_field, cycle, move_word,
}
use ora.Form.Json.{Value}
use ora.Form.Payload.{Readers, payload}
use ora.Form.Options.{new_form}
use ora.Form.Placed.{InPlace}
use ora.Form.Schema.{fields_from_schema}
use ora.Form.Walked.{found_kind, fields_from_schema-walk_schema}
use ora.Form.Walk.{walk_schema}
use ora.Form.WellFormed.{IsMap}
use ora.Form.Assembled.{schema_payload-InPlace, field_place, field_places}
use ora.Form.Typing.{
  type_in_items, type_item, next_item, type_in_pairs, type_pair, next_pair, go_value, push_field,
  push_char,
}
use ora.Form.Erasing.{
  put_item, delete_item, pop_item, put_pair, pop_pair, delete_field, delete_char, item_above,
  pair_above, pop_field, pop_char, pop_times, pop_target, pop_word, FormKey, up, down, tab,
  back_tab, left, right, backspace, delete, char, word_left, word_right, word_backspace,
  on_form_key, on_form_keys,
}

-- An edit of a field leaves its place.
abbrev Stays : Field → Field × Caret → Type 0
Stays field edited = field_place edited.0 ≡ field_place field

push_field-Stays :
    (c : ℕ) (kind : FieldKind) (field : Field) (k : Caret) → Stays field (push_field c kind field k)
unfolding push_field type_item type_in_items next_item type_pair type_in_pairs next_pair go_value
push_field-Stays c text field k = refl
push_field-Stays c integer field k = refl
push_field-Stays c number field k = refl
push_field-Stays c time field k = refl
push_field-Stays c cron field k = refl
push_field-Stays c bool field k = ground arith
push_field-Stays c (choice cs) field k = refl
push_field-Stays c (list i) field k = ground arith
push_field-Stays c pairs field k = ground arith

delete_field-Stays :
    (kind : FieldKind) (field : Field) (k : Caret) → Stays field (delete_field kind field k)
unfolding delete_field delete_item put_item put_pair
delete_field-Stays text field k = refl
delete_field-Stays integer field k = refl
delete_field-Stays number field k = refl
delete_field-Stays time field k = refl
delete_field-Stays cron field k = refl
delete_field-Stays bool field k = refl
delete_field-Stays (choice cs) field k = refl
delete_field-Stays (list i) field k = ground arith
delete_field-Stays pairs field k = ground arith

pop_field-Stays :
    (kind : FieldKind) (field : Field) (k : Caret) → Stays field (pop_field kind field k)
unfolding pop_field pop_item put_item put_pair pop_pair item_above pair_above
pop_field-Stays text field k = ground arith
pop_field-Stays integer field k = ground arith
pop_field-Stays number field k = ground arith
pop_field-Stays time field k = ground arith
pop_field-Stays cron field k = ground arith
pop_field-Stays bool field k = refl
pop_field-Stays (choice cs) field k = refl
pop_field-Stays (list i) field k = ground arith
pop_field-Stays pairs field k = ground arith

places-modify :
    (fields : List Field) (i : ℕ) {field : Field} (field' : Field)
    → get_elem? fields i ≡ some field
    → field_place field' ≡ field_place field
    → field_places (modify fields i (λ _. field')) ≡ field_places fields
unfolding modify
places-modify [] i field' e h = refl
places-modify (g ∷ fields) zero field' e h = cc
places-modify (g ∷ fields) (suc i) field' e h = let rest = places-modify fields i field' e h in cc

on_field-places :
    (edit : Field → Caret → Field × Caret) (f : Form)
    → ((field : Field) → Stays field (edit field f.caret))
    → field_places (on_field edit f).fields ≡ field_places f.fields
unfolding on_field
on_field-places edit f h = elim (Option-cases (get_elem? f.fields f.selected)) [
  | inl z ↦ rw (z, on_field) refl
  | inr (field, e) ↦
      rw (e, on_field) (places-modify f.fields f.selected (edit field f.caret).0 e (h field))
]

leave_field-places :
    (space : ℕ → Bool) (f : Form)
    → field_places (leave_field space f).fields ≡ field_places f.fields
unfolding leave_field
leave_field-places space f = unblanked f.fields f.selected
  where
    unblanked :
        (fields : List Field) (i : ℕ)
        → field_places (modify fields i (without_blanks space)) ≡ field_places fields
    unblanked [] i = refl
    unblanked (g ∷ fields) zero = refl
    unblanked (g ∷ fields) (suc i) = let rest = unblanked fields i in cc

-- A form whose fields have the places of another's.
abbrev Unmoved : Form → Form → Type 0
Unmoved f g = field_places g.fields ≡ field_places f.fields

push_char-Unmoved : (c : ℕ) (f : Form) → Unmoved f (push_char c f)
unfolding push_char
push_char-Unmoved c f =
    on_field-places (λ field k. push_field c field.kind field k) f
      (λ field. push_field-Stays c field.kind field f.caret)

delete_char-Unmoved : (f : Form) → Unmoved f (delete_char f)
unfolding delete_char
delete_char-Unmoved f =
    on_field-places (λ field k. delete_field field.kind field k) f
      (λ field. delete_field-Stays field.kind field f.caret)

pop_char-Unmoved : (f : Form) → Unmoved f (pop_char f)
unfolding pop_char
pop_char-Unmoved f =
    on_field-places (λ field k. pop_field field.kind field k) f
      (λ field. pop_field-Stays field.kind field f.caret)

pop_times-Unmoved : (n : ℕ) (f : Form) → Unmoved f (pop_times n f)
unfolding pop_times
pop_times-Unmoved zero f = refl
pop_times-Unmoved (suc n) f = pop_times-Unmoved n (pop_char f) ∙ pop_char-Unmoved f

pop_word-Unmoved : (alnum : ℕ → Bool) (f : Form) → Unmoved f (pop_word alnum f)
unfolding pop_word
pop_word-Unmoved alnum f =
    let target = pop_target alnum f in
    if_cases (Unmoved f) (target == f.caret.cursor) _ _ (λ _. pop_char-Unmoved f)
      (λ _. pop_times-Unmoved (f.caret.cursor - target) f)

module _ (space : ℕ → Bool) where
  select_next-Unmoved : (f : Form) → Unmoved f (select_next space f)
  unfolding select_next go_next_field reset_cursor
  select_next-Unmoved f = ground (arith, leave_field-places space f)

  select_previous-Unmoved : (f : Form) → Unmoved f (select_previous space f)
  unfolding select_previous go_previous_field reset_cursor
  select_previous-Unmoved f = ground (arith, leave_field-places space f)

  select_next_cell-Unmoved : (f : Form) → Unmoved f (select_next_cell space f)
  unfolding select_next_cell reset_cursor
  select_next_cell-Unmoved f = ground (arith, select_next-Unmoved f)

  select_previous_cell-Unmoved : (f : Form) → Unmoved f (select_previous_cell space f)
  unfolding select_previous_cell reset_cursor
  select_previous_cell-Unmoved f = ground (arith, select_previous-Unmoved f)

cycle_field-Stays :
    (forward : Bool) (len : ℕ) (kind : FieldKind) (field : Field) (k : Caret)
    → Stays field (cycle_field forward len kind field k)
unfolding cycle_field
cycle_field-Stays forward len text field k = refl
cycle_field-Stays forward len integer field k = refl
cycle_field-Stays forward len number field k = refl
cycle_field-Stays forward len time field k = refl
cycle_field-Stays forward len cron field k = refl
cycle_field-Stays forward len bool field k = refl
cycle_field-Stays forward len (choice []) field k = refl
cycle_field-Stays forward len (choice (x ∷ xs)) field k = refl
cycle_field-Stays forward len (list i) field k = refl
cycle_field-Stays forward len pairs field k = refl

cycle-Unmoved : (forward : Bool) (f : Form) → Unmoved f (cycle forward f)
unfolding cycle reset_cursor
cycle-Unmoved forward f =
    let edit = λ (field : Field) (c : Caret).
      cycle_field forward (chars_in (active_text f)) field.kind field c in
    ground (
      arith,
      on_field-places edit f (λ field. cycle_field-Stays forward _ field.kind field f.caret),
    )

move_word-Unmoved :
    (alnum : ℕ → Bool) (forward : Bool) (f : Form) → Unmoved f (move_word alnum forward f)
unfolding move_word
move_word-Unmoved alnum forward f = ground arith

on_form_key-Unmoved :
    (alnum space : ℕ → Bool) (key : FormKey) (f : Form) → Unmoved f (on_form_key alnum space key f)
unfolding on_form_key
on_form_key-Unmoved alnum space up f = select_previous-Unmoved space f
on_form_key-Unmoved alnum space down f = select_next-Unmoved space f
on_form_key-Unmoved alnum space tab f = select_next_cell-Unmoved space f
on_form_key-Unmoved alnum space back_tab f = select_previous_cell-Unmoved space f
on_form_key-Unmoved alnum space left f = cycle-Unmoved false f
on_form_key-Unmoved alnum space right f = cycle-Unmoved true f
on_form_key-Unmoved alnum space backspace f = pop_char-Unmoved f
on_form_key-Unmoved alnum space delete f = delete_char-Unmoved f
on_form_key-Unmoved alnum space (char c) f = push_char-Unmoved c f
on_form_key-Unmoved alnum space word_left f = move_word-Unmoved alnum false f
on_form_key-Unmoved alnum space word_right f = move_word-Unmoved alnum true f
on_form_key-Unmoved alnum space word_backspace f = pop_word-Unmoved alnum f

on_form_keys-Unmoved :
    (alnum space : ℕ → Bool) (keys : List FormKey) (f : Form)
    → Unmoved f (on_form_keys alnum space keys f)
unfolding on_form_keys
on_form_keys-Unmoved alnum space [] f = refl
on_form_keys-Unmoved alnum space (key ∷ keys) f =
    on_form_keys-Unmoved alnum space keys (on_form_key alnum space key f)
    ∙ on_form_key-Unmoved alnum space key f

walked_payload-InPlace :
    (r : Readers) (kind_of : Value → Option Text → FieldKind) (schema : Value) (kind : FormKind)
    (alnum space : ℕ → Bool) (keys : List FormKey)
    → IsMap schema
    → let f = on_form_keys alnum space keys (new_form kind (walk_schema kind_of schema)) in
      (v : Value) × (payload r f ≡ some v) × All (InPlace r v) f.fields
unfolding new_form
walked_payload-InPlace r kind_of schema kind alnum space keys h =
    let blank = new_form kind (walk_schema kind_of schema) in
    schema_payload-InPlace r kind_of schema kind (on_form_keys alnum space keys blank) h
      (on_form_keys-Unmoved alnum space keys blank)

-- If the kinds of a schema's fields are found, then in a new form for the schema, whatever keys it is
-- given: the payload can be built, and in it the path of every input leads to the input's value, and to
-- nothing if the input has none. The keys of each object of the schema are different, as in any JSON
-- value that was read.
pub typed_payload-InPlace :
    (r : Readers) (fuel : ℕ) (print : Value → Text) (schema : Value) (fields : List Field)
    (kind : FormKind) (alnum space : ℕ → Bool) (keys : List FormKey)
    → IsMap schema
    → fields_from_schema fuel print schema ≡ some fields
    → let f = on_form_keys alnum space keys (new_form kind fields) in
      (v : Value) × (payload r f ≡ some v) × All (InPlace r v) f.fields
typed_payload-InPlace r fuel print schema fields kind alnum space keys h e =
    let shown = λ (fs : List Field).
      let f = on_form_keys alnum space keys (new_form kind fs) in
      (v : Value) × (payload r f ≡ some v) × All (InPlace r v) f.fields in
    subst shown (sym (fields_from_schema-walk_schema fuel print schema e))
      (walked_payload-InPlace r (found_kind fuel print schema) schema kind alnum space keys h)
