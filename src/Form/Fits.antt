-- ===== src/Form/Fits.antt =====
-- Edits of crates/ora-cli/src/tui/ui/form.rs keep the caret within the selected field.
use ora.Base.{
  ℕ, ◌≤◌, ◌<◌, ◌≡◌, refl, subst, not, ◌&&◌, Option, none, some, [], length, get_elem?, ltb, ◌==◌,
  if_cases, arith,
}
use ora.Form.Text.{Text}
use ora.Form.State.{
  FieldKind, bool, choice, list, pairs, Field, Caret, cell_text, text_of, chars_in, field_rows,
}
use ora.Form.Typing.{
  typed, edit_cell, with_row, type_item, type_in_items, type_in_pairs, next_item, type_pair,
  next_pair, go_value, push_field, cell_chars, is_json,
}
use ora.Form.Edits.{get_elem?-lt, get_elem?-modify, row_or, get_elem?-with_row, length-typed}

-- The caret is on a row of the field and within the row's text.
pub record Fits (kind : FieldKind) (field : Field) (k : Caret) : Type 0 where
  pub item_lt : k.item < field_rows kind field
  pub cursor_le : k.cursor ≤ chars_in (text_of kind field k)

-- An edit that leaves the caret within the field, and the field's kind as it is.
abbrev pub Keeps : FieldKind → Field → Field × Caret → Type 0
Keeps kind field r = Fits kind r.0 r.1 × (r.0.kind ≡ field.kind)

-- At a row that is there, the caret fits if it is within the row's text.
pub Fits-item :
    (i : _) (field : Field) (k : Caret) (t : Text)
    → get_elem? field.items k.item ≡ some t
    → k.cursor ≤ length t
    → Fits (list i) field k
unfolding field_rows text_of
Fits-item i field k t e h = record {
  item_lt = omega (arith, get_elem?-lt field.items k.item e);
  cursor_le = rw e h;
}

pub Fits-pair :
    (field : Field) (k : Caret) (p : Text × Text)
    → get_elem? field.pairs k.item ≡ some p
    → k.cursor ≤ length (cell_text k.cell p)
    → Fits pairs field k
unfolding field_rows text_of
Fits-pair field k p e h = record {
  item_lt = omega (arith, get_elem?-lt field.pairs k.item e);
  cursor_le = rw (e, chars_in) h;
}

-- Where a row may be missing, its text counts as empty.
pub Fits-item_or :
    (i : _) (field : Field) (k : Caret)
    → k.item ≤ length field.items
    → k.cursor ≤ chars_in (get_elem? field.items k.item)
    → Fits (list i) field k
unfolding field_rows text_of
Fits-item_or i field k h e = record { item_lt = omega arith; cursor_le = e }

pub Fits-pair_or :
    (field : Field) (k : Caret)
    → k.item ≤ length field.pairs
    → k.cursor ≤ cell_chars k.cell (get_elem? field.pairs k.item)
    → Fits pairs field k
unfolding field_rows text_of
Fits-pair_or field k h e = record { item_lt = omega arith; cursor_le = ground arith }

-- What `Fits` says of such rows.
pub item_bounds :
    (i : _) (field : Field) (k : Caret)
    → Fits (list i) field k
    → (k.item ≤ length field.items) × (k.cursor ≤ chars_in (get_elem? field.items k.item))
unfolding field_rows text_of
item_bounds i field k h = (omega (arith, h.item_lt), h.cursor_le)

pub pair_bounds :
    (field : Field) (k : Caret)
    → Fits pairs field k
    → (k.item ≤ length field.pairs) × (k.cursor ≤ cell_chars k.cell (get_elem? field.pairs k.item))
unfolding field_rows text_of
pair_bounds field k h = (omega (arith, h.item_lt), ground (arith, h.cursor_le))

pub in_item :
    (i : _) (field : Field) (k : Caret) (t : Text)
    → get_elem? field.items k.item ≡ some t
    → Fits (list i) field k
    → k.cursor ≤ length t
in_item i field k t e h = subst (λ o. k.cursor ≤ chars_in o) e (item_bounds i field k h).1

pub in_pair :
    (field : Field) (k : Caret) (p : Text × Text)
    → get_elem? field.pairs k.item ≡ some p
    → Fits pairs field k
    → k.cursor ≤ length (cell_text k.cell p)
in_pair field k p e h = subst (λ o. k.cursor ≤ cell_chars k.cell o) e (pair_bounds field k h).1

toggled-Fits :
    (field : Field) (k : Caret)
    → Fits bool field k
    → Fits bool (record field { toggled = not field.toggled }) k
unfolding field_rows text_of
toggled-Fits field k h = record { item_lt = h.item_lt; cursor_le = h.cursor_le }

pub edit_cell-text :
    (cell : ℕ) (g : Text → Text) (p : Text × Text)
    → cell_text cell (edit_cell cell g p) ≡ g (cell_text cell p)
edit_cell-text cell g (key, value) = ground arith

chars_in-row_or : (o : Option Text) → length (row_or [] o) ≡ chars_in o
chars_in-row_or none = refl
chars_in-row_or (some t) = refl

cell_chars-row_or :
    (cell : ℕ) (o : Option (Text × Text))
    → length (cell_text cell (row_or ([], []) o)) ≡ cell_chars cell o
cell_chars-row_or cell none = ground arith
cell_chars-row_or cell (some p) = refl

module _ (c : ℕ) (field : Field) (k : Caret) where
  type_item-Keeps : (i : _) → Fits (list i) field k → Keeps (list i) field (type_item c field k)
  unfolding type_item type_in_items
  type_item-Keeps i h =
      let t = row_or [] (get_elem? field.items k.item) in
      let (b, d) = item_bounds i field k h in
      let at = get_elem?-with_row [] k.item field.items b in
      rw (at, type_item, type_in_items)
        (
          Fits-item i _ _ (typed c k.cursor t)
              (get_elem?-modify (with_row [] k.item field.items) k.item (λ _. typed c k.cursor t)
                at)
              (omega
                (arith, length-typed c k.cursor t, chars_in-row_or (get_elem? field.items k.item))),
          refl,
        )

  type_pair-Keeps : Fits pairs field k → Keeps pairs field (type_pair c field k)
  unfolding type_pair type_in_pairs
  type_pair-Keeps h =
      let p = row_or ([], []) (get_elem? field.pairs k.item) in
      let (b, d) = pair_bounds field k h in
      let at = get_elem?-with_row ([], []) k.item field.pairs b in
      let p' = edit_cell k.cell (typed c k.cursor) p in
      rw (at, type_pair, type_in_pairs)
        (
          Fits-pair _ _ p'
              (get_elem?-modify (with_row ([], []) k.item field.pairs) k.item (λ _. p') at)
              (rw (edit_cell-text k.cell (typed c k.cursor) p) (
                omega (
                  arith,
                  length-typed c k.cursor (cell_text k.cell p),
                  cell_chars-row_or k.cell (get_elem? field.pairs k.item),
                ))),
          refl,
        )

  next_item-Keeps : (i : _) → Fits (list i) field k → Keeps (list i) field (next_item field k)
  unfolding next_item
  next_item-Keeps i h =
      if_cases (Keeps (list i) field) (ltb k.item (length field.items)) _ _
        (λ e. (Fits-item_or i _ _ (ground arith) (omega arith), refl)) (λ e. (h, refl))

  next_pair-Keeps : Fits pairs field k → Keeps pairs field (next_pair field k)
  unfolding next_pair
  next_pair-Keeps h =
      if_cases (Keeps pairs field) (ltb k.item (length field.pairs)) _ _
        (λ e. (Fits-pair_or _ _ (ground arith) (omega arith), refl)) (λ e. (h, refl))

  go_value-Keeps : Fits pairs field k → Keeps pairs field (go_value field k)
  unfolding go_value
  go_value-Keeps h = (Fits-pair_or _ _ (pair_bounds field k h).0 (omega arith), refl)

  pub push_field-Keeps :
      (kind : FieldKind) → Fits kind field k → Keeps kind field (push_field c kind field k)
  unfolding push_field field_rows text_of
  push_field-Keeps (list i) h =
      if_cases (Keeps (list i) field) (is_json c) _ _ (λ _. (h, refl))
        (λ _.
          if_cases (Keeps (list i) field) (c == b',') _ _ (λ _. next_item-Keeps i h)
            (λ _. type_item-Keeps i h))
  push_field-Keeps pairs h =
      if_cases (Keeps pairs field) ((c == b'=') && (k.cell == 0)) _ _ (λ _. go_value-Keeps h)
        (λ _.
          if_cases (Keeps pairs field) (c == b',') _ _ (λ _. next_pair-Keeps h)
            (λ _. type_pair-Keeps h))
  push_field-Keeps bool h =
      if_cases (Keeps bool field) (c == b' ') _ _ (λ _. (toggled-Fits field k h, refl))
        (λ _. (h, refl))
  push_field-Keeps (choice cs) h = (h, refl)
  push_field-Keeps other h = (
    record {
      item_lt = omega (arith, h.item_lt);
      cursor_le = omega (arith, h.cursor_le, length-typed c k.cursor field.text);
    },
    refl,
  )
