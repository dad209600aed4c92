-- ===== src/Form/Erased.antt =====
-- Edits of crates/ora-cli/src/tui/ui/form.rs that erase keep the caret within the selected field.
use ora.Base.{
  ℕ, ◌-◌, ◌≤◌, ◌≡◌, refl, ltb→lt, ◌&&◌, some, [], ◌∷◌, length, get_elem?, ltb, ◌==◌, if_cases,
  option_cases, arith,
}
use ora.Form.Text.{Text, is_nil}
use ora.Form.State.{
  FieldKind, bool, choice, list, pairs, Field, Caret, cell_text, text_of, field_rows,
}
use ora.Form.Typing.{edit_cell}
use ora.Form.Erasing.{
  deleted, popped, put_item, put_pair, delete_item, pop_item, pop_pair, delete_field, pop_field,
  item_above, pair_above,
}
use ora.Form.Edits.{get_elem?-lt, get_elem?-modify, length-remove_row, length-popped, deleted-fits}
use ora.Form.Fits.{
  Fits, Keeps, Fits-item, Fits-pair, Fits-item_or, Fits-pair_or, item_bounds, pair_bounds, in_item,
  in_pair, edit_cell-text,
}

module _ (field : Field) (k : Caret) where
  -- A row with a new text, which goes if that is empty.
  put_item-Keeps :
      (i : _) (t t' : Text) (cursor : ℕ)
      → get_elem? field.items k.item ≡ some t
      → cursor ≤ length t'
      → Keeps (list i) field (put_item field k.item t', record k { cursor = cursor })
  unfolding put_item
  put_item-Keeps i t [] cursor e h =
      let lt = get_elem?-lt field.items k.item e in
      (
        Fits-item_or i _ _ (omega (arith, length-remove_row field.items k.item lt)) (omega arith),
        refl,
      )
  put_item-Keeps i t (c ∷ t') cursor e h =
      (Fits-item i _ _ (c ∷ t') (get_elem?-modify field.items k.item (λ _. c ∷ t') e) h, refl)

  put_pair-Keeps :
      (p p' : Text × Text) (cursor : ℕ)
      → get_elem? field.pairs k.item ≡ some p
      → cursor ≤ length (cell_text k.cell p')
      → Keeps pairs field (put_pair field (record k { cursor = cursor }) p')
  unfolding put_pair
  put_pair-Keeps p p' cursor e h =
      if_cases (Keeps pairs field) (is_nil p'.0 && is_nil p'.1) _ _
        (λ _.
          let lt = get_elem?-lt field.pairs k.item e in
          (
            Fits-pair_or _ _ (omega (arith, length-remove_row field.pairs k.item lt)) (omega arith),
            refl,
          ))
        (λ _. (Fits-pair _ _ p' (get_elem?-modify field.pairs k.item (λ _. p') e) h, refl))

  pub delete_field-Keeps :
      (kind : FieldKind) → Fits kind field k → Keeps kind field (delete_field kind field k)
  unfolding delete_field delete_item field_rows text_of
  delete_field-Keeps (list i) h =
      option_cases (Keeps (list i) field) (get_elem? field.items k.item) _ _ (λ _. (h, refl))
        (λ t e.
          let t' = deleted k.cursor t in
          let d = deleted-fits k.cursor t (in_item i field k t e h) in
          if_cases (λ c. Keeps (list i) field (put_item field k.item t', c)) (is_nil t') _ _
            (λ _. put_item-Keeps i t t' 0 e (omega arith))
            (λ _. put_item-Keeps i t t' k.cursor e d))
  delete_field-Keeps pairs h =
      option_cases (Keeps pairs field) (get_elem? field.pairs k.item) _ _ (λ _. (h, refl))
        (λ p e. put_pair-Keeps p (edit_cell k.cell (deleted k.cursor) p) k.cursor e (
          rw (edit_cell-text k.cell (deleted k.cursor) p)
            (deleted-fits k.cursor (cell_text k.cell p) (in_pair field k p e h))))
  delete_field-Keeps bool h = (h, refl)
  delete_field-Keeps (choice cs) h = (h, refl)
  delete_field-Keeps other h = (
    record {
      item_lt = omega (arith, h.item_lt);
      cursor_le = deleted-fits k.cursor field.text h.cursor_le;
    },
    refl,
  )

  pop_item-Keeps :
      (i : _) (t : Text)
      → get_elem? field.items k.item ≡ some t
      → Fits (list i) field k
      → Keeps (list i) field (pop_item field k t)
  unfolding pop_item
  pop_item-Keeps i t e h =
      let b = in_item i field k t e h in
      if_cases (Keeps (list i) field) (k.cursor == 0) _ _ (λ _. (h, refl))
        (λ n.
          put_item-Keeps i t (popped k.cursor t) (k.cursor - 1) e
            (omega (arith, length-popped k.cursor t (ground arith))))

  pop_pair-Keeps :
      (p : Text × Text)
      → get_elem? field.pairs k.item ≡ some p
      → Fits pairs field k
      → Keeps pairs field (pop_pair field k p)
  unfolding pop_pair
  pop_pair-Keeps p e h =
      let b = in_pair field k p e h in
      if_cases (Keeps pairs field) (k.cursor == 0) _ _
        (λ _.
          if_cases (Keeps pairs field) (k.cell == 1) _ _
            (λ _. (Fits-pair _ _ p e (omega arith), refl)) (λ _. (h, refl)))
        (λ n. put_pair-Keeps p (edit_cell k.cell (popped k.cursor) p) (k.cursor - 1) e (
          rw (edit_cell-text k.cell (popped k.cursor) p)
            (omega (arith, length-popped k.cursor (cell_text k.cell p) (ground arith)))))

  item_above-Keeps : (i : _) → Fits (list i) field k → Keeps (list i) field (item_above field k)
  unfolding item_above
  item_above-Keeps i h =
      let (b, d) = item_bounds i field k h in
      if_cases (Keeps (list i) field) (ltb 0 k.item) _ _
        (λ e. (Fits-item_or i _ _ (omega arith) (omega arith), refl)) (λ e. (h, refl))

  pair_above-Keeps : Fits pairs field k → Keeps pairs field (pair_above field k)
  unfolding pair_above
  pair_above-Keeps h =
      let (b, d) = pair_bounds field k h in
      if_cases (Keeps pairs field) (ltb 0 k.item) _ _
        (λ e. (Fits-pair_or _ _ (omega arith) (omega arith), refl)) (λ e. (h, refl))

  pub pop_field-Keeps :
      (kind : FieldKind) → Fits kind field k → Keeps kind field (pop_field kind field k)
  unfolding pop_field field_rows text_of
  pop_field-Keeps (list i) h =
      option_cases (Keeps (list i) field) (get_elem? field.items k.item) _ _
        (λ _. item_above-Keeps i h) (λ t e. pop_item-Keeps i t e h)
  pop_field-Keeps pairs h =
      option_cases (Keeps pairs field) (get_elem? field.pairs k.item) _ _ (λ _. pair_above-Keeps h)
        (λ p e. pop_pair-Keeps p e h)
  pop_field-Keeps bool h = (h, refl)
  pop_field-Keeps (choice cs) h = (h, refl)
  pop_field-Keeps other h =
      if_cases (Keeps _ field) (ltb 0 k.cursor) _ _
        (λ e. (
          record {
            item_lt = omega (arith, h.item_lt);
            cursor_le =
                omega (arith, h.cursor_le, length-popped k.cursor field.text (ltb→lt 0 k.cursor e));
          },
          refl,
        ))
        (λ e. (h, refl))
