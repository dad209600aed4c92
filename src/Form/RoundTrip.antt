-- ===== src/Form/RoundTrip.antt =====
-- A character typed into a form and erased again, crates/ora-cli/src/tui/ui/form.rs.
use ora.Base.{
  ℕ, zero, suc, ◌+◌, ◌-◌, ◌≤◌, ◌<◌, min, ◌≡◌, refl, sym, ◌∙◌, subst, ap, true, false, ◌&&◌, some,
  List, [], ◌∷◌, ◌++◌, length, get_elem?, modify, ltb, ◌==◌, if◌then◌else◌, Option-cases,
  Bool-cases, ◌⊎◌, ◌≢◌, arith, inl, inr,
}
use ora.Form.Text.{Text, take, drop, byte_at, insert_char, remove_range}
use ora.Form.State.{
  FieldKind, bool, choice, list, pairs, Field, Caret, Form, text_of, cell_text, chars_in, on_field,
}
use ora.Form.Typing.{
  typed, edit_cell, is_json, cell_chars, type_item, type_in_items, type_pair, type_in_pairs,
  push_field, push_char,
}
use ora.Form.Erasing.{
  remove_row, popped, put_item, put_pair, pop_item, pop_pair, pop_field, pop_char,
}
use ora.Form.Edits.{
  take-drop, get_elem?-none, get_elem?-modify, with_row_old, with_row_new, get_elem?-append_last,
  length-typed,
}
use ora.Form.Fits.{Fits, push_field-Keeps, in_item, in_pair, item_bounds, pair_bounds}
use ora.Form.Valid.{IsValid, IsValid-Fits}

module _ {ℓ} {A : Type ℓ} where
  take-insert :
      (n : ℕ) (t : List A) (c : A) → n ≤ length t → take n (take n t ++ c ∷ drop n t) ≡ take n t
  unfolding take drop
  take-insert zero t c h = refl
  take-insert (suc n) [] c h = absurd (omega arith)
  take-insert (suc n) (d ∷ t) c h = ap (d ∷◌) (take-insert n t c (omega arith))

  drop-insert :
      (n : ℕ) (t : List A) (c : A)
      → n ≤ length t
      → drop (suc n) (take n t ++ c ∷ drop n t) ≡ drop n t
  unfolding take drop
  drop-insert zero t c h = refl
  drop-insert (suc n) [] c h = absurd (omega arith)
  drop-insert (suc n) (d ∷ t) c h = drop-insert n t c (omega arith)

  pub modify-modify :
      (xs : List A) (i : ℕ) (x y : A)
      → modify (modify xs i (λ _. x)) i (λ _. y) ≡ modify xs i (λ _. y)
  unfolding modify
  modify-modify [] i x y = refl
  modify-modify (z ∷ xs) zero x y = refl
  modify-modify (z ∷ xs) (suc i) x y = ap (z ∷◌) (modify-modify xs i x y)

  pub modify_self :
      (xs : List A) (i : ℕ) (x : A) → get_elem? xs i ≡ some x → modify xs i (λ _. x) ≡ xs
  unfolding modify
  modify_self [] i x h = refl
  modify_self (z ∷ xs) zero x h = ground arith
  modify_self (z ∷ xs) (suc i) x h = ap (z ∷◌) (modify_self xs i x h)

  take-drop-last :
      (xs : List A) (x y : A) (i : ℕ)
      → length xs ≡ i
      → let rows = modify (xs ++ x ∷ []) i (λ _. y) in take i rows ++ drop (suc i) rows ≡ xs
  unfolding take drop modify
  take-drop-last [] x y zero h = refl
  take-drop-last [] x y (suc i) h = absurd (omega arith)
  take-drop-last (z ∷ xs) x y zero h = absurd (omega arith)
  take-drop-last (z ∷ xs) x y (suc i) h = ap (z ∷◌) (take-drop-last xs x y i (omega arith))

  remove_row-last :
      (xs : List A) (x y : A) (i : ℕ)
      → length xs ≡ i
      → remove_row (modify (xs ++ x ∷ []) i (λ _. y)) i ≡ xs
  unfolding remove_row
  remove_row-last xs x y i h =
      let e : i + 1 ≡ suc i = omega arith in rw (e, remove_row) (take-drop-last xs x y i h)

typed_eq :
    (c cursor : ℕ) (t : Text)
    → cursor ≤ length t
    → typed c cursor t ≡ take cursor t ++ c ∷ drop cursor t
unfolding typed byte_at insert_char
typed_eq c cursor t h = let a : min cursor (length t) ≡ cursor = omega arith in rw (a, typed) refl

pub popped_eq :
    (cursor : ℕ) (t : Text)
    → cursor < length t
    → popped (cursor + 1) t ≡ take cursor t ++ drop (suc cursor) t
unfolding popped byte_at remove_range
popped_eq cursor t h =
    let a : min (cursor + 1 - 1) (length t) ≡ cursor = omega arith in
    let b : min (cursor + 1) (length t) ≡ suc cursor = omega arith in rw (a, popped) (rw b refl)

pub popped-typed :
    (c cursor : ℕ) (t : Text) → cursor ≤ length t → popped (cursor + 1) (typed c cursor t) ≡ t
popped-typed c cursor t h =
    popped_eq cursor (typed c cursor t) (omega (arith, length-typed c cursor t))
    ∙ rw (typed_eq c cursor t h)
        (rw (take-insert cursor t c h) (rw (drop-insert cursor t c h) (take-drop cursor t)))

edit_cell-twice :
    (cell : ℕ) (g h : Text → Text) (p : Text × Text)
    → h (g (cell_text cell p)) ≡ cell_text cell p
    → edit_cell cell h (edit_cell cell g p) ≡ p
edit_cell-twice cell g h (key, value) e = elim (Bool-cases (cell == 0)) [
  | inl z ↦
      let e' : h (g key) ≡ key =
        subst (λ b. h (g (if b then key else value)) ≡ (if b then key else value)) z e in
      rw z (rw e' refl)
  | inr n ↦
      let e' : h (g value) ≡ value =
        subst (λ b. h (g (if b then key else value)) ≡ (if b then key else value)) n e in
      rw n (rw e' refl)
]

-- A character that a row of the field takes as text, at the caret.
abbrev pub Takes : ℕ → FieldKind → Field → Caret → Type 0
Takes c (list i) field k =
    (is_json c ≡ false) × ((c == b',') ≡ false) × (get_elem? field.items k.item ≢ some [])
Takes c pairs field k =
    (((c == b'=') && (k.cell == 0)) ≡ false)
    × ((c == b',') ≡ false)
    × (get_elem? field.pairs k.item ≢ some ([], []))
    × ((k.cell ≡ 0) ⊎ (k.item < length field.pairs))
Takes c bool field k = ⊥
Takes c (choice cs) field k = ⊥
Takes c other field k = Unit

abbrev there_and_back : ℕ → FieldKind → Field → Caret → Field × Caret
there_and_back c kind field k = let r = push_field c kind field k in pop_field kind r.0 r.1

module _ (c : ℕ) (field : Field) (k : Caret) where
  back : k.cursor + 1 - 1 ≡ k.cursor
  back = omega arith

  -- What typing does to a row that is there, and to the blank one after the last.
  type_item-old :
      (t : Text)
      → get_elem? field.items k.item ≡ some t
      → type_item c field k ≡ (
        record field { items = modify field.items k.item (λ _. typed c k.cursor t) },
        record k { cursor = k.cursor + 1 },
      )
  unfolding type_item type_in_items
  type_item-old t e =
      ap (λ rows. type_in_items c rows field k) (with_row_old [] k.item field.items e)
      ∙ rw (e, type_in_items) refl

  type_item-new :
      length field.items ≡ k.item
      → type_item c field k ≡ (
        record field { items = modify (field.items ++ [] ∷ []) k.item (λ _. typed c k.cursor []) },
        record k { cursor = k.cursor + 1 },
      )
  unfolding type_item type_in_items
  type_item-new e =
      ap (λ rows. type_in_items c rows field k) (with_row_new [] k.item field.items e)
      ∙ rw (get_elem?-append_last field.items k.item [] e, type_in_items) refl

  -- What erasing then does.
  pop_typed :
      (i : _) (t : Text) (rows : List Text)
      → get_elem? rows k.item ≡ some t
      → k.cursor ≤ length t
      → pop_field
          (list i)
          (record field { items = modify rows k.item (λ _. typed c k.cursor t) })
          (record k { cursor = k.cursor + 1 })
        ≡ (
          put_item (record field { items = modify rows k.item (λ _. typed c k.cursor t) }) k.item t,
          k,
        )
  unfolding pop_field pop_item
  pop_typed i t rows e h =
      let n : (k.cursor + 1 == 0) ≡ false = ground arith in
      rw (get_elem?-modify rows k.item (λ _. typed c k.cursor t) e, pop_field)
        (rw n (rw (popped-typed c k.cursor t h) (rw back refl)))

  put_item_back :
      (t : Text)
      → get_elem? field.items k.item ≡ some t
      → (t ≢ [])
      → put_item
          (record field { items = modify field.items k.item (λ _. typed c k.cursor t) })
          k.item
          t
        ≡ field
  unfolding put_item
  put_item_back [] e full = absurd (full refl)
  put_item_back (d ∷ t) e full =
      rw (modify-modify field.items k.item (typed c k.cursor (d ∷ t)) (d ∷ t))
        (rw (modify_self field.items k.item (d ∷ t) e) refl)

  item_back :
      (i : _)
      → Fits (list i) field k
      → (get_elem? field.items k.item ≢ some [])
      → let r = type_item c field k in pop_field (list i) r.0 r.1 ≡ (field, k)
  item_back i h full = elim (Option-cases (get_elem? field.items k.item)) [
    | inr (t, e) ↦ rw (type_item-old t e) (
        pop_typed i t field.items e (in_item i field k t e h)
        ∙ rw (put_item_back t e (λ z. full (e ∙ ap some z))) refl)
    | inl e ↦
        let (b, d) = item_bounds i field k h in
        let end : length field.items ≡ k.item =
          omega (arith, get_elem?-none field.items k.item e) in
        let start : k.cursor ≤ 0 = subst (λ o. k.cursor ≤ chars_in o) e d in
        rw (type_item-new end) (
          pop_typed i [] (field.items ++ [] ∷ []) (get_elem?-append_last field.items k.item [] end)
            start
          ∙ (unfold put_item in
              rw (remove_row-last field.items [] (typed c k.cursor []) k.item end) refl))
  ]

  type_pair-old :
      (p : Text × Text)
      → get_elem? field.pairs k.item ≡ some p
      → type_pair c field k ≡ (
        record field {
          pairs = modify field.pairs k.item (λ _. edit_cell k.cell (typed c k.cursor) p);
        },
        record k { cursor = k.cursor + 1 },
      )
  unfolding type_pair type_in_pairs
  type_pair-old p e =
      ap (λ rows. type_in_pairs c rows field k) (with_row_old ([], []) k.item field.pairs e)
      ∙ rw (e, type_in_pairs) refl

  type_pair-new :
      length field.pairs ≡ k.item
      → type_pair c field k ≡ (
        record field {
          pairs =
              modify
                (field.pairs ++ ([], []) ∷ [])
                k.item
                (λ _. edit_cell k.cell (typed c k.cursor) ([], []));
        },
        record k { cursor = k.cursor + 1 },
      )
  unfolding type_pair type_in_pairs
  type_pair-new e =
      ap (λ rows. type_in_pairs c rows field k) (with_row_new ([], []) k.item field.pairs e)
      ∙ rw (get_elem?-append_last field.pairs k.item ([], []) e, type_in_pairs) refl

  pop_typed_pair :
      (p : Text × Text) (rows : List (Text × Text))
      → get_elem? rows k.item ≡ some p
      → k.cursor ≤ length (cell_text k.cell p)
      → let field' = record field {
        pairs = modify rows k.item (λ _. edit_cell k.cell (typed c k.cursor) p);
      } in
        pop_field pairs field' (record k { cursor = k.cursor + 1 }) ≡ put_pair field' k p
  unfolding pop_field pop_pair
  pop_typed_pair p rows e h =
      let n : (k.cursor + 1 == 0) ≡ false = ground arith in
      rw (get_elem?-modify rows k.item (λ _. edit_cell k.cell (typed c k.cursor) p) e, pop_field)
        (rw n (
          rw
            (edit_cell-twice k.cell (typed c k.cursor) (popped (k.cursor + 1)) p
              (popped-typed c k.cursor (cell_text k.cell p) h))
            (rw back refl)))

  pair_kept :
      (p : Text × Text)
      → get_elem? field.pairs k.item ≡ some p
      → ◌≡◌ {A = Field × Caret}
          (
            record field {
              pairs =
                  modify
                    (modify field.pairs k.item (λ _. edit_cell k.cell (typed c k.cursor) p))
                    k.item
                    (λ _. p);
            },
            k,
          )
          (field, k)
  pair_kept p e =
      rw (modify-modify field.pairs k.item (edit_cell k.cell (typed c k.cursor) p) p)
        (rw (modify_self field.pairs k.item p e) refl)

  put_pair_back :
      (p : Text × Text)
      → get_elem? field.pairs k.item ≡ some p
      → (p ≢ ([], []))
      → put_pair
          (record field {
            pairs = modify field.pairs k.item (λ _. edit_cell k.cell (typed c k.cursor) p);
          })
          k
          p
        ≡ (field, k)
  unfolding put_pair
  put_pair_back ([], []) e full = absurd (full refl)
  put_pair_back ([], d ∷ t) e full = pair_kept ([], d ∷ t) e
  put_pair_back (d ∷ s, t) e full = pair_kept (d ∷ s, t) e

  pair_back :
      Fits pairs field k
      → (get_elem? field.pairs k.item ≢ some ([], []))
      → (k.cell ≡ 0) ⊎ (k.item < length field.pairs)
      → let r = type_pair c field k in pop_field pairs r.0 r.1 ≡ (field, k)
  pair_back h full first = elim (Option-cases (get_elem? field.pairs k.item)) [
    | inr (p, e) ↦ rw (type_pair-old p e) (
        pop_typed_pair p field.pairs e (in_pair field k p e h)
        ∙ put_pair_back p e (λ z. full (e ∙ ap some z)))
    | inl e ↦
        let (b, d) = pair_bounds field k h in
        let end : length field.pairs ≡ k.item =
          omega (arith, get_elem?-none field.pairs k.item e) in
        let start : k.cursor ≤ 0 = subst (λ o. k.cursor ≤ cell_chars k.cell o) e d in
        let key : k.cell ≡ 0 = ground arith in
        let zero_cursor : k.cursor ≡ 0 = omega arith in
        rw (type_pair-new end) (
          pop_typed_pair ([], []) (field.pairs ++ ([], []) ∷ [])
            (get_elem?-append_last field.pairs k.item ([], []) end) (omega arith)
          ∙ gone end key zero_cursor)
  ]
    where
      gone :
          length field.pairs ≡ k.item
          → k.cell ≡ 0
          → k.cursor ≡ 0
          → put_pair
              (record field {
                pairs =
                    modify
                      (field.pairs ++ ([], []) ∷ [])
                      k.item
                      (λ _. edit_cell k.cell (typed c k.cursor) ([], []));
              })
              k
              ([], [])
            ≡ (field, k)
      gone end key start =
          unfold put_pair in
          rw
            (remove_row-last field.pairs ([], []) (edit_cell k.cell (typed c k.cursor) ([], []))
              k.item end)
            (λ i. (field, record k { cell = sym key i; cursor = sym start i }))

  -- In one field, at a row that takes the character.
  field_back :
      (kind : FieldKind)
      → Fits kind field k
      → Takes c kind field k
      → there_and_back c kind field k ≡ (field, k)
  unfolding push_field text_of
  field_back (list i) h (json, comma, full) =
      rw (json, push_field) (rw (comma, push_field) (item_back i h full))
  field_back pairs h (equals, comma, full, first) =
      rw (equals, push_field) (rw (comma, push_field) (pair_back h full first))
  field_back bool h t = absurd t
  field_back (choice cs) h t = absurd t
  field_back other h t =
      unfold pop_field in
      let l : ltb 0 (k.cursor + 1) ≡ true = ground arith in
      rw l (rw (popped-typed c k.cursor field.text h.cursor_le) (rw back refl))

pub on_field_eq :
    (edit : Field → Caret → Field × Caret) (f : Form) (field : Field)
    → get_elem? f.fields f.selected ≡ some field
    → on_field edit f ≡ record f {
      fields = modify f.fields f.selected (λ _. (edit field f.caret).0);
      caret = (edit field f.caret).1;
    }
unfolding on_field
on_field_eq edit f field e = rw (e, on_field) refl

-- In a valid form, a character that the caret's row takes as text, typed and erased again, leaves the
-- form as it was: its fields, the selected one, and the caret. All fields with a text take any
-- character. A list takes all but brackets, quotes and commas, a pair all but commas and, in the
-- key, the equals sign; the row must not be one that was left empty, and a pair's blank row must be
-- at its key.
pub pop_char-push_char :
    (c : ℕ) (f : Form) (field : Field)
    → get_elem? f.fields f.selected ≡ some field
    → IsValid f
    → Takes c field.kind field f.caret
    → pop_char (push_char c f) ≡ f
unfolding push_char pop_char
pop_char-push_char c f field e v t =
    let r = push_field c field.kind field f.caret in
    let g = record f { fields = modify f.fields f.selected (λ _. r.0); caret = r.1 } in
    let pop = λ (field : Field) (k : Caret). pop_field field.kind field k in
    let kind : r.0.kind ≡ field.kind =
      (push_field-Keeps c field f.caret field.kind (IsValid-Fits f field e v)).1 in
    let b : pop r.0 r.1 ≡ (field, f.caret) =
      rw kind (field_back c field f.caret field.kind (IsValid-Fits f field e v) t) in
    ap (on_field pop) (on_field_eq (λ field k. push_field c field.kind field k) f field e)
    ∙ (on_field_eq pop g r.0 (get_elem?-modify f.fields f.selected (λ _. r.0) e)
        ∙ (ap
              (λ (x : Field × Caret). record g {
                fields = modify g.fields f.selected (λ _. x.0);
                caret = x.1;
              })
              b
            ∙ ap (λ fields. record f { fields = fields })
                (modify-modify f.fields f.selected r.0 field
                  ∙ modify_self f.fields f.selected field e)))
