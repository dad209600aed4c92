-- ===== src/Form/Edits.antt =====
-- What the edits of texts and rows in crates/ora-cli/src/tui/ui/form.rs do to their lengths and
-- elements.
use ora.Base.{
  Option-cases, inl, inr, ℕ, zero, suc, ◌+◌, ◌-◌, ◌≤◌, ◌<◌, min, ◌≡◌, refl, Option, none, some,
  List, [], ◌∷◌, ◌++◌, length, get_elem?, modify, length-append, arith,
}
use ora.Form.Text.{Text, take, drop, byte_at, remove_range}
use ora.Form.Typing.{typed, with_row}
use ora.Form.Erasing.{remove_row, deleted, popped}
pub use ora.Base.{length-take, length-drop, take-drop}

module _ {ℓ} {A : Type ℓ} where
  pub get_elem?-lt : (xs : List A) (i : ℕ) {x : A} → get_elem? xs i ≡ some x → i < length xs
  get_elem?-lt [] i h = cc
  get_elem?-lt (x ∷ xs) zero h = omega arith
  get_elem?-lt (x ∷ xs) (suc i) h = omega (arith, get_elem?-lt xs i h)

  pub get_elem?-none : (xs : List A) (i : ℕ) → get_elem? xs i ≡ none → length xs ≤ i
  get_elem?-none [] i h = omega arith
  get_elem?-none (x ∷ xs) zero h = cc
  get_elem?-none (x ∷ xs) (suc i) h = omega (arith, get_elem?-none xs i h)

  pub get_elem?-past : (xs : List A) (i : ℕ) → length xs ≤ i → get_elem? xs i ≡ none
  get_elem?-past [] i h = refl
  get_elem?-past (x ∷ xs) zero h = absurd (omega arith)
  get_elem?-past (x ∷ xs) (suc i) h = get_elem?-past xs i (omega arith)

  pub get_elem?-modify :
      (xs : List A) (i : ℕ) (g : A → A) {x : A}
      → get_elem? xs i ≡ some x
      → get_elem? (modify xs i g) i ≡ some (g x)
  unfolding modify
  get_elem?-modify [] i g h = cc
  get_elem?-modify (x ∷ xs) zero g h = cc
  get_elem?-modify (x ∷ xs) (suc i) g h = get_elem?-modify xs i g h

  pub length-remove_row :
      (xs : List A) (i : ℕ) → i < length xs → suc (length (remove_row xs i)) ≡ length xs
  unfolding remove_row
  length-remove_row xs i h =
      omega (
        arith,
        length-append (take i xs) (drop (i + 1) xs),
        length-take i xs,
        length-drop (i + 1) xs,
      )

  -- A row that may be the one after the last is there once `with_row` has made it.
  pub with_row_old :
      (new : A) (i : ℕ) (rows : List A) {x : A}
      → get_elem? rows i ≡ some x
      → with_row new i rows ≡ rows
  unfolding with_row
  with_row_old new i rows h = let h' = get_elem?-lt rows i h in ground arith

  pub with_row_new :
      (new : A) (i : ℕ) (rows : List A) → length rows ≡ i → with_row new i rows ≡ rows ++ new ∷ []
  unfolding with_row
  with_row_new new i rows h = ground arith

  pub get_elem?-append_last :
      (xs : List A) (i : ℕ) (x : A) → length xs ≡ i → get_elem? (xs ++ x ∷ []) i ≡ some x
  get_elem?-append_last [] zero x h = refl
  get_elem?-append_last [] (suc i) x h = absurd (omega arith)
  get_elem?-append_last (y ∷ xs) zero x h = absurd (omega arith)
  get_elem?-append_last (y ∷ xs) (suc i) x h = get_elem?-append_last xs i x (omega arith)

module _ {ℓ} {A : Type ℓ} where
  abbrev pub row_or : A → Option A → A
  row_or new none = new
  row_or new (some x) = x

  -- The row that the caret is on, made if need be.
  pub get_elem?-with_row :
      (new : A) (i : ℕ) (rows : List A)
      → i ≤ length rows
      → get_elem? (with_row new i rows) i ≡ some (row_or new (get_elem? rows i))
  get_elem?-with_row new i rows h = elim (Option-cases (get_elem? rows i)) [
    | inr (x, e) ↦ rw (with_row_old new i rows e) (rw e refl)
    | inl e ↦
        let end : length rows ≡ i = omega (arith, get_elem?-none rows i e) in
        rw (with_row_new new i rows end) (rw e (get_elem?-append_last rows i new end))
  ]

pub get_some :
    {A : Type 0} (xs : List A) (i : ℕ) → i < length xs → (x : A) × (get_elem? xs i ≡ some x)
get_some [] i h = absurd (omega arith)
get_some (x ∷ xs) zero h = (x, refl)
get_some (x ∷ xs) (suc i) h = get_some xs i (omega arith)

pub length-typed : (c cursor : ℕ) (t : Text) → length (typed c cursor t) ≡ suc (length t)
unfolding typed
length-typed c cursor t =
    let at = byte_at t cursor in
    omega (arith, length-append (take at t) (c ∷ drop at t), length-take at t, length-drop at t)

pub length-remove_range :
    (t : Text) (from to : ℕ)
    → length (remove_range t from to) ≡ min from (length t) + (length t - to)
unfolding remove_range
length-remove_range t from to =
    omega (arith, length-append (take from t) (drop to t), length-take from t, length-drop to t)

pub length-popped :
    (cursor : ℕ) (t : Text)
    → 0 < cursor
    → cursor ≤ length t
    → suc (length (popped cursor t)) ≡ length t
unfolding popped byte_at
length-popped cursor t h k =
    omega (arith, length-remove_range t (byte_at t (cursor - 1)) (byte_at t cursor))

pub deleted-fits : (cursor : ℕ) (t : Text) → cursor ≤ length t → cursor ≤ length (deleted cursor t)
unfolding deleted byte_at
deleted-fits cursor t h =
    ground (arith, length-remove_range t (byte_at t cursor) (byte_at t (cursor + 1)))
