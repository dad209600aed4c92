-- ===== src/Form/Text.antt =====
-- Texts under a caret, crates/ora-cli/src/tui/ui/form.rs: positions, edits, words, and the window
-- around the caret. A text is a list of code points. The byte offset of a character stands as the
-- number of characters before it.
use ora.Base.{
  ℕ, zero, suc, ◌+◌, min, Bool, true, false, not, List, [], ◌∷◌, ◌++◌, length, get_elem?,
  is_some_and, ◌==◌, if◌then◌else◌,
}
unfoldable pub use ora.Base.{take, drop}

abbrev pub Text : Type 0
Text = List ℕ

-- `==` of texts.
unfoldable pub text_eq : Text → Text → Bool
text_eq [] [] = true
text_eq [] (d ∷ ds) = false
text_eq (c ∷ cs) [] = false
text_eq (c ∷ cs) (d ∷ ds) = let rest = text_eq cs ds in if c == d then rest else false

-- `is_empty`.
abbrev pub is_nil {ℓ} : {A : Type ℓ} → List A → Bool
is_nil [] = true
is_nil (c ∷ t) = false

-- `trim().is_empty()`: nothing but white space.
unfoldable pub is_blank : (ℕ → Bool) → Text → Bool
is_blank is_whitespace [] = true
is_blank is_whitespace (c ∷ t) =
    let rest = is_blank is_whitespace t in if is_whitespace c then rest else false

unfoldable pub byte_at : Text → ℕ → ℕ
byte_at text chars = min chars (length text)

-- `String::insert`.
unfoldable pub insert_char : Text → ℕ → ℕ → Text
unfolding take drop
insert_char text at c = take at text ++ c ∷ drop at text

-- `String::replace_range(from..to, "")`.
unfoldable pub remove_range : Text → ℕ → ℕ → Text
unfolding take drop
remove_range text from to = take from text ++ drop to text

-- The first loop and the second one of `word_start`, by what they pass over.
unfoldable pub back_over : (ℕ → Bool) → Text → ℕ → ℕ
back_over passes text zero = 0
back_over passes text (suc at) =
    let rest = back_over passes text at in
    if is_some_and (get_elem? text at) passes then rest else suc at

unfoldable pub word_start : (ℕ → Bool) → Text → ℕ → ℕ
unfolding back_over
word_start is_alphanumeric text cursor =
    let at = min cursor (length text) in
    back_over is_alphanumeric text (back_over (λ c. not (is_alphanumeric c)) text at)

-- A loop of `word_end`, over the characters that are left from `at`.
unfoldable pub over : (ℕ → Bool) → Text → ℕ → ℕ
over passes [] at = at
over passes (c ∷ rest) at = let end = over passes rest (at + 1) in if passes c then end else at

unfoldable pub word_end : (ℕ → Bool) → Text → ℕ → ℕ
unfolding over drop
word_end is_alphanumeric text cursor =
    let at = min cursor (length text) in
    let word = over (λ c. not (is_alphanumeric c)) (drop at text) at in
    over is_alphanumeric (drop word text) word
