-- ===== src/Tests/Form.antt =====
-- The form's theorems at concrete inputs.
use ora.Base.{
  ℕ, ◌-◌, ◌≡◌, refl, Bool, false, ◌&&◌, none, some, List, [], ◌∷◌, ◌++◌, All, leb, ◌==◌, ◌≤◌, ◌<◌,
  length, get_elem?, true, arith,
}
use ora.Form.Text.{Text, take, drop, text_eq}
use ora.Form.State.{
  FieldKind, text, list, pairs, integer, input, options, ListItemKind, Field, Form, rows_in,
  active_text,
}
use ora.Form.Erasing.{
  up, down, tab, backspace, delete, char, word_backspace, on_form_keys, pop_char, pop_word,
}
use ora.Form.Typing.{push_char}
use ora.Form.Valid.{IsValid}
use ora.Form.Keyed.{keys-IsValid}
use ora.Form.RoundTrip.{pop_char-push_char}
use ora.Form.Words.{Spans, at_passes}
use ora.Form.WordErased.{retyped, pop_word-retyped}
use ora.Form.Json.{Value}
use ora.Form.Window.{Window, caret_window, caret_window_lem}
use ora.Form.Payload.{Readers, payload}
use ora.Form.Options.{codes}
use ora.Form.Placed.{InPlace, payload-InPlace}

abbrev pub is_lower : ℕ → Bool
is_lower c = leb b'a' c && leb c b'z'

abbrev pub is_space : ℕ → Bool
is_space c = c == b' '

abbrev pub blank_field : FieldKind → Text → Field
blank_field kind key = record {
  path = key ∷ [];
  label = key;
  required = false;
  section = input;
  kind = kind;
  text = [];
  items = [];
  pairs = [];
  toggled = false;
  choice = 0;
}

abbrev pub title_field : Field
title_field = record (blank_field text (codes "title")) { text = codes "ab cd" }

abbrev tags_field : Field
tags_field = record (blank_field (list ListItemKind.text) (codes "tags")) {
  path = codes "more" ∷ codes "tags" ∷ [];
  items = codes "x" ∷ [];
}

abbrev count_field : Field
count_field = record (blank_field integer (codes "count")) {
  path = codes "more" ∷ codes "count" ∷ [];
  text = codes "7";
}

abbrev labels_field : Field
labels_field = record (blank_field pairs (codes "labels")) {
  section = options;
  pairs = (codes "k", codes "v") ∷ [];
}

abbrev four_fields : List Field
four_fields = title_field ∷ tags_field ∷ count_field ∷ labels_field ∷ []

-- At the end of the title, and at the blank row of the tags.
abbrev at_title : Form
at_title = record {
  fields = four_fields;
  selected = 0;
  caret = record { item = 0; cursor = 5; cell = 0 };
}

abbrev at_tags : Form
at_tags = record {
  fields = four_fields;
  selected = 1;
  caret = record { item = 1; cursor = 0; cell = 0 };
}

at_title-IsValid : IsValid at_title
unfolding rows_in active_text
at_title-IsValid = record {
  selected_lt = omega arith;
  item_lt = omega arith;
  cursor_le = omega arith;
}

at_tags-IsValid : IsValid at_tags
unfolding rows_in active_text
at_tags-IsValid = record {
  selected_lt = omega arith;
  item_lt = omega arith;
  cursor_le = omega arith;
}

keys-IsValid_example : IsValid (
    on_form_keys is_lower is_space
      (word_backspace ∷ down ∷ delete ∷ char b'y' ∷ down ∷ down ∷ tab ∷ backspace ∷ up ∷ [])
      at_title)
keys-IsValid_example =
    keys-IsValid is_lower is_space
      (word_backspace ∷ down ∷ delete ∷ char b'y' ∷ down ∷ down ∷ tab ∷ backspace ∷ up ∷ [])
      at_title at_title-IsValid

pop_char-push_char_example : pop_char (push_char b'y' at_tags) ≡ at_tags
pop_char-push_char_example =
    pop_char-push_char b'y' at_tags tags_field refl at_tags-IsValid (refl, refl, λ e. cc)

pop_word-retyped_example :
    (start mid : ℕ) × Spans is_lower title_field.text start mid 5
    × (0 < start → at_passes is_lower title_field.text (start - 1) ≡ false)
    × (0 < start → start < mid)
    × (pop_word is_lower at_title
        ≡ retyped at_title title_field refl
            (take start title_field.text ++ drop 5 title_field.text)
            start)
pop_word-retyped_example = pop_word-retyped is_lower at_title title_field refl tt at_title-IsValid

word_erased : (pop_word is_lower at_title).caret.cursor ≡ 3
unfolding pop_word
word_erased = refl

abbrev pub some_readers : Readers
some_readers = record {
  is_whitespace = is_space;
  integer = λ t. some t;
  number = λ t. some t;
  bool = λ t. none;
  time = λ t. some t;
}

payload-InPlace_example :
    (v : Value) × (payload some_readers at_title ≡ some v)
    × All (InPlace some_readers v) four_fields
unfolding text_eq
payload-InPlace_example = payload-InPlace some_readers at_title (
  λ i. (λ e. cc, (λ i. tt, (λ i. tt, (λ i. tt, tt)))),
  (λ i. (λ e. cc, (λ i. tt, (λ i. tt, tt))), (λ i. (λ e. cc, (λ i. tt, tt)), (λ i. cc, tt))),
)

caret_window_lem_example :
    (w : Window) × (caret_window (codes "to be or not") 9 4 ≡ some w)
    × (w.shown ≤ 4)
    × (length w.before < 4)
    × (take 6 (codes "to be or not") ++ w.before ≡ take 9 (codes "to be or not"))
    × (get_elem? (codes "to be or not" ++ b' ' ∷ []) 9 ≡ some w.at_caret)
    × (w.after ++ drop 10 (codes "to be or not") ≡ drop 10 (codes "to be or not"))
    × (w.truncated ≡ true)
caret_window_lem_example = caret_window_lem (codes "to be or not") 9 4 (omega arith) (omega arith)
