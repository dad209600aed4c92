-- ===== src/Form/Keyed.antt =====
-- A form under its keys, crates/ora-cli/src/tui/ui/form.rs and crates/ora-cli/src/tui.rs.
use ora.Base.{ℕ, zero, suc, ◌-◌, Bool, true, false, List, [], ◌∷◌, ◌==◌, if_cases}
use ora.Form.State.{Form}
use ora.Form.Typing.{push_field, push_char}
use ora.Form.Erasing.{
  delete_field, delete_char, pop_field, pop_char, pop_times, pop_target, pop_word, FormKey, up,
  down, tab, back_tab, left, right, backspace, delete, char, word_left, word_right, word_backspace,
  on_form_key, on_form_keys,
}
use ora.Form.Fits.{push_field-Keeps}
use ora.Form.Erased.{delete_field-Keeps, pop_field-Keeps}
use ora.Form.Valid.{IsValid, on_field-IsValid}
use ora.Form.Moved.{
  select_next-IsValid, select_previous-IsValid, select_next_cell-IsValid,
  select_previous_cell-IsValid, cycle-IsValid, move_word-IsValid,
}

push_char-IsValid : (c : ℕ) (f : Form) → IsValid f → IsValid (push_char c f)
unfolding push_char
push_char-IsValid c f =
    on_field-IsValid (λ field k. push_field c field.kind field k) f
      (λ field e. push_field-Keeps c field f.caret field.kind)

delete_char-IsValid : (f : Form) → IsValid f → IsValid (delete_char f)
unfolding delete_char
delete_char-IsValid f =
    on_field-IsValid (λ field k. delete_field field.kind field k) f
      (λ field e. delete_field-Keeps field f.caret field.kind)

pub pop_char-IsValid : (f : Form) → IsValid f → IsValid (pop_char f)
unfolding pop_char
pop_char-IsValid f =
    on_field-IsValid (λ field k. pop_field field.kind field k) f
      (λ field e. pop_field-Keeps field f.caret field.kind)

pop_times-IsValid : (n : ℕ) (f : Form) → IsValid f → IsValid (pop_times n f)
unfolding pop_times
pop_times-IsValid zero f v = v
pop_times-IsValid (suc n) f v = pop_times-IsValid n (pop_char f) (pop_char-IsValid f v)

pop_word-IsValid : (alnum : ℕ → Bool) (f : Form) → IsValid f → IsValid (pop_word alnum f)
unfolding pop_word
pop_word-IsValid alnum f v =
    let target = pop_target alnum f in
    if_cases IsValid (target == f.caret.cursor) _ _ (λ _. pop_char-IsValid f v)
      (λ _. pop_times-IsValid (f.caret.cursor - target) f v)

pub on_form_key-IsValid :
    (alnum space : ℕ → Bool) (key : FormKey) (f : Form)
    → IsValid f
    → IsValid (on_form_key alnum space key f)
unfolding on_form_key
on_form_key-IsValid alnum space up f = select_previous-IsValid space f
on_form_key-IsValid alnum space down f = select_next-IsValid space f
on_form_key-IsValid alnum space tab f = select_next_cell-IsValid space f
on_form_key-IsValid alnum space back_tab f = select_previous_cell-IsValid space f
on_form_key-IsValid alnum space left f = cycle-IsValid false f
on_form_key-IsValid alnum space right f = cycle-IsValid true f
on_form_key-IsValid alnum space backspace f = pop_char-IsValid f
on_form_key-IsValid alnum space delete f = delete_char-IsValid f
on_form_key-IsValid alnum space (char c) f = push_char-IsValid c f
on_form_key-IsValid alnum space word_left f = move_word-IsValid alnum false f
on_form_key-IsValid alnum space word_right f = move_word-IsValid alnum true f
on_form_key-IsValid alnum space word_backspace f = pop_word-IsValid alnum f

-- After any sequence of keys, a form that was valid has a selected field, the caret is on one of that
-- field's rows, and it is within the text of the row.
pub keys-IsValid :
    (alnum space : ℕ → Bool) (keys : List FormKey) (f : Form)
    → IsValid f
    → IsValid (on_form_keys alnum space keys f)
unfolding on_form_keys
keys-IsValid alnum space [] f v = v
keys-IsValid alnum space (key ∷ keys) f v =
    keys-IsValid alnum space keys (on_form_key alnum space key f)
      (on_form_key-IsValid alnum space key f v)
