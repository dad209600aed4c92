-- ===== src/Form/Filled.antt =====
-- Options of a form that are filled in and read again, crates/ora-cli/src/tui/ui/form.rs and
-- crates/ora-cli/src/tui.rs.
use ora.Base.{
  option_both, ◌≡◌, refl, sym, ◌∙◌, ap, Bool, true, false, Option, none, some, String, List, [],
  ◌∷◌, ◌++◌, if◌then◌else◌, Bool-cases, inl, inr, arith, All, position,
}
use ora.Form.Text.{Text, text_eq}
use ora.Form.State.{
  FormKind, Section, input, options, FieldKind, bool, choice, list, pairs, Field, Form,
}
use ora.Form.Json.{text_eq_sound}
use ora.Form.Payload.{is_input}
use ora.Form.Options.{
  codes, option_fields, new_form, starts_with, is_option, find_option, change_option, set_option,
  select_choice, set_option_choice, display, displayed,
}
use ora.Form.Policies.{fill, fill_choice}
use ora.Form.WordErased.{HasText}

-- A change of a field that leaves its place in the form as it is.
abbrev InPlace : (Field → Field) → Type 0
InPlace g = (field : Field) → ((g field).section ≡ field.section) × ((g field).path ≡ field.path)

abbrev at_key : Text → Section → List Text → Bool
at_key key input path = false
at_key key options path = starts_with key path

is_option-at_key :
    (key : Text) (field : Field) → is_option key field ≡ at_key key field.section field.path
unfolding is_option
is_option-at_key key field = by_section field.section
  where
    by_section :
        (s : Section)
        → (elim s [ input ↦ false | options ↦ starts_with key field.path ])
          ≡ at_key key s field.path
    by_section input = refl
    by_section options = refl

is_option-InPlace :
    (key : Text) (g : Field → Field) (field : Field)
    → InPlace g
    → is_option key (g field) ≡ is_option key field
is_option-InPlace key g field h =
    is_option-at_key key (g field)
    ∙ (ap (λ s. at_key key s (g field).path) (h field).0
        ∙ (ap (at_key key field.section) (h field).1 ∙ sym (is_option-at_key key field)))

-- A field answers to one key only.
is_option_unique :
    (k j : Text) (field : Field)
    → is_option j field ≡ true
    → text_eq j k ≡ false
    → is_option k field ≡ false
unfolding is_option
is_option_unique k j field h n = by_section field.section field.path h
  where
    by_path : (path : List Text) → starts_with j path ≡ true → starts_with k path ≡ false
    by_path [] h = refl
    by_path (p ∷ path) h = rw (text_eq_sound p j h) n

    by_section :
        (s : Section) (path : List Text)
        → (elim s [ input ↦ false | options ↦ starts_with j path ]) ≡ true
        → (elim s [ input ↦ false | options ↦ starts_with k path ]) ≡ false
    by_section input path h = refl
    by_section options path h = by_path path h

find_option-change_other :
    (k j : Text) (g : Field → Field) (fields : List Field)
    → InPlace g
    → text_eq j k ≡ false
    → find_option k (change_option j g fields) ≡ find_option k fields
unfolding find_option change_option
find_option-change_other k j g [] h n = refl
find_option-change_other k j g (field ∷ fields) h n = elim (Bool-cases (is_option j field)) [
  | inl y ↦
      let no = is_option_unique k j field y n in
      rw y (rw (is_option-InPlace k g field h) (rw no refl))
  | inr o ↦ rw o (
      ap (λ rest. if is_option k field then some field else rest)
        (find_option-change_other k j g fields h n))
]

find_option-change_self :
    (k : Text) (g : Field → Field) (fields : List Field) (field : Field)
    → InPlace g
    → find_option k fields ≡ some field
    → find_option k (change_option k g fields) ≡ some (g field)
unfolding find_option change_option
find_option-change_self k g [] field h e = cc
find_option-change_self k g (x ∷ fields) field h e = elim (Bool-cases (is_option k x)) [
  | inl y ↦
      let same : x ≡ field = ground arith in
      rw y (rw (is_option-InPlace k g x h) (rw y (ap (λ f. some (g f)) same)))
  | inr o ↦ rw o (rw o (find_option-change_self k g fields field h (ground arith)))
]

display-text : (kind : FieldKind) (field : Field) → HasText kind → display kind field ≡ field.text
unfolding display
display-text bool field h = absurd h
display-text (choice cs) field h = absurd h
display-text (list i) field h = absurd h
display-text pairs field h = absurd h
display-text other field h = refl

select_choice-InPlace : (value : Text) → InPlace (λ field. select_choice value field.kind field)
select_choice-InPlace value field = by_kind field.kind
  where
    by_kind :
        (kind : FieldKind)
        → ((select_choice value kind field).section ≡ field.section)
          × ((select_choice value kind field).path ≡ field.path)
    by_kind (choice cs) =
        unfold select_choice in
        option_both (λ (x : Field). (x.section ≡ field.section) × (x.path ≡ field.path))
          (position (λ c. text_eq c value) cs) _ _ (refl, refl) (λ i e. (refl, refl))
    by_kind other = unfold select_choice in (refl, refl)

-- Setting one option leaves the others as they are.
pub find-fill_other :
    (k j : String) (v : Option Text) (f : Form)
    → text_eq (codes j) (codes k) ≡ false
    → find_option (codes k) (fill j v f).fields ≡ find_option (codes k) f.fields
unfolding fill set_option
find-fill_other k j none f n = refl
find-fill_other k j (some v) f n =
    find_option-change_other (codes k) (codes j) (λ field. record field { text = v }) f.fields
      (λ field. (refl, refl)) n

pub find-fill_choice_other :
    (k j value : String) (on : Bool) (f : Form)
    → text_eq (codes j) (codes k) ≡ false
    → find_option (codes k) (fill_choice j value on f).fields ≡ find_option (codes k) f.fields
unfolding fill_choice set_option_choice
find-fill_choice_other k j value false f n = refl
find-fill_choice_other k j value true f n =
    find_option-change_other (codes k) (codes j)
      (λ field. select_choice (codes value) field.kind field) f.fields
      (select_choice-InPlace (codes value)) n

-- An option's text after it was filled in, where it had none.
abbrev pub text_or_none : Option Text → Text
text_or_none none = []
text_or_none (some v) = v

pub option-fill :
    (k : String) (v : Option Text) (f : Form) (field : Field)
    → find_option (codes k) f.fields ≡ some field
    → HasText field.kind
    → field.text ≡ []
    → displayed (find_option (codes k) (fill k v f).fields) ≡ text_or_none v
unfolding fill set_option
option-fill k none f field e h z = rw e (display-text field.kind field h ∙ z)
option-fill k (some v) f field e h z =
    rw
      (find_option-change_self (codes k) (λ field. record field { text = v }) f.fields field
        (λ field. (refl, refl)) e)
      (display-text field.kind (record field { text = v }) h)

pub find-fill_choice_self :
    (k value : String) (on : Bool) (f : Form) (field : Field)
    → find_option (codes k) f.fields ≡ some field
    → find_option (codes k) (fill_choice k value on f).fields
      ≡ some (if on then select_choice (codes value) field.kind field else field)
unfolding fill_choice set_option_choice
find-fill_choice_self k value false f field e = e
find-fill_choice_self k value true f field e =
    find_option-change_self (codes k) (λ field. select_choice (codes value) field.kind field)
      f.fields field (select_choice-InPlace (codes value)) e

input_no : (k : Text) (field : Field) → is_input field ≡ true → is_option k field ≡ false
input_no k field i = is_option-at_key k field ∙ by_section field.path field.section i
  where
    by_section :
        (path : List Text) (s : Section)
        → (elim s [ input ↦ true | options ↦ false ]) ≡ true
        → at_key k s path ≡ false
    by_section path input i = refl
    by_section path options i = cc

find_option-append :
    (k : Text) (fields rest : List Field)
    → All (λ field. is_input field ≡ true) fields
    → find_option k (fields ++ rest) ≡ find_option k rest
unfolding find_option
find_option-append k [] rest i = refl
find_option-append k (field ∷ fields) rest (i, is) =
    rw (input_no k field i) (find_option-append k fields rest is)

-- The options of a new form stand after the fields of its schema.
pub find_option-new_form :
    (k : Text) (kind : FormKind) (schema_fields : List Field)
    → All (λ field. is_input field ≡ true) schema_fields
    → find_option k (new_form kind schema_fields).fields ≡ find_option k (option_fields kind)
unfolding new_form
find_option-new_form k kind schema_fields = find_option-append k schema_fields (option_fields kind)
