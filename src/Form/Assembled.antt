-- ===== src/Form/Assembled.antt =====
-- The payload of a form for a schema, crates/ora-cli/src/tui/ui/form.rs.
use ora.Base.{
  ◌≡◌, refl, sym, subst, any, All-append, ◌||◌, Bool-cases, inl, inr, ◌∙◌, true, false, Bool,
  Option, some, List, [], ◌∷◌, ◌++◌, map, All, All-mapped,
}
use ora.Form.Text.{Text}
use ora.Form.State.{Field, Form, FormKind, FieldKind, job, schedule}
use ora.Form.Json.{Value}
use ora.Form.Payload.{is_input, Readers, payload}
use ora.Form.Options.{option_fields}
use ora.Form.Placed.{Apart, Scattered, InPlace, payload-InPlace}
use ora.Form.Walk.{walk_schema}
use ora.Form.WellFormed.{IsMap}
use ora.Form.Separate.{walk_schema-Scattered}

-- Where a field's value goes, which no edit changes.
abbrev pub field_place : Field → List Text × Bool
field_place field = (field.path, is_input field)

abbrev pub field_places : List Field → List (List Text × Bool)
field_places fields = map field_place fields

Apart-field_places :
    (p : List Text) (fs gs : List Field)
    → field_places fs ≡ field_places gs
    → All (λ g. is_input g ≡ true → Apart p g.path) gs
    → All (λ g. is_input g ≡ true → Apart p g.path) fs
Apart-field_places p [] gs e a = tt
Apart-field_places p (f ∷ fs) [] e a = cc
Apart-field_places p (f ∷ fs) (g ∷ gs) e (h, a) =
    let same : f.path ≡ g.path = cc in
    let input : is_input f ≡ is_input g = cc in
    let rest : field_places fs ≡ field_places gs = cc in
    ((λ i. rw same (h (sym input ∙ i))), Apart-field_places p fs gs rest a)

Scattered-field_places :
    (fs gs : List Field) → field_places fs ≡ field_places gs → Scattered gs → Scattered fs
Scattered-field_places [] gs e s = tt
Scattered-field_places (f ∷ fs) [] e s = cc
Scattered-field_places (f ∷ fs) (g ∷ gs) e (h, s) =
    let same : f.path ≡ g.path = cc in
    let input : is_input f ≡ is_input g = cc in
    let rest : field_places fs ≡ field_places gs = cc in
    (
      (λ i. let (n, a) = h (sym input ∙ i) in rw same (n, Apart-field_places g.path fs gs rest a)),
      Scattered-field_places fs gs rest s,
    )

Apart-append :
    (p : List Text) (fs gs : List Field)
    → All (λ g. is_input g ≡ true → Apart p g.path) fs
    → All (λ g. is_input g ≡ false) gs
    → All (λ g. is_input g ≡ true → Apart p g.path) (fs ++ gs)
Apart-append p fs gs a b =
    All-append (λ g. is_input g ≡ true → Apart p g.path) fs gs a
      (All-mapped (λ g. is_input g ≡ false) (λ g. is_input g ≡ true → Apart p g.path) (λ g n i. cc)
        gs b)

-- Options stand apart from everything.
Scattered-options :
    (fs gs : List Field) → Scattered fs → All (λ g. is_input g ≡ false) gs → Scattered (fs ++ gs)
Scattered-options [] [] s b = tt
Scattered-options [] (g ∷ gs) s (n, b) = ((λ i. cc), Scattered-options [] gs tt b)
Scattered-options (f ∷ fs) gs (h, s) b =
    (λ i. ((h i).0, Apart-append f.path fs gs (h i).1 b), Scattered-options fs gs s b)

no_inputs : (gs : List Field) → any is_input gs ≡ false → All (λ g. is_input g ≡ false) gs
unfolding any
no_inputs [] e = tt
no_inputs (g ∷ gs) e = elim (Bool-cases (is_input g)) [
  | inl y ↦ cc
  | inr n ↦ (n, no_inputs gs (subst (λ b. (b || any is_input gs) ≡ false) n e))
]

options_only : (kind : FormKind) → All (λ g. is_input g ≡ false) (option_fields kind)
unfolding any
options_only job = no_inputs (option_fields job) refl
options_only schedule = no_inputs (option_fields schedule) refl

-- For any form with the fields of a schema, whatever they hold, and with a form's options: its payload
-- can be built, and in it the path of every input leads to the input's value, and to nothing if the
-- input has none. The keys of each object of the schema are different, as in any JSON value that was
-- read.
pub schema_payload-InPlace :
    (r : Readers) (kind_of : Value → Option Text → FieldKind) (schema : Value) (kind : FormKind)
    (f : Form)
    → IsMap schema
    → field_places f.fields ≡ field_places (walk_schema kind_of schema ++ option_fields kind)
    → (v : Value) × (payload r f ≡ some v) × All (InPlace r v) f.fields
schema_payload-InPlace r kind_of schema kind f h e = payload-InPlace r f (
    Scattered-field_places f.fields _ e (
      Scattered-options _ (option_fields kind) (walk_schema-Scattered kind_of schema h)
        (options_only kind)))
