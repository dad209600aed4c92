-- ===== src/Form/Payload.antt =====
-- The payload of a form and its check, crates/ora-cli/src/tui/ui/form.rs. What other crates and the
-- standard library read from texts is an argument.
use ora.Base.{
  ℕ, Bool, true, false, not, ◌&&◌, Option, none, some, List, [], ◌∷◌, get_elem?, filter_map,
  if◌then◌else◌, is_some,
}
use ora.Form.Text.{Text, is_nil, is_blank}
use ora.Form.State.{
  input, options, ListItemKind, FieldKind, text, integer, number, time, cron, bool, choice, list,
  pairs, Field, Form,
}
use ora.Form.Json.{Value, boolean, string, array, object, Members, no_members, find, put, to_items}

-- White space; the number that `parse::<i64>` or `parse::<f64>` gives, as JSON writes it;
-- `parse::<bool>`; and the timestamp that `parse_time` gives.
pub record Readers : Type 0 where
  pub is_whitespace : ℕ → Bool
  pub integer : Text → Option Text
  pub number : Text → Option Text
  pub bool : Text → Option Bool
  pub time : Text → Option Text

-- Without the white space at a text's start and at its end.
unfoldable pub trim_start : (ℕ → Bool) → Text → Text
trim_start space [] = []
trim_start space (c ∷ t) = let rest = trim_start space t in if space c then rest else c ∷ t

unfoldable pub trim_end : (ℕ → Bool) → Text → Text
trim_end space [] = []
trim_end space (c ∷ t) =
    let rest = trim_end space t in if is_nil rest && space c then [] else c ∷ rest

unfoldable pub trim : (ℕ → Bool) → Text → Text
unfolding trim_start trim_end
trim space t = trim_end space (trim_start space t)

abbrev pub optional {ℓ} : {A : Type ℓ} → (A → Value) → Option A → Option Value
optional f none = none
optional f (some a) = some (f a)

module _ (r : Readers) where
  unfoldable pub item_value : ListItemKind → Text → Option Value
  item_value ListItemKind.text t = some (string t)
  item_value ListItemKind.integer t = optional Value.number (r.integer t)
  item_value ListItemKind.number t = optional Value.number (r.number t)
  item_value ListItemKind.bool t = optional boolean (r.bool t)

  -- A row of a list, if it is not blank and can be read.
  unfoldable pub row_value : ListItemKind → Text → Option Value
  unfolding trim item_value
  row_value i row = let t = trim r.is_whitespace row in if is_nil t then none else item_value i t

  unfoldable pub field_value : FieldKind → Field → Option Value
  unfolding row_value to_items trim is_blank filter_map
  field_value bool field = some (boolean field.toggled)
  field_value (choice cs) field = optional string (get_elem? cs field.choice)
  field_value (list i) field =
      let items = filter_map (row_value i) field.items in
      if is_nil items && not field.required then none else some (array (to_items items))
  field_value integer field = optional Value.number (r.integer (trim r.is_whitespace field.text))
  field_value number field = optional Value.number (r.number (trim r.is_whitespace field.text))
  field_value time field =
      if is_blank r.is_whitespace field.text then none else optional string (r.time field.text)
  field_value pairs field = none
  field_value text field =
      if is_blank r.is_whitespace field.text then none else some (string field.text)
  field_value cron field =
      if is_blank r.is_whitespace field.text then none else some (string field.text)

abbrev pub empty_object : Value
empty_object = object no_members

abbrev pub or_empty : Option Value → Value
or_empty none = empty_object
or_empty (some v) = v

abbrev pub put_in : Text → Members → Option Value → Option Value
put_in k ms none = none
put_in k ms (some v) = some (object (put k v ms))

-- `none` is the panic on a node that is no object.
unfoldable pub insert_at : List Text → Value → Value → Option Value
unfolding find put
insert_at [] v root = some root
insert_at (k ∷ []) v (object ms) = some (object (put k v ms))
insert_at (k ∷ []) v other = some other
insert_at (k ∷ j ∷ ks) v (object ms) = put_in k ms (insert_at (j ∷ ks) v (or_empty (find k ms)))
insert_at (k ∷ j ∷ ks) v other = none

abbrev pub is_input : Field → Bool
is_input field = elim field.section [ input ↦ true | options ↦ false ]

-- The loop of `payload`.
unfoldable pub payload_from : Readers → List Field → Value → Option Value
unfolding field_value insert_at
payload_from r [] root = some root
payload_from r (field ∷ fields) root =
    let skip = payload_from r fields root in
    if is_input field
    then elim (field_value r field.kind field) [
      | none ↦ skip
      | some v ↦ elim (insert_at field.path v root) [
        | none ↦ none
        | some root' ↦ payload_from r fields root'
      ]
    ]
    else skip

unfoldable pub payload : Readers → Form → Option Value
unfolding payload_from
payload r f = payload_from r f.fields empty_object

-- The first problem that `validate` finds, by the label of its field.
pub data Problem : Type 0 where
  is_required unreadable_time not_integer not_number : Text → Problem
  schema_mismatch : Problem

-- The test of a text that is not blank.
abbrev pub unreadable : Readers → Field → Option Text → Bool
unreadable r field read = not (is_blank r.is_whitespace field.text) && not (is_some read)

unfoldable pub kind_problem : Readers → FieldKind → Field → Option Problem
unfolding is_blank trim
kind_problem r time field =
    if unreadable r field (r.time field.text) then some (unreadable_time field.label) else none
kind_problem r integer field =
    if unreadable r field (r.integer (trim r.is_whitespace field.text))
    then some (not_integer field.label)
    else none
kind_problem r number field =
    if unreadable r field (r.number (trim r.is_whitespace field.text))
    then some (not_number field.label)
    else none
kind_problem r other field = none

unfoldable pub field_problem : Readers → Field → Option Problem
unfolding field_value kind_problem
field_problem r field =
    if field.required && not (is_some (field_value r field.kind field))
    then some (is_required field.label)
    else kind_problem r field.kind field

unfoldable pub first_problem : Readers → List Field → Option Problem
unfolding field_problem
first_problem r [] = none
first_problem r (field ∷ fields) =
    let rest = first_problem r fields in
    if is_input field then elim (field_problem r field) [ none ↦ rest | some p ↦ some p ] else rest

-- The test of a payload against the schema, if there is one.
abbrev pub schema_problem : Option (Value → Bool) → Value → Option Problem
schema_problem none v = none
schema_problem (some is_valid) v = if is_valid v then none else some schema_mismatch

-- `none` of the outer option is the panic of `payload`.
unfoldable pub validate_form : Readers → Option (Value → Bool) → Form → Option (Option Problem)
unfolding first_problem payload
validate_form r schema f = elim (first_problem r f.fields) [
  | some p ↦ some (some p)
  | none ↦ elim schema [
    | none ↦ some none
    | some is_valid ↦ elim (payload r f) [
      | none ↦ none
      | some v ↦ some (schema_problem (some is_valid) v)
    ]
  ]
]
