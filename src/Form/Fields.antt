-- ===== src/Form/Fields.antt =====
-- What the fields of a schema are, crates/ora-cli/src/tui/ui/form.rs.
use ora.Base.{ℕ, ◌≤◌, ◌≡◌, refl, Bool, Option, none, some, List, length}
use ora.Form.Text.{Text}
use ora.Form.State.{
  Field, FieldKind, input, text, integer, number, time, cron, bool, choice, list, pairs,
}
use ora.Form.Json.{Value, null, boolean, string, array, object, get}
use ora.Form.Options.{codes}
use ora.Form.Walk.{walked_field}
use ora.Form.Schema.{apply_text, apply_value, apply_default, dotted_path, schema_field}

-- What a default leaves as it is.
abbrev pub Kept : Field → Field → Type 0
Kept field other =
    (other.path ≡ field.path)
    × (other.label ≡ field.label)
    × (other.section ≡ field.section)
    × (other.kind ≡ field.kind)

apply_text-Kept : (v : Value) (field : Field) → Kept field (apply_text v field)
apply_text-Kept null field = (refl, refl, refl, refl)
apply_text-Kept (boolean b) field = (refl, refl, refl, refl)
apply_text-Kept (Value.number t) field = (refl, refl, refl, refl)
apply_text-Kept (string t) field = (refl, refl, refl, refl)
apply_text-Kept (array vs) field = (refl, refl, refl, refl)
apply_text-Kept (object ms) field = (refl, refl, refl, refl)

apply_value-Kept : (k : FieldKind) (v : Value) (field : Field) → Kept field (apply_value k v field)
unfolding apply_value
apply_value-Kept text v field = apply_text-Kept v field
apply_value-Kept integer v field = apply_text-Kept v field
apply_value-Kept number v field = apply_text-Kept v field
apply_value-Kept time v field = apply_text-Kept v field
apply_value-Kept cron v field = apply_text-Kept v field
apply_value-Kept pairs v field = apply_text-Kept v field
apply_value-Kept bool (boolean b) field = (refl, refl, refl, refl)
apply_value-Kept bool null field = apply_text-Kept null field
apply_value-Kept bool (Value.number t) field = apply_text-Kept (Value.number t) field
apply_value-Kept bool (string t) field = apply_text-Kept (string t) field
apply_value-Kept bool (array vs) field = apply_text-Kept (array vs) field
apply_value-Kept bool (object ms) field = apply_text-Kept (object ms) field
apply_value-Kept (choice cs) (string t) field = (refl, refl, refl, refl)
apply_value-Kept (choice cs) null field = apply_text-Kept null field
apply_value-Kept (choice cs) (boolean b) field = apply_text-Kept (boolean b) field
apply_value-Kept (choice cs) (Value.number t) field = apply_text-Kept (Value.number t) field
apply_value-Kept (choice cs) (array vs) field = apply_text-Kept (array vs) field
apply_value-Kept (choice cs) (object ms) field = apply_text-Kept (object ms) field
apply_value-Kept (list i) (array vs) field = (refl, refl, refl, refl)
apply_value-Kept (list i) null field = apply_text-Kept null field
apply_value-Kept (list i) (boolean b) field = apply_text-Kept (boolean b) field
apply_value-Kept (list i) (Value.number t) field = apply_text-Kept (Value.number t) field
apply_value-Kept (list i) (string t) field = apply_text-Kept (string t) field
apply_value-Kept (list i) (object ms) field = apply_text-Kept (object ms) field

apply_default-Kept : (field : Field) (d : Option Value) → Kept field (apply_default field d)
unfolding apply_default
apply_default-Kept field none = (refl, refl, refl, refl)
apply_default-Kept field (some v) = apply_value-Kept field.kind v field

-- An input with a path of one to `limit` names, which its label shows.
abbrev pub IsPlaced : ℕ → Field → Type 0
IsPlaced limit field =
    (field.section ≡ input)
    × (1 ≤ length field.path)
    × (length field.path ≤ limit)
    × (field.label ≡ dotted_path field.path)

module _ (kind_of : Value → Option Text → FieldKind) (root : Value) where
  pub schema_field-path :
      (path : List Text) (required : Bool) (property : Value) (kind_name : Option Text)
      → (walked_field kind_of root path required property kind_name).path ≡ path
  unfolding schema_field
  schema_field-path path required property kind_name =
      (apply_default-Kept _ (get (codes "default") property)).0
