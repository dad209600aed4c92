-- ===== src/Form/Schema.antt =====
-- The fields of a job type's input schema, crates/ora-cli/src/tui/ui/form.rs.
use ora.Base.{
  ℕ, zero, suc, Bool, false, ◌&&◌, Option, none, some, List, [], ◌∷◌, ◌++◌, is_some, any,
  filter_map, position, if◌then◌else◌,
}
use ora.Form.Text.{Text, text_eq}
use ora.Form.State.{input, FieldKind, bool, choice, list, Field}
use ora.Form.Json.{Value, boolean, string, array, object, Members, no_members, member, get}
use ora.Form.Options.{codes}
use ora.Form.Nodes.{as_str, as_array, values, ◌>>=◌, resolve, type_of, field_kind}

-- The texts of an array.
abbrev pub texts_in : List Value → List Text
texts_in vs = filter_map as_str vs

unfoldable pub required_names : Value → List Text
unfolding get filter_map
required_names node = elim (get (codes "required") node >>= as_array) [
  | none ↦ []
  | some names ↦ texts_in names
]

unfoldable pub default_index : List Text → Text → ℕ → ℕ
unfolding position
default_index choices value old = elim (position (λ c. text_eq c value) choices) [
  | none ↦ old
  | some i ↦ i
]

abbrev pub apply_text : Value → Field → Field
apply_text (string t) field = record field { text = t }
apply_text (Value.number t) field = record field { text = t }
apply_text other field = field

unfoldable pub apply_value : FieldKind → Value → Field → Field
unfolding default_index filter_map
apply_value bool (boolean b) field = record field { toggled = b }
apply_value (choice cs) (string t) field = record field { choice = default_index cs t field.choice }
apply_value (list i) (array vs) field = record field { items = texts_in (values vs) }
apply_value kind value field = apply_text value field

unfoldable pub apply_default : Field → Option Value → Field
unfolding apply_value
apply_default field none = field
apply_default field (some v) = apply_value field.kind v field

-- `path.join(".")`.
abbrev pub dotted_path : List Text → Text
dotted_path [] = []
dotted_path (p ∷ []) = p
dotted_path (p ∷ path) = p ++ codes "." ++ dotted_path path

unfoldable pub schema_field : FieldKind → List Text → Bool → Value → Field
unfolding apply_default get
schema_field kind path required property =
    apply_default
      (record {
        path = path;
        label = dotted_path path;
        required = required;
        section = input;
        kind = kind;
        text = [];
        items = [];
        pairs = [];
        toggled = false;
        choice = 0;
      })
      (get (codes "default") property)

abbrev pub is_group : Option Text → Value → Bool
is_group none property = false
is_group (some name) property =
    text_eq name (codes "object") && is_some (get (codes "properties") property)

-- `none` when the field's kind has none: the search for it did not end.
abbrev pub one_field : Option FieldKind → List Text → Bool → Value → Option (List Field)
one_field none path required property = none
one_field (some kind) path required property = some (schema_field kind path required property ∷ [])

abbrev pub both_fields : Option (List Field) → Option (List Field) → Option (List Field)
both_fields none gs = none
both_fields (some fs) none = none
both_fields (some fs) (some gs) = some (fs ++ gs)

module _ (fuel : ℕ) (print : Value → Text) (root : Value) where
  -- The loop over a node's properties; `nested` collects those of a group.
  unfoldable pub collect_members :
      (Value → List Text → Option (List Field))
      → List Text
      → List Text
      → Members
      → Option (List Field)
  unfolding schema_field resolve type_of field_kind
  collect_members nested required path no_members = some []
  collect_members nested required path (member name p ms) =
      let property = resolve root p in
      let here = path ++ name ∷ [] in
      let kind_name = type_of root property in
      both_fields
        (if is_group kind_name property
          then nested property here
          else one_field (field_kind fuel print root property kind_name) here
              (any (text_eq name) required) property)
        (collect_members nested required path ms)

  abbrev pub collect_in :
      (Value → List Text → Option (List Field))
      → List Text
      → List Text
      → Option Value
      → Option (List Field)
  collect_in nested required path (some (object ms)) = collect_members nested required path ms
  collect_in nested required path other = some []

  -- On the number of levels that are left; none is left beyond the greatest depth.
  unfoldable pub collect_fields : ℕ → Value → List Text → Option (List Field)
  unfolding collect_members required_names get
  collect_fields zero node path = some []
  collect_fields (suc levels) node path =
      collect_in (collect_fields levels) (required_names node) path (get (codes "properties") node)

abbrev pub max_schema_depth : ℕ
max_schema_depth = 8

-- The fields of a schema. The depth bounds the groups, but not the search for a field's choices: `none`
-- says that some search takes more than `fuel` calls, and with every fuel, that the program does not
-- come back from it.
unfoldable pub fields_from_schema : ℕ → (Value → Text) → Value → Option (List Field)
unfolding collect_fields
fields_from_schema fuel print schema =
    collect_fields fuel print schema (suc max_schema_depth) schema []
