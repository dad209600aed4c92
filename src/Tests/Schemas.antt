-- ===== src/Tests/Schemas.antt =====
-- The fields of a schema at concrete inputs.
use ora.Base.{◌≡◌, refl, none, some, List, [], ◌∷◌, All, length, map}
use ora.Form.Text.{Text, text_eq}
use ora.Form.State.{Field, job}
use ora.Form.Json.{array, item, no_items, find, Value, object, string, no_members, member}
use ora.Form.Options.{codes, new_form}
use ora.Form.Schema.{fields_from_schema}
use ora.Form.Payload.{payload}
use ora.Form.Placed.{InPlace}
use ora.Tests.Form.{is_lower, is_space, some_readers}
use ora.Form.WellFormed.{IsMap}
use ora.Form.Erasing.{char, backspace, down, on_form_keys}
use ora.Form.Unmoved.{typed_payload-InPlace}

-- What the JSON library writes of other values is of no account here.
abbrev blank : Value → Text
blank v = codes "?"

-- A tree refers to itself.
abbrev tree : Value
tree = object (
    member (codes "type") (string (codes "object")) (
      member (codes "properties")
        (object (
          member (codes "id") (object (member (codes "type") (string (codes "integer")) no_members))
            (member (codes "next")
              (object (member (codes "$ref") (string (codes "#/$defs/tree")) no_members))
              no_members)))
        no_members))

abbrev tree_schema : Value
tree_schema = object (
    member (codes "$defs") (object (member (codes "tree") tree no_members)) (
      member (codes "properties")
        (object (
          member (codes "name")
            (object (member (codes "type") (string (codes "string")) no_members))
            (member (codes "root")
              (object (member (codes "$ref") (string (codes "#/$defs/tree")) no_members))
              no_members)))
        no_members))

-- The fields of the tree.
abbrev tree_fields : List Field
tree_fields = elim (fields_from_schema 1 blank tree_schema) [ none ↦ [] | some fields ↦ fields ]

tree_found : fields_from_schema 1 blank tree_schema ≡ some tree_fields
unfolding fields_from_schema text_eq
tree_found = refl

tree_depths : map (λ field. length field.path) tree_fields ≡ 1 ∷ 2 ∷ 3 ∷ 4 ∷ 5 ∷ 6 ∷ 7 ∷ 8 ∷ 9 ∷ []
unfolding fields_from_schema text_eq
tree_depths = refl

tree_schema-IsMap : IsMap tree_schema
unfolding IsMap find text_eq
tree_schema-IsMap = (
  refl,
  (refl, (refl, tt, (refl, (refl, (refl, tt, tt), (refl, (refl, tt, tt), tt)), tt)), tt),
  (refl, (refl, (refl, tt, tt), (refl, (refl, tt, tt), tt)), tt),
)

typed_payload-InPlace_example :
    let keys = char b'o' ∷ char b'x' ∷ backspace ∷ down ∷ char b'7' ∷ [] in
    let f = on_form_keys is_lower is_space keys (new_form job tree_fields) in
    (v : Value) × (payload some_readers f ≡ some v) × All (InPlace some_readers v) f.fields
typed_payload-InPlace_example =
    typed_payload-InPlace some_readers 1 blank tree_schema tree_fields job is_lower is_space
      (char b'o' ∷ char b'x' ∷ backspace ∷ down ∷ char b'7' ∷ []) tree_schema-IsMap tree_found

-- A definition whose only branch refers back to it.
abbrev loop : Value
loop = object (
    member (codes "oneOf")
      (array
        (item (object (member (codes "$ref") (string (codes "#/$defs/A")) no_members)) no_items))
      no_members)

abbrev loop_schema : Value
loop_schema =
    object (member (codes "$defs") (object (member (codes "A") loop no_members)) no_members)
