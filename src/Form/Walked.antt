-- ===== src/Form/Walked.antt =====
-- The fields that `collect_fields` of crates/ora-cli/src/tui/ui/form.rs finds are those of a walk over
-- the schema.
use ora.Base.{
  ℕ, zero, suc, ◌≡◌, refl, ◌∙◌, Bool, true, false, Option, none, some, List, [], ◌∷◌, ◌++◌, any,
  if◌then◌else◌,
}
use ora.Form.Text.{Text, text_eq}
use ora.Form.State.{FieldKind, text, Field}
use ora.Form.Json.{
  Value, null, boolean, number, string, array, object, Members, no_members, member, get,
}
use ora.Form.Options.{codes}
use ora.Form.Nodes.{resolve, type_of, field_kind}
use ora.Form.Schema.{
  schema_field, is_group, one_field, both_fields, collect_members, collect_in, collect_fields,
  required_names, max_schema_depth, fields_from_schema,
}
use ora.Form.Walk.{walked_field, walk_members, walk_in, walk_fields, walk_schema}

abbrev or_text : Option FieldKind → FieldKind
or_text none = text
or_text (some kind) = kind

module _ (fuel : ℕ) (print : Value → Text) (root : Value) where
  -- The kinds that are found.
  pub found_kind : Value → Option Text → FieldKind
  found_kind property kind_name = or_text (field_kind fuel print root property kind_name)

  both_found :
      (o o' : Option (List Field)) {fs : List Field}
      → both_fields o o' ≡ some fs
      → (gs hs : List Field) × (o ≡ some gs) × (o' ≡ some hs) × (fs ≡ gs ++ hs)
  both_found none o' e = cc
  both_found (some gs) none e = cc
  both_found (some gs) (some hs) e = (gs, hs, refl, refl, cc)

  both_same : {gs gs' hs hs' : List Field} → gs ≡ gs' → hs ≡ hs' → gs ++ hs ≡ gs' ++ hs'
  both_same e e' i = e i ++ e' i

  one_found :
      (o : Option FieldKind) (path : List Text) (required : Bool) (property : Value)
      {fs : List Field}
      → one_field o path required property ≡ some fs
      → fs ≡ schema_field (or_text o) path required property ∷ []
  one_found none path required property e = cc
  one_found (some kind) path required property e = cc

  module _ (nested : Value → List Text → Option (List Field))
      (walked : Value → List Text → List Field)
      (same : (node : Value) (path : List Text) (fs : List Field)
        → nested node path ≡ some fs
        → fs ≡ walked node path)
      (required path : List Text) where
    here_found :
        (name : Text) (property : Value) (kind_name : Option Text) (group : Bool) {fs : List Field}
        → (if group
            then nested property (path ++ name ∷ [])
            else one_field
                (field_kind fuel print root property kind_name)
                (path ++ name ∷ [])
                (any (text_eq name) required)
                property)
          ≡ some fs
        → fs ≡ (
            if group
            then walked property (path ++ name ∷ [])
            else walked_field found_kind root
                (path ++ name ∷ [])
                (any (text_eq name) required)
                property
                kind_name
              ∷ [])
    unfolding found_kind
    here_found name property kind_name true e = same property (path ++ name ∷ []) _ e
    here_found name property kind_name false e =
        one_found (field_kind fuel print root property kind_name) (path ++ name ∷ [])
          (any (text_eq name) required) property e

    members_found :
        (ms : Members) {fs : List Field}
        → collect_members fuel print root nested required path ms ≡ some fs
        → fs ≡ walk_members found_kind root walked required path ms
    unfolding collect_members walk_members
    members_found no_members e = cc
    members_found (member name p ms) e =
        let property = resolve root p in
        let kind_name = type_of root property in
        let (gs, hs, here, rest, joined) = both_found _ _ e in
        joined
        ∙ both_same (here_found name property kind_name (is_group kind_name property) here)
            (members_found ms rest)

    in_found :
        (v : Option Value) {fs : List Field}
        → collect_in fuel print root nested required path v ≡ some fs
        → fs ≡ walk_in found_kind root walked required path v
    in_found none e = cc
    in_found (some null) e = cc
    in_found (some (boolean b)) e = cc
    in_found (some (number t)) e = cc
    in_found (some (string t)) e = cc
    in_found (some (array vs)) e = cc
    in_found (some (object ms)) e = members_found ms e

  fields_found :
      (levels : ℕ) (node : Value) (path : List Text) {fs : List Field}
      → collect_fields fuel print root levels node path ≡ some fs
      → fs ≡ walk_fields found_kind root levels node path
  unfolding collect_fields walk_fields
  fields_found zero node path e = cc
  fields_found (suc levels) node path e =
      in_found (collect_fields fuel print root levels) (walk_fields found_kind root levels)
        (λ inner here fs e'. fields_found levels inner here e') (required_names node) path
        (get (codes "properties") node) e

pub fields_from_schema-walk_schema :
    (fuel : ℕ) (print : Value → Text) (schema : Value) {fields : List Field}
    → fields_from_schema fuel print schema ≡ some fields
    → fields ≡ walk_schema (found_kind fuel print schema) schema
unfolding fields_from_schema walk_schema
fields_from_schema-walk_schema fuel print schema e =
    fields_found fuel print schema (suc max_schema_depth) schema [] e
