-- ===== src/Form/Walk.antt =====
-- The fields of a schema, by any kinds of them: what `collect_fields` comes to if it finds the kinds.
use ora.Base.{ℕ, zero, suc, Bool, Option, some, List, [], ◌∷◌, ◌++◌, any, if◌then◌else◌}
use ora.Form.Text.{Text, text_eq}
use ora.Form.State.{FieldKind, Field}
use ora.Form.Json.{Value, object, Members, no_members, member, get}
use ora.Form.Options.{codes}
use ora.Form.Nodes.{resolve, type_of}
use ora.Form.Schema.{schema_field, is_group, required_names, max_schema_depth}

module _ (kind_of : Value → Option Text → FieldKind) (root : Value) where
  abbrev pub walked_field : List Text → Bool → Value → Option Text → Field
  walked_field path required property kind_name =
      schema_field (kind_of property kind_name) path required property

  -- The loop over a node's properties; `nested` collects those of a group.
  unfoldable pub walk_members :
      (Value → List Text → List Field) → List Text → List Text → Members → List Field
  unfolding schema_field resolve type_of
  walk_members nested required path no_members = []
  walk_members nested required path (member name p ms) =
      let property = resolve root p in
      let here = path ++ name ∷ [] in
      let kind_name = type_of root property in
      (if is_group kind_name property
        then nested property here
        else walked_field here (any (text_eq name) required) property kind_name ∷ [])
      ++ walk_members nested required path ms

  abbrev pub walk_in :
      (Value → List Text → List Field) → List Text → List Text → Option Value → List Field
  walk_in nested required path (some (object ms)) = walk_members nested required path ms
  walk_in nested required path other = []

  -- On the number of levels that are left; none is left beyond the greatest depth.
  unfoldable pub walk_fields : ℕ → Value → List Text → List Field
  unfolding walk_members required_names get
  walk_fields zero node path = []
  walk_fields (suc levels) node path =
      walk_in (walk_fields levels) (required_names node) path (get (codes "properties") node)

unfoldable pub walk_schema : (Value → Option Text → FieldKind) → Value → List Field
unfolding walk_fields
walk_schema kind_of schema = walk_fields kind_of schema (suc max_schema_depth) schema []
