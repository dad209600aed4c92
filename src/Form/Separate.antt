-- ===== src/Form/Separate.antt =====
-- That the fields of a schema lie apart, crates/ora-cli/src/tui/ui/form.rs.
use ora.Base.{
  ◌≢◌, ℕ, zero, suc, ◌≡◌, refl, ap, subst, ◌∙◌, Bool, true, false, Option, none, some, List, [],
  ◌∷◌, ◌++◌, All, All-append, All-mapped, Bool-cases, Option-cases, inl, inr, any, if◌then◌else◌,
  arith,
}
use ora.Form.Text.{Text, text_eq}
use ora.Form.State.{Field, FieldKind}
use ora.Form.Json.{
  Value, null, boolean, number, string, array, object, Members, no_members, member, find, get,
  text_eq_sound, text_eq_refl,
}
use ora.Form.Options.{codes}
use ora.Form.Payload.{is_input}
use ora.Form.Placed.{Apart, Scattered}
use ora.Form.Nodes.{resolve, type_of}
use ora.Form.Walk.{walked_field, walk_members, walk_in, walk_fields, walk_schema}
use ora.Form.Schema.{is_group, required_names, max_schema_depth}
use ora.Form.Fields.{schema_field-path}
use ora.Form.WellFormed.{IsMap, DistinctKeys, get-IsMap, resolve-IsMap}

-- A field below the name of a member.
abbrev Below : List Text → Text → Field → Type 0
Below path name field = (rest : List Text) × (field.path ≡ path ++ name ∷ rest)

abbrev Among : List Text → Members → Field → Type 0
Among path ms field = (name : Text) × (find name ms ≢ none) × Below path name field

abbrev Under : List Text → Field → Type 0
Under path field = (rest : List Text) × (field.path ≡ path ++ rest)

Apart-names :
    (path : List Text) (j k : Text) (ps qs : List Text)
    → text_eq j k ≡ false
    → Apart (path ++ j ∷ ps) (path ++ k ∷ qs)
Apart-names [] j k ps qs e = rw e tt
Apart-names (p ∷ path) j k ps qs e = rw (text_eq_refl p) (Apart-names path j k ps qs e)

full : (path : List Text) (k : Text) (ps : List Text) → (path ++ k ∷ ps) ≢ []
full [] k ps e = cc
full (p ∷ path) k ps e = cc

below_path :
    (path : List Text) (j : Text) (rest : List Text) → (path ++ j ∷ []) ++ rest ≡ path ++ j ∷ rest
below_path [] j rest = refl
below_path (p ∷ path) j rest = ap (λ q. p ∷ q) (below_path path j rest)

Scattered-append :
    (fs gs : List Field)
    → Scattered fs
    → Scattered gs
    → All (λ f. All (λ g. Apart f.path g.path) gs) fs
    → Scattered (fs ++ gs)
Scattered-append [] gs s t a = t
Scattered-append (f ∷ fs) gs (h, s) t (a, as') = (
  λ i. (
    (h i).0,
    All-append (λ g. is_input g ≡ true → Apart f.path g.path) fs gs (h i).1
        (All-mapped (λ g. Apart f.path g.path) (λ g. is_input g ≡ true → Apart f.path g.path)
          (λ g b j. b) gs a),
  ),
  Scattered-append fs gs s t as',
)

-- A member's name is none of those after it.
fresh : (k j : Text) (ms : Members) → find k ms ≡ none → find j ms ≢ none → text_eq k j ≡ false
fresh k j ms d n = elim (Bool-cases (text_eq k j)) [
  | inl e ↦ absurd (n (subst (λ i. find i ms ≡ none) (text_eq_sound k j e) d))
  | inr e ↦ e
]

Apart-Below :
    (path : List Text) (k : Text) (ms : Members) (f : Field) (gs : List Field)
    → find k ms ≡ none
    → Below path k f
    → All (Among path ms) gs
    → All (λ g. Apart f.path g.path) gs
Apart-Below path k ms f gs d (ps, e) a =
    All-mapped (Among path ms) (λ g. Apart f.path g.path)
      (λ g (j, n, (qs, e')). rw e (rw e' (Apart-names path k j ps qs (fresh k j ms d n)))) gs a

Among-later :
    (path : List Text) (k : Text) (v : Value) (ms : Members) (gs : List Field)
    → All (Among path ms) gs
    → All (Among path (member k v ms)) gs
unfolding find
Among-later path k v ms gs a =
    All-mapped (Among path ms) (Among path (member k v ms))
      (λ g (j, n, b). (j, (λ e. n (ground (arith, e))), b)) gs a

Below-Among :
    (path : List Text) (k : Text) (v : Value) (ms : Members) (gs : List Field)
    → All (Below path k) gs
    → All (Among path (member k v ms)) gs
unfolding find
Below-Among path k v ms gs a =
    All-mapped (Below path k) (Among path (member k v ms))
      (λ g b. (k, (λ e. ground (arith, e, text_eq_refl k)), b)) gs a

module _ (kind_of : Value → Option Text → FieldKind) (root : Value) (root_map : IsMap root) where
  module _ (nested : Value → List Text → List Field) (path : List Text)
      (apart : (node : Value) (name : Text)
        → IsMap node
        → Scattered (nested node (path ++ name ∷ []))
          × All (Below path name) (nested node (path ++ name ∷ []))) where
    member_fields :
        (name : Text) (required : Bool) (property : Value) (kind_name : Option Text)
        → IsMap property
        → (b : Bool)
        → let fs =
            if b
            then nested property (path ++ name ∷ [])
            else walked_field kind_of root (path ++ name ∷ []) required property kind_name ∷ [] in
          Scattered fs × All (Below path name) fs
    member_fields name required property kind_name h true = apart property name h
    member_fields name required property kind_name h false =
        let e = schema_field-path kind_of root (path ++ name ∷ []) required property kind_name in
        ((((λ i. (rw e (full path name []), tt)), tt)), (([], e), tt))

    walk_members-Scattered :
        (required : List Text) (ms : Members)
        → DistinctKeys ms
        → let fs = walk_members kind_of root nested required path ms in
          Scattered fs × All (Among path ms) fs
    unfolding walk_members DistinctKeys
    walk_members-Scattered required no_members h = (tt, tt)
    walk_members-Scattered required (member name p ms) (d, hp, hs) =
        let property = resolve root p in
        let kind_name = type_of root property in
        let (s, a) = walk_members-Scattered required ms hs in
        let (s', b) =
          member_fields name (any (text_eq name) required) property kind_name
            (resolve-IsMap root p root_map hp) (is_group kind_name property) in
        let rest = walk_members kind_of root nested required path ms in
        (
          Scattered-append _ rest s' s (
              All-mapped (Below path name) (λ f. All (λ g. Apart f.path g.path) rest)
                (λ f c. Apart-Below path name ms f rest d c a) _ b),
          All-append (Among path (member name p ms)) _ rest (Below-Among path name p ms _ b)
              (Among-later path name p ms rest a),
        )

    walk_in-Scattered :
        (required : List Text) (node : Value)
        → IsMap node
        → let fs = walk_in kind_of root nested required path (get (codes "properties") node) in
          Scattered fs × All (Under path) fs
    unfolding IsMap DistinctKeys
    walk_in-Scattered required node h = elim (Option-cases (get (codes "properties") node)) [
      | inl z ↦ rw z (tt, tt)
      | inr (v, z) ↦ rw z (of_value v (get-IsMap (codes "properties") node h z))
    ]
      where
        of_value :
            (v : Value)
            → IsMap v
            → let fs = walk_in kind_of root nested required path (some v) in
              Scattered fs × All (Under path) fs
        of_value null m = (tt, tt)
        of_value (boolean b) m = (tt, tt)
        of_value (number t) m = (tt, tt)
        of_value (string t) m = (tt, tt)
        of_value (array vs) m = (tt, tt)
        of_value (object ms) m =
            let (s, a) = walk_members-Scattered required ms m in
            (s, All-mapped (Among path ms) (Under path) (λ f (j, n, (qs, e)). (j ∷ qs, e)) _ a)

  walk_fields-Scattered :
      (levels : ℕ) (node : Value) (path : List Text)
      → IsMap node
      → let fs = walk_fields kind_of root levels node path in Scattered fs × All (Under path) fs
  unfolding walk_fields
  walk_fields-Scattered zero node path h = (tt, tt)
  walk_fields-Scattered (suc levels) node path h =
      walk_in-Scattered (walk_fields kind_of root levels) path
        (λ inner name m.
          let (s, a) = walk_fields-Scattered levels inner (path ++ name ∷ []) m in
          (
            s,
            All-mapped (Under (path ++ name ∷ [])) (Below path name)
                (λ f (qs, e). (qs, e ∙ below_path path name qs)) _ a,
          ))
        (required_names node) node h

-- When the keys of each object of the schema are different, as in any JSON value that was read, no
-- field of its form has an empty path, and no field's path leads to another's or past it.
pub walk_schema-Scattered :
    (kind_of : Value → Option Text → FieldKind) (schema : Value)
    → IsMap schema
    → Scattered (walk_schema kind_of schema)
unfolding walk_schema
walk_schema-Scattered kind_of schema h =
    (walk_fields-Scattered kind_of schema h (suc max_schema_depth) schema [] h).0
