-- ===== src/Form/Nodes.antt =====
-- How the nodes of a job type's input schema are read, crates/ora-cli/src/tui/ui/form.rs.
use ora.Base.{
  ◌||◌, retain, ℕ, zero, suc, Bool, false, not, Option, none, some, List, [], ◌∷◌, map,
  if◌then◌else◌,
}
use ora.Form.Text.{Text, text_eq}
use ora.Form.State.{ListItemKind, FieldKind, text, integer, number, time, bool, choice, list}
use ora.Form.Json.{
  Value, string, array, object, Items, no_items, item, Members, no_members, member, put, get,
}
use ora.Form.Options.{codes}

abbrev pub as_str : Value → Option Text
as_str (string t) = some t
as_str other = none

abbrev pub values : Items → List Value
values no_items = []
values (item v vs) = v ∷ values vs

abbrev pub as_array : Value → Option (List Value)
as_array (array vs) = some (values vs)
as_array other = none

infixl 5 ◌>>=◌
abbrev pub ◌>>=◌ {ℓ κ} : {A : Type ℓ} {B : Type κ} → Option A → (A → Option B) → Option B
none >>= f = none
some a >>= f = f a

-- `strip_prefix`.
unfoldable pub strip_prefix : Text → Text → Option Text
strip_prefix [] t = some t
strip_prefix (c ∷ p) [] = none
strip_prefix (c ∷ p) (d ∷ t) =
    let rest = strip_prefix p t in if text_eq (c ∷ []) (d ∷ []) then rest else none

-- What a local `$ref` names in `$defs`.
unfoldable pub target_of : Value → Value → Option Value
unfolding get strip_prefix
target_of root node = do
  reference ← get (codes "$ref") node >>= as_str
  name ← strip_prefix (codes "#/$defs/") reference
  defs ← get (codes "$defs") root
  get name defs

-- The members of a node besides its reference, put into what it refers to.
unfoldable pub merge : Members → Members → Members
unfolding put
merge no_members target = target
merge (member k v source) target =
    merge source (if text_eq k (codes "$ref") then target else put k v target)

abbrev pub merged : Value → Value → Value
merged (object target) (object source) = object (merge source target)
merged target node = target

abbrev pub merged_or : Option Value → Value → Value
merged_or none node = node
merged_or (some target) node = merged target node

unfoldable pub resolve : Value → Value → Value
unfolding target_of merge
resolve root node = merged_or (target_of root node) node

abbrev pub is_null_type : Value → Bool
is_null_type node = elim (get (codes "type") node >>= as_str) [
  | none ↦ false
  | some name ↦ text_eq name (codes "null")
]

-- `find`.
abbrev pub first_of : (Value → Bool) → List Value → Option Value
first_of p [] = none
first_of p (v ∷ vs) = let rest = first_of p vs in if p v then some v else rest

-- The first name of a list that is a text and not `null`.
abbrev pub first_name : List Value → Option Text
first_name [] = none
first_name (v ∷ vs) =
    let rest = first_name vs in
    elim (as_str v) [
      | none ↦ rest
      | some name ↦ if text_eq name (codes "null") then rest else some name
    ]

abbrev pub named : Value → Option Text
named (string name) = some name
named (array names) = first_name (values names)
named other = none

-- The name that `type_of` finds; whether null is allowed is used nowhere.
unfoldable pub type_of : Value → Value → Option Text
unfolding get resolve
type_of root node = elim (get (codes "anyOf") node >>= as_array) [
  | some branches ↦ first_of (λ b. not (is_null_type b)) (map (resolve root) branches) >>= λ b.
      get (codes "type") b >>= as_str
  | none ↦ get (codes "type") node >>= named
]

-- A JSON scalar as it is written in a form; `print` is what the JSON library writes.
abbrev pub literal : (Value → Text) → Value → Text
literal print (string t) = t
literal print other = print other

-- The branches that are not `null`.
abbrev pub branches_of : Value → List Value → List Value
branches_of root vs = retain (λ b. not (is_null_type b)) (map (resolve root) vs)

-- The constants of branches that all have one.
abbrev pub constants : (Value → Text) → List Value → Option (List Text)
constants print [] = some []
constants print (b ∷ bs) = do
  c ← get (codes "const") b
  rest ← constants print bs
  some (literal print c ∷ rest)

abbrev pub unless_none : Option (List Text) → Option (List Text)
unless_none none = none
unless_none (some []) = none
unless_none (some (c ∷ cs)) = some (c ∷ cs)

-- A single branch without a constant holds the variants itself.
abbrev pub branch_choices :
    (Value → Option (Option (List Text)))
    → (Value → Text)
    → List Value
    → Option (Option (List Text))
branch_choices again print [] = some none
branch_choices again print (only ∷ []) = elim (get (codes "const") only) [
  | none ↦ again only
  | some c ↦ some (some (literal print c ∷ []))
]
branch_choices again print (b ∷ d ∷ bs) = some (unless_none (constants print (b ∷ d ∷ bs)))

abbrev pub first_given : Option Value → Option Value → Option Value
first_given none other = other
first_given (some v) other = some v

abbrev pub in_branches :
    (Value → Option (Option (List Text)))
    → (Value → Text)
    → Value
    → Option (List Value)
    → Option (Option (List Text))
in_branches again print root none = some none
in_branches again print root (some vs) = branch_choices again print (branches_of root vs)

-- On the number of calls; `none` says that they are used up, `some none` that there are no choices.
unfoldable pub choices_of : ℕ → (Value → Text) → Value → Value → Option (Option (List Text))
unfolding get resolve retain
choices_of zero print root node = none
choices_of (suc fuel) print root node = elim (get (codes "enum") node >>= as_array) [
  | some choices ↦ some (some (map (literal print) choices))
  | none ↦
      in_branches (choices_of fuel print root) print root
        (first_given (get (codes "oneOf") node) (get (codes "anyOf") node) >>= as_array)
]

unfoldable pub format_of : Value → Value → Option Text
unfolding get resolve
format_of root node = elim (get (codes "format") node >>= as_str) [
  | some format ↦ some format
  | none ↦ do
    branches ← get (codes "anyOf") node >>= as_array
    branch ← first_of (λ b. not (is_null_type b)) (map (resolve root) branches)
    get (codes "format") branch >>= as_str
]

abbrev pub is_time : Option Text → Bool
is_time none = false
is_time (some format) = text_eq format (codes "date-time") || text_eq format (codes "date")

abbrev pub item_kind : Option Text → ListItemKind
item_kind none = ListItemKind.text
item_kind (some name) =
    if text_eq name (codes "boolean")
    then ListItemKind.bool
    else if text_eq name (codes "integer")
    then ListItemKind.integer
    else if text_eq name (codes "number")
    then ListItemKind.number
    else ListItemKind.text

unfoldable pub list_item_kind : Value → Value → ListItemKind
unfolding get resolve type_of
list_item_kind root property = elim (get (codes "items") property) [
  | none ↦ ListItemKind.text
  | some items ↦ item_kind (type_of root (resolve root items))
]

abbrev pub kind_by_name : Value → Value → Option Text → FieldKind
kind_by_name root property none = text
kind_by_name root property (some name) =
    if text_eq name (codes "boolean")
    then bool
    else if text_eq name (codes "integer")
    then integer
    else if text_eq name (codes "number")
    then number
    else if text_eq name (codes "array")
    then list (list_item_kind root property)
    else text

abbrev pub kind_with : Value → Value → Option Text → Option (Option (List Text)) → Option FieldKind
kind_with root property kind_name none = none
kind_with root property kind_name (some (some choices)) = some (choice choices)
kind_with root property kind_name (some none) =
    some (if is_time (format_of root property) then time else kind_by_name root property kind_name)

unfoldable pub field_kind : ℕ → (Value → Text) → Value → Value → Option Text → Option FieldKind
unfolding choices_of format_of list_item_kind
field_kind fuel print root property kind_name =
    kind_with root property kind_name (choices_of fuel print root property)
