-- ===== src/Form/Json.antt =====
-- JSON values as crates/ora-cli/src/tui/ui/form.rs uses serde_json's, and texts as their keys. A number
-- stands as it is written; an object's members are in some order, and each key is there once.
use ora.Base.{◌≡◌, refl, Bool, true, Option, none, some, List, [], ◌∷◌, if◌then◌else◌, arith}
use ora.Form.Text.{Text, text_eq}

mutual
  pub data Value : Type 0 where
    null : Value
    boolean : Bool → Value
    number : Text → Value
    string : Text → Value
    array : Items → Value
    object : Members → Value

  pub data Items : Type 0 where
    no_items : Items
    item : Value → Items → Items

  pub data Members : Type 0 where
    no_members : Members
    member : Text → Value → Members → Members

-- `Map::get`.
unfoldable pub find : Text → Members → Option Value
find k no_members = none
find k (member j v ms) = let rest = find k ms in if text_eq j k then some v else rest

-- `Map::insert`.
unfoldable pub put : Text → Value → Members → Members
put k v no_members = member k v no_members
put k v (member j w ms) =
    let rest = put k v ms in if text_eq j k then member j v ms else member j w rest

-- `Value::get`.
unfoldable pub get : Text → Value → Option Value
unfolding find
get k (object ms) = find k ms
get k other = none

-- `path.iter().try_fold(value, |node, key| node.get(key))`.
unfoldable pub get_path : List Text → Value → Option Value
unfolding get
get_path [] v = some v
get_path (k ∷ ks) v = elim (get k v) [ none ↦ none | some w ↦ get_path ks w ]

-- A vector of values as an array.
unfoldable pub to_items : List Value → Items
to_items [] = no_items
to_items (v ∷ vs) = item v (to_items vs)

pub text_eq_sound : (s t : Text) → text_eq s t ≡ true → s ≡ t
unfolding text_eq
text_eq_sound [] [] h = refl
text_eq_sound [] (d ∷ t) h = cc
text_eq_sound (c ∷ s) [] h = cc
text_eq_sound (c ∷ s) (d ∷ t) h = ground (arith, text_eq_sound s t)

pub text_eq_refl : (s : Text) → text_eq s s ≡ true
unfolding text_eq
text_eq_refl [] = refl
text_eq_refl (c ∷ s) = ground (arith, text_eq_refl s)

pub find-put :
    (k j : Text) (v : Value) (ms : Members)
    → find j (put k v ms) ≡ (if text_eq k j then some v else find j ms)
unfolding find put
find-put k j v no_members = refl
find-put k j v (member i w ms) = ground (
  arith,
  find-put k j v ms,
  text_eq_sound i k,
  text_eq_sound i j,
  text_eq_sound k j,
  text_eq_refl i,
  text_eq_refl k,
  text_eq_refl j,
)
