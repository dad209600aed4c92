-- ===== src/Form/Choices.antt =====
-- Where the search for a field's choices, `choices_of` of crates/ora-cli/src/tui/ui/form.rs, does not end.
use ora.Base.{◌≡◌, none, some, List, [], ◌∷◌}
use ora.Form.Text.{Text}
use ora.Form.Json.{Value, get}
use ora.Form.Options.{codes}
use ora.Form.Nodes.{as_array, ◌>>=◌, first_given, branches_of}

-- A node without an `enum`, whose `oneOf` or `anyOf` has one branch besides `null`; this branch has no
-- constant, and is, once its reference is followed, the node itself.
pub record RefersToItself (root node : Value) : Type 0 where
  pub no_enum : (get (codes "enum") node >>= as_array) ≡ none
  pub branches : List Value
  pub listed :
      (first_given (get (codes "oneOf") node) (get (codes "anyOf") node) >>= as_array)
      ≡ some branches
  pub itself : branches_of root branches ≡ node ∷ []
  pub no_constant : get (codes "const") node ≡ none
