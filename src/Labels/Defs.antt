-- ===== src/Labels/Defs.antt =====
-- `deduplicate_labels` and `inherit_labels` of crates/ora-server/src/util.rs.
use ora.Base.{String, Bool, List, [], ◌∷◌, ◌++◌, map, any, str_eq, if◌then◌else◌}
use ora.Backend.{Label}

abbrev pub contains_key : String → List String → Bool
contains_key key seen = any (λ k. str_eq k key) seen

-- The loop of both functions: the labels whose key was not seen before; each key kept is seen.
unfoldable pub unseen : List String → List Label → List Label
unseen seen [] = []
unseen seen (l ∷ ls) =
    let kept = unseen (l.key ∷ seen) ls in
    let skipped = unseen seen ls in if contains_key l.key seen then skipped else l ∷ kept

unfoldable pub deduplicate_labels : List Label → List Label
deduplicate_labels labels = unseen [] labels

unfoldable pub inherit_labels : (parent child : List Label) → List Label
inherit_labels parent child = child ++ unseen (map (λ l. l.key) child) parent
