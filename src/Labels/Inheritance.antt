-- ===== src/Labels/Inheritance.antt =====
-- What labels are left and what labels are inherited.
use text.Mathlib.TextEquality.{eq_iff}
use ora.Base.{
  ℕ, String, ◌≤◌, ◌≡◌, refl, ap, true, false, Option, none, some, List, [], ◌∷◌, ◌++◌, map, any,
  arith, str_eq, if◌then◌else◌, sum_by, sum_by-append, one, Bool-cases, inl, inr,
}
use ora.Backend.{Label}
use ora.Labels.Defs.{contains_key, unseen, deduplicate_labels, inherit_labels}

-- The value of a key: that of the first label with it.
unfoldable pub value_of : String → List Label → Option String
value_of key [] = none
value_of key (l ∷ ls) = if str_eq l.key key then some l.value else value_of key ls

-- How many labels have a key.
abbrev pub key_count : String → List Label → ℕ
key_count key ls = sum_by (λ l. one (str_eq l.key key)) ls

abbrev pub or_value : Option String → Option String → Option String
or_value none w = w
or_value (some v) w = some v

unseen-value_of :
    (key : String) (ls : List Label) (seen : List String)
    → (value_of key (unseen seen ls) ≡ (if contains_key key seen then none else value_of key ls))
      × (key_count key (unseen seen ls) ≤ 1)
      × (contains_key key seen ≡ true → key_count key (unseen seen ls) ≡ 0)
unfolding value_of unseen sum_by any
unseen-value_of key [] seen = (ground arith, omega arith, λ h. refl)
unseen-value_of key (l ∷ ls) seen =
    let skipped = unseen-value_of key ls seen in
    let kept = unseen-value_of key ls (l.key ∷ seen) in
    elim (Bool-cases (str_eq l.key key)) [
      | inl same ↦
          let e : l.key ≡ key = (eq_iff l.key key).0 same in
          let c : contains_key l.key seen ≡ contains_key key seen =
            ap (λ k. contains_key k seen) e in
          (
            ground (arith, same, c, skipped, kept),
            ground (arith, same, c, skipped, kept),
            λ h. ground (arith, same, c, skipped, kept),
          )
      | inr other ↦ (
        ground (arith, other, skipped, kept),
        ground (arith, other, skipped, kept),
        λ h. ground (arith, other, skipped, kept),
      )
    ]

-- Each key has the value of its first label, and one label.
pub deduplicate_labels-value_of :
    (key : String) (ls : List Label)
    → (value_of key (deduplicate_labels ls) ≡ value_of key ls)
      × (key_count key (deduplicate_labels ls) ≤ 1)
unfolding deduplicate_labels any
deduplicate_labels-value_of key ls = let h = unseen-value_of key ls [] in (h.0, h.1)

value_of-append :
    (key : String) (ls ms : List Label)
    → value_of key (ls ++ ms) ≡ or_value (value_of key ls) (value_of key ms)
unfolding value_of
value_of-append key [] ms = refl
value_of-append key (l ∷ ls) ms = ground (arith, value_of-append key ls ms)

keys-value_of :
    (key : String) (ls : List Label)
    → (contains_key key (map (λ l. l.key) ls) ≡ false
        → (value_of key ls ≡ none) × (key_count key ls ≡ 0))
      × (contains_key key (map (λ l. l.key) ls) ≡ true → (v : String) × (value_of key ls ≡ some v))
unfolding value_of sum_by any
keys-value_of key [] = (λ h. (refl, refl), λ h. cc)
keys-value_of key (l ∷ ls) =
    let rest = keys-value_of key ls in
    elim (Bool-cases (str_eq l.key key)) [
      | inl same ↦ (λ h. ground (arith, same), λ h. (l.value, ground (arith, same)))
      | inr other ↦ (
        λ h. ground (arith, other, rest),
        λ h. let (v, e) = rest.1 (ground (arith, other)) in (v, ground (arith, other, e)),
      )
    ]

-- A job has its own value of a key, or else that of the schedule; and no key twice, if it had none
-- twice before.
pub inherit_labels-value_of :
    (key : String) (parent child : List Label)
    → (value_of key (inherit_labels parent child)
        ≡ or_value (value_of key child) (value_of key parent))
      × (key_count key child ≤ 1 → key_count key (inherit_labels parent child) ≤ 1)
unfolding inherit_labels
inherit_labels-value_of key parent child =
    let new = unseen-value_of key parent (map (λ l. l.key) child) in
    let keys = keys-value_of key child in
    let all = value_of-append key child (unseen (map (λ l. l.key) child) parent) in
    let counts =
      sum_by-append (λ l. one (str_eq l.key key)) child (unseen (map (λ l. l.key) child) parent) in
    elim (Bool-cases (contains_key key (map (λ l. l.key) child))) [
      | inl own ↦ (ground (arith, all, new, keys, own), λ h. ground (arith, counts, new, own))
      | inr none_own ↦ (
        ground (arith, all, new, keys, none_own),
        λ h. ground (arith, counts, new, keys, none_own),
      )
    ]
