-- ===== src/Form/WellFormed.antt =====
-- A JSON object's keys are different from each other, in a schema and in what its references are
-- resolved to, crates/ora-cli/src/tui/ui/form.rs.
use ora.Base.{◌≡◌, refl, subst, ◌∙◌, Option, none, some, Bool-cases, Option-cases, inl, inr, arith}
use ora.Form.Text.{Text, text_eq}
use ora.Form.Json.{
  Value, null, boolean, number, string, array, object, Members, no_members, member, find, put, get,
  find-put, text_eq_sound, text_eq_refl,
}
use ora.Form.Options.{codes}
use ora.Form.Nodes.{◌>>=◌, as_str, strip_prefix, target_of, merge, merged, resolve}

unfoldable mutual
  pub IsMap : Value → Type 0
  IsMap (object ms) = DistinctKeys ms
  IsMap null = Unit
  IsMap (boolean b) = Unit
  IsMap (number t) = Unit
  IsMap (string t) = Unit
  IsMap (array vs) = Unit

  pub DistinctKeys : Members → Type 0
  DistinctKeys no_members = Unit
  DistinctKeys (member k v ms) = (find k ms ≡ none) × IsMap v × DistinctKeys ms

pub find-IsMap :
    (k : Text) (ms : Members) {v : Value} → DistinctKeys ms → find k ms ≡ some v → IsMap v
unfolding find IsMap DistinctKeys
find-IsMap k no_members h e = cc
find-IsMap k (member j w ms) {v} (d, hw, hs) e = elim (Bool-cases (text_eq j k)) [
  | inl y ↦ let same : w ≡ v = ground (arith, e, y) in subst IsMap same hw
  | inr n ↦ let rest : find k ms ≡ some v = ground (arith, e, n) in find-IsMap k ms hs rest
]

pub get-IsMap : (k : Text) (w : Value) {v : Value} → IsMap w → get k w ≡ some v → IsMap v
unfolding get IsMap DistinctKeys
get-IsMap k null h e = cc
get-IsMap k (boolean b) h e = cc
get-IsMap k (number t) h e = cc
get-IsMap k (string t) h e = cc
get-IsMap k (array vs) h e = cc
get-IsMap k (object ms) h e = find-IsMap k ms h e

put-DistinctKeys :
    (k : Text) (v : Value) (ms : Members) → IsMap v → DistinctKeys ms → DistinctKeys (put k v ms)
unfolding put find IsMap DistinctKeys
put-DistinctKeys k v no_members hv h = (refl, hv, tt)
put-DistinctKeys k v (member j w ms) hv (d, hw, hs) = elim (Bool-cases (text_eq j k)) [
  | inl y ↦ rw y (d, hv, hs)
  | inr n ↦ elim (Bool-cases (text_eq k j)) [
    | inl z ↦ ground (arith, n, text_eq_sound k j z, text_eq_refl k)
    | inr z ↦ rw n ((find-put k j v ms ∙ rw z d), hw, put-DistinctKeys k v ms hv hs)
  ]
]

merge-DistinctKeys :
    (source target : Members)
    → DistinctKeys source
    → DistinctKeys target
    → DistinctKeys (merge source target)
unfolding merge IsMap DistinctKeys
merge-DistinctKeys no_members target h t = t
merge-DistinctKeys (member k v source) target (d, hv, hs) t =
    elim (Bool-cases (text_eq k (codes "$ref"))) [
      | inl y ↦ rw y (merge-DistinctKeys source target hs t)
      | inr n ↦
          rw n (merge-DistinctKeys source (put k v target) hs (put-DistinctKeys k v target hv t))
    ]

merged-IsMap : (target node : Value) → IsMap target → IsMap node → IsMap (merged target node)
unfolding IsMap
merged-IsMap null node t h = t
merged-IsMap (boolean b) node t h = t
merged-IsMap (number x) node t h = t
merged-IsMap (string x) node t h = t
merged-IsMap (array vs) node t h = t
merged-IsMap (object ts) null t h = t
merged-IsMap (object ts) (boolean b) t h = t
merged-IsMap (object ts) (number x) t h = t
merged-IsMap (object ts) (string x) t h = t
merged-IsMap (object ts) (array vs) t h = t
merged-IsMap (object ts) (object ss) t h = merge-DistinctKeys ss ts h t

-- What a chain that has a result goes on with.
bound :
    {A : Type 0} {B : Type 0} (o : Option A) {f : A → Option B} {b : B}
    → (o >>= f) ≡ some b
    → (a : A) × (o ≡ some a) × (f a ≡ some b)
bound none e = cc
bound (some a) e = (a, refl, e)

target_of-IsMap :
    (root node : Value) {v : Value} → IsMap root → target_of root node ≡ some v → IsMap v
unfolding target_of
target_of-IsMap root node h e =
    let (reference, e1, named) = bound (get (codes "$ref") node >>= as_str) e in
    let (name, e2, found) = bound (strip_prefix (codes "#/$defs/") reference) named in
    let (defs, e3, there) = bound (get (codes "$defs") root) found in
    get-IsMap name defs (get-IsMap (codes "$defs") root h e3) there

pub resolve-IsMap : (root node : Value) → IsMap root → IsMap node → IsMap (resolve root node)
unfolding resolve
resolve-IsMap root node r h = elim (Option-cases (target_of root node)) [
  | inl z ↦ rw z h
  | inr (t, z) ↦ rw z (merged-IsMap t node (target_of-IsMap root node r z) h)
]
