-- ===== src/Form/Placed.antt =====
-- Where `payload` of crates/ora-cli/src/tui/ui/form.rs puts the values of a form's fields.
use ora.Base.{
  ◌≢◌, ◌≡◌, refl, sym, ◌∙◌, subst, ap, true, false, Option, none, some, List, [], ◌∷◌, All,
  if◌then◌else◌, Bool-cases, Option-cases, inl, inr,
}
use ora.Form.Text.{Text, text_eq}
use ora.Form.State.{Field, Form}
use ora.Form.Json.{
  Value, object, Members, find, put, get, get_path, text_eq_sound, text_eq_refl, find-put,
}
use ora.Form.Payload.{
  Readers, field_value, empty_object, or_empty, put_in, insert_at, is_input, payload_from, payload,
}

-- Neither of two paths leads to the other, or past it.
abbrev pub Apart : List Text → List Text → Type 0
Apart [] qs = ⊥
Apart (k ∷ ps) [] = ⊥
Apart (k ∷ ps) (j ∷ qs) = if text_eq k j then Apart ps qs else Unit

abbrev IsObject : Value → Type 0
IsObject (object ms) = Unit
IsObject other = ⊥

abbrev AllIn : (Value → Type 0) → Option Value → Type 0
AllIn P none = Unit
AllIn P (some w) = P w

-- A value that a path can be made in: what it meets on its way are objects.
abbrev pub Open : List Text → Value → Type 0
Open [] v = Unit
Open (k ∷ ks) v = IsObject v × AllIn (Open ks) (get k v)

Apart-sym : (ps qs : List Text) → Apart ps qs → Apart qs ps
Apart-sym [] qs h = absurd h
Apart-sym (k ∷ ps) [] h = absurd h
Apart-sym (k ∷ ps) (j ∷ qs) h = elim (Bool-cases (text_eq k j)) [
  | inl e ↦
      let same = text_eq_sound k j e in
      let h' : Apart ps qs = subst (λ b. if b then Apart ps qs else Unit) e h in
      rw (← same) (rw (text_eq_refl k) (Apart-sym ps qs h'))
  | inr n ↦ elim (Bool-cases (text_eq j k)) [
    | inl e ↦
        let same = text_eq_sound j k e in
        cc (subst (λ i. text_eq k i ≡ false) same n, text_eq_refl k)
    | inr m ↦ rw m tt
  ]
]

Open-empty : (ks : List Text) → Open ks empty_object
unfolding get find
Open-empty [] = tt
Open-empty (k ∷ ks) = (tt, tt)

find-put_same : (k : Text) (v : Value) (ms : Members) → find k (put k v ms) ≡ some v
find-put_same k v ms = find-put k k v ms ∙ rw (text_eq_refl k) refl

through :
    (k : Text) (ks : List Text) (v : Value) {w : Value}
    → get k v ≡ some w
    → get_path (k ∷ ks) v ≡ get_path ks w
unfolding get_path
through k ks v e = rw (e, get_path) refl

-- A value is put where the path leads.
insert_at-get :
    (k : Text) (ks : List Text) (v root : Value)
    → Open (k ∷ ks) root
    → (root' : Value) × (insert_at (k ∷ ks) v root ≡ some root')
      × (get_path (k ∷ ks) root' ≡ some v)
      × Open (k ∷ ks) root'
unfolding insert_at get_path get
insert_at-get k [] v (object ms) h = (
  object (put k v ms),
  refl,
  through k [] (object (put k v ms)) (find-put_same k v ms),
  (tt, subst (AllIn (Open [])) (sym (find-put_same k v ms)) tt),
)
insert_at-get k (j ∷ ks) v (object ms) h =
    let (child, e, g, o) =
      insert_at-get j ks v (or_empty (find k ms)) (child_open (find k ms) h.1) in
    (
      object (put k child ms),
      rw (e, put_in) refl,
      through k (j ∷ ks) (object (put k child ms)) (find-put_same k child ms) ∙ g,
      (tt, subst (AllIn (Open (j ∷ ks))) (sym (find-put_same k child ms)) o),
    )
  where
    child_open : (o : Option Value) → AllIn (Open (j ∷ ks)) o → Open (j ∷ ks) (or_empty o)
    child_open none h = Open-empty (j ∷ ks)
    child_open (some w) h = h
insert_at-get k ks v other h = absurd h.0

-- A path that is apart from the one where a value is put leads where it led before.
abbrev SameAt : List Text → Value → Value → Type 0
SameAt qs root root' = (get_path qs root' ≡ get_path qs root) × Open qs root'

abbrev path_in : List Text → Option Value → Option Value
path_in qs none = none
path_in qs (some w) = get_path qs w

get_path-in : (k : Text) (ks : List Text) (v : Value) → get_path (k ∷ ks) v ≡ path_in ks (get k v)
unfolding get_path
get_path-in k ks v = elim (Option-cases (get k v)) [
  | inl e ↦ rw (e, get_path) refl
  | inr (w, e) ↦ rw (e, get_path) refl
]

same_member :
    (j : Text) (qs : List Text) (ms ms' : Members)
    → find j ms' ≡ find j ms
    → Open (j ∷ qs) (object ms)
    → SameAt (j ∷ qs) (object ms) (object ms')
unfolding get_path get
same_member j qs ms ms' e h = (
  get_path-in j qs (object ms') ∙ (ap (path_in qs) e ∙ sym (get_path-in j qs (object ms))),
  (tt, subst (AllIn (Open qs)) (sym e) h.1),
)

find-put_other :
    (k j : Text) (v : Value) (ms : Members) → text_eq k j ≡ false → find j (put k v ms) ≡ find j ms
find-put_other k j v ms n = find-put k j v ms ∙ rw n refl

-- The same within the member that both paths enter.
within_member :
    (k j i : Text) (ps qs : List Text) (child : Value) (ms : Members)
    → text_eq k j ≡ true
    → Apart (i ∷ ps) qs
    → ((w : Value) → or_empty (find k ms) ≡ w → Open qs w → SameAt qs w child)
    → Open (j ∷ qs) (object ms)
    → SameAt (j ∷ qs) (object ms) (object (put k child ms))
unfolding get get_path find
within_member k j i ps [] child ms t a ih h = absurd a
within_member k j i ps (q ∷ qs) child ms t a ih h = (
  through j (q ∷ qs) (object (put k child ms)) at
      ∙ (inner (find k ms) ih (opened h.1)).0
      ∙ (ap (λ k. path_in (q ∷ qs) (find k ms)) (text_eq_sound k j t)
          ∙ sym (get_path-in j (q ∷ qs) (object ms))),
  (tt, subst (AllIn (Open (q ∷ qs))) (sym at) (inner (find k ms) ih (opened h.1)).1),
)
  where
    at : find j (put k child ms) ≡ some child
    at = find-put k j child ms ∙ rw t refl

    opened : AllIn (Open (q ∷ qs)) (find j ms) → AllIn (Open (q ∷ qs)) (find k ms)
    opened h = subst (λ i. AllIn (Open (q ∷ qs)) (find i ms)) (sym (text_eq_sound k j t)) h

    inner :
        (o : Option Value)
        → ((w : Value) → or_empty o ≡ w → Open (q ∷ qs) w → SameAt (q ∷ qs) w child)
        → AllIn (Open (q ∷ qs)) o
        → (get_path (q ∷ qs) child ≡ path_in (q ∷ qs) o) × Open (q ∷ qs) child
    inner none ih h = ih empty_object refl (Open-empty (q ∷ qs))
    inner (some w) ih h = ih w refl h

insert_at-Apart :
    (ps qs : List Text) (v root root' : Value)
    → Apart ps qs
    → insert_at ps v root ≡ some root'
    → Open qs root
    → SameAt qs root root'
unfolding insert_at get
insert_at-Apart [] qs v root root' a e h = absurd a
insert_at-Apart (k ∷ ps) [] v root root' a e h = absurd a
insert_at-Apart (k ∷ []) (j ∷ qs) v (object ms) root' a e h = elim (Bool-cases (text_eq k j)) [
  | inl t ↦ absurd (subst (λ b. if b then ⊥ else Unit {0}) t a)
  | inr n ↦
      let r : object (put k v ms) ≡ root' = cc in
      rw (← r) (same_member j qs ms (put k v ms) (find-put_other k j v ms n) h)
]
insert_at-Apart (k ∷ i ∷ ps) (j ∷ qs) v (object ms) root' a e h =
    elim (Option-cases (insert_at (i ∷ ps) v (or_empty (find k ms)))) [
      | inl n ↦ cc (subst (λ o. put_in k ms o ≡ some root') n e)
      | inr (child, c) ↦
          let r : object (put k child ms) ≡ root' =
            cc (subst (λ o. put_in k ms o ≡ some root') c e) in
          elim (Bool-cases (text_eq k j)) [
            | inr n ↦
                rw (← r) (same_member j qs ms (put k child ms) (find-put_other k j child ms n) h)
            | inl t ↦
                let a' : Apart (i ∷ ps) qs =
                  subst (λ b. if b then Apart (i ∷ ps) qs else Unit {0}) t a in
                rw (← r) (
                  within_member k j i ps qs child ms t a'
                    (λ w o h.
                      insert_at-Apart (i ∷ ps) qs v w child a'
                        (subst (λ w. insert_at (i ∷ ps) v w ≡ some child) o c) h)
                    h)
          ]
    ]
insert_at-Apart (k ∷ ps) (j ∷ qs) v other root' a e h = absurd h.0

insert_at-path :
    (p : List Text) (v root : Value)
    → p ≢ []
    → Open p root
    → (root' : Value) × (insert_at p v root ≡ some root')
      × (get_path p root' ≡ some v)
      × Open p root'
insert_at-path [] v root n o = absurd (n refl)
insert_at-path (k ∷ ks) v root n o = insert_at-get k ks v root o

-- The input fields have paths, each apart from those of all later ones.
abbrev pub Scattered : List Field → Type 0
Scattered [] = Unit
Scattered (field ∷ fields) =
    (is_input field ≡ true
      → (field.path ≢ []) × All (λ g. is_input g ≡ true → Apart field.path g.path) fields)
    × Scattered fields

-- An input field whose place in the payload can be made and is not.
abbrev Free : Value → Field → Type 0
Free root g = is_input g ≡ true → (g.path ≢ []) × Open g.path root × (get_path g.path root ≡ none)

-- Every input field has its value in its place, or nothing there if it has none.
abbrev pub InPlace : Readers → Value → Field → Type 0
InPlace r root g = is_input g ≡ true → get_path g.path root ≡ field_value r g.kind g

-- Where paths apart from those of the fields lead as before.
abbrev Spares : List Field → Value → Value → Type 0
Spares fields root root' =
    (q : List Text)
    → Open q root
    → All (λ g. is_input g ≡ true → Apart g.path q) fields
    → get_path q root' ≡ get_path q root

Free-insert_at :
    (p : List Text) (v root root' : Value) (fields : List Field)
    → insert_at p v root ≡ some root'
    → All (λ g. is_input g ≡ true → Apart p g.path) fields
    → All (Free root) fields
    → All (Free root') fields
Free-insert_at p v root root' [] e a f = tt
Free-insert_at p v root root' (g ∷ fields) e (a, as') (f, fs) = (
  λ i.
      let (n, o, z) = f i in
      let (same, o') = insert_at-Apart p g.path v root root' (a i) e o in (n, o', same ∙ z),
  Free-insert_at p v root root' fields e as' fs,
)

module _ (r : Readers) where
  abbrev Places : List Field → Value → Type 0
  Places fields root =
      (root' : Value) × (payload_from r fields root ≡ some root')
      × All (InPlace r root') fields
      × Spares fields root root'

  payload_from-Places :
      (fields : List Field) (root : Value)
      → Scattered fields
      → All (Free root) fields
      → Places fields root
  unfolding payload_from
  payload_from-Places [] root s f = (root, refl, tt, λ q o a. refl)
  payload_from-Places (g ∷ fields) root (s, ss) (f, fs) = elim (Bool-cases (is_input g)) [
    | inr n ↦
        let (root', e, p, q) = payload_from-Places fields root ss fs in
        (root', rw n e, (λ i. cc, p), λ path o a. q path o a.1)
    | inl y ↦ elim (Option-cases (field_value r g.kind g)) [
      | inl z ↦
          let (root', e, p, q) = payload_from-Places fields root ss fs in
          let kept = q g.path (f y).1 (spared g fields (s y).1) in
          (
            root',
            rw y (rw (z, payload_from) e),
            (λ i. kept ∙ ((f y).2 ∙ sym z), p),
            λ path o a. q path o a.1,
          )
      | inr (v, z) ↦
          let (n, o, free) = f y in
          let (root1, e1, at, o1) = insert_at-path g.path v root n o in
          let (root', e, p, q) =
            payload_from-Places fields root1 ss
              (Free-insert_at g.path v root root1 fields e1 (s y).1 fs) in
          (
            root',
            rw y (rw (z, payload_from) (rw (e1, payload_from) e)),
            (λ i. q g.path o1 (spared g fields (s y).1) ∙ (at ∙ sym z), p),
            λ path op a.
                let (same, op') = insert_at-Apart g.path path v root root1 (a.0 y) e1 op in
                q path op' a.1 ∙ same,
          )
    ]
  ]
    where
      spared :
          (g : Field) (fields : List Field)
          → All (λ h. is_input h ≡ true → Apart g.path h.path) fields
          → All (λ h. is_input h ≡ true → Apart h.path g.path) fields
      spared g [] a = tt
      spared g (h ∷ fields) (a, as') = (λ i. Apart-sym g.path h.path (a i), spared g fields as')

Free-empty : (fields : List Field) → Scattered fields → All (Free empty_object) fields
unfolding get_path get find
Free-empty [] s = tt
Free-empty (g ∷ fields) (s, ss) =
    (λ i. (let n = (s i).0 in (n, Open-empty g.path, nothing g.path n)), Free-empty fields ss)
  where
    nothing : (p : List Text) → p ≢ [] → get_path p empty_object ≡ none
    nothing [] n = absurd (n refl)
    nothing (k ∷ ks) n = refl

-- If no input field's path leads to another's or past it, the payload of a form can be built, and in
-- it the path of every input field leads to the field's value, and to nothing if the field has none.
pub payload-InPlace :
    (r : Readers) (f : Form)
    → Scattered f.fields
    → (v : Value) × (payload r f ≡ some v) × All (InPlace r v) f.fields
unfolding payload
payload-InPlace r f s =
    let (v, e, p, q) = payload_from-Places r f.fields empty_object s (Free-empty f.fields s) in
    (v, e, p)
