-- ===== src/Base/Sums.antt =====
-- Laws of the list operations: sums and counts, and predicates of all elements.
use Prim.Native.Nat.{ℕ, zero, suc, ◌+◌, ◌≤◌}
use mathlib.Core.Path.{◌≡◌, refl, ap, subst}
use mathlib.Core.Bool.{Bool, true, false, not}
use mathlib.Core.List.{List, [], ◌∷◌, ◌++◌}
use mathlib.Core.Option.{none, some}
use native.Mathlib.Omega.{arith}
use ora.Base.Lists.{
  length, get_elem?, modify, position, retain, front, last, swap_remove, flat_map, sum_by, All,
}

-- One for a test that passes: the measure of a count.
abbrev pub one : Bool → ℕ
one true = 1
one false = 0

module _ {ℓ} {A : Type ℓ} where
  pub sum_by-append : (f : A → ℕ) (xs ys : List A) → sum_by f (xs ++ ys) ≡ sum_by f xs + sum_by f ys
  unfolding sum_by
  sum_by-append f [] ys = omega arith
  sum_by-append f (x ∷ xs) ys = omega (arith, sum_by-append f xs ys)

  pub sum_by-modify :
      (f : A → ℕ) (g : A → A) (xs : List A) (i : ℕ) {x : A}
      → get_elem? xs i ≡ some x
      → sum_by f (modify xs i g) + f x ≡ sum_by f xs + f (g x)
  unfolding sum_by modify
  sum_by-modify f g [] i h = cc
  sum_by-modify f g (y ∷ xs) zero h = ground arith
  sum_by-modify f g (y ∷ xs) (suc i) h = omega (arith, sum_by-modify f g xs i h)

  pub sum_by-modify-le :
      (f : A → ℕ) (g : A → A) (xs : List A) (i : ℕ) {x : A}
      → get_elem? xs i ≡ some x
      → f (g x) ≤ f x
      → sum_by f (modify xs i g) ≤ sum_by f xs
  sum_by-modify-le f g xs i h le = omega (arith, sum_by-modify f g xs i h)

  modify_out_of_range :
      (g : A → A) (xs : List A) (i : ℕ) → get_elem? xs i ≡ none → modify xs i g ≡ xs
  unfolding modify
  modify_out_of_range g [] i h = refl
  modify_out_of_range g (x ∷ xs) zero h = cc
  modify_out_of_range g (x ∷ xs) (suc i) h = ap (◌∷◌ x) (modify_out_of_range g xs i h)

  front-last :
      (f : A → ℕ) (x : A) (xs : List A) → f (last x xs) + sum_by f (front x xs) ≡ f x + sum_by f xs
  unfolding front last sum_by
  front-last f x [] = refl
  front-last f x (y ∷ ys) = omega (arith, front-last f y ys)

  pub sum_by-swap_remove :
      (f : A → ℕ) (xs : List A) (i : ℕ) {x : A}
      → get_elem? xs i ≡ some x
      → sum_by f (swap_remove xs i) + f x ≡ sum_by f xs
  unfolding swap_remove sum_by
  sum_by-swap_remove f [] i h = cc
  sum_by-swap_remove f (y ∷ []) zero h = ground arith
  sum_by-swap_remove f (y ∷ z ∷ zs) zero h = ground (arith, front-last f z zs)
  sum_by-swap_remove f (y ∷ []) (suc i) h = cc
  sum_by-swap_remove f (y ∷ z ∷ zs) (suc i) h = omega (arith, sum_by-swap_remove f (z ∷ zs) i h)

  pub sum_by-swap_remove-le :
      (f : A → ℕ) (xs : List A) (i : ℕ) → sum_by f (swap_remove xs i) ≤ sum_by f xs
  unfolding swap_remove sum_by
  sum_by-swap_remove-le f [] i = omega arith
  sum_by-swap_remove-le f (y ∷ []) zero = omega arith
  sum_by-swap_remove-le f (y ∷ z ∷ zs) zero = omega (arith, front-last f z zs)
  sum_by-swap_remove-le f (y ∷ []) (suc i) = omega arith
  sum_by-swap_remove-le f (y ∷ z ∷ zs) (suc i) = omega (arith, sum_by-swap_remove-le f (z ∷ zs) i)

  pub sum_by-modify_le :
      (f : A → ℕ) (g : A → A) (xs : List A) (i : ℕ)
      → ((x : A) → f (g x) ≤ f x)
      → sum_by f (modify xs i g) ≤ sum_by f xs
  unfolding sum_by modify
  sum_by-modify_le f g [] i h = omega arith
  sum_by-modify_le f g (y ∷ xs) zero h = omega (arith, h y)
  sum_by-modify_le f g (y ∷ xs) (suc i) h = omega (arith, sum_by-modify_le f g xs i h)

  pub sum_by-modify_same :
      (f : A → ℕ) (g : A → A) (xs : List A) (i : ℕ)
      → ((x : A) → f (g x) ≡ f x)
      → sum_by f (modify xs i g) ≡ sum_by f xs
  unfolding sum_by modify
  sum_by-modify_same f g [] i h = refl
  sum_by-modify_same f g (y ∷ xs) zero h = omega (arith, h y)
  sum_by-modify_same f g (y ∷ xs) (suc i) h = omega (arith, sum_by-modify_same f g xs i h)

  pub length-swap_remove : (xs : List A) (i : ℕ) → length (swap_remove xs i) ≤ length xs
  unfolding swap_remove
  length-swap_remove [] i = omega arith
  length-swap_remove (y ∷ []) zero = omega arith
  length-swap_remove (y ∷ z ∷ zs) zero = omega (arith, length-front z zs)
    where
      length-front : (x : A) (xs : List A) → length (front x xs) ≡ length xs
      length-front x [] = refl
      length-front x (y ∷ ys) = ap suc (length-front y ys)
  length-swap_remove (y ∷ []) (suc i) = omega arith
  length-swap_remove (y ∷ z ∷ zs) (suc i) = omega (arith, length-swap_remove (z ∷ zs) i)

  sum_by-retain :
      (f : A → ℕ) (p : A → Bool) (xs : List A)
      → sum_by f (retain p xs) + sum_by f (retain (λ x. not (p x)) xs) ≡ sum_by f xs
  unfolding sum_by retain
  sum_by-retain f p [] = refl
  sum_by-retain f p (x ∷ xs) = ground (arith, sum_by-retain f p xs)

  pub sum_by-retain-le :
      (f : A → ℕ) (p : A → Bool) (xs : List A) → sum_by f (retain p xs) ≤ sum_by f xs
  sum_by-retain-le f p xs = omega (arith, sum_by-retain f p xs)

  -- What is not kept counts for nothing.
  pub sum_by-retain_only :
      (f : A → ℕ) (p : A → Bool) (xs : List A)
      → ((x : A) → p x ≡ false → f x ≡ 0)
      → sum_by f (retain p xs) ≡ sum_by f xs
  unfolding sum_by retain
  sum_by-retain_only f p [] h = refl
  sum_by-retain_only f p (x ∷ xs) h = ground (arith, h x, sum_by-retain_only f p xs h)

  pub length-retain-le : (p : A → Bool) (xs : List A) → length (retain p xs) ≤ length xs
  unfolding retain
  length-retain-le p [] = omega arith
  length-retain-le p (x ∷ xs) = ground (arith, length-retain-le p xs)

  pub length-append : (xs ys : List A) → length (xs ++ ys) ≡ length xs + length ys
  length-append [] ys = omega arith
  length-append (x ∷ xs) ys = omega (arith, length-append xs ys)

  pub length-modify : (g : A → A) (xs : List A) (i : ℕ) → length (modify xs i g) ≡ length xs
  unfolding modify
  length-modify g [] i = refl
  length-modify g (x ∷ xs) zero = refl
  length-modify g (x ∷ xs) (suc i) = ap suc (length-modify g xs i)

  pub position-some :
      (p : A → Bool) (xs : List A) (i : ℕ)
      → position p xs ≡ some i
      → (x : A) × (get_elem? xs i ≡ some x) × (p x ≡ true)
  unfolding position
  position-some p [] i h = cc
  position-some p (x ∷ xs) zero h = (x, refl, ground arith)
  position-some p (x ∷ xs) (suc i) h = position-some p xs i (ground arith)

  pub position-none :
      (p : A → Bool) (xs : List A) → position p xs ≡ none → sum_by (λ x. one (p x)) xs ≡ 0
  unfolding position sum_by
  position-none p [] h = refl
  position-none p (x ∷ xs) h = ground (arith, position-none p xs)

module _ {ℓ κ} {A : Type ℓ} {B : Type κ} where
  pub sum_by-flat_map :
      (f : B → ℕ) (g : A → List B) (xs : List A)
      → sum_by f (flat_map g xs) ≡ sum_by (λ x. sum_by f (g x)) xs
  unfolding sum_by flat_map
  sum_by-flat_map f g [] = refl
  sum_by-flat_map f g (x ∷ xs) =
      omega (arith, sum_by-append f (g x) (flat_map g xs), sum_by-flat_map f g xs)

module _ {ℓ κ} {A : Type ℓ} (P : A → Type κ) where
  pub All-get : (xs : List A) (i : ℕ) {x : A} → All P xs → get_elem? xs i ≡ some x → P x
  All-get [] i a h = cc
  All-get (y ∷ xs) zero {x} a h = let e : y ≡ x = cc in subst P e a.0
  All-get (y ∷ xs) (suc i) a h = All-get xs i a.1 h

  pub All-append : (xs ys : List A) → All P xs → All P ys → All P (xs ++ ys)
  All-append [] ys a b = b
  All-append (x ∷ xs) ys a b = (a.0, All-append xs ys a.1 b)

  -- The changed element may be known to stand at its place.
  pub All-modify :
      (g : A → A) (xs : List A) (i : ℕ)
      → All P xs
      → ((x : A) → get_elem? xs i ≡ some x → P x → P (g x))
      → All P (modify xs i g)
  unfolding modify
  All-modify g [] i a h = tt
  All-modify g (x ∷ xs) zero a h = (h x refl a.0, a.1)
  All-modify g (x ∷ xs) (suc i) a h = (a.0, All-modify g xs i a.1 h)

  All-front-last : (x : A) (xs : List A) → P x → All P xs → P (last x xs) × All P (front x xs)
  unfolding front last
  All-front-last x [] p a = (p, tt)
  All-front-last x (y ∷ ys) p a = let rest = All-front-last y ys a.0 a.1 in (rest.0, (p, rest.1))

  pub All-swap_remove : (xs : List A) (i : ℕ) → All P xs → All P (swap_remove xs i)
  unfolding swap_remove
  All-swap_remove [] i a = tt
  All-swap_remove (x ∷ []) zero a = tt
  All-swap_remove (x ∷ y ∷ ys) zero a = All-front-last y ys a.1.0 a.1.1
  All-swap_remove (x ∷ []) (suc i) a = a
  All-swap_remove (x ∷ y ∷ ys) (suc i) a = (a.0, All-swap_remove (y ∷ ys) i a.1)

module _ {ℓ κ κ'} {A : Type ℓ} (P : A → Type κ) (Q : A → Type κ') where
  pub All-mapped : ((x : A) → P x → Q x) → (xs : List A) → All P xs → All Q xs
  All-mapped f [] a = tt
  All-mapped f (x ∷ xs) a = (f x a.0, All-mapped f xs a.1)
