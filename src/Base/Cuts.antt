-- ===== src/Base/Cuts.antt =====
-- Lists cut at a position.
use Prim.Native.Nat.{ℕ, zero, suc, ◌-◌, min}
use mathlib.Core.Path.{◌≡◌, refl, ap}
use mathlib.Core.List.{List, [], ◌∷◌, ◌++◌}
use native.Mathlib.Omega.{arith}
use ora.Base.Lists.{length}

module _ {ℓ} {A : Type ℓ} where
  unfoldable pub take : ℕ → List A → List A
  take zero t = []
  take (suc n) [] = []
  take (suc n) (c ∷ t) = c ∷ take n t

  unfoldable pub drop : ℕ → List A → List A
  drop zero t = t
  drop (suc n) [] = []
  drop (suc n) (c ∷ t) = drop n t

  pub length-take : (n : ℕ) (t : List A) → length (take n t) ≡ min n (length t)
  unfolding take
  length-take zero t = omega arith
  length-take (suc n) [] = omega arith
  length-take (suc n) (c ∷ t) = omega (arith, length-take n t)

  pub length-drop : (n : ℕ) (t : List A) → length (drop n t) ≡ length t - n
  unfolding drop
  length-drop zero t = omega arith
  length-drop (suc n) [] = omega arith
  length-drop (suc n) (c ∷ t) = omega (arith, length-drop n t)

  pub take-drop : (n : ℕ) (t : List A) → take n t ++ drop n t ≡ t
  unfolding take drop
  take-drop zero t = refl
  take-drop (suc n) [] = refl
  take-drop (suc n) (c ∷ t) = ap (c ∷◌) (take-drop n t)
