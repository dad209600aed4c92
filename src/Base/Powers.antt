-- ===== src/Base/Powers.antt =====
-- Powers of two.
use Prim.Native.Nat.{ℕ, zero, suc, ◌^◌, ◌≤◌, ◌<◌}
use native.Mathlib.Nat.{pow-suc}
use native.Mathlib.Omega.{arith}

pow2-pos : (n : ℕ) → 0 < 2 ^ n
pow2-pos zero = omega arith
pow2-pos (suc n) = omega (arith, pow-suc 2 n, pow2-pos n)

pub lt-pow2 : (n : ℕ) → n < 2 ^ n
lt-pow2 zero = omega arith
lt-pow2 (suc n) = omega (arith, pow-suc 2 n, lt-pow2 n)

pub pow2_mono : (m n : ℕ) → m ≤ n → 2 ^ m ≤ 2 ^ n
pow2_mono zero n h = pow2-pos n
pow2_mono (suc m) zero h = elim h [ ]
pow2_mono (suc m) (suc n) h = omega (arith, pow-suc 2 m, pow-suc 2 n, pow2_mono m n (omega arith))
