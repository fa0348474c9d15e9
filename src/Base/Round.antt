-- ===== src/Base/Round.antt =====
-- `Math.round` of a quotient of integers. JavaScript rounds a half towards plus infinity. The
-- quotient is a double, and its rounding is that of the exact quotient while the numerator stays
-- below 2 ^ 52.
use Prim.Native.Nat.{ℕ, zero, suc, ◌+◌, ◌-◌, ◌*◌, ◌/◌, ◌<◌, ◌≤◌}
use mathlib.Core.Path.{◌≡◌, refl, ap}
use native.Mathlib.Omega.{arith}
use native.Mathlib.Nat.{div-eq_of_lt-le, le-div_iff_mul-le, div-mul-le_self, le_trans}
use hostrepository.Base.Int.{ℤ, pos, negsuc, ◌+ℤ◌, ◌*ℤ◌, ◌≤ℤ◌, int_laws, mul_nonneg, mul_mono}

-- The floor of `x / d`, for a positive divisor.
abbrev pub floor_div : ℤ → ℕ → ℤ
floor_div (pos n) d = pos (n / d)
floor_div (negsuc n) d = negsuc (n / d)

-- `Math.round(x / d)`, the floor of `x / d + 1 / 2`.
unfoldable pub round_div : ℤ → ℕ → ℤ
round_div x d = floor_div (x +ℤ x +ℤ pos d) (d + d)

round_div_half : round_div (pos 5) 2 ≡ pos 3
unfolding round_div ◌+ℤ◌
round_div_half = refl

round_div_neg_half : round_div (negsuc 4) 2 ≡ negsuc 1
unfolding round_div ◌+ℤ◌
round_div_neg_half = refl

mul_pos : (n d : ℕ) → pos n *ℤ pos d ≡ pos (n * d)
unfolding ◌*ℤ◌
mul_pos n d = ground arith

mul_neg : (n d : ℕ) → negsuc n *ℤ pos (suc d) ≡ negsuc (suc n * suc d - 1)
unfolding ◌*ℤ◌
mul_neg n d = ground arith

doubled_pos : (m d : ℕ) → (pos m +ℤ pos m) +ℤ pos d ≡ pos (m + m + d)
unfolding ◌+ℤ◌
doubled_pos m d = ground arith

doubled_neg :
    (m d : ℕ)
    → suc d ≤ m
    → (negsuc (m - 1) +ℤ negsuc (m - 1)) +ℤ pos (suc d) ≡ negsuc (m + m - d - 2)
unfolding ◌+ℤ◌
doubled_neg m d h = ground arith

neg_quotient : (n d : ℕ) → (suc n * suc d + suc n * suc d - d - 2) / (suc d + suc d) ≡ n
neg_quotient n d = div-eq_of_lt-le (suc d + suc d) (grind arith) (grind arith)

-- A quotient that is whole is not changed.
pub round_div_exact : (x : ℤ) (d : ℕ) → 0 < d → round_div (x *ℤ pos d) d ≡ x
unfolding round_div
round_div_exact x zero h = elim h [ ]
round_div_exact (pos n) (suc d) h =
    rw (mul_pos n (suc d), doubled_pos)
      (ap pos (div-eq_of_lt-le (suc d + suc d) (grind arith) (grind arith)))
round_div_exact (negsuc n) (suc d) h =
    rw (mul_neg n d, doubled_neg (suc n * suc d) d (grind arith)) (ap negsuc (neg_quotient n d))

mul_zero : (x : ℤ) → x *ℤ pos 0 ≡ pos 0
unfolding ◌*ℤ◌
mul_zero (pos n) = ground arith
mul_zero (negsuc n) = ground arith

pub round_div_zero : (x : ℤ) (d : ℕ) → 0 < d → round_div (x *ℤ pos 0) d ≡ pos 0
round_div_zero x d h =
    let none_of : pos 0 *ℤ pos d ≡ pos 0 = rw (mul_pos 0 d) (ap pos (omega arith)) in
    rw (mul_zero x) (rw none_of at (round_div_exact (pos 0) d h))

div_mono : (n m d : ℕ) → n ≤ m → n / d ≤ m / d
div_mono n m zero h = omega arith
div_mono n m (suc d) h =
    (le-div_iff_mul-le (omega arith)).1 (le_trans (div-mul-le_self n (suc d)) h)

-- A larger numerator gives no smaller quotient.
floor_div_mono : (x y : ℤ) (d : ℕ) → x ≤ℤ y → floor_div x d ≤ℤ floor_div y d
floor_div_mono (pos n) (pos m) d h = omega (arith, div_mono n m d (omega arith))
floor_div_mono (pos n) (negsuc m) d h = absurd (omega arith)
floor_div_mono (negsuc n) (pos m) d h = omega arith
floor_div_mono (negsuc n) (negsuc m) d h = omega (arith, div_mono m n d (omega arith))

pub round_div_mono : (x y : ℤ) (d : ℕ) → x ≤ℤ y → round_div x d ≤ℤ round_div y d
unfolding round_div
round_div_mono x y d h = floor_div_mono _ _ (d + d) (omega int_laws)

pub round_div_nonneg : (x : ℤ) (d : ℕ) → 0 < d → pos 0 ≤ℤ x → pos 0 ≤ℤ round_div x d
round_div_nonneg x d h k =
    let least : round_div (pos 0 *ℤ pos d) d ≤ℤ round_div x d =
      round_div_mono (pos 0 *ℤ pos d) x d (rw (mul_pos 0 d) (omega arith)) in
    rw (round_div_exact (pos 0) d h) at least

-- A part `p` in `d` of an amount, with `0 <= p <= d`, lies between nothing and the amount.
pub share_bounds :
    (x p : ℤ) (d : ℕ)
    → 0 < d
    → pos 0 ≤ℤ x
    → pos 0 ≤ℤ p
    → p ≤ℤ pos d
    → (pos 0 ≤ℤ round_div (x *ℤ p) d) × (round_div (x *ℤ p) d ≤ℤ x)
share_bounds x p d h k low high =
    let most : round_div (x *ℤ p) d ≤ℤ round_div (x *ℤ pos d) d =
      round_div_mono (x *ℤ p) (x *ℤ pos d) d (mul_mono x p (pos d) k high) in
    (round_div_nonneg (x *ℤ p) d h (mul_nonneg x p k low), rw (round_div_exact x d h) at most)
