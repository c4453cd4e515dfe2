-- ===== src/BigNumber/Rounding.antt =====
-- The rounding modes of bignumber.js on a quotient: ROUND_HALF_UP, which takes a tie away from
-- zero, and ROUND_DOWN, which goes towards zero.
use mathlib.Core.Path.{ap₂}
use native.Mathlib.Nat.{
  div-add-mod', mod-lt, pow-zero, pow-suc, mul-one, add-zero, add-suc, mul_assoc, one-le-pow,
  mul-div-mul_right,
}
use liquidator.Base.{ℕ, zero, suc, ◌≡◌, ◌∙◌, ◌+◌, ◌*◌, ◌/◌, ◌^◌, ◌≤◌, ◌<◌, arith}
use liquidator.Base.Int.{ℤ, pos, negsuc, negate_ℕ}

-- The whole number nearest to n / d.
unfoldable pub nearest : ℕ → ℕ → ℕ
nearest n d = (2 * n + d) / (2 * d)

abbrev pub div_half_up : ℤ → ℕ → ℤ
div_half_up (pos n) d = pos (nearest n d)
div_half_up (negsuc n) d = negate_ℕ (nearest (suc n) d)

abbrev pub round_half_up : ℤ → ℕ → ℤ
round_half_up a k = div_half_up a (10 ^ k)

abbrev pub round_down : ℤ → ℕ → ℤ
round_down (pos n) k = pos (n / 10 ^ k)
round_down (negsuc n) k = negate_ℕ (suc n / 10 ^ k)

-- The nearest whole number misses the quotient by half a unit at most.
pub nearest_bounds :
    (n d : ℕ) → 0 < d → (2 * n ≤ 2 * (nearest n d * d) + d) × (2 * (nearest n d * d) ≤ 2 * n + d)
unfolding nearest
nearest_bounds n d h =
    let q = div-add-mod' (2 * n + d) (2 * d) in
    let r = mod-lt (2 * n + d) {m = 2 * d} (omega arith) in (omega arith, omega arith)

pub pow-add : (b m n : ℕ) → b ^ (m + n) ≡ b ^ m * b ^ n
pow-add b m zero = simp (add-zero, pow-zero, mul-one)
pow-add b m (suc n) =
    rw (add-suc, pow-suc, pow-suc b n, pow-add b m n) (mul_assoc (b ^ m) (b ^ n) b)

pub pow_pos : (n : ℕ) → 0 < 10 ^ n
pow_pos n = one-le-pow n 10 (omega arith)

-- A common factor does not matter.
pub nearest-mul : (n d c : ℕ) → 0 < c → nearest (n * c) (d * c) ≡ nearest n d
unfolding nearest
nearest-mul n d c h =
    ap₂ ◌/◌ (let e : 2 * (n * c) + d * c ≡ (2 * n + d) * c = omega arith in e)
      (let e : 2 * (d * c) ≡ 2 * d * c = omega arith in e)
    ∙ mul-div-mul_right (2 * n + d) (2 * d) h

pub nearest-one : (n : ℕ) → nearest n 1 ≡ n
unfolding nearest
nearest-one n = omega arith
