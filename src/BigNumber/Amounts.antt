-- ===== src/BigNumber/Amounts.antt =====
-- The conversion between a token's base units and the native coin that the source writes out at
-- each place where it prices an amount.
use native.Mathlib.Nat.{mul-one, zero-add}
use liquidator.Base.{ℕ, suc, ◌+◌, ◌*◌, ◌^◌, ◌≡◌, subst, ltb, leb, ◌∙◌, ap, arith}
use liquidator.Base.Int.{ℤ, pos, negsuc, ◌*ℤ◌, ltb_ℤ, leb_ℤ}
use liquidator.BigNumber.{BigNumber}
use liquidator.BigNumber.Rounding.{nearest, nearest-mul, pow-add, pow_pos}
use mathlib.Core.Path.{ap₂}

-- A whole number, such as a `uint256` that a contract returns.
abbrev pub IsWhole : (bn : BigNumber) → bn.Num → ℕ → Type 0
IsWhole bn x n = bn.Denotes x (pos n) 0

-- `new BigNumber(amount).shiftedBy(-decimals).times(new BigNumber(price).shiftedBy(-18))
--   .shiftedBy(18).toFixed(0)`
unfoldable pub amount_eth : (bn : BigNumber) → bn.Num → ℕ → bn.Num → bn.Num
amount_eth bn amount decimals price =
    bn.to_fixed 0
      (bn.shifted_up 18 (bn.times (bn.shifted_down decimals amount) (bn.shifted_down 18 price)))

-- `new BigNumber(eth).shiftedBy(-18).div(new BigNumber(price).shiftedBy(-18))
--   .shiftedBy(decimals).toFixed(0)`
unfoldable pub amount_of_eth : (bn : BigNumber) → bn.Num → ℕ → bn.Num → bn.Num
amount_of_eth bn eth decimals price =
    bn.to_fixed 0
      (bn.shifted_up decimals (bn.div (bn.shifted_down 18 eth) (bn.shifted_down 18 price)))

module _ (bn : BigNumber) where
  -- A whole number in another shape.
  pub IsWhole_cast : (x : bn.Num) {m n : ℕ} → m ≡ n → IsWhole bn x m → IsWhole bn x n
  IsWhole_cast x e h = subst (λ k. IsWhole bn x k) e h

  price_scale : (n d : ℕ) → nearest (n * 10 ^ 18 * 10 ^ 0) (10 ^ (d + 18)) ≡ nearest n (10 ^ d)
  price_scale n d =
      ap₂ nearest (mul-one (n * 10 ^ 18)) (pow-add 10 d 18)
      ∙ nearest-mul n (10 ^ d) (10 ^ 18) (pow_pos 18)

  -- The price of a whole amount is the product over 10 ^ decimals, to the nearest whole number.
  pub amount_eth-IsWhole :
      (amount price : bn.Num) (a d p : ℕ)
      → IsWhole bn amount a
      → IsWhole bn price p
      → IsWhole bn (amount_eth bn amount d price) (nearest (a * p) (10 ^ d))
  unfolding amount_eth
  amount_eth-IsWhole amount price a d p ha hp =
      let t =
        bn.times_lem _ _ _ _ _ _ (bn.shifted_down_lem d _ _ _ ha)
          (bn.shifted_down_lem 18 _ _ _ hp) in
      IsWhole_cast _ (rw zero-add (price_scale (a * p) d))
        (bn.to_fixed_lem 0 _ _ _ (bn.shifted_up_lem 18 _ _ _ t))

  quotient_scale :
      (e p d : ℕ)
      → nearest (nearest (e * 10 ^ 38) (p * 10 ^ 18) * 10 ^ d * 10 ^ 0) (10 ^ 20)
        ≡ nearest (nearest (e * 10 ^ 20) p * 10 ^ d) (10 ^ 20)
  quotient_scale e p d =
      ap (λ (t : ℕ). nearest t (10 ^ 20))
        (mul-one _
          ∙ ap (λ (t : ℕ). t * 10 ^ d)
              (ap (λ (t : ℕ). nearest t (p * 10 ^ 18))
                  (let r : e * 10 ^ 38 ≡ e * 10 ^ 20 * 10 ^ 18 = omega arith in r)
                ∙ nearest-mul (e * 10 ^ 20) p (10 ^ 18) (pow_pos 18)))

  -- The way back divides by the price at 20 decimal places, and rounds once more at the end.
  pub amount_of_eth-IsWhole :
      (eth price : bn.Num) (e d p : ℕ)
      → IsWhole bn eth e
      → IsWhole bn price (suc p)
      → IsWhole bn
          (amount_of_eth bn eth d price)
          (nearest (nearest (e * 10 ^ 20) (suc p) * 10 ^ d) (10 ^ 20))
  unfolding amount_of_eth
  amount_of_eth-IsWhole eth price e d p he hp =
      let q =
        bn.div_lem _ _ _ _ _ _ (bn.shifted_down_lem 18 _ _ _ he)
          (bn.shifted_down_lem 18 _ _ _ hp) in
      IsWhole_cast _ (quotient_scale e (suc p) d)
        (bn.to_fixed_lem 0 _ _ _ (bn.shifted_up_lem d _ _ _ q))

  -- Comparing whole numbers is comparing the numbers.
  pub lt-IsWhole : (x y : bn.Num) (m n : ℕ) → IsWhole bn x m → IsWhole bn y n → bn.lt x y ≡ ltb m n
  lt-IsWhole x y m n hx hy = bn.lt_lem _ _ _ _ _ _ hx hy ∙ ground arith

  pub lte-IsWhole :
      (x y : bn.Num) (m n : ℕ) → IsWhole bn x m → IsWhole bn y n → bn.lte x y ≡ leb m n
  lte-IsWhole x y m n hx hy = bn.lte_lem _ _ _ _ _ _ hx hy ∙ ground arith

-- Comparing integers, which may be negative.
pub times_one : (z : ℤ) → z *ℤ pos (10 ^ 0) ≡ z
times_one (pos n) = rw mul-one
times_one (negsuc n) = rw mul-one

module _ (bn : BigNumber) where
  pub lt-Denotes :
      (x y : bn.Num) (a b : ℤ) → bn.Denotes x a 0 → bn.Denotes y b 0 → bn.lt x y ≡ ltb_ℤ a b
  lt-Denotes x y a b hx hy = bn.lt_lem _ _ _ _ _ _ hx hy ∙ ap₂ ltb_ℤ (times_one a) (times_one b)

  pub lte-Denotes :
      (x y : bn.Num) (a b : ℤ) → bn.Denotes x a 0 → bn.Denotes y b 0 → bn.lte x y ≡ leb_ℤ a b
  lte-Denotes x y a b hx hy = bn.lte_lem _ _ _ _ _ _ hx hy ∙ ap₂ leb_ℤ (times_one a) (times_one b)
