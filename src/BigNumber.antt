-- ===== src/BigNumber.antt =====
-- The package bignumber.js, which the source does all its amounts with, as an interface. A decimal
-- text of the source is the number that it reads as, so `new BigNumber(text)` leaves it alone,
-- and so does `toFixed()` with no argument, which writes every digit.
pub mod Rounding
pub mod Amounts
pub mod Exact
pub mod Bigint
use liquidator.Base.{ℕ, suc, ◌+◌, ◌*◌, ◌^◌, ◌≤◌, ◌<◌, ◌≡◌, Bool}
use liquidator.Base.Int.{ℤ, pos, ◌+ℤ◌, ◌-ℤ◌, ◌*ℤ◌, ltb_ℤ, leb_ℤ}
use Rounding.{round_half_up, round_down, div_half_up}

-- `Denotes x a k`: the number x is a / 10 ^ k. The laws are the package's documentation: sums,
-- differences, products and shifts are exact, `div` keeps 20 decimal places (DECIMAL_PLACES) and
-- rounds half up (ROUNDING_MODE), and so does `toFixed` at the places asked for. `number` is
-- `new BigNumber(Number(text))` for a text with two decimal places, in hundredths: the double
-- closest to it, read back from its shortest text. It is exact up to 15 digits, and in order.
pub record BigNumber : Type 1 where
  pub Num : Type 0
  pub num : ℕ → ℕ → Num
  pub plus : Num → Num → Num
  pub minus : Num → Num → Num
  pub times : Num → Num → Num
  pub div : Num → Num → Num
  pub shifted_up : ℕ → Num → Num
  pub shifted_down : ℕ → Num → Num
  pub to_fixed : ℕ → Num → Num
  pub to_fixed_down : ℕ → Num → Num
  pub lt : Num → Num → Bool
  pub lte : Num → Num → Bool
  pub number : ℕ → ℕ
  pub Denotes : Num → ℤ → ℕ → Type 0
  pub num_lem : (a k : ℕ) → Denotes (num a k) (pos a) k
  pub plus_lem :
      (x y : Num) (a b : ℤ) (k : ℕ) → Denotes x a k → Denotes y b k → Denotes (plus x y) (a +ℤ b) k
  pub minus_lem :
      (x y : Num) (a b : ℤ) (k : ℕ) → Denotes x a k → Denotes y b k → Denotes (minus x y) (a -ℤ b) k
  pub times_lem :
      (x y : Num) (a b : ℤ) (k l : ℕ)
      → Denotes x a k
      → Denotes y b l
      → Denotes (times x y) (a *ℤ b) (k + l)
  pub div_lem :
      (x y : Num) (a : ℤ) (b k l : ℕ)
      → Denotes x a k
      → Denotes y (pos (suc b)) l
      → Denotes (div x y) (div_half_up (a *ℤ pos (10 ^ (l + 20))) (suc b * 10 ^ k)) 20
  pub shifted_up_lem :
      (n : ℕ) (x : Num) (a : ℤ) (k : ℕ)
      → Denotes x a k
      → Denotes (shifted_up n x) (a *ℤ pos (10 ^ n)) k
  pub shifted_down_lem :
      (n : ℕ) (x : Num) (a : ℤ) (k : ℕ) → Denotes x a k → Denotes (shifted_down n x) a (k + n)
  pub to_fixed_lem :
      (dp : ℕ) (x : Num) (a : ℤ) (k : ℕ)
      → Denotes x a k
      → Denotes (to_fixed dp x) (round_half_up (a *ℤ pos (10 ^ dp)) k) dp
  pub to_fixed_down_lem :
      (dp : ℕ) (x : Num) (a : ℤ) (k : ℕ)
      → Denotes x a k
      → Denotes (to_fixed_down dp x) (round_down (a *ℤ pos (10 ^ dp)) k) dp
  pub lt_lem :
      (x y : Num) (a b : ℤ) (k l : ℕ)
      → Denotes x a k
      → Denotes y b l
      → lt x y ≡ ltb_ℤ (a *ℤ pos (10 ^ l)) (b *ℤ pos (10 ^ k))
  pub lte_lem :
      (x y : Num) (a b : ℤ) (k l : ℕ)
      → Denotes x a k
      → Denotes y b l
      → lte x y ≡ leb_ℤ (a *ℤ pos (10 ^ l)) (b *ℤ pos (10 ^ k))
  pub number_exact : (x : ℕ) → x < 10 ^ 15 → number x ≡ x
  pub number_mono : (x y : ℕ) → x ≤ y → number x ≤ number y
