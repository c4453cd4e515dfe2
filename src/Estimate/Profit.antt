-- ===== src/Estimate/Profit.antt =====
-- What the profit of one collateral is worth: the bounds that make it safe to act on.
use native.Mathlib.Nat.{div-lt_iff_lt-mul}
use liquidator.Base.{
  ℕ, String, ◌+◌, ◌*◌, ◌/◌, ◌^◌, ◌≤◌, ◌<◌, ◌≡◌, refl, leb→le, false, Bool-cases, inl, inr, arith,
}
use liquidator.BigNumber.{BigNumber}
use liquidator.BigNumber.Rounding.{nearest, nearest_bounds}
use liquidator.BigNumber.Amounts.{IsWhole}
use liquidator.Estimate.{ReserveToken, TokensLiquidity, calculate_profit}
use liquidator.Estimate.Whole.{
  Figures, available, available_eth, want, is_covered, return_of, repay_of, Reads, IsProfit,
  calculate_profit-IsProfit,
}

-- With a bonus of one or more, what is wanted is at least what is repaid.
pub repay-le-want : (repay bonus : ℕ) → 10000 ≤ bonus → repay ≤ want repay bonus
repay-le-want repay bonus h =
    let near = nearest_bounds (repay * bonus) 10000 (omega arith) in
    let more : repay * 10000 ≤ repay * bonus = grind arith in omega arith

-- The whole quotient by a bonus of one or more is no more than the amount.
cut_le : (e b : ℕ) → 10000 ≤ b → e * 10000 / b ≤ e
cut_le e b h =
    let low : e * 10000 / b < e + 1 =
      (div-lt_iff_lt-mul (omega arith)).1
        (let m : (e + 1) * 10000 ≤ (e + 1) * b = grind arith in omega arith) in
    omega arith

cut_le_repay : (e r b : ℕ) → 0 < b → e < want r b → e * 10000 / b ≤ r
cut_le_repay e r b hb h =
    let near = nearest_bounds (r * b) 10000 (omega arith) in
    let low : e * 10000 / b < r + 1 = (div-lt_iff_lt-mul hb).1 (omega arith) in omega arith

-- The deposit was priced at the token's own rate, and the protocol holds all of it.
pub record IsBacked (decimals : ℕ) (n : Figures) : Type 0 where
  pub held : n.amount ≤ n.reserve
  pub priced : n.amount_eth ≡ nearest (n.amount * n.rate) (10 ^ decimals)
  pub bonus_above_one : 10000 ≤ n.bonus

record IsSafe (decimals repay : ℕ) (n : Figures) : Type 0 where
  closes_within : repay_of decimals repay n ≤ repay
  gains : repay_of decimals repay n ≤ return_of decimals repay n
  seizes_within : return_of decimals repay n ≤ n.amount_eth

backed_available :
    (decimals : ℕ) (n : Figures) → IsBacked decimals n → available_eth decimals n ≡ n.amount_eth
backed_available decimals n h =
    let full : available n ≡ n.amount = ground arith in rw (h.priced, full) refl

backed-IsSafe :
    (decimals repay : ℕ) (n : Figures) → 0 < n.bonus → IsBacked decimals n → IsSafe decimals repay n
backed-IsSafe decimals repay n pos_b h =
    let full = backed_available decimals n h in
    elim (Bool-cases (is_covered decimals repay n)) [
      | inl t ↦ record {
        closes_within = rw t (omega arith);
        gains = rw t (repay-le-want repay n.bonus h.bonus_above_one);
        seizes_within = rw t (let le = leb→le _ _ t in rw (full) at le);
      }
      | inr f ↦ record {
        closes_within = rw f (cut_le_repay n.amount_eth repay n.bonus pos_b (uncovered f));
        gains = rw f (cut_le n.amount_eth n.bonus h.bonus_above_one);
        seizes_within = rw f (omega arith);
      }
    ]
  where
    uncovered : is_covered decimals repay n ≡ false → n.amount_eth < want repay n.bonus
    uncovered f =
        let gap : available_eth decimals n < want repay n.bonus = ground arith in
        rw (backed_available decimals n h) at gap

module _ (bn : BigNumber) where
  -- For a collateral whose bonus is one or more, which the protocol holds in full, and whose value
  -- was priced at its rate: the calculation asks to repay no more than the liquidator offered, the
  -- return is no less than the repayment, so that the revenue is not negative, and no more than the
  -- value of the deposit.
  pub calculate_profit_bounds :
      (liquidity : TokensLiquidity bn.Num) (repay : bn.Num) (symbol : String)
      (token : ReserveToken bn.Num) (r : ℕ) (n : Figures)
      → Reads bn liquidity token n
      → IsWhole bn repay r
      → IsBacked token.decimal n
      → (return repaid : ℕ) × IsProfit bn
          (calculate_profit bn liquidity repay symbol token)
          return
          repaid
        × (repaid ≤ r)
        × (repaid ≤ return)
        × (return ≤ n.amount_eth)
  calculate_profit_bounds liquidity repay symbol token r n h hr backed =
      let safe = backed-IsSafe token.decimal r n h.bonus_pos backed in
      (
        return_of token.decimal r n,
        repay_of token.decimal r n,
        calculate_profit-IsProfit bn liquidity repay symbol token r n h hr,
        safe.closes_within,
        safe.gains,
        safe.seizes_within,
      )
