-- ===== src/Estimate/Whole.antt =====
-- The estimate of one collateral in whole numbers: the reference that `calculate_profit` is held to.
use native.Mathlib.Nat.{mul-one, div-add-mod', mod-lt, le-div_iff_mul-le, div-lt_iff_lt-mul}
use liquidator.Base.{
  get_or_default, ℕ, zero, suc, String, ◌+◌, ◌*◌, ◌/◌, ◌^◌, ◌≤◌, ◌<◌, ◌≡◌, ap, ◌∙◌, subst, Bool,
  some, leb, ltb, if◌then◌else◌, Bool-cases, inl, inr, arith,
}
use liquidator.Base.Int.{ℤ, pos, negsuc, ◌-ℤ◌, ◌*ℤ◌}
use liquidator.BigNumber.{BigNumber}
use liquidator.BigNumber.Rounding.{nearest, round_half_up, nearest-one}
use liquidator.BigNumber.Amounts.{
  IsWhole, IsWhole_cast, amount_eth, amount_eth-IsWhole, lt-IsWhole, lte-IsWhole,
}
use liquidator.Estimate.{
  ReserveToken, CollateralProfit, TokensLiquidity, lookup_last, min, calculate_profit,
}

-- The numbers of one token: its bonus is in ten thousandths, and `reserve` is what the protocol
-- holds of it.
pub record Figures : Type 0 where
  pub amount : ℕ
  pub amount_eth : ℕ
  pub bonus : ℕ
  pub rate : ℕ
  pub reserve : ℕ

abbrev pub available : Figures → ℕ
available n = if ltb n.reserve n.amount then n.reserve else n.amount

abbrev pub available_eth : ℕ → Figures → ℕ
available_eth decimals n = nearest (available n * n.rate) (10 ^ decimals)

-- What a repayment earns with the bonus on top.
abbrev pub want : ℕ → ℕ → ℕ
want repay bonus = nearest (repay * bonus) 10000

abbrev pub is_covered : ℕ → ℕ → Figures → Bool
is_covered decimals repay n = leb (want repay n.bonus) (available_eth decimals n)

-- What is seized, and what has to be repaid for it.
abbrev pub return_of : ℕ → ℕ → Figures → ℕ
return_of decimals repay n =
    if is_covered decimals repay n then want repay n.bonus else n.amount_eth

abbrev pub repay_of : ℕ → ℕ → Figures → ℕ
repay_of decimals repay n =
    if is_covered decimals repay n then repay else n.amount_eth * 10000 / n.bonus

-- The numbers that a token's texts read as. A bonus of 10 ^ 20 would be a factor of 10 ^ 16.
pub record Reads (bn : BigNumber) (liquidity : TokensLiquidity bn.Num) (token : ReserveToken bn.Num)
    (n : Figures) : Type 0 where
  pub amount : IsWhole bn token.amount n.amount
  pub amount_eth : IsWhole bn token.amount_eth n.amount_eth
  pub bonus : IsWhole bn token.liquidation_bonus n.bonus
  pub rate : IsWhole bn token.rate n.rate
  pub held : bn.Num
  pub found : lookup_last token.contract_address liquidity ≡ some held
  pub reserve : IsWhole bn held n.reserve
  pub bonus_pos : 0 < n.bonus
  pub bonus_small : n.bonus < 2 * 10 ^ 20

pub record IsProfit (bn : BigNumber) (c : CollateralProfit bn.Num) (return repay : ℕ) : Type 0 where
  pub return_eth : IsWhole bn c.return_amount_eth return
  pub repay_eth : IsWhole bn c.max_repay_eth repay
  pub revenue_eth : bn.Denotes c.revenue_eth (pos return -ℤ pos repay) 0

-- Rounding a whole number to no places changes nothing.
pub round_whole : (z : ℤ) → round_half_up (z *ℤ pos (10 ^ 0)) 0 ≡ z
round_whole (pos n) = rw (mul-one, nearest-one)
round_whole (negsuc n) = rw (mul-one, nearest-one)

-- The division at 20 decimal places, cut to a whole number, is the whole quotient.
pub floor_div : (n b : ℕ) → 0 < b → b < 2 * 10 ^ 20 → nearest (n * 10 ^ 20) b / 10 ^ 20 ≡ n / b
unfolding nearest
floor_div n b hb hs =
    let q = div-add-mod' n b in
    let r = mod-lt n {m = b} hb in
    let low : n / b * 10 ^ 20 ≤ (2 * (n * 10 ^ 20) + b) / (2 * b) =
      (le-div_iff_mul-le (omega arith)).1 (omega arith) in
    let high : (2 * (n * 10 ^ 20) + b) / (2 * b) < (n / b + 1) * 10 ^ 20 =
      (div-lt_iff_lt-mul (omega arith)).1 (omega arith) in
    omega arith

floor_scale :
    (e b : ℕ)
    → 0 < b
    → b < 2 * 10 ^ 20
    → nearest (e * 10 ^ 24) (b * 10 ^ 0) * 10 ^ 0 / 10 ^ 20 ≡ e * 10000 / b
floor_scale e b hb hs =
    rw (mul-one, mul-one)
      (ap (λ (t : ℕ). nearest t b / 10 ^ 20)
          (let r : e * 10 ^ 24 ≡ e * 10000 * 10 ^ 20 = omega arith in r)
        ∙ floor_div (e * 10000) b hb hs)

module _ (bn : BigNumber) where
  difference :
      (x y : bn.Num) (m n : ℕ)
      → IsWhole bn x m
      → IsWhole bn y n
      → bn.Denotes (bn.to_fixed 0 (bn.minus x y)) (pos m -ℤ pos n) 0
  difference x y m n hx hy =
      subst (λ z. bn.Denotes (bn.to_fixed 0 (bn.minus x y)) z 0) (round_whole (pos m -ℤ pos n))
        (bn.to_fixed_lem 0 _ _ _ (bn.minus_lem _ _ _ _ _ hx hy))

  whole_text : (x : bn.Num) (n : ℕ) → IsWhole bn x n → IsWhole bn (bn.to_fixed 0 x) n
  whole_text x n h = IsWhole_cast bn _ (rw (mul-one, nearest-one)) (bn.to_fixed_lem 0 _ _ _ h)

  pub min-IsWhole :
      (x y : bn.Num) (m n : ℕ)
      → IsWhole bn x m
      → IsWhole bn y n
      → IsWhole bn (min bn x y) (if ltb n m then n else m)
  unfolding min
  min-IsWhole x y m n hx hy = elim (Bool-cases (ltb n m)) [
    | inl t ↦ rw (t, lt-IsWhole bn y x n m hy hx, t) hy
    | inr f ↦ rw (f, lt-IsWhole bn y x n m hy hx, f) hx
  ]

  available_eth-IsWhole :
      (liquidity : TokensLiquidity bn.Num) (token : ReserveToken bn.Num) (n : Figures)
      → Reads bn liquidity token n
      → IsWhole bn
          (amount_eth bn
            (bn.to_fixed 0 (
              min bn token.amount
                (get_or_default (lookup_last token.contract_address liquidity) (bn.num 0 0))))
            token.decimal
            token.rate)
          (available_eth token.decimal n)
  available_eth-IsWhole liquidity token n h = rw (h.found) (
      amount_eth-IsWhole bn _ _ (available n) token.decimal n.rate
        (whole_text _ _ (min-IsWhole token.amount h.held n.amount n.reserve h.amount h.reserve))
        h.rate)

  want-IsWhole :
      (repay bonus : bn.Num) (r b : ℕ)
      → IsWhole bn repay r
      → IsWhole bn bonus b
      → IsWhole bn (bn.to_fixed 0 (bn.times repay (bn.shifted_down 4 bonus))) (want r b)
  want-IsWhole repay bonus r b hr hb =
      IsWhole_cast bn _ (ap (λ (t : ℕ). nearest t 10000) (mul-one (r * b)))
        (bn.to_fixed_lem 0 _ _ _ (bn.times_lem _ _ _ _ _ _ hr (bn.shifted_down_lem 4 _ _ _ hb)))

  max_repay-IsWhole :
      (eth bonus : bn.Num) (e b : ℕ)
      → IsWhole bn eth e
      → IsWhole bn bonus b
      → 0 < b
      → b < 2 * 10 ^ 20
      → IsWhole bn (bn.to_fixed_down 0 (bn.div eth (bn.shifted_down 4 bonus))) (e * 10000 / b)
  max_repay-IsWhole eth bonus e zero he hb pos_b small = elim pos_b [ ]
  max_repay-IsWhole eth bonus e (suc b) he hb pos_b small =
      IsWhole_cast bn _ (floor_scale e (suc b) pos_b small)
        (bn.to_fixed_down_lem 0 _ _ _ (bn.div_lem _ _ _ _ _ _ he (bn.shifted_down_lem 4 _ _ _ hb)))

  -- For a token whose texts read as whole numbers, `calculate_profit` computes the reference: the
  -- return, the repayment and the revenue, on the branch where the liquidity covers what is wanted
  -- and on the other.
  pub calculate_profit-IsProfit :
      (liquidity : TokensLiquidity bn.Num) (repay : bn.Num) (symbol : String)
      (token : ReserveToken bn.Num) (r : ℕ) (n : Figures)
      → Reads bn liquidity token n
      → IsWhole bn repay r
      → IsProfit bn
          (calculate_profit bn liquidity repay symbol token)
          (return_of token.decimal r n)
          (repay_of token.decimal r n)
  unfolding calculate_profit
  calculate_profit-IsProfit liquidity repay symbol token r n h hr =
      let wanted = want-IsWhole repay token.liquidation_bonus r n.bonus hr h.bonus in
      let test = lte-IsWhole bn _ _ _ _ wanted (available_eth-IsWhole liquidity token n h) in
      let cut =
        max_repay-IsWhole token.amount_eth token.liquidation_bonus n.amount_eth n.bonus h.amount_eth
          h.bonus h.bonus_pos h.bonus_small in
      elim (Bool-cases (is_covered token.decimal r n)) [
        | inl t ↦
            rw (t, test, t)
              (record {
                return_eth = wanted;
                repay_eth = hr;
                revenue_eth = difference _ _ _ _ wanted hr;
              })
        | inr f ↦
            rw (f, test, f)
              (record {
                return_eth = h.amount_eth;
                repay_eth = cut;
                revenue_eth = difference _ _ _ _ h.amount_eth cut;
              })
      ]
