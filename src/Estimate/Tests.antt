-- ===== src/Estimate/Tests.antt =====
-- The estimate on concrete users, with numbers of two decimal places and small rates.
use liquidator.Base.{
  ℕ, String, ◌*◌, ◌^◌, ◌≤◌, ◌<◌, Any, ◌⊎◌, ◌/◌, ◌≡◌, refl, true, some, List, [], ◌∷◌, ◌++◌, map,
  arith,
}
use liquidator.Base.Int.{pos, ◌-ℤ◌}
use liquidator.BigNumber.Rounding.{nearest}
use liquidator.BigNumber.Amounts.{IsWhole, amount_eth, amount_of_eth}
use liquidator.BigNumber.Exact.{exact, Decimal, align, quotient}
use liquidator.Estimate.{
  ReserveToken, TokensLiquidity, lookup_last, min, calculate_profit, take_profit, profit_loop,
  get_max_collateral_profit, debt_to_cover_eth, take_debt, debt_loop, is_zero,
  estimate_with_liquidity,
}
use liquidator.Estimate.Whole.{
  Figures, Reads, IsProfit, return_of, repay_of, calculate_profit-IsProfit,
}
use liquidator.Estimate.Profit.{IsBacked, calculate_profit_bounds}
use liquidator.Estimate.Best.{calculation, Reports, get_max_collateral_profit-Reports}
use liquidator.Estimate.Choice.{IsBest, debt_to_cover_eth-IsWhole, estimate_with_liquidity-IsBest}
use liquidator.Estimate.Flaws.{greater_revenue_dropped, repayment_exceeds_offer}

abbrev amount : ℕ → Decimal
amount n = (pos n, 0)

-- A deposit of 1000 units with 2 decimals, priced at 3 native coins a unit: worth 30.
abbrev deposit : ReserveToken Decimal
deposit = record {
  symbol = "DAI";
  contract_address = "0xd";
  decimal = 2;
  liquidation_bonus = amount 10500;
  amount = amount 1000;
  amount_eth = amount 30;
  rate = amount 3;
}

abbrev figures : Figures
figures = record { amount = 1000; amount_eth = 30; bonus = 10500; rate = 3; reserve = 5000 }

abbrev liquidity : TokensLiquidity Decimal
liquidity = ("0xd", amount 5000) ∷ ("0xe", amount 0) ∷ []

deposit-Reads : Reads exact liquidity deposit figures
unfolding lookup_last
deposit-Reads = record {
  amount = refl;
  amount_eth = refl;
  bonus = refl;
  rate = refl;
  held = amount 5000;
  found = refl;
  reserve = refl;
  bonus_pos = omega arith;
  bonus_small = omega arith;
}

calculate_profit-IsProfit_example :
    IsProfit exact
      (calculate_profit exact liquidity (amount 20) "DAI" deposit)
      (return_of 2 20 figures)
      (repay_of 2 20 figures)
calculate_profit-IsProfit_example =
    calculate_profit-IsProfit exact liquidity (amount 20) "DAI" deposit 20 figures deposit-Reads
      refl

figures-IsBacked : IsBacked 2 figures
unfolding nearest
figures-IsBacked = record { held = omega arith; priced = refl; bonus_above_one = omega arith }

calculate_profit_bounds_example :
    (return repaid : ℕ) × IsProfit exact
      (calculate_profit exact liquidity (amount 20) "DAI" deposit)
      return
      repaid
    × (repaid ≤ 20)
    × (repaid ≤ return)
    × (return ≤ 30)
calculate_profit_bounds_example =
    calculate_profit_bounds exact liquidity (amount 20) "DAI" deposit 20 figures deposit-Reads refl
      figures-IsBacked

abbrev deposits : List (String × ReserveToken Decimal)
deposits = ("DAI", deposit) ∷ []

get_max_collateral_profit-Reports_example :
    let best = get_max_collateral_profit exact liquidity deposits (amount 20) in
    (best.calculations ≡ map (calculation exact liquidity (amount 20)) deposits)
    × ((best.max_revenue_deposit_address ≡ "0")
          × (best.max_revenue_eth ≡ amount 0)
          × (best.repay_eth ≡ amount 20)
        ⊎ Any
            (λ e.
              Reports exact liquidity (amount 20) best (calculation exact liquidity (amount 20) e))
            deposits)
get_max_collateral_profit-Reports_example =
    get_max_collateral_profit-Reports exact liquidity (amount 20) deposits

-- A debt of 120 units with one decimal at 4 native coins a unit: half of it is worth 24.
abbrev loan : ReserveToken Decimal
loan = record {
  symbol = "WETH";
  contract_address = "0xe";
  decimal = 1;
  liquidation_bonus = amount 10500;
  amount = amount 120;
  amount_eth = amount 48;
  rate = amount 4;
}

abbrev loans : List (String × ReserveToken Decimal)
loans = ("WETH", loan) ∷ []

loan_offer : IsWhole exact (debt_to_cover_eth exact loan) (nearest (120 / 2 * 4) (10 ^ 1))
loan_offer = debt_to_cover_eth-IsWhole exact loan 120 4 refl refl

estimate_with_liquidity-IsBest_example :
    IsBest exact liquidity deposits loans
      (estimate_with_liquidity exact liquidity (record { collateral = deposits; debt = loans }))
estimate_with_liquidity-IsBest_example =
    estimate_with_liquidity-IsBest exact liquidity deposits loans ((figures, deposit-Reads), tt)
      ((120, 4, refl, refl), tt)

-- 24 native coins are repaid for 25, which 6 hundred base units of the debt cover.
estimate_of_loan :
    estimate_with_liquidity exact liquidity (record { collateral = deposits; debt = loans })
    ≡ some (record {
      collateral_asset = "0xd";
      debt_asset = "0xe";
      debt_to_cover = amount 60;
      max_revenue_eth = amount 1;
    })
unfolding estimate_with_liquidity debt_loop take_debt get_max_collateral_profit profit_loop
    take_profit calculate_profit debt_to_cover_eth amount_eth amount_of_eth lookup_last min is_zero
    nearest align quotient ◌-ℤ◌
estimate_of_loan = refl

-- The same deposit with a smaller bonus, which earns nothing on a repayment of 24.
abbrev cheap : ReserveToken Decimal
cheap = record deposit { liquidation_bonus = amount 10100 }

greater_revenue_dropped_example :
    let before = get_max_collateral_profit exact liquidity deposits (amount 24) in
    let after =
      get_max_collateral_profit exact liquidity (deposits ++ (("USD", cheap) ∷ [])) (amount 24) in
    exact.lt after.max_revenue_eth before.max_revenue_eth ≡ true
unfolding get_max_collateral_profit profit_loop take_profit calculate_profit amount_eth lookup_last
    min nearest align ◌-ℤ◌
greater_revenue_dropped_example =
    greater_revenue_dropped exact liquidity (amount 24) deposits ("USD", cheap) (pos 1) (pos 0)
      (pos 24) refl refl refl refl refl

-- The protocol holds none of this token.
abbrev illiquid : ReserveToken Decimal
illiquid = record deposit { contract_address = "0xe" }

abbrev illiquid_figures : Figures
illiquid_figures = record figures { reserve = 0 }

illiquid-Reads : Reads exact liquidity illiquid illiquid_figures
unfolding lookup_last
illiquid-Reads = record {
  amount = refl;
  amount_eth = refl;
  bonus = refl;
  rate = refl;
  held = amount 0;
  found = refl;
  reserve = refl;
  bonus_pos = omega arith;
  bonus_small = omega arith;
}

repayment_exceeds_offer_example :
    let c = calculate_profit exact liquidity (amount 20) "DAI" illiquid in
    IsWhole exact c.return_amount_eth 30 × ((m : ℕ) × IsWhole exact c.max_repay_eth m × (20 < m))
unfolding nearest
repayment_exceeds_offer_example =
    repayment_exceeds_offer exact liquidity (amount 20) "DAI" illiquid 20 illiquid_figures
      illiquid-Reads refl (omega arith) (omega arith)
