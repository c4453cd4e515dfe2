-- ===== src/Estimate.antt =====
-- src/database/UserAccount.ts, `getEstimatedLiquidateDataWithMaxRevenue`: which collateral to seize
-- for which debt of a user, and how much debt to cover. An object keyed by symbols is the list of
-- its entries in their order.
pub mod Whole
pub mod Profit
pub mod Best
pub mod Choice
pub mod Flaws
pub mod Tests
use liquidator.Base.{
  ℕ, String, Bool, ◌&&◌, Option, none, some, List, [], ◌∷◌, ◌++◌, map, str_eq, get_or_default,
  if◌then◌else◌,
}
use liquidator.Base.Results.{Result, ok, err, ◌>>=◌}
use liquidator.BigNumber.{BigNumber}
use liquidator.BigNumber.Amounts.{amount_eth, amount_of_eth}

-- `IGetUserReserveToken`
pub record ReserveToken (Num : Type 0) : Type 0 where
  pub symbol : String
  pub contract_address : String
  pub decimal : ℕ
  pub liquidation_bonus : Num
  pub amount : Num
  pub amount_eth : Num
  pub rate : Num

-- `IGetUserReserve`
pub record UserReserve (Num : Type 0) : Type 0 where
  pub collateral : List (String × ReserveToken Num)
  pub debt : List (String × ReserveToken Num)

-- `ICollateralProfit`
pub record CollateralProfit (Num : Type 0) : Type 0 where
  pub symbol : String
  pub contract_address : String
  pub return_amount_eth : Num
  pub max_repay_eth : Num
  pub revenue_eth : Num

-- `IGetMaxCollateralProfit`
pub record MaxCollateralProfit (Num : Type 0) : Type 0 where
  pub calculations : List (CollateralProfit Num)
  pub max_revenue_deposit_address : String
  pub max_revenue_eth : Num
  pub repay_eth : Num

-- `IGetEstimatedLiquidateData`
pub record LiquidateData (Num : Type 0) : Type 0 where
  pub collateral_asset : String
  pub debt_asset : String
  pub debt_to_cover : Num
  pub max_revenue_eth : Num

-- `tokensLiquidity`: what the protocol holds of each token, by its address.
abbrev pub TokensLiquidity : Type 0 → Type 0
TokensLiquidity Num = List (String × Num)

module _ {Num : Type 0} where
  -- `tokensLiquidity[address]`: a later entry of the same key overwrites an earlier one.
  unfoldable pub lookup_last : String → TokensLiquidity Num → Option Num
  lookup_last address [] = none
  lookup_last address ((a, v) ∷ rest) = elim (lookup_last address rest) [
    | some w ↦ some w
    | none ↦ if str_eq a address then some v else none
  ]

  -- The loop that asks for the liquidity of every token of the user; any failure fails the whole.
  unfoldable pub collect_liquidity :
      (String → Result Num) → List (String × ReserveToken Num) → Result (TokensLiquidity Num)
  collect_liquidity get_available_liquidity [] = ok []
  collect_liquidity get_available_liquidity ((symbol, token) ∷ rest) =
      get_available_liquidity token.contract_address >>= λ value.
      collect_liquidity get_available_liquidity rest >>= λ items.
      ok ((token.contract_address, value) ∷ items)

module _ (bn : BigNumber) where
  open bn use {Num, num, plus, minus, times, div, shifted_down, to_fixed, to_fixed_down, lt, lte}

  -- `BigNumber.min`
  unfoldable pub min : Num → Num → Num
  min x y = if lt y x then y else x

  -- What the loop of `_getMaxCollateralProfit` works out for one collateral.
  unfoldable pub calculate_profit :
      TokensLiquidity Num → Num → String → ReserveToken Num → CollateralProfit Num
  calculate_profit tokens_liquidity liquidator_can_repay_eth symbol token =
      let protocol_reserve =
        get_or_default (lookup_last token.contract_address tokens_liquidity) (num 0 0) in
      let available_to_pay = to_fixed 0 (min token.amount protocol_reserve) in
      let available_to_pay_eth = amount_eth bn available_to_pay token.decimal token.rate in
      let bonus_ratio = shifted_down 4 token.liquidation_bonus in
      let want = to_fixed 0 (times liquidator_can_repay_eth bonus_ratio) in
      let max_repay_eth = to_fixed_down 0 (div token.amount_eth bonus_ratio) in
      if lte want available_to_pay_eth
      then record {
        symbol = symbol;
        contract_address = token.contract_address;
        return_amount_eth = want;
        max_repay_eth = liquidator_can_repay_eth;
        revenue_eth = to_fixed 0 (minus want liquidator_can_repay_eth);
      }
      else record {
        symbol = symbol;
        contract_address = token.contract_address;
        return_amount_eth = token.amount_eth;
        max_repay_eth = max_repay_eth;
        revenue_eth = to_fixed 0 (minus token.amount_eth max_repay_eth);
      }

  -- One round of its loop: the collateral is taken if its return passes the best revenue so far.
  unfoldable pub take_profit :
      MaxCollateralProfit Num → CollateralProfit Num → MaxCollateralProfit Num
  take_profit best calculation =
      let pushed = record best { calculations = best.calculations ++ (calculation ∷ []) } in
      if lt best.max_revenue_eth calculation.return_amount_eth
      then record pushed {
        max_revenue_deposit_address = calculation.contract_address;
        max_revenue_eth = calculation.revenue_eth;
        repay_eth = calculation.max_repay_eth;
      }
      else pushed

  unfoldable pub profit_loop :
      TokensLiquidity Num
      → Num
      → List (String × ReserveToken Num)
      → MaxCollateralProfit Num
      → MaxCollateralProfit Num
  profit_loop liquidity repay [] best = best
  profit_loop liquidity repay ((symbol, token) ∷ rest) best =
      profit_loop liquidity repay rest
        (take_profit best (calculate_profit liquidity repay symbol token))

  -- `_getMaxCollateralProfit`
  unfoldable pub get_max_collateral_profit :
      TokensLiquidity Num → List (String × ReserveToken Num) → Num → MaxCollateralProfit Num
  get_max_collateral_profit liquidity collateral liquidator_can_repay_eth =
      profit_loop liquidity liquidator_can_repay_eth collateral (record {
        calculations = [];
        max_revenue_deposit_address = "0";
        max_revenue_eth = num 0 0;
        repay_eth = liquidator_can_repay_eth;
      })

  -- Half of a debt, in the native coin.
  unfoldable pub debt_to_cover_eth : ReserveToken Num → Num
  debt_to_cover_eth token =
      amount_eth bn (to_fixed_down 0 (times token.amount (num 5 1))) token.decimal token.rate

  -- One round of the loop over the debts.
  unfoldable pub take_debt :
      TokensLiquidity Num
      → List (String × ReserveToken Num)
      → LiquidateData Num
      → ReserveToken Num
      → LiquidateData Num
  take_debt liquidity collateral best token =
      let profit = get_max_collateral_profit liquidity collateral (debt_to_cover_eth token) in
      if lt best.max_revenue_eth profit.max_revenue_eth
      then record {
        collateral_asset = profit.max_revenue_deposit_address;
        debt_asset = token.contract_address;
        debt_to_cover = amount_of_eth bn profit.repay_eth token.decimal token.rate;
        max_revenue_eth = profit.max_revenue_eth;
      }
      else best

  unfoldable pub debt_loop :
      TokensLiquidity Num
      → List (String × ReserveToken Num)
      → List (String × ReserveToken Num)
      → LiquidateData Num
      → LiquidateData Num
  debt_loop liquidity collateral [] best = best
  debt_loop liquidity collateral ((symbol, token) ∷ rest) best =
      debt_loop liquidity collateral rest (take_debt liquidity collateral best token)

  -- `maxRevenueETH === '0'`, on the text of a whole number.
  unfoldable pub is_zero : Num → Bool
  is_zero x = lte x (num 0 0) && lte (num 0 0) x

  -- The values that the loop over the debts begins with.
  abbrev pub no_estimate : LiquidateData Num
  no_estimate = record {
    collateral_asset = "0x";
    debt_asset = "0x";
    debt_to_cover = num 0 0;
    max_revenue_eth = num 0 0;
  }

  -- What is returned once the liquidity is known; `none` is the source's `false`.
  unfoldable pub estimate_with_liquidity :
      TokensLiquidity Num → UserReserve Num → Option (LiquidateData Num)
  estimate_with_liquidity liquidity reserves =
      let best = debt_loop liquidity reserves.collateral reserves.debt no_estimate in
      if is_zero best.max_revenue_eth then none else some best

  -- `getEstimatedLiquidateDataWithMaxRevenue`
  unfoldable pub get_estimated_liquidate_data_with_max_revenue :
      (String → Result Num) → UserReserve Num → Result (Option (LiquidateData Num))
  get_estimated_liquidate_data_with_max_revenue get_available_liquidity reserves =
      collect_liquidity get_available_liquidity (reserves.collateral ++ reserves.debt)
      >>= λ liquidity. ok (estimate_with_liquidity liquidity reserves)
