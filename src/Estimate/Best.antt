-- ===== src/Estimate/Best.antt =====
-- The loop of `_getMaxCollateralProfit`: what it reports is one of the calculations.
use liquidator.Base.{
  ℕ, String, ◌≡◌, refl, sym, ◌∙◌, ◌⊎◌, inl, inr, List, [], ◌∷◌, ◌++◌, map, All, Any, Bool-cases,
  arith,
}
use mathlib.Core.List.{append_assoc, append-nil}
use liquidator.Base.Int.{ℤ, pos}
use liquidator.BigNumber.{BigNumber}
use liquidator.BigNumber.Amounts.{IsWhole}
use liquidator.Estimate.{
  ReserveToken, CollateralProfit, MaxCollateralProfit, TokensLiquidity, calculate_profit,
  take_profit, profit_loop, get_max_collateral_profit,
}
use liquidator.Estimate.Whole.{Figures, Reads, calculate_profit-IsProfit}

module _ (bn : BigNumber) (liquidity : TokensLiquidity bn.Num) (repay : bn.Num) where
  abbrev pub calculation : String × ReserveToken bn.Num → CollateralProfit bn.Num
  calculation entry = calculate_profit bn liquidity repay entry.0 entry.1

  -- The three values that the loop reports are those of one calculation.
  abbrev pub Reports : MaxCollateralProfit bn.Num → CollateralProfit bn.Num → Type 0
  Reports best c =
      (best.max_revenue_deposit_address ≡ c.contract_address)
      × (best.max_revenue_eth ≡ c.revenue_eth)
      × (best.repay_eth ≡ c.max_repay_eth)

  abbrev pub Same : MaxCollateralProfit bn.Num → MaxCollateralProfit bn.Num → Type 0
  Same a b =
      (a.max_revenue_deposit_address ≡ b.max_revenue_deposit_address)
      × (a.max_revenue_eth ≡ b.max_revenue_eth)
      × (a.repay_eth ≡ b.repay_eth)

  take_profit-calculations :
      (best : MaxCollateralProfit bn.Num) (c : CollateralProfit bn.Num)
      → (take_profit bn best c).calculations ≡ best.calculations ++ (c ∷ [])
  unfolding take_profit
  take_profit-calculations best c = ground arith

  loop-calculations :
      (cs : List (String × ReserveToken bn.Num)) (best : MaxCollateralProfit bn.Num)
      → (profit_loop bn liquidity repay cs best).calculations
        ≡ best.calculations ++ map calculation cs
  unfolding profit_loop
  loop-calculations [] best = sym (append-nil _)
  loop-calculations (e ∷ cs) best =
      loop-calculations cs (take_profit bn best (calculation e))
      ∙ rw (take_profit-calculations best (calculation e))
          (append_assoc best.calculations (calculation e ∷ []) (map calculation cs))

  take_profit_cases :
      (best : MaxCollateralProfit bn.Num) (c : CollateralProfit bn.Num)
      → Same (take_profit bn best c) best ⊎ Reports (take_profit bn best c) c
  unfolding take_profit
  take_profit_cases best c = elim (Bool-cases (bn.lt best.max_revenue_eth c.return_amount_eth)) [
    | inl t ↦ inr (rw t (refl, refl, refl))
    | inr f ↦ inl (rw f (refl, refl, refl))
  ]

  loop-Reports :
      (cs : List (String × ReserveToken bn.Num)) (best : MaxCollateralProfit bn.Num)
      → let end = profit_loop bn liquidity repay cs best in
        Same end best ⊎ Any (λ e. Reports end (calculation e)) cs
  unfolding profit_loop
  loop-Reports [] best = inl (refl, refl, refl)
  loop-Reports (e ∷ cs) best =
      let next = take_profit bn best (calculation e) in
      elim (loop-Reports cs next) [
        | inr later ↦ inr (inr later)
        | inl kept ↦ elim (take_profit_cases best (calculation e)) [
          | inl same ↦ inl (kept.0 ∙ same.0, kept.1 ∙ same.1, kept.2 ∙ same.2)
          | inr now ↦ inr (inl (kept.0 ∙ now.0, kept.1 ∙ now.1, kept.2 ∙ now.2))
        ]
      ]

  -- `_getMaxCollateralProfit` lists the calculation of every collateral in order, and the address,
  -- revenue and repayment that it reports are together those of one collateral, or else the initial
  -- ones: the address "0", no revenue and the whole repayment.
  pub get_max_collateral_profit-Reports :
      (cs : List (String × ReserveToken bn.Num))
      → let best = get_max_collateral_profit bn liquidity cs repay in
        (best.calculations ≡ map calculation cs)
        × ((best.max_revenue_deposit_address ≡ "0")
              × (best.max_revenue_eth ≡ bn.num 0 0)
              × (best.repay_eth ≡ repay)
            ⊎ Any (λ e. Reports best (calculation e)) cs)
  unfolding get_max_collateral_profit
  get_max_collateral_profit-Reports cs = (loop-calculations cs _, loop-Reports cs _)

  -- A value that holds initially and of every calculation holds of what is reported.
  pub Reports_elim :
      (P : bn.Num → bn.Num → Type 0) (cs : List (String × ReserveToken bn.Num))
      → P (bn.num 0 0) repay
      → All (λ e. P (calculation e).revenue_eth (calculation e).max_repay_eth) cs
      → let best = get_max_collateral_profit bn liquidity cs repay in
        P best.max_revenue_eth best.repay_eth
  Reports_elim P cs start each =
      let best = get_max_collateral_profit bn liquidity cs repay in
      elim (get_max_collateral_profit-Reports cs).1 [
        | inl initial ↦ rw (initial.1, initial.2) start
        | inr one ↦ of_any best cs each one
      ]
    where
      of_any :
          (best : MaxCollateralProfit bn.Num) (l : List (String × ReserveToken bn.Num))
          → All (λ e. P (calculation e).revenue_eth (calculation e).max_repay_eth) l
          → Any (λ e. Reports best (calculation e)) l
          → P best.max_revenue_eth best.repay_eth
      of_any best [] a h = elim h [ ]
      of_any best (e ∷ l) a (inl h) = rw (h.1, h.2) a.0
      of_any best (e ∷ l) a (inr h) = of_any best l a.1 h

-- Every collateral reads as whole numbers.
abbrev pub ReadsAll :
    (bn : BigNumber) → TokensLiquidity bn.Num → List (String × ReserveToken bn.Num) → Type 0
ReadsAll bn liquidity = All (λ e. (n : Figures) × Reads bn liquidity e.1 n)

-- A revenue that is an integer, and a repayment that is a whole number.
abbrev pub AreIntegers : (bn : BigNumber) → bn.Num → bn.Num → Type 0
AreIntegers bn revenue repaid = ((z : ℤ) × bn.Denotes revenue z 0) × ((m : ℕ) × IsWhole bn repaid m)

module _ (bn : BigNumber) (liquidity : TokensLiquidity bn.Num) (repay : bn.Num) where
  each_AreIntegers :
      (r : ℕ) (cs : List (String × ReserveToken bn.Num))
      → ReadsAll bn liquidity cs
      → IsWhole bn repay r
      → All
          (λ e.
            let c = calculate_profit bn liquidity repay e.0 e.1 in
            AreIntegers bn c.revenue_eth c.max_repay_eth)
          cs
  each_AreIntegers r [] h hr = tt
  each_AreIntegers r (e ∷ cs) h hr =
      let p = calculate_profit-IsProfit bn liquidity repay e.0 e.1 r h.0.0 h.0.1 hr in
      (((_, p.revenue_eth), (_, p.repay_eth)), each_AreIntegers r cs h.1 hr)

  pub get_max_collateral_profit-AreIntegers :
      (r : ℕ) (cs : List (String × ReserveToken bn.Num))
      → ReadsAll bn liquidity cs
      → IsWhole bn repay r
      → let best = get_max_collateral_profit bn liquidity cs repay in
        AreIntegers bn best.max_revenue_eth best.repay_eth
  get_max_collateral_profit-AreIntegers r cs h hr =
      Reports_elim bn liquidity repay (AreIntegers bn) cs ((pos 0, bn.num_lem 0 0), (r, hr))
        (each_AreIntegers r cs h hr)
