-- ===== src/Estimate/Flaws.antt =====
-- Where the estimate does not do what its names say: it compares a return with a revenue, and it
-- leaves the protocol's liquidity out of the return.
use native.Mathlib.Nat.{le-div_iff_mul-le}
use liquidator.Base.{
  ℕ, suc, String, ◌*◌, ◌/◌, ◌≤◌, ◌<◌, ◌≡◌, refl, ◌∙◌, true, false, List, [], ◌∷◌, ◌++◌, arith,
}
use liquidator.Base.Int.{ℤ, ltb_ℤ}
use liquidator.BigNumber.{BigNumber}
use liquidator.BigNumber.Amounts.{IsWhole, lt-Denotes}
use liquidator.Estimate.{
  ReserveToken, MaxCollateralProfit, TokensLiquidity, calculate_profit, take_profit, profit_loop,
  get_max_collateral_profit,
}
use liquidator.Estimate.Whole.{
  Figures, available_eth, want, is_covered, Reads, calculate_profit-IsProfit,
}
use liquidator.Estimate.Best.{calculation, Reports}

module _ (bn : BigNumber) (liquidity : TokensLiquidity bn.Num) (repay : bn.Num) where
  loop-append :
      (cs : List (String × ReserveToken bn.Num)) (e : String × ReserveToken bn.Num)
      (best : MaxCollateralProfit bn.Num)
      → profit_loop bn liquidity repay (cs ++ (e ∷ [])) best
        ≡ take_profit bn (profit_loop bn liquidity repay cs best) (calculation bn liquidity repay e)
  unfolding profit_loop
  loop-append [] e best = refl
  loop-append (c ∷ cs) e best =
      loop-append cs e (take_profit bn best (calculation bn liquidity repay c))

  last_collateral_wins :
      (cs : List (String × ReserveToken bn.Num)) (e : String × ReserveToken bn.Num)
      → bn.lt
          (get_max_collateral_profit bn liquidity cs repay).max_revenue_eth
          (calculation bn liquidity repay e).return_amount_eth
        ≡ true
      → Reports bn liquidity repay
          (get_max_collateral_profit bn liquidity (cs ++ (e ∷ [])) repay)
          (calculation bn liquidity repay e)
  unfolding get_max_collateral_profit take_profit
  last_collateral_wins cs e h = rw (loop-append cs e) (rw h (refl, refl, refl))

  -- A collateral that stands last, and whose return passes the best revenue so far, replaces it also
  -- where its own revenue is smaller: the revenue that `_getMaxCollateralProfit` reports then is the
  -- smaller one.
  pub greater_revenue_dropped :
      (cs : List (String × ReserveToken bn.Num)) (e : String × ReserveToken bn.Num)
      (best revenue return : ℤ)
      → bn.Denotes (get_max_collateral_profit bn liquidity cs repay).max_revenue_eth best 0
      → bn.Denotes (calculation bn liquidity repay e).revenue_eth revenue 0
      → bn.Denotes (calculation bn liquidity repay e).return_amount_eth return 0
      → ltb_ℤ revenue best ≡ true
      → ltb_ℤ best return ≡ true
      → let before = get_max_collateral_profit bn liquidity cs repay in
        let after = get_max_collateral_profit bn liquidity (cs ++ (e ∷ [])) repay in
        bn.lt after.max_revenue_eth before.max_revenue_eth ≡ true
  greater_revenue_dropped cs e best revenue return hb hv ht less passes =
      let wins = last_collateral_wins cs e (lt-Denotes bn _ _ _ _ hb ht ∙ passes) in
      rw (wins.1) (lt-Denotes bn _ _ _ _ hv hb ∙ less)

  -- Where the protocol cannot pay out what is wanted, the whole deposit is reckoned with all the same,
  -- and if it is worth the offer and one base unit more, with the bonus, or above that, the repayment
  -- that is reported is greater than what the liquidator offered to repay.
  pub repayment_exceeds_offer :
      (symbol : String) (token : ReserveToken bn.Num) (r : ℕ) (n : Figures)
      → Reads bn liquidity token n
      → IsWhole bn repay r
      → available_eth token.decimal n < want r n.bonus
      → suc r * n.bonus ≤ n.amount_eth * 10000
      → let c = calculate_profit bn liquidity repay symbol token in
        IsWhole bn c.return_amount_eth n.amount_eth
        × ((m : ℕ) × IsWhole bn c.max_repay_eth m × (r < m))
  repayment_exceeds_offer symbol token r n h hr short worth =
      let p = calculate_profit-IsProfit bn liquidity repay symbol token r n h hr in
      let f : is_covered token.decimal r n ≡ false = ground arith in
      (
        rw f at p.return_eth,
        (
          n.amount_eth * 10000 / n.bonus,
          rw f at p.repay_eth,
          (le-div_iff_mul-le h.bonus_pos).1 worth,
        ),
      )
