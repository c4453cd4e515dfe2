-- ===== src/Estimate/Choice.antt =====
-- The loop over the debts: the estimate takes the debt with the greatest revenue reported.
use liquidator.Base.{
  ℕ, String, ◌*◌, ◌/◌, ◌^◌, ◌≢◌, ◌≡◌, refl, sym, ◌∙◌, subst, ◌⊎◌, inl, inr, true, false, ◌&&◌,
  Option, none, some, List, [], ◌∷◌, All, Any, Bool-cases, arith,
}
use liquidator.Base.Int.{ℤ, pos, ◌≤ℤ◌, ltb_ℤ, leb_ℤ}
use liquidator.BigNumber.{BigNumber}
use liquidator.BigNumber.Rounding.{nearest}
use liquidator.BigNumber.Amounts.{
  IsWhole, IsWhole_cast, amount_eth-IsWhole, amount_of_eth, lt-Denotes, lte-Denotes,
}
use liquidator.Estimate.{
  ReserveToken, MaxCollateralProfit, LiquidateData, TokensLiquidity, get_max_collateral_profit,
  debt_to_cover_eth, take_debt, debt_loop, no_estimate, is_zero, estimate_with_liquidity,
}
use liquidator.Estimate.Best.{ReadsAll, get_max_collateral_profit-AreIntegers}

-- The debt's amount and rate are whole numbers.
abbrev pub IsDebt : (bn : BigNumber) → ReserveToken bn.Num → Type 0
IsDebt bn t = (a : ℕ) × (p : ℕ) × IsWhole bn t.amount a × IsWhole bn t.rate p

module _ (bn : BigNumber) where
  -- For a debt of a whole amount, what is offered to be repaid is the price of half of the amount,
  -- rounded down to a base unit before it is priced.
  pub debt_to_cover_eth-IsWhole :
      (t : ReserveToken bn.Num) (a p : ℕ)
      → IsWhole bn t.amount a
      → IsWhole bn t.rate p
      → IsWhole bn (debt_to_cover_eth bn t) (nearest (a / 2 * p) (10 ^ t.decimal))
  unfolding debt_to_cover_eth
  debt_to_cover_eth-IsWhole t a p ha hp =
      amount_eth-IsWhole bn _ _ (a / 2) t.decimal p
        (IsWhole_cast bn _ half
          (bn.to_fixed_down_lem 0 _ _ _ (bn.times_lem _ _ _ _ _ _ ha (bn.num_lem 5 1))))
        hp
    where
      half : a * 5 * 1 / 10 ≡ a / 2
      half = omega arith

zero_le : (z : ℤ) → (leb_ℤ z (pos 0) && leb_ℤ (pos 0) z) ≡ true → z ≤ℤ pos 0
zero_le z h = ground arith

one_le : (z : ℤ) → (leb_ℤ z (pos 0) && leb_ℤ (pos 0) z) ≡ false → pos 0 ≤ℤ z → pos 1 ≤ℤ z
one_le z h k = ground arith

not_zero : (z : ℤ) → (leb_ℤ z (pos 0) && leb_ℤ (pos 0) z) ≡ false → z ≢ pos 0
not_zero z h e = ground arith

module _ (bn : BigNumber) (liquidity : TokensLiquidity bn.Num)
    (collateral : List (String × ReserveToken bn.Num)) where
  -- What `_getMaxCollateralProfit` reports for the offer of a debt, which need not be the best of its
  -- collaterals.
  abbrev pub profit : ReserveToken bn.Num → MaxCollateralProfit bn.Num
  profit t = get_max_collateral_profit bn liquidity collateral (debt_to_cover_eth bn t)

  -- The revenue that is reported for a debt is an integer that is at most z.
  abbrev pub RevenueAtMost : ℤ → String × ReserveToken bn.Num → Type 0
  RevenueAtMost z e = (w : ℤ) × bn.Denotes (profit e.1).max_revenue_eth w 0 × (w ≤ℤ z)

  -- The four values of the estimate are what is reported for one debt.
  abbrev pub Chosen : LiquidateData bn.Num → String × ReserveToken bn.Num → Type 0
  Chosen d e =
      (d.collateral_asset ≡ (profit e.1).max_revenue_deposit_address)
      × (d.debt_asset ≡ e.1.contract_address)
      × (d.debt_to_cover ≡ amount_of_eth bn (profit e.1).repay_eth e.1.decimal e.1.rate)
      × (d.max_revenue_eth ≡ (profit e.1).max_revenue_eth)

  -- What is known of the best debt z among those seen, which began at the best of old value z₀.
  abbrev Improves :
      ℤ
      → ℤ
      → LiquidateData bn.Num
      → List (String × ReserveToken bn.Num)
      → LiquidateData bn.Num
      → Type 0
  Improves z₀ z best ds end =
      bn.Denotes end.max_revenue_eth z 0
      × (z₀ ≤ℤ z)
      × All (RevenueAtMost z) ds
      × ((end ≡ best) × (z ≡ z₀) ⊎ (ltb_ℤ z₀ z ≡ true) × Any (Chosen end) ds)

  profit_value :
      ReadsAll bn liquidity collateral
      → (t : ReserveToken bn.Num) → IsDebt bn t
      → (w : ℤ) × bn.Denotes (profit t).max_revenue_eth w 0
  profit_value hc t d =
      (get_max_collateral_profit-AreIntegers bn liquidity (debt_to_cover_eth bn t) _ collateral hc
        (debt_to_cover_eth-IsWhole bn t d.0 d.1 d.2 d.3)).0

  at_most_mono :
      (z z' : ℤ) (ds : List (String × ReserveToken bn.Num))
      → z ≤ℤ z'
      → All (RevenueAtMost z) ds
      → All (RevenueAtMost z') ds
  at_most_mono z z' [] h a = tt
  at_most_mono z z' (e ∷ ds) h a =
      ((a.0.0, a.0.1, omega (arith, a.0.2)), at_most_mono z z' ds h a.1)

  take_debt-Improves :
      (best : LiquidateData bn.Num) (z₀ w : ℤ) (e : String × ReserveToken bn.Num)
      → bn.Denotes best.max_revenue_eth z₀ 0
      → bn.Denotes (profit e.1).max_revenue_eth w 0
      → let next = take_debt bn liquidity collateral best e.1 in
        (ltb_ℤ z₀ w ≡ true) × Chosen next e × bn.Denotes next.max_revenue_eth w 0
        ⊎ (w ≤ℤ z₀) × (next ≡ best)
  unfolding take_debt
  take_debt-Improves best z₀ w e h hw = elim (Bool-cases (ltb_ℤ z₀ w)) [
    | inl t ↦ inl (
      t,
      rw (lt-Denotes bn _ _ _ _ h hw, t) (refl, refl, refl, refl),
      rw (lt-Denotes bn _ _ _ _ h hw, t) hw,
    )
    | inr f ↦ inr (ground arith, rw (lt-Denotes bn _ _ _ _ h hw, f) refl)
  ]

  debt_loop-Improves :
      ReadsAll bn liquidity collateral
      → (ds : List (String × ReserveToken bn.Num)) (best : LiquidateData bn.Num) (z₀ : ℤ)
      → bn.Denotes best.max_revenue_eth z₀ 0
      → All (λ e. IsDebt bn e.1) ds
      → (z : ℤ) × Improves z₀ z best ds (debt_loop bn liquidity collateral ds best)
  unfolding debt_loop
  debt_loop-Improves hc [] best z₀ h hd = (z₀, (h, omega arith, tt, inl (refl, refl)))
  debt_loop-Improves hc (e ∷ ds) best z₀ h hd =
      let (w, hw) = profit_value hc e.1 hd.0 in
      let next = take_debt bn liquidity collateral best e.1 in
      elim (take_debt-Improves best z₀ w e h hw) [
        | inl (more, chosen, value) ↦
            let (z, rest) = debt_loop-Improves hc ds next w value hd.1 in
            (
              z,
              (
                rest.0,
                ltb_le z₀ w z more rest.1,
                ((w, hw, rest.1), rest.2),
                inr (elim (rest.3) [
                  | inl (same, eq) ↦ (rw eq more, inl (rw same chosen))
                  | inr (grows, later) ↦ (ltb_trans z₀ w z more grows, inr later)
                ]),
              ),
            )
        | inr (less, same) ↦
            let (z, rest) =
              debt_loop-Improves hc ds next z₀
                (subst (λ b. bn.Denotes b.max_revenue_eth z₀ 0) (sym same) h) hd.1 in
            (
              z,
              (
                rest.0,
                rest.1,
                ((w, hw, omega (arith, rest.1)), rest.2),
                elim (rest.3) [
                  | inl (kept, eq) ↦ inl (kept ∙ same, eq)
                  | inr (grows, later) ↦ inr (grows, inr later)
                ],
              ),
            )
      ]
    where
      ltb_le : (a b c : ℤ) → ltb_ℤ a b ≡ true → b ≤ℤ c → a ≤ℤ c
      ltb_le a b c h k = ground arith

      ltb_trans : (a b c : ℤ) → ltb_ℤ a b ≡ true → ltb_ℤ b c ≡ true → ltb_ℤ a c ≡ true
      ltb_trans a b c h k = ground arith

  -- What the estimate of a user with these debts promises.
  abbrev pub IsBest : List (String × ReserveToken bn.Num) → Option (LiquidateData bn.Num) → Type 0
  IsBest ds none = All (RevenueAtMost (pos 0)) ds
  IsBest ds (some d) =
      (z : ℤ) × bn.Denotes d.max_revenue_eth z 0
      × (pos 1 ≤ℤ z)
      × All (RevenueAtMost z) ds
      × Any (Chosen d) ds

  is_zero-Denotes :
      (x : bn.Num) (z : ℤ) → bn.Denotes x z 0 → is_zero bn x ≡ (leb_ℤ z (pos 0) && leb_ℤ (pos 0) z)
  unfolding is_zero
  is_zero-Denotes x z h =
      rw
        (
          lte-Denotes bn x (bn.num 0 0) z (pos 0) h (bn.num_lem 0 0),
          lte-Denotes bn (bn.num 0 0) x (pos 0) z (bn.num_lem 0 0) h,
        )
        refl

  -- For a user whose tokens read as whole numbers, and with the revenue of a debt taken to be the one
  -- that `_getMaxCollateralProfit` reports for its offer, which need not be the greatest among the
  -- collaterals: if there is an estimate, its revenue is above 0, no debt has a greater reported
  -- revenue, and its collateral, debt, cover and revenue are what is reported for one of the debts; if
  -- there is none, no debt has a reported revenue above 0.
  pub estimate_with_liquidity-IsBest :
      (debt : List (String × ReserveToken bn.Num))
      → ReadsAll bn liquidity collateral
      → All (λ e. IsDebt bn e.1) debt
      → IsBest debt
          (estimate_with_liquidity bn liquidity (record { collateral = collateral; debt = debt }))
  unfolding estimate_with_liquidity
  estimate_with_liquidity-IsBest debt hc hd =
      let (z, end) = debt_loop-Improves hc debt (no_estimate bn) (pos 0) (bn.num_lem 0 0) hd in
      let test =
        is_zero-Denotes (debt_loop bn liquidity collateral debt (no_estimate bn)).max_revenue_eth z
          end.0 in
      elim (Bool-cases (leb_ℤ z (pos 0) && leb_ℤ (pos 0) z)) [
        | inl zero ↦ rw (test, zero) (at_most_mono z (pos 0) debt (zero_le z zero) end.2)
        | inr more ↦
            rw (test, more)
              (
                z,
                end.0,
                one_le z more end.1,
                end.2,
                elim (end.3) [
                  | inl (_, eq) ↦ absurd (not_zero z more eq)
                  | inr (_, chosen) ↦ chosen
                ],
              )
      ]
