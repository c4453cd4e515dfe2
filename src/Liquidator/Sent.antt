-- ===== src/Liquidator/Sent.antt =====
-- What a liquidation keeps when it is sent: whatever its transactions and the refresh of its user
-- keep.
use liquidator.Base.{String, Bool, true, false, not, Option, none, some, str_eq, if◌then◌else◌}
use liquidator.BigNumber.{BigNumber}
use liquidator.Config.{Network}
use liquidator.Estimate.{UserReserve, LiquidateData}
use liquidator.State.{App}
use liquidator.State.Monad.{Action, ◌>>◌, when, read, modify}
use liquidator.State.Preserves.{Preserves, read-Preserves, pure-Preserves, bind-Preserves}
use liquidator.Services.{Services, LiquidationCall, GeneralReserveToken}
use liquidator.Liquidator.{
  Trial, on_app, reading, run_prepared, repay, amount_back, swap_back, settle, attempt, start,
  run_attempt, given_or_read, conclude, estimate_of, from_reserves, from_gas_price,
  try_liquidate_with,
}
use liquidator.Liquidator.Effects.{
  WritesKeep, Within, on_app-Preserves, when-Preserves, run_prepared-Preserves,
}

module _ (bn : BigNumber) {World : Type 0} (P : App bn.Num World → Type 0)
    (services : Services bn.Num World) (keep : WritesKeep services P) where
  repay-Preserves :
      (send : Bool) (gas_price : bn.Num) (network : Network) (target : LiquidateData bn.Num)
      (call : LiquidationCall bn.Num) (token : GeneralReserveToken bn.Num)
      → Preserves (Within bn P) (repay bn services send gas_price network target call token)
  unfolding repay
  repay-Preserves send gas_price network target call token =
      by_test (bn.lte target.max_revenue_eth token.balance_eth)
    where
      by_test :
          (b : Bool)
          → Preserves (Within bn P) (
              if b
              then when (not (str_eq target.debt_asset token.token_address)) (
                  run_prepared bn send gas_price (
                    services.swap_from_reserve_token target.debt_asset target.debt_to_cover
                      network))
                >> run_prepared bn send gas_price (services.liquidate call gas_price network)
              else modify (λ (t : Trial bn.Num World). (record (t.0) { is_flashloan = true }, t.1))
                >> run_prepared bn send gas_price
                    (services.flashloan_liquidate call gas_price network))
      by_test true =
          bind-Preserves (Within bn P)
            (when (not (str_eq target.debt_asset token.token_address)) (
              run_prepared bn send gas_price
                (services.swap_from_reserve_token target.debt_asset target.debt_to_cover network)))
            (λ _. run_prepared bn send gas_price (services.liquidate call gas_price network))
            (when-Preserves bn P (not (str_eq target.debt_asset token.token_address)) _ (
              run_prepared-Preserves bn P send gas_price
                (services.swap_from_reserve_token target.debt_asset target.debt_to_cover network)
                (keep.swap_from target.debt_asset target.debt_to_cover network)))
            (λ _.
              run_prepared-Preserves bn P send gas_price (services.liquidate call gas_price network)
                (keep.liquidates call gas_price network))
      by_test false =
          bind-Preserves (Within bn P)
            (modify (λ (t : Trial bn.Num World). (record (t.0) { is_flashloan = true }, t.1)))
            (λ _.
              run_prepared bn send gas_price (services.flashloan_liquidate call gas_price network))
            (record { apply = λ t p. p })
            (λ _.
              run_prepared-Preserves bn P send gas_price
                (services.flashloan_liquidate call gas_price network)
                (keep.flashloans call gas_price network))

  amount_back-Preserves :
      (send : Bool) (network : Network) (target : LiquidateData bn.Num)
      → Preserves (Within bn P) (amount_back bn services send network target)
  unfolding amount_back
  amount_back-Preserves true network target =
      on_app-Preserves bn P (services.update_token_balance target.collateral_asset network)
        (keep.balances target.collateral_asset network)
  amount_back-Preserves false network target = pure-Preserves (Within bn P) _

  swap_back-Preserves :
      (send : Bool) (gas_price : bn.Num) (network : Network) (target : LiquidateData bn.Num)
      (token : GeneralReserveToken bn.Num)
      → Preserves (Within bn P) (swap_back bn services send gas_price network target token)
  unfolding swap_back
  swap_back-Preserves send gas_price network target token =
      when-Preserves bn P (not (str_eq target.collateral_asset token.token_address)) _ (
        bind-Preserves (Within bn P) (amount_back bn services send network target) _
          (amount_back-Preserves send network target)
          (λ balance.
            run_prepared-Preserves bn P send gas_price
              (services.swap_to_reserve_token target.collateral_asset balance network)
              (keep.swap_to target.collateral_asset balance network)))

  module _ (update : String → Network → Action (App bn.Num World) (Unit {0}))
      (refreshes : (user : String) (network : Network) → Preserves P (update user network))
      (user_address : String) (send : Bool) (network : Network) where
    settle-Preserves :
        (gas_price : bn.Num) (target : LiquidateData bn.Num) (token : GeneralReserveToken bn.Num)
        → Preserves
            (Within bn P)
            (settle bn services update user_address send network gas_price target token)
    unfolding settle
    settle-Preserves gas_price target token =
        bind-Preserves (Within bn P) (repay bn services send gas_price network target _ token) _
          (repay-Preserves send gas_price network target _ token)
          (λ _.
            bind-Preserves (Within bn P) (swap_back bn services send gas_price network target token)
              _ (swap_back-Preserves send gas_price network target token)
              (λ _. when-Preserves bn P send (on_app (update user_address network)) (
                on_app-Preserves bn P (update user_address network)
                  (refreshes user_address network))))

    attempt-Preserves :
        (gas_price : bn.Num) (target : LiquidateData bn.Num)
        → Preserves
            (Within bn P)
            (attempt bn services update user_address send network gas_price target)
    unfolding attempt
    attempt-Preserves gas_price target =
        bind-Preserves (Within bn P) (reading (services.get_general_reserve_token network))
          (settle bn services update user_address send network gas_price target)
          (record { apply = λ t p. p }) (settle-Preserves gas_price target)

    conclude-Preserves :
        (gas_price : bn.Num) (target : Option (LiquidateData bn.Num))
        → Preserves P (conclude bn services update user_address send network gas_price target)
    unfolding conclude run_attempt
    conclude-Preserves gas_price none = pure-Preserves P none
    conclude-Preserves gas_price (some target) = record {
      apply = λ s p. (attempt-Preserves gas_price target).apply (start bn services, s) p;
    }

    from_reserves-Preserves :
        (gas_price : bn.Num) (reserves : UserReserve bn.Num)
        → Preserves P
            (from_reserves bn services update user_address send network gas_price reserves)
    unfolding from_reserves
    from_reserves-Preserves gas_price reserves =
        bind-Preserves P (read (estimate_of bn services reserves))
          (conclude bn services update user_address send network gas_price)
          (read-Preserves P (estimate_of bn services reserves)) (conclude-Preserves gas_price)

    from_gas_price-Preserves :
        (gas_price : bn.Num)
        → Preserves P (from_gas_price bn services update user_address send network gas_price)
    unfolding from_gas_price
    from_gas_price-Preserves gas_price =
        bind-Preserves P (read (services.get_user_reserves user_address network))
          (from_reserves bn services update user_address send network gas_price)
          (read-Preserves P (services.get_user_reserves user_address network))
          (from_reserves-Preserves gas_price)

    -- `tryLiquidate`, sent or not, and wherever it stops, keeps every property of the state that
    -- its writes and the refresh of its user keep.
    pub try_liquidate_with-Preserves :
        (gas_price : Option bn.Num)
        → Preserves P (try_liquidate_with bn services update user_address send network gas_price)
    unfolding try_liquidate_with given_or_read
    try_liquidate_with-Preserves (some price) = record {
      apply = λ s p. (from_gas_price-Preserves price).apply s p;
    }
    try_liquidate_with-Preserves none =
        bind-Preserves P (read (services.get_gas_price network))
          (from_gas_price bn services update user_address send network)
          (read-Preserves P (services.get_gas_price network)) from_gas_price-Preserves
