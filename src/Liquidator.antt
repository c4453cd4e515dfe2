-- ===== src/Liquidator.antt =====
-- src/database/UserAccount.ts, `tryLiquidate`: one liquidation of a user, sent or only estimated.
pub mod DryRun
pub mod Effects
pub mod Sent
pub mod Tests
use liquidator.Base.{
  ℕ, String, Bool, true, false, not, Option, none, some, List, [], ◌++◌, str_eq, if◌then◌else◌,
}
use liquidator.Base.Results.{Error, Result, ok, err, external}
use liquidator.BigNumber.{BigNumber}
use liquidator.Config.{Network}
use liquidator.Estimate.{UserReserve, LiquidateData, get_estimated_liquidate_data_with_max_revenue}
use liquidator.State.{App}
use liquidator.State.Monad.{Action, pure, throw, read, gets, modify, ◌>>=◌, ◌>>◌, when, catch}
use liquidator.Services.{
  Services, SendRes, ContractMethodWrite, LiquidationCall, GeneralReserveToken,
}

-- `ITryLiquidate`
pub record TryLiquidate (Num : Type 0) : Type 0 where
  pub is_flashloan : Bool
  pub liquidate_data : LiquidateData Num
  pub gas_price : Num
  pub max_revenue_eth : Num
  pub fee_estimated : Num
  pub fee_fact : Num
  pub txs : List String

-- `isFlashloan` and `result` of the source, which keep what was written to them when a later step
-- throws.
pub record Progress (Num : Type 0) : Type 0 where
  pub is_flashloan : Bool
  pub fee_estimated : Num
  pub fee_fact : Num
  pub txs : List String

abbrev pub Trial : Type 0 → Type 0 → Type 0
Trial Num World = Progress Num × App Num World

-- A call on the state in the course of a liquidation.
abbrev pub on_app : {Num World A : Type 0} → Action (App Num World) A → Action (Trial Num World) A
on_app m (p, s) = let (r, s') = m s in (r, (p, s'))

abbrev pub reading :
    {Num World A : Type 0} → (App Num World → Result A) → Action (Trial Num World) A
reading f (p, s) = (f s, (p, s))

module _ (bn : BigNumber) {World : Type 0} where
  open bn use {Num, num, plus, times, shifted_up, lte}

  -- `sendWrap`
  unfoldable pub send_wrap :
      Action (App Num World) (SendRes Num) → Action (Trial Num World) (Unit {0})
  send_wrap send = do
    tx ← on_app send
    modify (λ (t : Trial Num World).
        (record (t.0) { fee_fact = plus (t.0).fee_fact tx.fee; txs = (t.0).txs ++ tx.txs }, t.1))

  -- `estimateWrap`
  unfoldable pub estimate_wrap : Num → ℕ → Action (Trial Num World) (Unit {0})
  estimate_wrap gas_price gas = modify (λ (t : Trial Num World). (
    record (t.0) { fee_estimated = plus (times gas_price (num gas 0)) (t.0).fee_estimated },
    t.1,
  ))

  -- `estimateWrap(x.estimate) && send && await sendWrap(x.send)`
  unfoldable pub run_write :
      Bool → Num → ContractMethodWrite Num World → Action (Trial Num World) (Unit {0})
  run_write send gas_price write = do
    estimate_wrap gas_price write.estimate
    when send (send_wrap write.send)

  -- A write that is prepared by a read of the contracts, and then estimated and sent.
  unfoldable pub run_prepared :
      Bool
      → Num
      → (App Num World → Result (ContractMethodWrite Num World))
      → Action (Trial Num World) (Unit {0})
  run_prepared send gas_price prepare = do write ← reading prepare; run_write send gas_price write

  module _ (services : Services Num World) where
    open services use {
      get_gas_price, get_user_reserves, get_available_liquidity, get_general_reserve_token,
      swap_from_reserve_token, swap_to_reserve_token, liquidate, flashloan_liquidate,
      update_token_balance,
    }

    -- Both ways to repay the debt: from the reserve, or by a flash loan.
    unfoldable pub repay :
        Bool
        → Num
        → Network
        → LiquidateData Num
        → LiquidationCall Num
        → GeneralReserveToken Num
        → Action (Trial Num World) (Unit {0})
    repay send gas_price network target call token_reserve =
        if lte target.max_revenue_eth token_reserve.balance_eth
        then when (not (str_eq target.debt_asset token_reserve.token_address)) (
            run_prepared send gas_price
              (swap_from_reserve_token target.debt_asset target.debt_to_cover network))
          >> run_prepared send gas_price (liquidate call gas_price network)
        else modify (λ (t : Trial Num World). (record (t.0) { is_flashloan = true }, t.1))
          >> run_prepared send gas_price (flashloan_liquidate call gas_price network)

    -- What is swapped back: the balance of the collateral, or for an estimate a fixed amount.
    unfoldable pub amount_back : Bool → Network → LiquidateData Num → Action (Trial Num World) Num
    amount_back true network target = on_app (update_token_balance target.collateral_asset network)
    amount_back false network target = pure (shifted_up 18 (num 1000000000 0))

    -- The seized collateral is swapped back.
    unfoldable pub swap_back :
        Bool
        → Num
        → Network
        → LiquidateData Num
        → GeneralReserveToken Num
        → Action (Trial Num World) (Unit {0})
    swap_back send gas_price network target token_reserve =
        when (not (str_eq target.collateral_asset token_reserve.token_address)) (
          amount_back send network target >>= λ token_balance.
          run_prepared send gas_price
            (swap_to_reserve_token target.collateral_asset token_balance network))

    -- What follows once the reserve token is read. `update` is `updateUserAccountData`.
    unfoldable pub settle :
        (String → Network → Action (App Num World) (Unit {0}))
        → String
        → Bool
        → Network
        → Num
        → LiquidateData Num
        → GeneralReserveToken Num
        → Action (Trial Num World) (Unit {0})
    settle update user_address send network gas_price target token_reserve =
        let call : LiquidationCall Num = record {
          collateral_asset = target.collateral_asset;
          debt_asset = target.debt_asset;
          user = user_address;
          debt_to_cover = target.debt_to_cover;
          receive_a_token = false;
        } in
        repay send gas_price network target call token_reserve
        >> (swap_back send gas_price network target token_reserve
            >> when send (on_app (update user_address network)))

    -- The body of the `try`.
    unfoldable pub attempt :
        (String → Network → Action (App Num World) (Unit {0}))
        → String
        → Bool
        → Network
        → Num
        → LiquidateData Num
        → Action (Trial Num World) (Unit {0})
    attempt update user_address send network gas_price target =
        reading (get_general_reserve_token network)
        >>= settle update user_address send network gas_price target

    unfoldable pub start : Progress Num
    start = record { is_flashloan = false; fee_estimated = num 0 0; fee_fact = num 0 0; txs = [] }

    unfoldable pub report : Num → LiquidateData Num → Progress Num → TryLiquidate Num
    report gas_price target p = record {
      is_flashloan = p.is_flashloan;
      liquidate_data = target;
      gas_price = gas_price;
      max_revenue_eth = target.max_revenue_eth;
      fee_estimated = p.fee_estimated;
      fee_fact = p.fee_fact;
      txs = p.txs;
    }

    -- The `try` and its `catch`, which return the same report, of the progress made.
    unfoldable pub run_attempt :
        (String → Network → Action (App Num World) (Unit {0}))
        → String
        → Bool
        → Network
        → Num
        → LiquidateData Num
        → Action (App Num World) (Option (TryLiquidate Num))
    run_attempt update user_address send network gas_price target s =
        let (r, (p, s')) = attempt update user_address send network gas_price target (start, s) in
        (ok (some (report gas_price target p)), s')

    -- `if (!options.gasPrice) options.gasPrice = await getGasPrice(web3)`
    unfoldable pub given_or_read : Option Num → Network → Action (App Num World) Num
    given_or_read (some price) network = pure price
    given_or_read none network = read (get_gas_price network)

    -- `if (!liquidateData) return`
    unfoldable pub conclude :
        (String → Network → Action (App Num World) (Unit {0}))
        → String
        → Bool
        → Network
        → Num
        → Option (LiquidateData Num)
        → Action (App Num World) (Option (TryLiquidate Num))
    conclude update user_address send network gas_price none = pure none
    conclude update user_address send network gas_price (some target) =
        run_attempt update user_address send network gas_price target

    -- The estimate of a user's reserves, and what follows it.
    unfoldable pub estimate_of :
        UserReserve Num → App Num World → Result (Option (LiquidateData Num))
    estimate_of user_reserves s =
        get_estimated_liquidate_data_with_max_revenue bn
          (λ address. get_available_liquidity address s) user_reserves

    unfoldable pub from_reserves :
        (String → Network → Action (App Num World) (Unit {0}))
        → String
        → Bool
        → Network
        → Num
        → UserReserve Num
        → Action (App Num World) (Option (TryLiquidate Num))
    from_reserves update user_address send network gas_price user_reserves =
        read (estimate_of user_reserves) >>= conclude update user_address send network gas_price

    unfoldable pub from_gas_price :
        (String → Network → Action (App Num World) (Unit {0}))
        → String
        → Bool
        → Network
        → Num
        → Action (App Num World) (Option (TryLiquidate Num))
    from_gas_price update user_address send network gas_price =
        read (get_user_reserves user_address network)
        >>= from_reserves update user_address send network gas_price

    -- `tryLiquidate`, with the gas price that its options may bring; `none` is `undefined`.
    unfoldable pub try_liquidate_with :
        (String → Network → Action (App Num World) (Unit {0}))
        → String
        → Bool
        → Network
        → Option Num
        → Action (App Num World) (Option (TryLiquidate Num))
    try_liquidate_with update user_address send network gas_price =
        given_or_read gas_price network >>= from_gas_price update user_address send network
