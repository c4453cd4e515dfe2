-- ===== src/Enqueue.antt =====
-- src/database/Liquidate.ts, `addOrUpdateLiquidate`, and src/database/UserAccount.ts,
-- `updateUserAccountData`: how a user's position gets into the queue and out of it.
pub mod Rows
pub mod Entry
pub mod Kept
pub mod Unique
pub mod InWork
pub mod Settled
pub mod Cancel
pub mod Tests
use liquidator.Base.{
  ℕ, String, ◌+◌, Bool, true, false, Option, none, some, List, [], ◌∷◌, str_eq, if◌then◌else◌,
}
use liquidator.Base.Int.{ℤ}
use liquidator.Base.Results.{Error, Result, ok, err, type_error}
use liquidator.BigNumber.{BigNumber}
use liquidator.BigNumber.Amounts.{amount_eth}
use liquidator.Config.{Network, network_eq}
use liquidator.Orm.{Orm}
use liquidator.State.{App, UserAccountData, Token, pending, deferred}
use liquidator.State.Monad.{Action, pure, throw, read, gets, present, catch, ◌>>=◌, ◌>>◌}
use liquidator.Services.{Services, Listener}
use liquidator.Liquidator.{TryLiquidate, try_liquidate_with}
use liquidator.Queue.{
  UpdateRequest, QueueEntry, day, at, stored_health_factor, is_liquidatable, save_entry, defer,
  cancel_queued, delete_job_update_liquidation_data, save_user,
}

module _ (bn : BigNumber) (orm : Orm) {World : Type 0} (services : Services bn.Num World) where
  open bn use {Num, num, minus, times, shifted_up, to_fixed, lte}
  open orm use {find_one}
  open services use {get_listeners, get_user_account_data, get_asset_price}

  -- The fee of a flash loan, 0.09 percent of the debt, in the native coin.
  unfoldable pub flash_loan_fee_eth : TryLiquidate Num → Network → App Num World → Result Num
  flash_loan_fee_eth estimate network s =
      let flash_loan_fee = to_fixed 0 (times estimate.liquidate_data.debt_to_cover (num 9 4)) in
      elim (find_one (λ (t : Token Num). str_eq t.token_address estimate.liquidate_data.debt_asset)
        s.tokens) [
          | none ↦ err type_error
          | some debt_asset ↦ elim (get_asset_price debt_asset.token_address network s) [
            | ok price ↦ ok (amount_eth bn flash_loan_fee debt_asset.decimals price)
            | err e ↦ err e
          ]
        ]

  -- `estimatedProfitETH`: the revenue less the estimated fee, and less the flash loan's.
  unfoldable pub estimated_profit : TryLiquidate Num → Network → App Num World → Result Num
  estimated_profit estimate network s =
      let profit = minus estimate.max_revenue_eth estimate.fee_estimated in
      if estimate.is_flashloan
      then elim (flash_loan_fee_eth estimate network s) [
        | ok fee ↦ ok (minus profit fee)
        | err e ↦ err e
      ]
      else ok profit

  -- `config.utils.expectProfit`, 0.0001 of the native coin.
  unfoldable pub expect_profit_eth : Num
  expect_profit_eth = shifted_up 18 (num 1 4)

  unfoldable pub entry_of : String → Num → ℕ → QueueEntry Num
  entry_of user_id profit now =
      if lte expect_profit_eth profit
      then record {
        user_id = user_id;
        status = pending;
        estimated_profit_eth = profit;
        to_update_date = none;
      }
      else record {
        user_id = user_id;
        status = deferred;
        estimated_profit_eth = profit;
        to_update_date = some (now + day);
      }

  -- The estimate of the body: `estimate.maxRevenueETH` throws where there is no estimate.
  unfoldable pub estimate_user : String → Network → Action (App Num World) (TryLiquidate Num)
  estimate_user user_address network =
      try_liquidate_with bn services (λ _ _. pure tt) user_address false network none
      >>= λ estimate. present estimate type_error

  -- The row to write: the profit of the estimate, for the id of the user's account.
  unfoldable pub make_entry :
      String → Network → TryLiquidate Num → App Num World → Result (QueueEntry Num)
  make_entry user_address network estimate s = elim (estimated_profit estimate network s) [
    | err e ↦ err e
    | ok profit ↦ elim (find_one (at user_address network) s.users) [
      | none ↦ err type_error
      | some user ↦ ok (entry_of user.id profit s.now)
    ]
  ]

  unfoldable pub enqueue : String → Network → QueueEntry Num → Action (App Num World) (Unit {0})
  enqueue user_address network e =
      defer services.adds_job user_address network e >> save_entry orm e

  -- `addOrUpdateLiquidate`, whose `catch` only logs.
  unfoldable pub add_or_update_liquidate : String → Network → Action (App Num World) (Unit {0})
  add_or_update_liquidate user_address network =
      catch
        (estimate_user user_address network >>= λ estimate.
          read (make_entry user_address network estimate) >>= enqueue user_address network)
        (λ e. pure tt)

  -- `listener = (await getListeners(…))[0]`, whose fields are read.
  unfoldable pub first_listener : Option Network → App Num World → Result Listener
  first_listener network s = elim (get_listeners network s) [
    | err e ↦ err e
    | ok ls ↦ elim ls [ [] ↦ err type_error | l ∷ rest ↦ ok l ]
  ]

  unfoldable pub account_data_of : String → Listener → App Num World → Result (UserAccountData Num)
  account_data_of user_address listener s =
      get_user_account_data user_address listener.contract_address listener.network_id s

  -- What follows once the account is saved: into the queue, or out of it.
  unfoldable pub requeue : String → Network → ℤ → String → Action (App Num World) (Unit {0})
  requeue user_address network hf user_id =
      if is_liquidatable hf
      then add_or_update_liquidate user_address network
      else cancel_queued orm user_id

  unfoldable pub refresh :
      String → Listener → UserAccountData Num → Action (App Num World) (Unit {0})
  refresh user_address listener account_data =
      let hf = stored_health_factor bn account_data.health_factor in
      save_user orm user_address listener.network_id account_data hf
      >>= requeue user_address listener.network_id hf

  unfoldable pub update_by_listener : String → Listener → Action (App Num World) (Unit {0})
  update_by_listener user_address listener =
      read (account_data_of user_address listener) >>= refresh user_address listener

  -- `updateUserAccountData`, with the listener that it may be given; its `catch` only logs.
  unfoldable pub update_user_account_data :
      UpdateRequest → Option Listener → Action (App Num World) (Unit {0})
  update_user_account_data request none =
      catch
        (delete_job_update_liquidation_data services.deletes_jobs request.user_address
          >> (read (first_listener request.network) >>= update_by_listener request.user_address))
        (λ e. pure tt)
  update_user_account_data request (some listener) =
      catch
        (delete_job_update_liquidation_data services.deletes_jobs request.user_address
          >> update_by_listener request.user_address listener)
        (λ e. pure tt)
