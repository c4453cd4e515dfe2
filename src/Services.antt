-- ===== src/Services.antt =====
-- What the liquidation logic asks of the contract modules under src/contract/utils and of
-- src/database/Token.ts, as an interface. A read depends on the state and leaves it alone; a write
-- is prepared by a read, has an estimate of its gas, and changes the state when it is sent.
-- `getBalance` never throws: after a failure its value is no number, which is a `Num` too.
pub mod Sample
use liquidator.Base.{ℕ, String, Bool, Option, List}
use liquidator.Base.Results.{Result}
use liquidator.BigNumber.{BigNumber}
use liquidator.Config.{Network}
use liquidator.Estimate.{UserReserve}
use liquidator.State.{App, UserAccountData, Job}
use liquidator.State.Monad.{Action}

-- `ISendRes`, with the transactions by their hashes.
pub record SendRes (Num : Type 0) : Type 0 where
  pub txs : List String
  pub fee : Num

-- `IContractMethodWrite`
pub record ContractMethodWrite (Num World : Type 0) : Type 0 where
  pub estimate : ℕ
  pub send : Action (App Num World) (SendRes Num)

-- `ILiquidate`
pub record LiquidationCall (Num : Type 0) : Type 0 where
  pub collateral_asset : String
  pub debt_asset : String
  pub user : String
  pub debt_to_cover : Num
  pub receive_a_token : Bool

-- `IGeneralReserveToken`, the fields that are read.
pub record GeneralReserveToken (Num : Type 0) : Type 0 where
  pub token_address : String
  pub balance_eth : Num

-- `IGetListeners`, the fields that are read.
pub record Listener : Type 0 where
  pub contract_address : String
  pub network_id : Network
  pub last_block : Option ℕ

pub record Services (Num World : Type 0) : Type 0 where
  pub get_listeners : Option Network → App Num World → Result (List Listener)
  pub get_user_account_data :
      String → String → Network → App Num World → Result (UserAccountData Num)
  pub get_gas_price : Network → App Num World → Result Num
  pub get_asset_price : String → Network → App Num World → Result Num
  pub get_balance : Network → App Num World → Num
  pub get_user_reserves : String → Network → App Num World → Result (UserReserve Num)
  pub get_available_liquidity : String → App Num World → Result Num
  pub get_general_reserve_token : Network → App Num World → Result (GeneralReserveToken Num)
  pub swap_from_reserve_token :
      String → Num → Network → App Num World → Result (ContractMethodWrite Num World)
  pub swap_to_reserve_token :
      String → Num → Network → App Num World → Result (ContractMethodWrite Num World)
  pub liquidate :
      LiquidationCall Num → Num → Network → App Num World → Result (ContractMethodWrite Num World)
  pub flashloan_liquidate :
      LiquidationCall Num → Num → Network → App Num World → Result (ContractMethodWrite Num World)
  pub deletes_jobs : String → App Num World → Bool
  pub adds_job : Job → App Num World → Bool
  pub can_update_listeners : ℕ → Network → App Num World → Result (Unit {0})
  pub update_token_balance : String → Network → Action (App Num World) Num
