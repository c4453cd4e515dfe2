-- ===== src/Backend.antt =====
-- The services of the liquidation as the backend has them: the writes of src/contract/utils, the
-- tokens and the listeners of src/database, and the reads of the contracts.
pub mod Writes
pub mod Start
pub mod Safety
pub mod Tests
use liquidator.Base.{Bool, ℕ, String, Option, some}
use liquidator.Base.Results.{Result, ok, type_error, or_throw, ◌>>=◌}
use liquidator.BigNumber.{BigNumber}
use liquidator.Config.{Network, network_eq}
use liquidator.Orm.{Orm}
use liquidator.State.{App, Job, ListenerRow, UserAccountData}
use liquidator.Services.{Services, ContractMethodWrite}
use liquidator.Reserves.{ReserveReads, get_user_reserves}
use liquidator.Contracts.{
  Node, forward, back, swap_tokens, prepare_liquidation, prepare_flashloan, update_token_balance,
}
use liquidator.Tokens.{TokenReads, get_available_liquidity, get_general_reserve_token}
use liquidator.Listeners.{get_listeners}

-- What the contracts and the node answer.
pub record Chain (Num World : Type 0) : Type 0 where
  pub node : Node Num World
  pub tokens : TokenReads Num World
  pub reserves : ReserveReads Num World
  pub get_user_account_data :
      String → String → Network → App Num World → Result (UserAccountData Num)
  pub deletes_jobs : String → App Num World → Bool
  pub adds_job : Job → App Num World → Bool
  pub can_update_listeners : ℕ → Network → App Num World → Result (Unit {0})

module _ (bn : BigNumber) (orm : Orm) {World : Type 0} (chain : Chain bn.Num World)
    (account : String) where
  -- `user.network.listeners[0].contractAddress`
  unfoldable pub pool_address : Network → App bn.Num World → Result String
  pool_address network s =
      or_throw (orm.find_one (λ (l : ListenerRow). network_eq l.network_id network) s.listeners)
        type_error
      >>= λ l. ok l.contract_address

  -- `swapFromReserveToken` and `swapToReserveToken`
  unfoldable pub swap_from_reserve_token :
      String → bn.Num → Network → App bn.Num World → Result (ContractMethodWrite bn.Num World)
  swap_from_reserve_token token amount network =
      swap_tokens bn orm chain.node account token amount network forward

  unfoldable pub swap_to_reserve_token :
      String → bn.Num → Network → App bn.Num World → Result (ContractMethodWrite bn.Num World)
  swap_to_reserve_token token amount network =
      swap_tokens bn orm chain.node account token amount network back

  -- The functions that src/database/UserAccount.ts and src/database/Liquidate.ts import.
  unfoldable pub services_of : Services bn.Num World
  services_of = record {
    get_listeners = λ network s. ok (get_listeners orm network s);
    get_user_account_data = chain.get_user_account_data;
    get_gas_price = chain.node.get_gas_price;
    get_asset_price = chain.tokens.get_asset_price;
    get_balance = chain.node.get_balance;
    get_user_reserves =
        get_user_reserves bn (record chain.reserves { get_pool_address = pool_address }) orm;
    get_available_liquidity = get_available_liquidity bn orm chain.tokens account;
    get_general_reserve_token = get_general_reserve_token bn orm chain.tokens account;
    swap_from_reserve_token =
        λ token amount network. swap_tokens bn orm chain.node account token amount network forward;
    swap_to_reserve_token =
        λ token amount network. swap_tokens bn orm chain.node account token amount network back;
    liquidate =
        λ call gas_price. prepare_liquidation bn orm chain.node account call (some gas_price);
    flashloan_liquidate =
        λ call gas_price. prepare_flashloan bn orm chain.node account call (some gas_price);
    deletes_jobs = chain.deletes_jobs;
    adds_job = chain.adds_job;
    can_update_listeners = chain.can_update_listeners;
    update_token_balance = update_token_balance bn orm chain.node account;
  }
