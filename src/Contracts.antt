-- ===== src/Contracts.antt =====
-- The writes to the contracts: src/contract/utils/erc20.ts, lp.ts and uniswapRouter.ts prepare them,
-- and return how to estimate and how to send them.
mod Send
pub mod Safety
pub mod Funds
pub mod Writes
pub mod Tests
unfoldable pub use Send.*
use liquidator.Base.{
  ℕ, String, ◌+◌, ◌*◌, Bool, true, false, Option, none, some, List, [], ◌∷◌, ◌++◌, str_eq,
  if◌then◌else◌,
}
use liquidator.Base.Results.{
  Result, ok, err, type_error, insufficient_funds, or_throw, throw_if, ◌>>=◌, ◌>>◌,
}
use liquidator.BigNumber.{BigNumber}
use liquidator.BigNumber.Amounts.{amount_eth, amount_of_eth}
use liquidator.Config.{
  Network, network_eq, uniswap_addresses, general_reserve, flashloan_liquidation_adapter,
}
use liquidator.Orm.{Orm}
use liquidator.State.{App, NetworkRow, Token}
use liquidator.Services.{SendRes, ContractMethodWrite, LiquidationCall, GeneralReserveToken}

module _ (bn : BigNumber) (orm : Orm) {World : Type 0} (node : Node bn.Num World)
    (account : String) where
  open bn use {Num, num, plus, times, lt}
  open orm use {find_one}
  open node use {
    get_gas_price, estimate_gas, balance_of, get_lending_pool_address, get_amount_in,
    get_amount_out,
  }

  -- `if (!options.gasPrice) options.gasPrice = await getGasPrice(web3)`
  unfoldable pub price_of : Option Num → Network → App Num World → Result Num
  price_of (some price) network s = ok price
  price_of none network s = get_gas_price network s

  -- `approve`
  unfoldable pub approve :
      String → String → Num → Num → Network → App Num World → Result (ContractMethodWrite Num World)
  approve token_address recipient amount gas_price network s =
      let call = approve_call token_address recipient amount in
      estimate_gas call network s >>= λ gas. ok (record {
        estimate = gas;
        send = send_call bn orm node account call gas (some gas_price) gas_price network;
      })

  -- `liquidate` of lp.ts
  unfoldable pub prepare_liquidation :
      LiquidationCall Num
      → Option Num
      → Network
      → App Num World
      → Result (ContractMethodWrite Num World)
  prepare_liquidation call_data gas_price network s = price_of gas_price network s >>= λ price.
      get_lending_pool_address network s >>= λ pool.
      approve call_data.debt_asset pool call_data.debt_to_cover price network s >>= λ approval.
      ok (record {
        estimate = approval.estimate + liquidation_gas;
        send =
            send_liquidation bn orm node account approval.send (liquidation_call pool call_data)
              price network;
      })

  -- `flashloanLiquidate`
  unfoldable pub prepare_flashloan :
      LiquidationCall Num
      → Option Num
      → Network
      → App Num World
      → Result (ContractMethodWrite Num World)
  prepare_flashloan call_data gas_price network s = price_of gas_price network s >>= λ price.
      get_lending_pool_address network s >>= λ pool.
      let call = flash_loan_call pool (flashloan_liquidation_adapter network) call_data in
      estimate_gas call network s >>= λ gas. ok (record {
        estimate = gas;
        send = send_call bn orm node account call gas (some price) price network;
      })

  -- The rows that `swapTokens` begins with: of the token and of the general reserve.
  unfoldable pub swap_rows : String → Network → App Num World → Result (Token Num × Token Num)
  swap_rows token_address network s =
      or_throw (find_one (λ (n : NetworkRow Num). network_eq n.id network) s.networks) type_error
      >> (or_throw (find_one (λ (t : Token Num). str_eq t.token_address token_address) s.tokens)
            type_error
          >>= λ token.
              or_throw
                (find_one (λ (t : Token Num). str_eq t.token_address (general_reserve network))
                  s.tokens)
                type_error
              >>= λ reserve. ok (token, reserve))

  -- A swap from the approval to the balances.
  unfoldable pub swap_by :
      String
      → Num
      → Call Num
      → Num
      → Token Num
      → Token Num
      → Network
      → App Num World
      → Result (ContractMethodWrite Num World)
  swap_by approved amount call gas_price reserve token network s =
      approve approved (uniswap_addresses network) amount gas_price network s >>= λ approval.
      ok (record {
        estimate = approval.estimate + swap_gas;
        send =
            send_both bn orm node account approval.send
              (send_swap bn orm node account call gas_price network) reserve.token_address
              token.token_address network;
      })

  -- `swapTokens(…, SwapDirection.FORWARD)`: the reserve must have what the swap takes.
  unfoldable pub swap_forward :
      Token Num
      → Token Num
      → Num
      → Num
      → Network
      → App Num World
      → Result (ContractMethodWrite Num World)
  swap_forward token reserve amount gas_price network s =
      get_amount_in amount reserve.token_address token.token_address network s
      >>= λ estimated_amount_in.
          throw_if (lt reserve.balance estimated_amount_in) insufficient_funds
          >> swap_by reserve.token_address estimated_amount_in
              (swap_for_exact_call amount estimated_amount_in reserve.token_address
                token.token_address (s.now + swap_time))
              gas_price reserve token network s

  -- `swapTokens(…, SwapDirection.BACK)`
  unfoldable pub swap_back_by :
      Token Num
      → Token Num
      → Num
      → Num
      → Network
      → App Num World
      → Result (ContractMethodWrite Num World)
  swap_back_by token reserve amount gas_price network s =
      get_amount_out amount token.token_address reserve.token_address network s
      >>= λ estimated_amount_out.
          swap_by token.token_address amount
            (swap_exact_call amount estimated_amount_out token.token_address reserve.token_address
              (s.now + swap_time))
            gas_price reserve token network s

  unfoldable pub swap_tokens :
      String
      → Num
      → Network
      → SwapDirection
      → App Num World
      → Result (ContractMethodWrite Num World)
  swap_tokens token_address amount network forward s = swap_rows token_address network s >>= λ rows.
      get_gas_price network s >>= λ price. swap_forward (rows.0) (rows.1) amount price network s
  swap_tokens token_address amount network back s = swap_rows token_address network s >>= λ rows.
      get_gas_price network s >>= λ price. swap_back_by (rows.0) (rows.1) amount price network s
