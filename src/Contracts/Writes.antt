-- ===== src/Contracts/Writes.antt =====
-- The writes as `tryLiquidate` gets them: whatever is sent, the queue stays as it was.
use liquidator.Base.{String, ◌+◌, ◌≡◌, Option, some}
use liquidator.Base.Results.{ok, bind_value, bind_both, throw_if, insufficient_funds}
use liquidator.BigNumber.{BigNumber}
use liquidator.Config.{Network, uniswap_addresses, flashloan_liquidation_adapter}
use liquidator.Orm.{Orm}
use liquidator.State.{App, Token}
use liquidator.State.Preserves.{Preserves}
use liquidator.Services.{ContractMethodWrite, LiquidationCall}
use liquidator.Contracts.{
  Call, Node, SwapDirection, forward, back, liquidation_call, swap_for_exact_call, swap_exact_call,
  swap_time, price_of, approve, prepare_liquidation, prepare_flashloan, flash_loan_call, swap_by,
  swap_forward, swap_back_by, swap_rows, swap_tokens,
}
use liquidator.Contracts.Safety.{
  IsUntouched, send_call-Preserves, send_swap-Preserves, send_liquidation-Preserves,
  send_both-Preserves, approve-Preserves, returned-Preserves,
}

module _ (bn : BigNumber) (orm : Orm) {World : Type 0} (node : Node bn.Num World) (account : String)
    (P : App bn.Num World → Type 0) (free : IsUntouched node P) where
  swap_by-Preserves :
      (approved : String) (amount : bn.Num) (call : Call bn.Num) (gas_price : bn.Num)
      (reserve token : Token bn.Num) (network : Network) (s : App bn.Num World)
      (write : ContractMethodWrite bn.Num World)
      → swap_by bn orm node account approved amount call gas_price reserve token network s
        ≡ ok write
      → Preserves P write.send
  unfolding swap_by
  swap_by-Preserves approved amount call gas_price reserve token network s write =
      bind_both
        (approve bn orm node account approved (uniswap_addresses network) amount gas_price network
          s)
        _ write
        (λ approval made e. returned-Preserves bn orm node account P free write e (
          send_both-Preserves bn orm node account P free approval.send _ reserve.token_address
            token.token_address network
            (approve-Preserves bn orm node account P free approved (uniswap_addresses network)
              amount gas_price network s approval made)
            (send_swap-Preserves bn orm node account P free call gas_price network)))

  swap_forward-Preserves :
      (token reserve : Token bn.Num) (amount gas_price : bn.Num) (network : Network)
      (s : App bn.Num World) (write : ContractMethodWrite bn.Num World)
      → swap_forward bn orm node account token reserve amount gas_price network s ≡ ok write
      → Preserves P write.send
  unfolding swap_forward
  swap_forward-Preserves token reserve amount gas_price network s write =
      bind_value (node.get_amount_in amount reserve.token_address token.token_address network s) _
        write
        (λ (price : bn.Num).
          bind_value (throw_if (bn.lt reserve.balance price) insufficient_funds) _ write (λ _.
            swap_by-Preserves reserve.token_address price
              (swap_for_exact_call amount price reserve.token_address token.token_address
                (s.now + swap_time))
              gas_price reserve token network s write))

  swap_back_by-Preserves :
      (token reserve : Token bn.Num) (amount gas_price : bn.Num) (network : Network)
      (s : App bn.Num World) (write : ContractMethodWrite bn.Num World)
      → swap_back_by bn orm node account token reserve amount gas_price network s ≡ ok write
      → Preserves P write.send
  unfolding swap_back_by
  swap_back_by-Preserves token reserve amount gas_price network s write =
      bind_value (node.get_amount_out amount token.token_address reserve.token_address network s) _
        write
        (λ (price : bn.Num).
          swap_by-Preserves token.token_address amount
            (swap_exact_call amount price token.token_address reserve.token_address
              (s.now + swap_time))
            gas_price reserve token network s write)

  -- Sending a swap that was prepared, in either direction and however it ends, keeps every property
  -- of the state that a transaction of the node keeps and that the balances of the networks and of
  -- the tokens do not bear on.
  pub swap_tokens-Preserves :
      (token_address : String) (amount : bn.Num) (network : Network) (direction : SwapDirection)
      (s : App bn.Num World) (write : ContractMethodWrite bn.Num World)
      → swap_tokens bn orm node account token_address amount network direction s ≡ ok write
      → Preserves P write.send
  unfolding swap_tokens
  swap_tokens-Preserves token_address amount network forward s write =
      bind_value (swap_rows bn orm node account token_address network s) _ write
        (λ (rows : Token bn.Num × Token bn.Num).
          bind_value (node.get_gas_price network s) _ write (λ (price : bn.Num).
            swap_forward-Preserves (rows.0) (rows.1) amount price network s write))
  swap_tokens-Preserves token_address amount network back s write =
      bind_value (swap_rows bn orm node account token_address network s) _ write
        (λ (rows : Token bn.Num × Token bn.Num).
          bind_value (node.get_gas_price network s) _ write (λ (price : bn.Num).
            swap_back_by-Preserves (rows.0) (rows.1) amount price network s write))

  -- So does sending a liquidation, with its approval first.
  pub prepare_liquidation-Preserves :
      (call_data : LiquidationCall bn.Num) (gas_price : Option bn.Num) (network : Network)
      (s : App bn.Num World) (write : ContractMethodWrite bn.Num World)
      → prepare_liquidation bn orm node account call_data gas_price network s ≡ ok write
      → Preserves P write.send
  unfolding prepare_liquidation
  prepare_liquidation-Preserves call_data gas_price network s write =
      bind_value (price_of bn orm node account gas_price network s) _ write (λ (price : bn.Num).
        bind_value (node.get_lending_pool_address network s) _ write (λ (pool : String).
          bind_both
            (approve bn orm node account call_data.debt_asset pool call_data.debt_to_cover price
              network s)
            _ write
            (λ approval made e. returned-Preserves bn orm node account P free write e (
              send_liquidation-Preserves bn orm node account P free approval.send
                (liquidation_call pool call_data) price network
                (approve-Preserves bn orm node account P free call_data.debt_asset pool
                  call_data.debt_to_cover price network s approval made)))))

  -- And a flash loan, which is one transaction.
  pub prepare_flashloan-Preserves :
      (call_data : LiquidationCall bn.Num) (gas_price : Option bn.Num) (network : Network)
      (s : App bn.Num World) (write : ContractMethodWrite bn.Num World)
      → prepare_flashloan bn orm node account call_data gas_price network s ≡ ok write
      → Preserves P write.send
  unfolding prepare_flashloan
  prepare_flashloan-Preserves call_data gas_price network s write =
      bind_value (price_of bn orm node account gas_price network s) _ write (λ (price : bn.Num).
        bind_value (node.get_lending_pool_address network s) _ write (λ (pool : String).
          let call = flash_loan_call pool (flashloan_liquidation_adapter network) call_data in
          bind_value (node.estimate_gas call network s) _ write (λ gas e.
            returned-Preserves bn orm node account P free write e (
              send_call-Preserves bn orm node account P free call gas (some price) price network))))
