-- ===== src/Contracts/Send.antt =====
-- Sending a transaction: `sendAndWaitRawTx` of src/contract/utils/web3.ts, the `send` functions of
-- erc20.ts, lp.ts and uniswapRouter.ts, and the balances that they bring up to date. What the node
-- and the contracts answer is an interface.
use liquidator.Base.{ℕ, String, ◌*◌, Option, none, some, [], ◌∷◌, ◌++◌, str_eq}
use liquidator.Base.Results.{Result, ok, err, type_error}
use liquidator.BigNumber.{BigNumber}
use liquidator.Config.{Network, network_eq}
use liquidator.Orm.{Orm}
use liquidator.State.{App, NetworkRow, Token}
use liquidator.State.Monad.{Action, pure, read, present, ◌>>=◌, ◌>>◌}
use liquidator.Services.{SendRes, LiquidationCall}

-- The calls that are encoded: the method, its address and its arguments.
pub data Call (Num : Type 0) : Type 0 where
  approve_call : String → String → Num → Call Num
  liquidation_call : String → LiquidationCall Num → Call Num
  flash_loan_call : String → String → LiquidationCall Num → Call Num
  swap_for_exact_call : Num → Num → String → String → ℕ → Call Num
  swap_exact_call : Num → Num → String → String → ℕ → Call Num

-- `TransactionReceipt`, the fields that are read.
pub record Receipt : Type 0 where
  pub transaction_hash : String
  pub gas_used : ℕ

-- The node: a transaction is signed with a limit of gas, and with a price if one is given.
pub record Node (Num World : Type 0) : Type 0 where
  pub get_gas_price : Network → App Num World → Result Num
  pub estimate_gas : Call Num → Network → App Num World → Result ℕ
  pub send_signed : Call Num → ℕ → Option Num → Network → Action (App Num World) String
  pub get_transaction_receipt : String → Network → App Num World → Result (Option Receipt)
  pub get_balance : Network → App Num World → Num
  pub balance_of : String → String → Network → App Num World → Result Num
  pub get_lending_pool_address : Network → App Num World → Result String
  pub get_amount_in : Num → String → String → Network → App Num World → Result Num
  pub get_amount_out : Num → String → String → Network → App Num World → Result Num

-- `SwapDirection`
pub data SwapDirection : Type 0 where
  forward back : SwapDirection

-- `150_000`
abbrev pub swap_gas : ℕ
swap_gas = 150 * 1000

-- `700_000`
abbrev pub liquidation_gas : ℕ
liquidation_gas = 700 * 1000

-- `60 * 20 * 1000`
abbrev pub swap_time : ℕ
swap_time = 60 * 20 * 1000

module _ (bn : BigNumber) (orm : Orm) {World : Type 0} (node : Node bn.Num World)
    (account : String) where
  open bn use {Num, num, plus, times}
  open orm use {update}
  open node use {estimate_gas, send_signed, get_transaction_receipt, get_balance, balance_of}

  -- `updateBalance`
  unfoldable pub update_balance : Network → Action (App Num World) (Unit {0})
  update_balance network s = (
    ok tt,
    record s {
      networks =
          update (λ (n : NetworkRow Num). network_eq n.id network)
            (λ n. record n { balance = get_balance network s }) s.networks;
    },
  )

  -- `updateTokenBalance`
  unfoldable pub update_token_balance : String → Network → Action (App Num World) Num
  update_token_balance token_address network s = elim (balance_of account token_address network s) [
    | err e ↦ (err e, s)
    | ok balance ↦ (
      ok balance,
      record s {
        tokens =
            update (λ (t : Token Num). str_eq t.token_address token_address)
              (λ t. record t { balance = balance }) s.tokens;
      },
    )
  ]

  -- `sendAndWaitRawTx`, and the field of the receipt that is read next.
  unfoldable pub send_and_wait :
      Call Num → ℕ → Option Num → Network → Action (App Num World) Receipt
  send_and_wait call gas price network = send_signed call gas price network >>= λ hash.
      read (get_transaction_receipt hash network) >>= λ receipt.
      update_balance network >> present receipt type_error

  -- A transaction on its own, with the fee reckoned at a gas price.
  unfoldable pub send_call :
      Call Num → ℕ → Option Num → Num → Network → Action (App Num World) (SendRes Num)
  send_call call gas signed_price gas_price network =
      send_and_wait call gas signed_price network >>= λ tx.
      pure (record { txs = tx.transaction_hash ∷ []; fee = times (num tx.gas_used 0) gas_price })

  -- The `send` of a swap, whose gas is estimated when it is sent. The transaction is signed with
  -- `data.gasPrice`, which nothing sets.
  unfoldable pub send_swap : Call Num → Num → Network → Action (App Num World) (SendRes Num)
  send_swap call gas_price network =
      read (estimate_gas call network) >>= λ gas. send_call call gas none gas_price network

  -- The `send` of a liquidation: the approval first.
  unfoldable pub send_liquidation :
      Action (App Num World) (SendRes Num)
      → Call Num
      → Num
      → Network
      → Action (App Num World) (SendRes Num)
  send_liquidation send_approve call gas_price network = send_approve >>= λ approve_tx.
      read (estimate_gas call network) >>= λ gas.
      send_and_wait call gas (some gas_price) network >>= λ tx. pure (record {
        fee = plus (times (num tx.gas_used 0) gas_price) approve_tx.fee;
        txs = approve_tx.txs ++ (tx.transaction_hash ∷ []);
      })

  -- The `send` of `swapTokens`: the approval, the swap, and the balances of both tokens.
  unfoldable pub send_both :
      Action (App Num World) (SendRes Num)
      → Action (App Num World) (SendRes Num)
      → String
      → String
      → Network
      → Action (App Num World) (SendRes Num)
  send_both send_approve send_swap reserve_address token_address network =
      send_approve >>= λ approve_tx. send_swap >>= λ swap_tx.
      update_token_balance reserve_address network
      >> (update_token_balance token_address network
          >> pure (record {
            fee = plus approve_tx.fee swap_tx.fee;
            txs = approve_tx.txs ++ swap_tx.txs;
          }))
