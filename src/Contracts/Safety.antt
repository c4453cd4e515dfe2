-- ===== src/Contracts/Safety.antt =====
-- What sending a transaction may touch.
use liquidator.Base.{ℕ, String, ◌≡◌, subst, Option, none, some, List, [], ◌∷◌}
use liquidator.Base.Results.{Result, ok, err, type_error, bind_value}
use liquidator.BigNumber.{BigNumber}
use liquidator.Config.{Network}
use liquidator.Orm.{Orm}
use liquidator.State.{App, NetworkRow, Token}
use liquidator.State.Monad.{Action, pure, read, present, ◌>>=◌, ◌>>◌}
use liquidator.State.Preserves.{
  Preserves, read-Preserves, pure-Preserves, present-Preserves, bind-Preserves,
}
use liquidator.Services.{SendRes, ContractMethodWrite}
use liquidator.Base.{str_eq}
use liquidator.Contracts.{
  Call, approve_call, Node, update_balance, update_token_balance, send_and_wait, send_call,
  send_swap, send_liquidation, send_both, approve,
}

-- A property of the state that a transaction keeps, and that the balances do not bear on.
pub record IsUntouched {Num World : Type 0} (node : Node Num World) (P : App Num World → Type 0)
    : Type 0 where
  pub sends :
      (call : Call Num) (gas : ℕ) (price : Option Num) (network : Network)
      → Preserves P (node.send_signed call gas price network)
  pub networks_free :
      (s : App Num World) (networks : List (NetworkRow Num))
      → P s
      → P (record s { networks = networks })
  pub tokens_free :
      (s : App Num World) (tokens : List (Token Num)) → P s → P (record s { tokens = tokens })

module _ (bn : BigNumber) (orm : Orm) {World : Type 0} (node : Node bn.Num World)
    (account : String) where
  module _ (P : App bn.Num World → Type 0) (free : IsUntouched node P) where
    update_balance-Preserves :
        (network : Network) → Preserves P (update_balance bn orm node account network)
    unfolding update_balance
    update_balance-Preserves network = record { apply = λ s h. free.networks_free s _ h }

    pub update_token_balance-Preserves :
        (token_address : String) (network : Network)
        → Preserves P (update_token_balance bn orm node account token_address network)
    unfolding update_token_balance
    update_token_balance-Preserves token_address network = record {
      apply = λ s h. go s h (node.balance_of account token_address network s);
    }
      where
        go :
            (s : App bn.Num World)
            → P s
            → (r : Result bn.Num)
            → let end : Result bn.Num × App bn.Num World = elim r [
              | err e ↦ (err e, s)
              | ok balance ↦ (
                ok balance,
                record s {
                  tokens =
                      orm.update
                        (λ (t : Token bn.Num). str_eq t.token_address token_address)
                        (λ t. record t { balance = balance })
                        s.tokens;
                },
              )
            ] in
              P end.1
        go s h (err e) = h
        go s h (ok balance) = free.tokens_free s _ h

    send_and_wait-Preserves :
        (call : Call bn.Num) (gas : ℕ) (price : Option bn.Num) (network : Network)
        → Preserves P (send_and_wait bn orm node account call gas price network)
    unfolding send_and_wait
    send_and_wait-Preserves call gas price network =
        bind-Preserves P (node.send_signed call gas price network)
          (λ hash. read (node.get_transaction_receipt hash network) >>= λ receipt.
            update_balance bn orm node account network >> present receipt type_error)
          (free.sends call gas price network)
          (λ hash.
            bind-Preserves P (read (node.get_transaction_receipt hash network))
              (λ receipt. update_balance bn orm node account network >> present receipt type_error)
              (read-Preserves P (node.get_transaction_receipt hash network))
              (λ receipt.
                bind-Preserves P (update_balance bn orm node account network)
                  (λ _. present receipt type_error) (update_balance-Preserves network)
                  (λ _. present-Preserves P receipt type_error)))

    pub send_call-Preserves :
        (call : Call bn.Num) (gas : ℕ) (signed_price : Option bn.Num) (gas_price : bn.Num)
        (network : Network)
        → Preserves P (send_call bn orm node account call gas signed_price gas_price network)
    unfolding send_call
    send_call-Preserves call gas signed_price gas_price network =
        bind-Preserves P (send_and_wait bn orm node account call gas signed_price network)
          (λ tx. pure (record {
            txs = tx.transaction_hash ∷ [];
            fee = bn.times (bn.num tx.gas_used 0) gas_price;
          }))
          (send_and_wait-Preserves call gas signed_price network) (λ tx. pure-Preserves P _)

    pub send_swap-Preserves :
        (call : Call bn.Num) (gas_price : bn.Num) (network : Network)
        → Preserves P (send_swap bn orm node account call gas_price network)
    unfolding send_swap
    send_swap-Preserves call gas_price network =
        bind-Preserves P (read (node.estimate_gas call network))
          (λ gas. send_call bn orm node account call gas none gas_price network)
          (read-Preserves P (node.estimate_gas call network))
          (λ gas. send_call-Preserves call gas none gas_price network)

    pub send_liquidation-Preserves :
        (send_approve : Action (App bn.Num World) (SendRes bn.Num)) (call : Call bn.Num)
        (gas_price : bn.Num) (network : Network)
        → Preserves P send_approve
        → Preserves P (send_liquidation bn orm node account send_approve call gas_price network)
    unfolding send_liquidation
    send_liquidation-Preserves send_approve call gas_price network h =
        bind-Preserves P send_approve _ h (λ approve_tx.
          bind-Preserves P (read (node.estimate_gas call network)) _
            (read-Preserves P (node.estimate_gas call network))
            (λ gas.
              bind-Preserves P (send_and_wait bn orm node account call gas (some gas_price) network)
                _ (send_and_wait-Preserves call gas (some gas_price) network)
                (λ tx. pure-Preserves P _)))

    pub send_both-Preserves :
        (send_approve send_swap : Action (App bn.Num World) (SendRes bn.Num))
        (reserve_address token_address : String) (network : Network)
        → Preserves P send_approve
        → Preserves P send_swap
        → Preserves P (
            send_both bn orm node account send_approve send_swap reserve_address token_address
              network)
    unfolding send_both
    send_both-Preserves send_approve send_swap reserve_address token_address network ha hs =
        bind-Preserves P send_approve _ ha (λ approve_tx.
          bind-Preserves P send_swap _ hs (λ swap_tx.
            bind-Preserves P (update_token_balance bn orm node account reserve_address network) _
              (update_token_balance-Preserves reserve_address network)
              (λ _.
                bind-Preserves P (update_token_balance bn orm node account token_address network) _
                  (update_token_balance-Preserves token_address network)
                  (λ _. pure-Preserves P _))))

    -- The write that was prepared is the one that is returned.
    pub returned-Preserves :
        {w : ContractMethodWrite bn.Num World} (v : ContractMethodWrite bn.Num World)
        → ok w ≡ ok v
        → Preserves P w.send
        → Preserves P v.send
    returned-Preserves {w = w} v e h =
        let same : w ≡ v = cc in
        subst (λ (x : ContractMethodWrite bn.Num World). Preserves P x.send) same h

    pub approve-Preserves :
        (token_address recipient : String) (amount gas_price : bn.Num) (network : Network)
        (s : App bn.Num World) (write : ContractMethodWrite bn.Num World)
        → approve bn orm node account token_address recipient amount gas_price network s ≡ ok write
        → Preserves P write.send
    unfolding approve
    approve-Preserves token_address recipient amount gas_price network s write =
        let call = approve_call token_address recipient amount in
        bind_value (node.estimate_gas call network s) _ write (λ gas e.
          returned-Preserves write e
            (send_call-Preserves call gas (some gas_price) gas_price network))
