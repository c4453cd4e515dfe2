-- ===== src/Backend/Writes.antt =====
-- What the writes of the backend keep: they reach the chain and the balances, and nothing else.
use liquidator.Base.{ℕ, String, ◌≡◌, sym, subst, Option, some, List}
use liquidator.BigNumber.{BigNumber}
use liquidator.Config.{Network}
use liquidator.Orm.{Orm}
use liquidator.State.{App, NetworkRow, Token}
use liquidator.Liquidator.Effects.{WritesKeep}
use liquidator.Program.Invariant.{OutsideFree}
use liquidator.Contracts.{Call, Node, forward, back}
use liquidator.Contracts.Safety.{IsUntouched, update_token_balance-Preserves}
use liquidator.Contracts.Writes.{
  swap_tokens-Preserves, prepare_liquidation-Preserves, prepare_flashloan-Preserves,
}
use liquidator.Backend.{Chain, services_of, swap_from_reserve_token, swap_to_reserve_token}

-- A transaction changes the chain, and not the tables of the backend.
pub record OnChain {Num World : Type 0} (node : Node Num World) : Type 0 where
  pub only_world :
      (call : Call Num) (gas : ℕ) (price : Option Num) (network : Network) (s : App Num World)
      → (node.send_signed call gas price network s).1
        ≡ record s { world = (node.send_signed call gas price network s).1.world }

-- The balances of the networks and of the tokens do not bear on the property.
pub record BalancesFree {Num World : Type 0} (P : App Num World → Type 0) : Type 0 where
  pub networks_free :
      (s : App Num World) (networks : List (NetworkRow Num))
      → P s
      → P (record s { networks = networks })
  pub tokens_free :
      (s : App Num World) (tokens : List (Token Num)) → P s → P (record s { tokens = tokens })

module _ {Num World : Type 0} (node : Node Num World) (P : App Num World → Type 0) where
  OnChain-IsUntouched : OnChain node → OutsideFree P → BalancesFree P → IsUntouched node P
  OnChain-IsUntouched on outside balances = record {
    sends = λ call gas price network. record {
      apply = λ s h. subst P (sym (on.only_world call gas price network s)) (outside.world s _ h);
    };
    networks_free = balances.networks_free;
    tokens_free = balances.tokens_free;
  }

module _ (bn : BigNumber) (orm : Orm) {World : Type 0} (chain : Chain bn.Num World)
    (account : String) (P : App bn.Num World → Type 0) where
  pub services_of-WritesKeep :
      OnChain chain.node
      → OutsideFree P
      → BalancesFree P
      → WritesKeep (services_of bn orm chain account) P
  unfolding services_of swap_from_reserve_token swap_to_reserve_token
  services_of-WritesKeep on outside balances =
      let free = OnChain-IsUntouched chain.node P on outside balances in
      record {
        swap_from = λ token amount network s write.
            swap_tokens-Preserves bn orm chain.node account P free token amount network forward s
              write;
        swap_to = λ token amount network s write.
            swap_tokens-Preserves bn orm chain.node account P free token amount network back s
              write;
        liquidates = λ call gas_price network s write.
            prepare_liquidation-Preserves bn orm chain.node account P free call (some gas_price)
              network s write;
        flashloans = λ call gas_price network s write.
            prepare_flashloan-Preserves bn orm chain.node account P free call (some gas_price)
              network s write;
        balances = update_token_balance-Preserves bn orm chain.node account P free;
      }
