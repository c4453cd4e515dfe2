-- ===== src/Contracts/Tests.antt =====
-- A swap on a node that answers at fixed figures.
use liquidator.Base.{ℕ, ◌+◌, ◌≡◌, refl, false, none, some, [], ◌∷◌}
use liquidator.Base.Results.{ok}
use liquidator.BigNumber.Exact.{exact, Decimal, align}
use liquidator.Orm.Memory.{memory}
use liquidator.Config.{bsc, general_reserve, uniswap_addresses}
use liquidator.Services.{ContractMethodWrite, LiquidationCall}
use liquidator.Services.Sample.{app, amount}
use liquidator.Reserves.Tests.{dai}
use liquidator.State.{App, Token}
use liquidator.Enqueue.Rows.{WorksOn}
use liquidator.Contracts.{
  Node, liquidation_gas, liquidation_call, send_liquidation, approve_call, swap_for_exact_call,
  swap_gas, swap_time, send_both, send_call, send_swap, approve, swap_by, swap_forward,
  prepare_liquidation, price_of,
}
use liquidator.Contracts.Funds.{swap_forward_affordable}
use liquidator.Contracts.Safety.{IsUntouched}

abbrev pub node : Node Decimal ℕ
node = record {
  get_gas_price = λ network s. ok (amount 5);
  estimate_gas = λ call network s. ok 40;
  send_signed = λ call gas price network s. (ok "0xt", record s { world = s.world + 1 });
  get_transaction_receipt =
      λ hash network s. ok (some (record { transaction_hash = hash; gas_used = 30 }));
  get_balance = λ network s. amount 2;
  balance_of = λ user token network s. ok (amount 9);
  get_lending_pool_address = λ network s. ok "0xp";
  get_amount_in = λ n from to network s. ok (amount 6);
  get_amount_out = λ n from to network s. ok (amount 8);
}

abbrev reserve : Token Decimal
reserve = record dai { token_address = general_reserve bsc; balance = amount 7 }

abbrev with_tokens : App Decimal ℕ
with_tokens = record app { tokens = dai ∷ reserve ∷ [] }

node-IsUntouched : IsUntouched node (WorksOn 1)
node-IsUntouched = record {
  sends = λ call gas price network. record {
    apply =
        λ s h. record { ids = record { unique = h.ids.unique; below = h.ids.below }; few = h.few };
  };
  networks_free = λ s networks h. record {
    ids = record { unique = h.ids.unique; below = h.ids.below };
    few = h.few;
  };
  tokens_free = λ s tokens h. record {
    ids = record { unique = h.ids.unique; below = h.ids.below };
    few = h.few;
  };
}

-- 4 units of the token for 6 of the reserve, which has 7.
abbrev forward_swap : ContractMethodWrite Decimal ℕ
forward_swap = record {
  estimate = 40 + swap_gas;
  send =
      send_both exact memory node "0xme"
        (send_call exact memory node "0xme"
          (approve_call (general_reserve bsc) (uniswap_addresses bsc) (amount 6)) 40
          (some (amount 5)) (amount 5) bsc)
        (send_swap exact memory node "0xme"
          (swap_for_exact_call (amount 4) (amount 6) (general_reserve bsc) "0xd" (9 + swap_time))
          (amount 5) bsc)
        (general_reserve bsc) "0xd" bsc;
}

swap_forward_affordable_example :
    (price : Decimal) × (node.get_amount_in (amount 4) (general_reserve bsc) "0xd" bsc with_tokens
      ≡ ok price)
    × (exact.lt (amount 7) price ≡ false)
unfolding swap_forward swap_by approve align
swap_forward_affordable_example =
    swap_forward_affordable exact memory node "0xme" dai reserve (amount 4) (amount 5) bsc
      with_tokens forward_swap refl

abbrev call_data : LiquidationCall Decimal
call_data = record {
  collateral_asset = "0xd";
  debt_asset = "0xe";
  user = "0xa";
  debt_to_cover = amount 60;
  receive_a_token = false;
}

abbrev liquidation : ContractMethodWrite Decimal ℕ
liquidation = record {
  estimate = 40 + liquidation_gas;
  send =
      send_liquidation exact memory node "0xme"
        (send_call exact memory node "0xme" (approve_call "0xe" "0xp" (amount 60)) 40
          (some (amount 5)) (amount 5) bsc)
        (liquidation_call "0xp" call_data) (amount 5) bsc;
}

-- The preparation sends the approval first, and then the call.
prepared_liquidation :
    prepare_liquidation exact memory node "0xme" call_data none bsc with_tokens ≡ ok liquidation
unfolding prepare_liquidation price_of approve
prepared_liquidation = refl
