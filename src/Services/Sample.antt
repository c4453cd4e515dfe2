-- ===== src/Services/Sample.antt =====
-- A small installation for the tests: one user with a deposit and a loan, and services that answer
-- at fixed figures.
use liquidator.Base.{◌≡◌, refl, false, if◌then◌else◌, true, ℕ, ◌*◌, ◌^◌, none, some, [], ◌∷◌, ◌+◌}
use liquidator.Base.Int.{ℤ, pos}
use liquidator.Base.Results.{Result, ok, err, external}
use liquidator.BigNumber.Exact.{exact, Decimal}
use liquidator.BigNumber.Bigint.{Bigint, fits}
use liquidator.Config.{bsc}
use liquidator.Estimate.{ReserveToken}
use liquidator.State.{App, UserAccount, UserAccountData, Liquidation, pending}
use liquidator.State.Monad.{pure}
use liquidator.Services.{Services, Listener, ContractMethodWrite}

abbrev pub amount : ℕ → Decimal
amount n = (pos n, 0)

abbrev deposit : ReserveToken Decimal
deposit = record {
  symbol = "DAI";
  contract_address = "0xd";
  decimal = 2;
  liquidation_bonus = amount 10500;
  amount = amount 1000;
  amount_eth = amount 30;
  rate = amount 3;
}

abbrev loan : ReserveToken Decimal
loan = record {
  symbol = "USD";
  contract_address = "0xe";
  decimal = 1;
  liquidation_bonus = amount 10500;
  amount = amount 120;
  amount_eth = amount 48;
  rate = amount 4;
}

abbrev pub account_data : UserAccountData Decimal
account_data = record {
  total_collateral_eth = amount 30;
  total_debt_eth = amount 48;
  available_borrows_eth = amount 0;
  current_liquidation_threshold = amount 8000;
  ltv = amount 7500;
  health_factor = 95 * 10 ^ 16;
}

abbrev pub listener : Listener
listener = record { contract_address = "0xp"; network_id = bsc; last_block = some 7 }

-- A write that counts itself in the world.
abbrev pub write : ContractMethodWrite Decimal ℕ
write = record {
  estimate = 2;
  send = λ s. (ok (record { txs = "0xt" ∷ []; fee = amount 1 }), record s { world = s.world + 1 });
}

abbrev pub services : Services Decimal ℕ
services = record {
  get_listeners = λ network s. ok (listener ∷ []);
  get_user_account_data = λ user pool network s. ok account_data;
  get_gas_price = λ network s. ok (amount 1);
  get_asset_price = λ token network s. ok (amount 1);
  get_balance = λ network s. amount 500;
  get_user_reserves = λ user network s.
      ok (record { collateral = ("DAI", deposit) ∷ []; debt = ("USD", loan) ∷ [] });
  get_available_liquidity = λ token s. ok (amount 5000);
  get_general_reserve_token =
      λ network s. ok (record { token_address = "0xr"; balance_eth = amount 900 });
  swap_from_reserve_token = λ token n network s. ok write;
  swap_to_reserve_token = λ token n network s. ok write;
  liquidate = λ call gas_price network s. ok write;
  flashloan_liquidate = λ call gas_price network s. ok write;
  deletes_jobs = λ user_address s. true;
  adds_job = λ job s. true;
  can_update_listeners = λ block network s. ok tt;
  update_token_balance = λ token network. pure (amount 0);
}

abbrev pub user : UserAccount Decimal
user = record {
  id = "u0";
  address = "0xa";
  total_collateral_eth = amount 30;
  total_debt_eth = amount 40;
  available_borrows_eth = amount 0;
  current_liquidation_threshold = amount 8000;
  ltv = amount 7500;
  health_factor = pos 130;
  network_id = bsc;
}

abbrev pub position : Liquidation Decimal
position = record {
  id = 1;
  user_id = "u0";
  status = pending;
  estimated_profit_eth = amount 7;
  fact_profit_eth = none;
  to_update_date = none;
  updated_at = 5;
}

-- One user with one position that is pending.
abbrev pub app : App Decimal ℕ
app = record {
  users = user ∷ [];
  liquidations = position ∷ [];
  tokens = [];
  jobs = [];
  listeners = record { contract_address = "0xp"; network_id = bsc; last_block = some 7 } ∷ [];
  networks = record { id = bsc; balance = amount 3; is_active = true } ∷ [];
  next_id = 2;
  uuids = λ n. "u1";
  now = 9;
  world = 0;
}

-- The cast of a number with no decimal places.
unfoldable pub cast : Decimal → Result ℤ
cast d = if fits d.0 then ok d.0 else err external

pub cast_in_range : (d : Decimal) (z : ℤ) → d ≡ (z, 0) → fits z ≡ true → cast d ≡ ok z
unfolding cast
cast_in_range d z e f = rw e (rw f refl)

pub cast_out_of_range : (d : Decimal) (z : ℤ) → d ≡ (z, 0) → fits z ≡ false → cast d ≡ err external
unfolding cast
cast_out_of_range d z e f = rw e (rw f refl)

abbrev pub sortable : Bigint exact
sortable = record { to_bigint = cast; in_range = cast_in_range; out_of_range = cast_out_of_range }
