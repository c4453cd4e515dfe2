-- ===== src/Reserves/Tests.antt =====
-- A user whose configuration names one reserve, as a collateral and as a debt.
use liquidator.Base.{
  false, arith, ℕ, ◌+◌, ◌*◌, ◌/◌, ◌%◌, ◌^◌, ◌==◌, ◌≡◌, refl, true, false, some, [], ◌∷◌,
}
use liquidator.Base.Results.{ok}
use liquidator.BigNumber.Exact.{exact, Decimal}
use liquidator.BigNumber.Amounts.{IsWhole}
use liquidator.Config.{bsc}
use liquidator.Estimate.{ReserveToken, UserReserve}
use liquidator.Services.Sample.{app, amount}
use liquidator.State.{App, Token}
use liquidator.Reserves.{ReserveReads, s_debt, v_debt, binary, slots, entry, reserve_token, enter}
use liquidator.Reserves.Bits.{flags, flags-binary, first_debt_lost}
use liquidator.Reserves.Debt.{debt_sum}

-- The token of the reserve.
abbrev pub dai : Token Decimal
dai = record {
  token_address = "0xd";
  symbol = "DAI";
  decimals = 2;
  ltv = amount 7500;
  liquidation_threshold = amount 8000;
  liquidation_bonus = amount 10500;
  reserve_factor = amount 1000;
  usage_as_collateral_enabled = true;
  borrowing_enabled = true;
  stable_borrow_rate_enabled = true;
  is_active = true;
  is_frozen = false;
  network_id = bsc;
  a_token_address = "0xda";
  stable_debt_token_address = "0xds";
  variable_debt_token_address = "0xdv";
  balance = amount 0;
}

-- The pool's second reserve is the token; every balance is 1000 and every price 3.
abbrev pub reads : ReserveReads Decimal ℕ
reads = record {
  get_reserves_list = λ network s. ok ("0xe" ∷ "0xd" ∷ []);
  get_pool_address = λ network s. ok "0xp";
  get_user_configuration = λ user pool network s. ok 12;
  balance_of = λ user token network s. ok (amount 1000);
  get_asset_price = λ token network s. ok (amount 3);
}

abbrev with_dai : App Decimal ℕ
with_dai = record app { tokens = dai ∷ [] }

abbrev held : ReserveToken Decimal
held = record {
  symbol = "DAI";
  contract_address = "0xd";
  decimal = 2;
  liquidation_bonus = amount 10500;
  amount = amount 1000;
  amount_eth = amount 30;
  rate = amount 3;
}

abbrev owed : ReserveToken Decimal
owed = record held { amount = amount 2000; amount_eth = amount 60 }

flags-binary_example :
    flags 1 (slots (binary 12)) ≡ (12 / 2 ^ (2 * 1 + 1) % 2 == 1, 12 / 2 ^ (2 * 1) % 2 == 1)
flags-binary_example = flags-binary 12 1 (omega arith)

-- A deposit of the 27th reserve, and a debt of the first.
first_debt_lost_example : (flags 0 (slots (binary (2 ^ 53 + 1)))).1 ≡ false
first_debt_lost_example = first_debt_lost (2 ^ 53 + 1) (omega arith)

-- The bit of the debt is there in the number itself.
has_debt : (2 ^ 53 + 1) % 2 ≡ 1
has_debt = refl

debt_sum_example :
    let empty : UserReserve Decimal = record { collateral = []; debt = [] } in
    let stable = reserve_token exact dai (amount 50) (amount 3) in
    let variable = reserve_token exact dai (amount 70) (amount 3) in
    (e : ReserveToken Decimal) × (entry "DAI"
        (enter exact v_debt variable (enter exact s_debt stable empty)).debt
      ≡ some e)
    × IsWhole exact e.amount (70 + 50)
debt_sum_example =
    debt_sum exact dai (amount 50) (amount 70) (amount 3) 50 70
      (record { collateral = []; debt = [] }) refl refl
