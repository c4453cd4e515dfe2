-- ===== src/Tokens/Tests.antt =====
-- A token in the table, and one that the protocol adds.
use liquidator.Base.{ℕ, ◌+◌, ◌*◌, ◌^◌, ◌≤◌, ◌≡◌, refl, true, false, [], ◌∷◌, count, arith}
use liquidator.Base.Results.{ok}
use liquidator.BigNumber.Exact.{exact, Decimal}
use liquidator.BigNumber.Amounts.{IsWhole}
use liquidator.Orm.Memory.{memory}
use liquidator.State.{App}
use liquidator.Services.Sample.{app, amount}
use liquidator.Reserves.Tests.{dai}
use liquidator.Tokens.{
  TokenReads, zero_address, is_token, converted, fill_tokens, fill_networks, fill_each, fill_token,
  read_token, token_row, write_token, is_pool_asset,
}
use liquidator.Tokens.Convert.{converted_bounds}

abbrev pub token_reads : TokenReads Decimal ℕ
token_reads = record {
  balance_of = λ user token network s. ok (amount 9);
  get_asset_price = λ token network s. ok (amount 3);
  get_reserve_configuration = λ token network s. ok (record {
    decimals = 18;
    ltv = amount 7000;
    liquidation_threshold = amount 7500;
    liquidation_bonus = amount 10500;
    reserve_factor = amount 1000;
    usage_as_collateral_enabled = true;
    borrowing_enabled = true;
    stable_borrow_rate_enabled = false;
    is_active = true;
    is_frozen = false;
  });
  get_reserve_tokens_addresses = λ token network s. ok (record {
    deposit_token_address = "0xaa";
    stable_debt_token_address = "0xas";
    variable_debt_token_address = "0xav";
  });
  get_all_reserves_tokens = λ network s.
      ok (record { token = "0xe"; token_symbol = "USD"; underlying = zero_address } ∷ []);
}

-- 7 units of a token with 2 decimals at a price of 3, into one with 4 decimals at a price of 2.
converted_bounds_example :
    (c : ℕ) × IsWhole exact
      (converted exact memory token_reads "0xme" (amount 7) 2 (amount 3) 4 (amount 2))
      c
    × (c * (2 * 10 ^ 2) ≤ 7 * 3 * 10 ^ 4 + 2 * 10 ^ 2)
    × (7 * 3 * 10 ^ 4 ≤ c * (2 * 10 ^ 2) + 2 * 10 ^ 2)
converted_bounds_example =
    converted_bounds exact memory token_reads "0xme" (amount 7) (amount 3) (amount 2) 7 2 3 4 1 refl
      refl refl (omega arith)

abbrev with_dai : App Decimal ℕ
with_dai = record app { tokens = dai ∷ [] }

-- The run ends without an error, and the new token is in the table once.
filled :
    let end = fill_tokens exact memory token_reads "0xme" with_dai in
    (end.0 ≡ ok tt) × (count (is_token "0xe") end.1.tokens ≡ 1)
unfolding fill_tokens fill_networks fill_each fill_token read_token token_row write_token
    is_pool_asset
filled = (refl, refl)
