-- ===== src/Tokens.antt =====
-- src/database/Token.ts: the tokens of the protocol, their balances, and the conversion between
-- them. What the contracts answer is an interface.
pub mod Convert
pub mod Keeps
pub mod Tests
use liquidator.Base.{
  ℕ, String, Bool, true, false, ◌&&◌, ◌||◌, not, Option, none, some, List, [], ◌∷◌, ◌++◌, length,
  find, filter, str_eq, ◌==◌, if◌then◌else◌,
}
use liquidator.Base.Results.{
  Error, Result, ok, err, type_error, external, invalid_token_pair, or_throw, throw_if, ◌>>=◌, ◌>>◌,
}
use liquidator.BigNumber.{BigNumber}
use liquidator.BigNumber.Amounts.{amount_eth}
use liquidator.Config.{Network, network_eq, general_reserve}
use liquidator.Orm.{Orm}
use liquidator.State.{App, Token, NetworkRow}
use liquidator.State.Monad.{Action, pure}
use liquidator.Services.{GeneralReserveToken}

-- `IReserveConfigurationData`
pub record ReserveConfiguration (Num : Type 0) : Type 0 where
  pub decimals : ℕ
  pub ltv : Num
  pub liquidation_threshold : Num
  pub liquidation_bonus : Num
  pub reserve_factor : Num
  pub usage_as_collateral_enabled : Bool
  pub borrowing_enabled : Bool
  pub stable_borrow_rate_enabled : Bool
  pub is_active : Bool
  pub is_frozen : Bool

-- `IReserveTokensAddresses`
pub record ReserveTokensAddresses : Type 0 where
  pub deposit_token_address : String
  pub stable_debt_token_address : String
  pub variable_debt_token_address : String

-- `ITokenDescription`, the fields that are read.
pub record TokenDescription : Type 0 where
  pub token : String
  pub token_symbol : String
  pub underlying : String

-- What the contracts answer about tokens.
pub record TokenReads (Num World : Type 0) : Type 0 where
  pub balance_of : String → String → Network → App Num World → Result Num
  pub get_asset_price : String → Network → App Num World → Result Num
  pub get_reserve_configuration :
      String → Network → App Num World → Result (ReserveConfiguration Num)
  pub get_reserve_tokens_addresses :
      String → Network → App Num World → Result ReserveTokensAddresses
  pub get_all_reserves_tokens : Network → App Num World → Result (List TokenDescription)

abbrev pub zero_address : String
zero_address = "0x0000000000000000000000000000000000000000"

-- The tokens that `fillTokens` takes: not derived from another one.
unfoldable pub is_pool_asset : TokenDescription → Bool
is_pool_asset t = str_eq t.underlying zero_address && not (str_eq t.token zero_address)

module _ {Num : Type 0} where
  abbrev pub is_token : String → Token Num → Bool
  is_token address t = str_eq t.token_address address

  -- The row that `fillToken` writes.
  unfoldable pub token_row :
      TokenDescription
      → Network
      → ReserveConfiguration Num
      → ReserveTokensAddresses
      → Num
      → Token Num
  token_row t network c addresses balance = record {
    token_address = t.token;
    symbol = t.token_symbol;
    decimals = c.decimals;
    ltv = c.ltv;
    liquidation_threshold = c.liquidation_threshold;
    liquidation_bonus = c.liquidation_bonus;
    reserve_factor = c.reserve_factor;
    usage_as_collateral_enabled = c.usage_as_collateral_enabled;
    borrowing_enabled = c.borrowing_enabled;
    stable_borrow_rate_enabled = c.stable_borrow_rate_enabled;
    is_active = c.is_active;
    is_frozen = c.is_frozen;
    network_id = network;
    a_token_address = addresses.deposit_token_address;
    stable_debt_token_address = addresses.stable_debt_token_address;
    variable_debt_token_address = addresses.variable_debt_token_address;
    balance = balance;
  }

module _ (bn : BigNumber) (orm : Orm) {World : Type 0} (reads : TokenReads bn.Num World)
    (account : String) where
  open bn use {Num, times, div, shifted_up, shifted_down, to_fixed}
  open orm use {find_one, find_all, upsert}
  open reads use {
    balance_of, get_asset_price, get_reserve_configuration, get_reserve_tokens_addresses,
    get_all_reserves_tokens,
  }

  -- `TokenModel.findByPk`
  unfoldable pub token_at : String → App Num World → Result (Token Num)
  token_at address s = or_throw (find_one (is_token address) s.tokens) type_error

  -- `getAvailableLiquidity`: what the deposit token of the reserve holds of it.
  unfoldable pub get_available_liquidity : String → App Num World → Result Num
  get_available_liquidity address s = token_at address s >>= λ token.
      balance_of token.a_token_address token.token_address token.network_id s

  -- `getGeneralReserveToken`
  unfoldable pub get_general_reserve_token :
      Network → App Num World → Result (GeneralReserveToken Num)
  get_general_reserve_token network s = token_at (general_reserve network) s >>= λ token.
      get_asset_price token.token_address network s >>= λ price. ok (record {
        token_address = token.token_address;
        balance_eth = amount_eth bn token.balance token.decimals price;
      })

  -- The value that `convertToken` returns.
  unfoldable pub converted : Num → ℕ → Num → ℕ → Num → Num
  converted amount from_decimals price_from to_decimals price_to = to_fixed 0 (
      shifted_up to_decimals (
        div (times (shifted_down from_decimals amount) (shifted_down 18 price_from))
          (shifted_down 18 price_to)))

  -- `convertToken`
  unfoldable pub convert_token : String → String → Num → App Num World → Result Num
  convert_token from_address to_address amount s =
      let tokens =
        find_all (λ (t : Token Num). is_token from_address t || is_token to_address t) s.tokens in
      throw_if (not (length tokens == 2)) invalid_token_pair
      >> (or_throw (find (is_token from_address) tokens) type_error >>= λ from_token.
          or_throw (find (is_token to_address) tokens) type_error >>= λ to_token.
          get_asset_price from_address from_token.network_id s >>= λ price_from.
          get_asset_price to_address from_token.network_id s >>= λ price_to.
          ok (converted amount from_token.decimals price_from to_token.decimals price_to))

  -- What `fillToken` reads.
  unfoldable pub read_token : Network → TokenDescription → App Num World → Result (Token Num)
  read_token network t s = get_reserve_configuration t.token network s >>= λ configuration.
      get_reserve_tokens_addresses t.token network s >>= λ addresses.
      balance_of account t.token network s >>= λ balance.
      ok (token_row t network configuration addresses balance)

  -- `TokenModel.upsert(…)`, by the primary key.
  unfoldable pub write_token : Token Num → App Num World → App Num World
  write_token row s = record s { tokens = upsert (is_token row.token_address) row s.tokens }

  -- `fillToken`
  unfoldable pub fill_token : Network → TokenDescription → Action (App Num World) (Unit {0})
  fill_token network t s = elim (read_token network t s) [
    | err e ↦ (err e, s)
    | ok row ↦ (ok tt, write_token row s)
  ]

  -- Every token is started on; that one of them failed is known at the end.
  unfoldable pub fill_each : Network → List TokenDescription → Action (App Num World) (Unit {0})
  fill_each network [] s = (ok tt, s)
  fill_each network (t ∷ rest) s =
      let (r, s') = fill_token network t s in
      let (later, s'') = fill_each network rest s' in (elim r [ err e ↦ err e | ok _ ↦ later ], s'')

  -- The loop of `fillTokens` over the networks that are active.
  unfoldable pub fill_networks : List (NetworkRow Num) → Action (App Num World) (Unit {0})
  fill_networks [] s = (ok tt, s)
  fill_networks (n ∷ rest) s = elim (get_all_reserves_tokens n.id s) [
    | err e ↦ (err e, s)
    | ok tokens ↦
        let (r, s') = fill_each n.id (filter is_pool_asset tokens) s in
        let (later, s'') = fill_networks rest s' in (elim r [ err e ↦ err e | ok _ ↦ later ], s'')
  ]

  -- `fillTokens`
  unfoldable pub fill_tokens : Action (App Num World) (Unit {0})
  fill_tokens s = fill_networks (find_all (λ (n : NetworkRow Num). n.is_active) s.networks) s
