-- ===== src/Reserves.antt =====
-- src/database/UserAccount.ts, `getUserReserves`: the deposits and the debts of a user, from the
-- bits of the user's configuration in the lending pool and the balances of the tokens.
pub mod Bits
pub mod Debt
pub mod Tests
use liquidator.Base.{
  ℕ, zero, suc, String, ◌+◌, ◌/◌, ◌%◌, Bool, true, false, not, ◌&&◌, ◌||◌, Option, none, some, List,
  [], ◌∷◌, ◌++◌, filter, find, get_elem?, str_eq, ◌==◌, to_double, if◌then◌else◌,
}
use liquidator.Base.Results.{Result, ok, err, type_error, or_throw, ◌>>=◌}
use liquidator.BigNumber.{BigNumber}
use liquidator.BigNumber.Amounts.{amount_eth}
use liquidator.Config.{Network, network_eq}
use liquidator.Estimate.{ReserveToken, UserReserve}
use liquidator.Orm.{Orm}
use liquidator.State.{App, UserAccount, Token}
use liquidator.Queue.{at}

-- The digits of a number that is not 0, from its end, in base 2.
unfoldable pub digits_from : ℕ → ℕ → List Bool
digits_from zero n = []
digits_from (suc fuel) n =
    let rest = digits_from fuel (n / 2) in if n == 0 then [] else (n % 2 == 1) ∷ rest

-- `Number(configuration).toString(2)`, read from its end. From 2 ^ 53 on `Number` rounds.
unfoldable pub binary : ℕ → List Bool
binary configuration =
    let n = to_double configuration in if n == 0 then false ∷ [] else digits_from n n

-- The loop over the padded text, two digits at a time: whether the reserve is a collateral of the
-- user, and whether it is a debt. A single digit is the one before the padding '0'.
unfoldable pub slots : List Bool → List (Bool × Bool)
slots [] = []
slots (debt ∷ []) = (false, debt) ∷ []
slots (debt ∷ collateral ∷ rest) = (collateral, debt) ∷ slots rest

-- `type` of a balance's payload.
pub data BalanceType : Type 0 where
  collateral s_debt v_debt : BalanceType

-- A balance to ask for: of the token at the address, on account of the reserve's own token.
pub record BalanceRequest (Num : Type 0) : Type 0 where
  pub token : Token Num
  pub address : String
  pub type : BalanceType

-- What the pool's contracts answer to the reads.
pub record ReserveReads (Num World : Type 0) : Type 0 where
  pub get_reserves_list : Network → App Num World → Result (List String)
  pub get_pool_address : Network → App Num World → Result String
  pub get_user_configuration : String → String → Network → App Num World → Result ℕ
  pub balance_of : String → String → Network → App Num World → Result Num
  pub get_asset_price : String → Network → App Num World → Result Num

module _ {Num : Type 0} where
  -- The balances of a reserve that the two flags ask for.
  unfoldable pub requests_of : Token Num → Bool → Bool → List (BalanceRequest Num)
  requests_of t has_collateral has_debt =
      (if has_collateral
        then record { token = t; address = t.a_token_address; type = collateral } ∷ []
        else [])
      ++ (if has_debt
          then record { token = t; address = t.stable_debt_token_address; type = s_debt }
            ∷ record { token = t; address = t.variable_debt_token_address; type = v_debt }
            ∷ []
          else [])

  -- The loop over the reserves: a reserve without a row among the tokens throws, unless it is
  -- skipped.
  unfoldable pub collect_requests :
      List (Token Num) → List String → ℕ → List (Bool × Bool) → Result (List (BalanceRequest Num))
  collect_requests tokens reserves j [] = ok []
  collect_requests tokens reserves j ((has_collateral, has_debt) ∷ rest) =
      let later = collect_requests tokens reserves (j + 1) rest in
      if not has_collateral && not has_debt
      then later
      else or_throw (get_elem? reserves j) type_error >>= λ reserve.
          or_throw (find (λ t. str_eq t.token_address reserve) tokens) type_error >>= λ t.
          later >>= λ requests. ok (requests_of t has_collateral has_debt ++ requests)

  -- `entries[symbol] = token` on an object.
  unfoldable pub put :
      String
      → ReserveToken Num
      → List (String × ReserveToken Num)
      → List (String × ReserveToken Num)
  put symbol token [] = (symbol, token) ∷ []
  put symbol token ((s, t) ∷ rest) =
      let later = put symbol token rest in
      if str_eq s symbol then (s, token) ∷ rest else (s, t) ∷ later

  -- `entries[symbol]`
  unfoldable pub entry : String → List (String × ReserveToken Num) → Option (ReserveToken Num)
  entry symbol [] = none
  entry symbol ((s, t) ∷ rest) =
      let later = entry symbol rest in if str_eq s symbol then some t else later

module _ (bn : BigNumber) where
  open bn use {Num, plus, to_fixed}

  unfoldable pub reserve_token : Token Num → Num → Num → ReserveToken Num
  reserve_token t amount rate = record {
    symbol = t.symbol;
    contract_address = t.token_address;
    decimal = t.decimals;
    liquidation_bonus = t.liquidation_bonus;
    amount = amount;
    amount_eth = amount_eth bn amount t.decimals rate;
    rate = rate;
  }

  -- A debt that has been entered already grows by the balance.
  unfoldable pub add_debt : ReserveToken Num → ReserveToken Num → ReserveToken Num
  add_debt token entered = record entered {
    amount = to_fixed 0 (plus token.amount entered.amount);
    amount_eth = to_fixed 0 (plus token.amount_eth entered.amount_eth);
  }

  unfoldable pub enter : BalanceType → ReserveToken Num → UserReserve Num → UserReserve Num
  enter collateral token result = record result {
    collateral = put token.symbol token result.collateral;
  }
  enter s_debt token result = record result { debt = put token.symbol token result.debt }
  enter v_debt token result = record result {
    debt = elim (entry token.symbol result.debt) [
      | none ↦ put token.symbol token result.debt
      | some entered ↦ put token.symbol (add_debt token entered) result.debt
    ];
  }

  module _ {World : Type 0} (reads : ReserveReads Num World) where
    open reads use {
      get_reserves_list, get_pool_address, get_user_configuration, balance_of, get_asset_price,
    }

    -- The balances and rates are fetched, and entered in order.
    unfoldable pub enter_all :
        String
        → Network
        → App Num World
        → List (BalanceRequest Num)
        → UserReserve Num
        → Result (UserReserve Num)
    enter_all address network s [] result = ok result
    enter_all address network s (r ∷ rest) result =
        elim (get_asset_price r.token.token_address network s) [
          | err e ↦ err e
          | ok rate ↦ elim (balance_of address r.address network s) [
            | err e ↦ err e
            | ok amount ↦
                enter_all address network s rest
                  (enter r.type (reserve_token r.token amount rate) result)
          ]
        ]

    unfoldable pub get_user_reserves :
        Orm → String → Network → App Num World → Result (UserReserve Num)
    get_user_reserves orm address network s =
        or_throw (orm.find_one (at address network) s.users) type_error >>= λ user.
        let tokens =
          orm.find_all (λ (t : Token Num). network_eq t.network_id user.network_id) s.tokens in
        get_reserves_list user.network_id s >>= λ reserves.
        get_pool_address user.network_id s >>= λ pool.
        get_user_configuration user.address pool user.network_id s >>= λ configuration.
        collect_requests tokens reserves 0 (slots (binary configuration)) >>= λ requests.
        enter_all user.address user.network_id s requests (record { collateral = []; debt = [] })
