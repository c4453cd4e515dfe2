-- ===== src/Reads.antt =====
-- The reads of the contracts that remember what they read: `getPriceOracleAddress` of
-- src/contract/utils/lp-address-provider.ts, `getAssetPrice` of price-oracle.ts, which starts with it,
-- and `getReservesList` of lp.ts. The objects that they remember in are the state.
pub mod Flaws
pub mod Tests
use liquidator.Base.{String, Bool, true, false, Option, none, some, List, [], ◌∷◌, if◌then◌else◌}
use liquidator.Base.Results.{Result, ok, err}
use liquidator.Config.{Network, network_eq}
use liquidator.State.Monad.{Action, read, gets, ◌>>=◌, ◌>>◌}

-- `priceOracleAddress`, which has the promises of the addresses, and `reservesList`. The entry that
-- was written last comes first.
pub record Remembered : Type 0 where
  pub oracles : List (Network × Result String)
  pub reserves : List (Network × List String)

-- A listener, its contract and its network.
pub record Pool : Type 0 where
  pub contract_address : String
  pub network_id : Network

-- What the node and the contracts answer at the time of a call.
pub record Answers (Num : Type 0) : Type 0 where
  pub get_web3 : Network → Result (Unit {0})
  pub get_price_oracle : Network → Result String
  pub get_price : String → String → Network → Result Num
  pub get_reserves : Pool → Result (List String)

-- `object[network]`
unfoldable pub remembered : {A : Type 0} → Network → List (Network × A) → Option A
remembered network [] = none
remembered network ((n, a) ∷ rest) =
    let later = remembered network rest in if network_eq n network then some a else later

module _ {Num : Type 0} (answers : Answers Num) where
  open answers use {get_web3, get_price_oracle, get_price, get_reserves}

  -- The promise is stored before it is known how it ends.
  unfoldable pub ask_oracle : Network → Action Remembered String
  ask_oracle network c = (
    get_price_oracle network,
    record c { oracles = (network, get_price_oracle network) ∷ c.oracles },
  )

  -- `getPriceOracleAddress`
  unfoldable pub get_price_oracle_address : Network → Action Remembered String
  get_price_oracle_address network c = elim (remembered network c.oracles) [
    | some promise ↦ (promise, c)
    | none ↦ (read (λ d. get_web3 network) >>= λ web3. ask_oracle network) c
  ]

  -- `getAssetPrice`
  unfoldable pub get_asset_price : String → Network → Action Remembered Num
  get_asset_price asset_address network = get_price_oracle_address network >>= λ contract_address.
      read (λ d. get_web3 network) >>= λ web3.
      read (λ d. get_price contract_address asset_address network)

  -- The loop of `getReservesList` over the listeners.
  unfoldable pub fill_reserves : List Pool → Action Remembered (Unit {0})
  fill_reserves [] c = (ok tt, c)
  fill_reserves (l ∷ rest) c = elim (get_reserves l) [
    | err e ↦ (err e, c)
    | ok list ↦ fill_reserves rest (record c { reserves = (l.network_id, list) ∷ c.reserves })
  ]

  -- `getReservesList`, with the rows of the listeners.
  unfoldable pub get_reserves_list : List Pool → Action Remembered (List (Network × List String))
  get_reserves_list listeners c = elim (c.reserves) [
    | [] ↦ (fill_reserves listeners >> gets (λ d. d.reserves)) c
    | r ∷ rest ↦ (ok c.reserves, c)
  ]

-- A call of one of the three functions.
pub data Call : Type 0 where
  oracle_address : Network → Call
  asset_price : String → Network → Call
  reserves_list : List Pool → Call

-- Calls one after the other, each with what is answered at its time: what is remembered after them.
unfoldable pub after_calls : {Num : Type 0} → List (Answers Num × Call) → Remembered → Remembered
after_calls [] c = c
after_calls ((answers, oracle_address network) ∷ rest) c =
    after_calls rest (get_price_oracle_address answers network c).1
after_calls ((answers, asset_price asset network) ∷ rest) c =
    after_calls rest (get_asset_price answers asset network c).1
after_calls ((answers, reserves_list listeners) ∷ rest) c =
    after_calls rest (get_reserves_list answers listeners c).1
