-- ===== src/Reads/Tests.antt =====
-- A node that fails at first and answers later.
use liquidator.Base.{ℕ, ◌≡◌, refl, List, [], ◌∷◌, ◌++◌, str_eq, if◌then◌else◌}
use liquidator.Base.Results.{ok, err, external}
use liquidator.Config.{eth, bsc}
use liquidator.Reads.{
  Remembered, Pool, Answers, get_price_oracle_address, get_asset_price, get_reserves_list,
  remembered, Call, oracle_address, asset_price, reserves_list, after_calls,
}
use liquidator.Reads.Flaws.{entered, failed_oracle_stays, partial_list_stays}

abbrev healthy : Answers ℕ
healthy = record {
  get_web3 = λ network. ok tt;
  get_price_oracle = λ network. ok "0xo";
  get_price = λ oracle asset network. ok 3;
  get_reserves = λ pool. ok ("0xd" ∷ []);
}

-- The oracle does not answer, and one of the pools does not.
abbrev failing : Answers ℕ
failing = record healthy {
  get_price_oracle = λ network. err external;
  get_reserves =
      λ pool. if str_eq pool.contract_address "0xb" then err external else ok ("0xd" ∷ []);
}

abbrev nothing : Remembered
nothing = record { oracles = []; reserves = [] }

abbrev later_calls : List (Answers ℕ × Call)
later_calls =
    (healthy, asset_price "0xd" bsc)
    ∷ (healthy, oracle_address eth)
    ∷ (healthy, reserves_list [])
    ∷ []

failed_oracle_stays_example :
    (get_asset_price healthy "0xd" bsc
      (after_calls later_calls (get_price_oracle_address failing bsc nothing).1)).0
    ≡ err external
unfolding remembered
failed_oracle_stays_example =
    failed_oracle_stays failing healthy bsc "0xd" external nothing later_calls refl refl refl

abbrev eth_pool : Pool
eth_pool = record { contract_address = "0xa"; network_id = eth }

abbrev bsc_pool : Pool
bsc_pool = record { contract_address = "0xb"; network_id = bsc }

partial_list_stays_example :
    let now = get_reserves_list failing ((eth_pool ∷ []) ++ (bsc_pool ∷ [])) nothing in
    (now.0 ≡ err external)
    × ((get_reserves_list healthy (eth_pool ∷ bsc_pool ∷ []) (after_calls later_calls now.1)).0
        ≡ ok ((eth, "0xd" ∷ []) ∷ []))
unfolding entered
partial_list_stays_example =
    partial_list_stays failing healthy (eth_pool ∷ []) [] (eth_pool ∷ bsc_pool ∷ []) bsc_pool
      external [] (eth, "0xd" ∷ []) [] later_calls refl refl
