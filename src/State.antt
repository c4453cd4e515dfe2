-- ===== src/State.antt =====
-- What the program keeps: the tables of src/database, the jobs of the worker queue, the clock, and
-- the chain behind its contracts. A call changes the state and returns a value or throws.
pub mod Monad
pub mod Preserves
use liquidator.Base.{ℕ, String, Bool, true, false, Option, List}
use liquidator.Base.Int.{ℤ}
use liquidator.Config.{Network}

-- `UserAccountDto`; the health factor is in hundredths.
pub record UserAccount (Num : Type 0) : Type 0 where
  pub id : String
  pub address : String
  pub total_collateral_eth : Num
  pub total_debt_eth : Num
  pub available_borrows_eth : Num
  pub current_liquidation_threshold : Num
  pub ltv : Num
  pub health_factor : ℤ
  pub network_id : Network

-- `IUserAccountData`, as the lending pool returns it: the health factor has 18 decimals.
pub record UserAccountData (Num : Type 0) : Type 0 where
  pub total_collateral_eth : Num
  pub total_debt_eth : Num
  pub available_borrows_eth : Num
  pub current_liquidation_threshold : Num
  pub ltv : Num
  pub health_factor : ℕ

-- `LiquidateModelStatus`
pub data Status : Type 0 where
  liquidated processing pending deferred cancelled error : Status

-- `LiquidateDto`, with the time of its last update.
pub record Liquidation (Num : Type 0) : Type 0 where
  pub id : ℕ
  pub user_id : String
  pub status : Status
  pub estimated_profit_eth : Num
  pub fact_profit_eth : Option Num
  pub to_update_date : Option ℕ
  pub updated_at : ℕ

-- `TokenDto`
pub record Token (Num : Type 0) : Type 0 where
  pub token_address : String
  pub symbol : String
  pub decimals : ℕ
  pub ltv : Num
  pub liquidation_threshold : Num
  pub liquidation_bonus : Num
  pub reserve_factor : Num
  pub usage_as_collateral_enabled : Bool
  pub borrowing_enabled : Bool
  pub stable_borrow_rate_enabled : Bool
  pub is_active : Bool
  pub is_frozen : Bool
  pub network_id : Network
  pub a_token_address : String
  pub stable_debt_token_address : String
  pub variable_debt_token_address : String
  pub balance : Num

-- `NetworkDto`, the fields that the backend reads; `balance` is of its account.
pub record NetworkRow (Num : Type 0) : Type 0 where
  pub id : Network
  pub balance : Num
  pub is_active : Bool

-- `ListenerDto`, of the one contract that is listened to, the lending pool.
pub record ListenerRow : Type 0 where
  pub contract_address : String
  pub network_id : Network
  pub last_block : Option ℕ

-- A job of the worker's two tasks.
pub data Job : Type 0 where
  update_liquidation_data : String → Network → ℕ → Job
  liquidate : String → Job

-- `next_id` is the table's counter for `AutoIncrement`, `uuids` the supply of `uuidv4`.
pub record App (Num World : Type 0) : Type 0 where
  pub users : List (UserAccount Num)
  pub liquidations : List (Liquidation Num)
  pub tokens : List (Token Num)
  pub jobs : List Job
  pub networks : List (NetworkRow Num)
  pub listeners : List ListenerRow
  pub next_id : ℕ
  pub uuids : ℕ → String
  pub now : ℕ
  pub world : World
