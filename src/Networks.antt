-- ===== src/Networks.antt =====
-- src/database/Network.ts: `initNetworks`, which writes the networks at the start of the backend, and
-- `getNetworks`.
pub mod Rows
pub mod Init
pub mod Keeps
pub mod Unread
pub mod Tests
use liquidator.Base.{
  String, Bool, true, false, not, Option, none, some, List, [], ◌∷◌, ◌++◌, str_eq, if◌then◌else◌,
}
use liquidator.Base.Results.{Result, ok, err}
use liquidator.BigNumber.{BigNumber}
use liquidator.Config.{Network, eth, bsc, avax, kovan, gnosis, network_eq}
use liquidator.Orm.{Orm}
use liquidator.State.{App, NetworkRow}

-- `CreateNetwork`, the fields that matter to the state.
pub record Seed (Num : Type 0) : Type 0 where
  pub id : Network
  pub provider : String
  pub balance : Num

-- `String(process.env.…)`
unfoldable pub env_text : Option String → String
env_text none = "undefined"
env_text (some value) = value

-- What the package web3 and the node answer: a client for a provider, and the balance of the account,
-- which is no value after an error.
pub record NetworkReads (Num World : Type 0) : Type 0 where
  pub new_web3 : String → Result (Unit {0})
  pub get_balance : String → App Num World → Option Num

module _ (bn : BigNumber) where
  open bn use {Num, num}

  unfoldable pub seed_of : (Network → Option String) → Network → Seed Num
  seed_of env network = record {
    id = network;
    provider = env_text (env network);
    balance = num 0 0;
  }

  -- `seeds`, with the providers of the environment.
  unfoldable pub seeds : (Network → Option String) → List (Seed Num)
  seeds env =
      seed_of env kovan
      ∷ seed_of env eth
      ∷ seed_of env bsc
      ∷ seed_of env avax
      ∷ seed_of env gnosis
      ∷ []

-- The row of a network that cannot be reached.
abbrev pub inactive : {Num : Type 0} → Seed Num → NetworkRow Num
inactive n = record { id = n.id; balance = n.balance; is_active = false }

module _ (orm : Orm) {Num World : Type 0} where
  open orm use {find_all, upsert}

  -- `upsert`, and `bulkCreate` of one row with `updateOnDuplicate`.
  unfoldable pub put_network : NetworkRow Num → App Num World → App Num World
  put_network row s = record s {
    networks = upsert (λ (n : NetworkRow Num). network_eq n.id row.id) row s.networks;
  }

  -- `bulkCreate`
  unfoldable pub put_networks : List (NetworkRow Num) → App Num World → App Num World
  put_networks [] s = s
  put_networks (row ∷ rows) s = put_networks rows (put_network row s)

  unfoldable pub get_networks : App Num World → List (NetworkRow Num)
  get_networks s = find_all (λ (n : NetworkRow Num). n.is_active) s.networks

  module _ (reads : NetworkReads Num World) where
    open reads use {new_web3, get_balance}

    -- The row of a network whose balance was read.
    unfoldable pub valid_row : Seed Num → App Num World → List (NetworkRow Num)
    valid_row n s = elim (get_balance n.provider s) [
      | none ↦ []
      | some balance ↦ record { id = n.id; balance = balance; is_active = true } ∷ []
    ]

    -- The first loop, and the rows that are left of its promises.
    unfoldable pub check_seeds :
        List (Seed Num) → App Num World → List (NetworkRow Num) × App Num World
    check_seeds [] s = ([], s)
    check_seeds (n ∷ rest) s =
        if not (str_eq n.provider "")
        then elim (new_web3 n.provider) [
          | err e ↦ check_seeds rest (put_network (inactive n) s)
          | ok _ ↦ let (rows, t) = check_seeds rest s in (valid_row n s ++ rows, t)
        ]
        else check_seeds rest (put_network (inactive n) s)

    -- `initNetworks`
    unfoldable pub init_networks : List (Seed Num) → App Num World → App Num World
    init_networks all s = let (rows, t) = check_seeds all s in put_networks rows t
